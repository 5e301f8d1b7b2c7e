-- ===== src/Base/Dict.antt =====
-- Python's dict with str keys: the entries in insertion order, where a write to a present key keeps
-- its place.
use coppermind.Base.Tests.{if◌then◌else◌, Bool-cases}
use mathlib.Core.Logic.{inl, inr}
use coppermind.Base.Texts.{Text, eqb, eqb_iff, eqb-false_sym}
use mathlib.Core.Path.{◌≡◌, refl, ◌∙◌}
use mathlib.Core.Bool.{Bool, false, ◌||◌}
use mathlib.Core.Option.{Option, none, some}
use mathlib.Core.List.{List, [], ◌∷◌}
use native.Mathlib.Omega.{arith}

abbrev pub Dict {ℓ} : Type ℓ → Type ℓ
Dict V = List (Text × V)

module _ {ℓ} {V : Type ℓ} where
  unfoldable pub lookup : Text → Dict V → Option V
  lookup k [] = none
  lookup k ((j, v) ∷ d) = if eqb j k then some v else lookup k d

  unfoldable pub insert : Text → V → Dict V → Dict V
  insert k v [] = (k, v) ∷ []
  insert k v ((j, w) ∷ d) = if eqb j k then (j, v) ∷ d else (j, w) ∷ insert k v d

  unfoldable pub remove : Text → Dict V → Dict V
  remove k [] = []
  remove k ((j, w) ∷ d) = let rest = remove k d in if eqb j k then rest else (j, w) ∷ rest

  unfoldable pub has_key : Text → Dict V → Bool
  has_key k [] = false
  has_key k ((j, v) ∷ d) = eqb j k || has_key k d

  pub lookup-insert :
      (k j : Text) (v : V) (d : Dict V)
      → lookup j (insert k v d) ≡ (if eqb k j then some v else lookup j d)
  unfolding lookup insert
  lookup-insert k j v [] = refl
  lookup-insert k j v ((i, w) ∷ d) =
      ground (arith, eqb_iff k j, eqb_iff i k, eqb_iff i j, lookup-insert k j v d)

  pub lookup-remove :
      (k j : Text) (d : Dict V) → lookup j (remove k d) ≡ (if eqb k j then none else lookup j d)
  unfolding lookup remove
  lookup-remove k j [] = ground arith
  lookup-remove k j ((i, w) ∷ d) =
      ground (arith, eqb_iff k j, eqb_iff i k, eqb_iff i j, lookup-remove k j d)

  pub lookup-has_key : (k : Text) (d : Dict V) → has_key k d ≡ false → lookup k d ≡ none
  unfolding lookup has_key
  lookup-has_key k [] h = refl
  lookup-has_key k ((j, v) ∷ d) h = ground (arith, lookup-has_key k d)

  pub has_key_of_lookup : (k : Text) (d : Dict V) → lookup k d ≡ none → has_key k d ≡ false
  unfolding lookup has_key
  has_key_of_lookup k [] h = refl
  has_key_of_lookup k ((j, v) ∷ d) h = ground (arith, has_key_of_lookup k d)

  -- No key stands twice, as in every dict.
  abbrev pub IsDict : Dict V → Type 0
  IsDict [] = Unit
  IsDict ((j, v) ∷ d) = (has_key j d ≡ false) × IsDict d

  has_key-insert_ne :
      (k j : Text) (v : V) (d : Dict V) → eqb k j ≡ false → has_key j (insert k v d) ≡ has_key j d
  unfolding has_key insert
  has_key-insert_ne k j v [] h = rw h refl
  has_key-insert_ne k j v ((i, w) ∷ d) h = ground (arith, eqb_iff i k, has_key-insert_ne k j v d h)

  pub insert-IsDict : (k : Text) (v : V) (d : Dict V) → IsDict d → IsDict (insert k v d)
  unfolding insert
  insert-IsDict k v [] h = (unfold has_key in refl, tt)
  insert-IsDict k v ((j, w) ∷ d) (fresh, h) = elim (Bool-cases (eqb j k)) [
    | inl e ↦ rw e (fresh, h)
    | inr e ↦ rw e (has_key-insert_ne k j v d (eqb-false_sym j k e) ∙ fresh, insert-IsDict k v d h)
  ]

  has_key-remove : (k j : Text) (d : Dict V) → has_key j d ≡ false → has_key j (remove k d) ≡ false
  unfolding has_key remove
  has_key-remove k j [] h = refl
  has_key-remove k j ((i, w) ∷ d) h = ground (arith, has_key-remove k j d)

  pub remove-IsDict : (k : Text) (d : Dict V) → IsDict d → IsDict (remove k d)
  unfolding remove
  remove-IsDict k [] h = tt
  remove-IsDict k ((j, w) ∷ d) (fresh, h) = elim (Bool-cases (eqb j k)) [
    | inl e ↦ rw e (remove-IsDict k d h)
    | inr e ↦ rw e (has_key-remove k j d fresh, remove-IsDict k d h)
  ]
