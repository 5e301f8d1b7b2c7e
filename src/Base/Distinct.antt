-- ===== src/Base/Distinct.antt =====
-- Lists that Python code keeps free of repeats by a membership test before each append.
use coppermind.Base.Tests.{if◌then◌else◌, Bool-cases}
use coppermind.Base.Lists.{any, All}
use mathlib.Core.Path.{◌≡◌, refl, sym, ◌∙◌, ap}
use mathlib.Core.Logic.{inl, inr}
use mathlib.Core.Bool.{Bool, true, false, ◌||◌}
use mathlib.Core.List.{List, [], ◌∷◌, ◌++◌, append_assoc, append-nil}
use native.Mathlib.Omega.{arith}

module _ {ℓ} {A : Type ℓ} (same : A → A → Bool) where
  -- x in l
  abbrev pub member : A → List A → Bool
  member x l = any (same x) l

  -- if x not in l: l.append(x)
  unfoldable pub add_new : A → List A → List A
  add_new x l = if member x l then l else l ++ x ∷ []

  -- The loop that adds each element in turn.
  unfoldable pub add_all : List A → List A → List A
  unfolding add_new
  add_all l [] = l
  add_all l (x ∷ xs) = add_all (add_new x l) xs

  abbrev pub Distinct : List A → Type 0
  Distinct [] = Unit
  Distinct (x ∷ xs) = (member x xs ≡ false) × Distinct xs

  pub member-append : (x : A) (l m : List A) → member x (l ++ m) ≡ member x l || member x m
  member-append x [] m = refl
  member-append x (y ∷ l) m = ground (arith, member-append x l m)

  pub All-add_new : (P : A → Type 0) (x : A) (l : List A) → P x → All P l → All P (add_new x l)
  unfolding add_new
  All-add_new P x l p h = elim (Bool-cases (member x l)) [
    | inl e ↦ rw e h
    | inr e ↦ rw e (end_all l h)
  ]
    where
      end_all : (m : List A) → All P m → All P (m ++ x ∷ [])
      end_all [] k = (p, tt)
      end_all (y ∷ m) (q, k) = (q, end_all m k)

  pub All-add_all : (P : A → Type 0) (xs l : List A) → All P xs → All P l → All P (add_all l xs)
  unfolding add_all
  All-add_all P [] l h k = k
  All-add_all P (x ∷ xs) l (p, h) k = All-add_all P xs (add_new x l) h (All-add_new P x l p k)

  module _ (symmetric : (x y : A) → same x y ≡ same y x) where
    Distinct-end : (x : A) (l : List A) → member x l ≡ false → Distinct l → Distinct (l ++ x ∷ [])
    Distinct-end x [] e d = (refl, tt)
    Distinct-end x (y ∷ l) e (f, d) = (
      ground (arith, member-append y l (x ∷ []), symmetric x y),
      Distinct-end x l (ground arith) d,
    )

    pub Distinct-add_new : (x : A) (l : List A) → Distinct l → Distinct (add_new x l)
    unfolding add_new
    Distinct-add_new x l d = elim (Bool-cases (member x l)) [
      | inl e ↦ rw e d
      | inr e ↦ rw e (Distinct-end x l e d)
    ]

    pub Distinct-add_all : (l xs : List A) → Distinct l → Distinct (add_all l xs)
    unfolding add_all
    Distinct-add_all l [] d = d
    Distinct-add_all l (x ∷ xs) d = Distinct-add_all (add_new x l) xs (Distinct-add_new x l d)

    absent : (x : A) (l xs : List A) → Distinct (l ++ x ∷ xs) → member x l ≡ false
    absent x [] xs d = refl
    absent x (y ∷ l) xs (f, d) =
        ground (arith, absent x l xs d, member-append y l (x ∷ xs), symmetric x y)

    add_new_fresh : (x : A) (l : List A) → member x l ≡ false → add_new x l ≡ l ++ x ∷ []
    unfolding add_new
    add_new_fresh x l e = rw e refl

    -- A list without repeats is what the loop makes of it.
    pub add_all_fixed : (l xs : List A) → Distinct (l ++ xs) → add_all l xs ≡ l ++ xs
    unfolding add_all
    add_all_fixed l [] d = sym (append-nil l)
    add_all_fixed l (x ∷ xs) d = rw (add_new_fresh x l (absent x l xs d)) (
        add_all_fixed (l ++ x ∷ []) xs (rw (append_assoc l (x ∷ []) xs) d)
        ∙ append_assoc l (x ∷ []) xs)

  module _ (sound : (x y : A) → same x y ≡ true → x ≡ y) where
    member-add_new : (y x : A) (l : List A) → member y (add_new x l) ≡ member y l || same y x
    unfolding add_new
    member-add_new y x l = elim (Bool-cases (member x l)) [
      | inr e ↦ rw (e, member-append y l (x ∷ [])) (ground arith)
      | inl e ↦ rw e (elim (Bool-cases (same y x)) [
        | inr f ↦ rw f (ground arith)
        | inl f ↦ rw (sound y x f, e) refl
      ])
    ]

    pub member-add_all :
        (y : A) (l xs : List A) → member y (add_all l xs) ≡ member y l || member y xs
    unfolding add_all
    member-add_all y l [] = ground arith
    member-add_all y l (x ∷ xs) =
        ground (arith, member-add_all y (add_new x l) xs, member-add_new y x l)

module _ {ℓ} {A : Type ℓ} (same : A → A → Bool) where
  add_new_extends : (x : A) (l : List A) → (rest : List A) × (add_new same x l ≡ l ++ rest)
  unfolding add_new
  add_new_extends x l = elim (Bool-cases (member same x l)) [
    | inl e ↦ rw e ([], sym (append-nil l))
    | inr e ↦ rw e (x ∷ [], refl)
  ]

  -- What the loop adds stands behind what was there.
  pub add_all_extends : (l xs : List A) → (rest : List A) × (add_all same l xs ≡ l ++ rest)
  unfolding add_all
  add_all_extends l [] = ([], sym (append-nil l))
  add_all_extends l (x ∷ xs) =
      let (first, e) = add_new_extends x l in
      let (rest, f) = add_all_extends (add_new same x l) xs in
      (first ++ rest, f ∙ ap (λ m. m ++ rest) e ∙ append_assoc l first rest)
