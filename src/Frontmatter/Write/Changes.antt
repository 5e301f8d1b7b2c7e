-- ===== src/Frontmatter/Write/Changes.antt =====
-- The two loops of `_patched` in coppermind/frontmatter.py, key by key.
use coppermind.Base.{
  ◌≡◌, refl, ◌≢◌, ap, true, ◌∙◌, inl, inr, Bool, false, ◌||◌, none, some, List, [], ◌∷◌,
  if◌then◌else◌, Bool-cases, Option-cases, arith,
}
use coppermind.Base.Texts.{Text, eqb, eqb_iff}
use coppermind.Base.Dict.{
  Dict, IsDict, insert, remove, lookup, has_key, insert-IsDict, remove-IsDict, lookup-insert,
  lookup-remove, has_key_of_lookup,
}
use coppermind.Frontmatter.Yaml.{Yaml, Laws, yaml_scalar, yaml_mapping, AllStable}
use coppermind.Frontmatter.Yaml.Stable.{All-insert, All-remove, yaml_scalar-IsStable}
use coppermind.Frontmatter.Write.{apply_changes, pop_all, set_all}

-- `key in keys`
abbrev pub listed : Text → List Text → Bool
listed key [] = false
listed key (k ∷ ks) = eqb k key || listed key ks

module _ (y : Yaml) where
  open y use {Value, Comments, load, guess_indent}

  pop_all-IsDict : (unset : List Text) (m : Dict Value) → IsDict m → IsDict (pop_all y unset m)
  unfolding pop_all
  pop_all-IsDict [] m d = d
  pop_all-IsDict (k ∷ ks) m d = pop_all-IsDict ks (remove k m) (remove-IsDict k m d)

  set_all-IsDict : (changes m : Dict Value) → IsDict m → IsDict (set_all y changes m)
  unfolding set_all
  set_all-IsDict [] m d = d
  set_all-IsDict ((k, v) ∷ cs) m d =
      set_all-IsDict cs (insert k (yaml_scalar y k v) m) (insert-IsDict k (yaml_scalar y k v) m d)

  pub apply_changes-IsDict :
      (changes : Dict Value) (unset : List Text) (m : Dict Value)
      → IsDict m
      → IsDict (apply_changes y changes unset m)
  unfolding apply_changes
  apply_changes-IsDict changes unset m d =
      set_all-IsDict changes (pop_all y unset m) (pop_all-IsDict unset m d)

  lookup-pop_all :
      (key : Text) (unset : List Text) (m : Dict Value)
      → lookup key (pop_all y unset m) ≡ (if listed key unset then none else lookup key m)
  unfolding pop_all
  lookup-pop_all key [] m = refl
  lookup-pop_all key (k ∷ ks) m =
      ground (arith, lookup-pop_all key ks (remove k m), lookup-remove k key m)

  lookup-set_all_fresh :
      (key : Text) (changes m : Dict Value)
      → has_key key changes ≡ false
      → lookup key (set_all y changes m) ≡ lookup key m
  unfolding set_all has_key
  lookup-set_all_fresh key [] m h = refl
  lookup-set_all_fresh key ((k, v) ∷ cs) m h = ground (
    arith,
    lookup-set_all_fresh key cs (insert k (yaml_scalar y k v) m),
    lookup-insert k key (yaml_scalar y k v) m,
  )

  lookup-set_all :
      (key : Text) (changes m : Dict Value) (v : Value)
      → IsDict changes
      → lookup key changes ≡ some v
      → lookup key (set_all y changes m) ≡ some (yaml_scalar y key v)
  unfolding set_all lookup
  lookup-set_all key [] m v d h = cc
  lookup-set_all key ((k, w) ∷ cs) m v (fresh, d) h = elim (Bool-cases (eqb k key)) [
    | inl e ↦ ground (
      arith,
      eqb_iff k key,
      lookup-set_all_fresh key cs (insert k (yaml_scalar y k w) m),
      lookup-insert k key (yaml_scalar y k w) m,
    )
    | inr e ↦ lookup-set_all key cs (insert k (yaml_scalar y k w) m) v d (rw e at h)
  ]

  yaml_mapping-has_key : (k : Text) (m : Dict Value) → has_key k (yaml_mapping y m) ≡ has_key k m
  unfolding yaml_mapping has_key
  yaml_mapping-has_key k [] = refl
  yaml_mapping-has_key k ((j, v) ∷ m) = rw (yaml_mapping-has_key k m)

  pub yaml_mapping-IsDict : (m : Dict Value) → IsDict m → IsDict (yaml_mapping y m)
  unfolding yaml_mapping
  yaml_mapping-IsDict [] d = tt
  yaml_mapping-IsDict ((k, v) ∷ m) (fresh, d) =
      (yaml_mapping-has_key k m ∙ fresh, yaml_mapping-IsDict m d)

  pop_all-AllStable :
      (unset : List Text) (m : Dict Value) → AllStable y m → AllStable y (pop_all y unset m)
  unfolding pop_all
  pop_all-AllStable [] m h = h
  pop_all-AllStable (k ∷ ks) m h = pop_all-AllStable ks (remove k m) (All-remove _ k m h)

  set_all-AllStable :
      (laws : Laws y) (changes m : Dict Value)
      → AllStable y changes
      → AllStable y m
      → AllStable y (set_all y changes m)
  unfolding set_all
  set_all-AllStable laws [] m c h = h
  set_all-AllStable laws ((k, v) ∷ cs) m (p, c) h =
      set_all-AllStable laws cs (insert k (yaml_scalar y k v) m) c
        (All-insert _ k (yaml_scalar y k v) m (λ j. yaml_scalar-IsStable y laws k v p) h)

  pub apply_changes-AllStable :
      (laws : Laws y) (changes : Dict Value) (unset : List Text) (m : Dict Value)
      → AllStable y changes
      → AllStable y m
      → AllStable y (apply_changes y changes unset m)
  unfolding apply_changes
  apply_changes-AllStable laws changes unset m c h =
      set_all-AllStable laws changes (pop_all y unset m) c (pop_all-AllStable unset m h)

  -- What the two loops of a patch leave at each key: a changed key has its new value as
  -- `_yaml_scalar` writes it, also where it is unset; an unset key that is not changed is gone; every
  -- other key keeps its value.
  pub lookup-apply_changes :
      (changes : Dict Value) (unset : List Text) (m : Dict Value) (key : Text)
      → IsDict changes
      → lookup key (apply_changes y changes unset m) ≡ (elim (lookup key changes) [
        | some v ↦ some (yaml_scalar y key v)
        | none ↦ if listed key unset then none else lookup key m
      ])
  unfolding apply_changes
  lookup-apply_changes changes unset m key d = elim (Option-cases (lookup key changes)) [
    | inl e ↦ rw e (
        lookup-set_all_fresh key changes (pop_all y unset m) (has_key_of_lookup key changes e)
        ∙ lookup-pop_all key unset m)
    | inr (v, e) ↦ rw e (lookup-set_all key changes (pop_all y unset m) v d e)
  ]

  -- A changed key is there behind a patch.
  pub apply_changes-ne-nil :
      (k : Text) (changes m : Dict Value)
      → IsDict changes
      → has_key k changes ≡ true
      → apply_changes y changes [] m ≢ []
  unfolding apply_changes pop_all
  apply_changes-ne-nil k changes m d h e = elim (Option-cases (lookup k changes)) [
    | inl n ↦ cc (has_key_of_lookup k changes n, h)
    | inr (v, n) ↦
        let there : lookup k (apply_changes y changes [] m) ≡ some (yaml_scalar y k v) =
          lookup-set_all k changes m v d n in
        let nowhere : lookup k (apply_changes y changes [] m) ≡ none =
          ap (lookup k) e ∙ (unfold lookup in refl) in
        cc (there, nowhere)
  ]
