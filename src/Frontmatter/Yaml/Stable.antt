-- ===== src/Frontmatter/Yaml/Stable.antt =====
-- Which values and which indentations coppermind/frontmatter.py hands to the YAML library: what
-- `_yaml_scalar` makes of a stable value is stable, and `_indent_like` names no width that a dump
-- cannot express.
use coppermind.Base.{
  ℕ, ◌≡◌, refl, inl, inr, not, ◌&&◌, ◌||◌, Option, none, some, [], ◌∷◌, ltb, leb, ◌-◌, Bool-cases,
  Option-cases, All, arith,
}
use coppermind.Base.Texts.{Text, codes, eqb, strip, is_space}
use coppermind.Base.Dict.{Dict, insert, remove}
use coppermind.Frontmatter.Yaml.{
  Yaml, Laws, Style, house_style, IsExpressible, AllStable, Moment, indent_like, yaml_scalar,
  yaml_mapping, get_or, scalar_str, local_datetime,
}

pub house_style-IsExpressible : IsExpressible house_style
unfolding house_style
house_style-IsExpressible = record { nests = omega arith; lists = omega arith }

-- The guards of `_indent_like` let through only what a dump can express.
pub indent_like-IsExpressible :
    (st : Style) (indent offset : Option ℕ)
    → IsExpressible st
    → IsExpressible (indent_like st indent offset)
unfolding indent_like
indent_like-IsExpressible st none offset e = e
indent_like-IsExpressible st (some i) none e = elim (Bool-cases (ltb i 2)) [
  | inl f ↦ rw f e
  | inr f ↦ rw f (record { nests = ground arith; lists = e.lists })
]
indent_like-IsExpressible st (some i) (some o) e = elim (Bool-cases (ltb i 2)) [
  | inl f ↦ rw f e
  | inr f ↦ elim (Bool-cases (leb 0 o && leb o (i - 2))) [
    | inl g ↦ rw (f, g) (record { nests = e.nests; lists = ground arith })
    | inr g ↦ rw (f, g) e
  ]
]

-- What holds of all entries of a dict holds behind a write, and behind a removal.
module _ {V : Type 0} (P : Text × V → Type 0) where
  pub All-insert :
      (k : Text) (v : V) (d : Dict V) → ((j : Text) → P (j, v)) → All P d → All P (insert k v d)
  unfolding insert
  All-insert k v [] p h = (p k, tt)
  All-insert k v ((j, w) ∷ d) p (q, h) = elim (Bool-cases (eqb j k)) [
    | inl e ↦ rw e (p j, h)
    | inr e ↦ rw e (q, All-insert k v d p h)
  ]

  pub All-remove : (k : Text) (d : Dict V) → All P d → All P (remove k d)
  unfolding remove
  All-remove k [] h = tt
  All-remove k ((j, w) ∷ d) (q, h) = elim (Bool-cases (eqb j k)) [
    | inl e ↦ rw e (All-remove k d h)
    | inr e ↦ rw e (q, All-remove k d h)
  ]

module _ (y : Yaml) (laws : Laws y) where
  open y use {Value, IsStable, is_timestamp, naive_datetime, as_str, timestamp}

  get_or-IsStable :
      (m : Moment) (o : Option Value) (v : Value)
      → timestamp m ≡ o
      → IsStable v
      → IsStable (get_or y o v)
  get_or-IsStable m none v e h = h
  get_or-IsStable m (some w) v e h = laws.timestamp_stable m w e

  scalar_str-IsStable : (v : Value) (s : Option Text) → IsStable v → IsStable (scalar_str y v s)
  unfolding scalar_str
  scalar_str-IsStable v none h = h
  scalar_str-IsStable v (some s) h = read_moment (local_datetime y (strip is_space s))
    where
      read_moment :
          (o : Option Moment) → IsStable (elim o [ none ↦ v | some m ↦ get_or y (timestamp m) v ])
      read_moment none = h
      read_moment (some m) = get_or-IsStable m (timestamp m) v refl h

  pub yaml_scalar-IsStable : (k : Text) (v : Value) → IsStable v → IsStable (yaml_scalar y k v)
  unfolding yaml_scalar
  yaml_scalar-IsStable k v h =
      elim (Bool-cases (not (eqb k (codes "date") || eqb k (codes "time")) || is_timestamp v)) [
        | inl e ↦ rw e h
        | inr e ↦ elim (Option-cases (naive_datetime v)) [
          | inl f ↦ rw (e, f) (scalar_str-IsStable v (as_str v) h)
          | inr (m, f) ↦ rw (e, f) (get_or-IsStable m (timestamp m) v refl h)
        ]
      ]

  pub yaml_mapping-AllStable : (m : Dict Value) → AllStable y m → AllStable y (yaml_mapping y m)
  unfolding yaml_mapping
  yaml_mapping-AllStable [] h = tt
  yaml_mapping-AllStable ((k, v) ∷ m) (p, h) =
      (yaml_scalar-IsStable k v p, yaml_mapping-AllStable m h)
