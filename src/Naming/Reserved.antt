-- ===== src/Naming/Reserved.antt =====
-- Which names the guard of coppermind/naming.py against Windows device names makes safe.
use coppermind.Base.{
  ℕ, ◌≡◌, refl, ap, ◌∙◌, inl, inr, Bool, true, false, ◌&&◌, ◌||◌, List, [], ◌∷◌, ◌++◌, any, All,
  Bool-cases, arith,
}
use coppermind.Base.Texts.{Text, codes, eqb, eqb_iff, elem}
use coppermind.Naming.{Unicode, Laws, reserved, before_dot, is_reserved, guard_reserved}

any_sound {κ} :
    (P : Text → Type κ) (x : Text) (l : List Text) → any (eqb x) l ≡ true → All P l → P x
any_sound P x [] e h = cc
any_sound P x (y ∷ l) e (p, h) = elim (Bool-cases (eqb x y)) [
  | inl f ↦ rw ((eqb_iff x y).0 f) p
  | inr f ↦ any_sound P x l (rw f at e) h
]

any_absent :
    (p : Text → Bool) (x : Text) (l : List Text)
    → p x ≡ true
    → All (λ y. p y ≡ false) l
    → any (eqb x) l ≡ false
any_absent p x l e h = elim (Bool-cases (any (eqb x) l)) [
  | inr f ↦ f
  | inl f ↦ cc (any_sound (λ y. p y ≡ false) x l f h, e)
]

All-not : (p : Text → Bool) (l : List Text) → any p l ≡ false → All (λ y. p y ≡ false) l
All-not p [] h = tt
All-not p (y ∷ l) h = (ground arith, All-not p l (ground arith))

-- No device name holds a dot or a space.
reserved_dotless : All (λ y. elem b'.' y ≡ false) reserved
reserved_dotless = All-not (elem b'.') reserved refl

reserved_spaceless : All (λ y. elem 32 y ≡ false) reserved
reserved_spaceless = All-not (elem 32) reserved refl

before_dot-append_found : (s t : Text) → elem b'.' s ≡ true → before_dot (s ++ t) ≡ before_dot s
unfolding before_dot
before_dot-append_found [] t h = cc
before_dot-append_found (c ∷ s) t h = ground (arith, before_dot-append_found s t)

before_dot-append_none :
    (s t : Text) → elem b'.' s ≡ false → before_dot (s ++ t) ≡ s ++ before_dot t
unfolding before_dot
before_dot-append_none [] t h = refl
before_dot-append_none (c ∷ s) t h = ground (arith, before_dot-append_none s t)

elem-append_right : (c : ℕ) (s t : Text) → elem c t ≡ true → elem c (s ++ t) ≡ true
elem-append_right c [] t h = h
elem-append_right c (d ∷ s) t h = ground (arith, elem-append_right c s t)

or_true : (b : Bool) → (b || true) ≡ true
or_true b = ground arith

module _ (u : Unicode) (laws : Laws u) where
  open u use {upper}

  -- str.upper of a stem with the suffix that the guard adds.
  upper_guarded : (s : Text) → upper (s ++ codes " (name)") ≡ upper s ++ 32 ∷ upper (codes "(name)")
  upper_guarded s =
      laws.upper-append s (codes " (name)")
      ∙ ap (λ t. upper s ++ t)
          (laws.upper-append (32 ∷ []) (codes "(name)")
            ∙ ap (λ t. t ++ upper (codes "(name)")) (laws.upper_same 32 refl))

  spaced_free : (s t : Text) → any (eqb (s ++ 32 ∷ t)) reserved ≡ false
  spaced_free s t =
      any_absent (elem 32) (s ++ 32 ∷ t) reserved (elem-append_right 32 s (32 ∷ t) refl)
        reserved_spaceless

  guarded_dotless :
      (s : Text) → elem b'.' (upper s) ≡ false → is_reserved u (s ++ codes " (name)") ≡ false
  unfolding is_reserved before_dot
  guarded_dotless s e =
      let name = upper (codes "(name)") in
      rw
        (
          upper_guarded s,
          spaced_free (upper s) name,
          before_dot-append_none (upper s) (32 ∷ name) e,
        )
        (spaced_free (upper s) (before_dot name))

  guarded_dotted :
      (s : Text)
      → elem b'.' (upper s) ≡ true
      → is_reserved u s ≡ true
      → is_reserved u (s ++ codes " (name)") ≡ true
  unfolding is_reserved
  guarded_dotted s e r =
      let name = upper (codes "(name)") in
      let first : any (eqb (before_dot (upper s))) reserved ≡ true =
        ground (arith, any_absent (elem b'.') (upper s) reserved e reserved_dotless) in
      rw (upper_guarded s, before_dot-append_found (upper s) (32 ∷ name) e, first)
        (or_true (any (eqb (upper s ++ 32 ∷ name)) reserved))

  -- The guard makes a device name safe by its own test exactly when the name has no extension: a
  -- stem is still a device name behind the guard if and only if it was one before and its upper case
  -- holds a dot.
  pub is_reserved-guard_reserved :
      (s : Text) → is_reserved u (guard_reserved u s) ≡ (is_reserved u s && elem b'.' (upper s))
  unfolding guard_reserved
  is_reserved-guard_reserved s = elim (Bool-cases (is_reserved u s)) [
    | inr r ↦ rw (r, guard_reserved) r
    | inl r ↦ elim (Bool-cases (elem b'.' (upper s))) [
      | inl e ↦ rw (r, e) (guarded_dotted s e r)
      | inr e ↦ rw (r, e) (guarded_dotless s e)
    ]
  ]
