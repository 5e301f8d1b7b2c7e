-- ===== src/Naming/Clean.antt =====
-- What `sanitize_stem` of coppermind/naming.py returns is short, holds no forbidden character and has
-- a clean end.
use coppermind.Base.{
  ℕ, ◌≡◌, ◌≢◌, refl, inl, inr, Bool, true, false, ◌&&◌, ◌||◌, [], ◌∷◌, length, All, All-append, leb,
  Bool-cases, arith,
}
use coppermind.Base.Texts.{Text, codes, is_empty, is_space, lstrip, rstrip, strip}
use coppermind.Base.Strip.{Within, All-rstrip, All-strip}
use coppermind.Naming.{
  Unicode, is_forbidden, is_dot_space, blank_forbidden, collapse, collapse_from, clean_ends, fit,
  cut_chars, trim_bytes, guard_reserved, is_reserved, or_else, sanitize_stem,
}
use coppermind.Naming.Fit.{fit-Within, All-fit, All-trim_bytes, All-cut_chars}

-- A character that may stand in a name: not forbidden, and white space only if it is a space.
pub record IsPortable (c : ℕ) : Type 0 where
  pub allowed : is_forbidden c ≡ false
  pub spaces : is_space c ≡ true → c ≡ 32

-- The last character is neither a dot nor a space.
abbrev pub EndsClean : Text → Type 0
EndsClean [] = Unit
EndsClean (c ∷ []) = is_dot_space c ≡ false
EndsClean (c ∷ d ∷ s) = EndsClean (d ∷ s)

cons_clean :
    (c : ℕ) (s : Text) → (is_empty s && is_dot_space c) ≡ false → EndsClean s → EndsClean (c ∷ s)
cons_clean c [] e h = e
cons_clean c (d ∷ s) e h = h

rstrip-EndsClean : (s : Text) → EndsClean (rstrip is_dot_space s)
unfolding rstrip
rstrip-EndsClean [] = tt
rstrip-EndsClean (c ∷ s) = elim (Bool-cases (is_empty (rstrip is_dot_space s) && is_dot_space c)) [
  | inl e ↦ rw e tt
  | inr e ↦ rw e (cons_clean c (rstrip is_dot_space s) e (rstrip-EndsClean s))
]

tail_clean : (c : ℕ) (s : Text) → EndsClean (c ∷ s) → EndsClean s
tail_clean c [] h = tt
tail_clean c (d ∷ s) h = h

lstrip-EndsClean : (p : ℕ → Bool) (s : Text) → EndsClean s → EndsClean (lstrip p s)
unfolding lstrip
lstrip-EndsClean p [] h = tt
lstrip-EndsClean p (c ∷ s) h = elim (Bool-cases (p c)) [
  | inl e ↦ rw e (lstrip-EndsClean p s (tail_clean c s h))
  | inr e ↦ rw e h
]

-- Behind a clean end there is no white space left to strip.
rstrip_same : (s : Text) → All IsPortable s → EndsClean s → rstrip is_space s ≡ s
unfolding rstrip
rstrip_same [] a h = refl
rstrip_same (c ∷ []) (x, a) h = elim (Bool-cases (is_space c)) [
  | inl e ↦ let blank : c ≡ 32 = x.spaces e in ground arith
  | inr e ↦ rw e refl
]
rstrip_same (c ∷ d ∷ s) (x, a) h = rw (rstrip_same (d ∷ s) a h)

fit-EndsClean : (n b : ℕ) (s : Text) → All IsPortable s → EndsClean (fit n b s)
unfolding fit strip
fit-EndsClean n b s a = elim (Bool-cases (leb n 0 || leb b 0)) [
  | inl e ↦ rw e tt
  | inr e ↦
      let trimmed = trim_bytes (length (cut_chars n s)) b (cut_chars n s) in
      let portable =
        All-trim_bytes IsPortable (length (cut_chars n s)) b (cut_chars n s)
          (All-cut_chars IsPortable n s a) in
      rw
        (
          e,
          rstrip_same (rstrip is_dot_space trimmed)
              (All-rstrip IsPortable is_dot_space trimmed portable) (rstrip-EndsClean trimmed),
        )
        (lstrip-EndsClean is_space (rstrip is_dot_space trimmed) (rstrip-EndsClean trimmed))
]

blank_forbidden-allowed : (s : Text) → All (λ c. is_forbidden c ≡ false) (blank_forbidden s)
unfolding blank_forbidden
blank_forbidden-allowed [] = tt
blank_forbidden-allowed (c ∷ s) = elim (Bool-cases (is_forbidden c)) [
  | inl e ↦ rw e (refl, blank_forbidden-allowed s)
  | inr e ↦ rw e (e, blank_forbidden-allowed s)
]

space-IsPortable : IsPortable 32
unfolding is_forbidden
space-IsPortable = record { allowed = refl; spaces = λ e. refl }

collapse_from-IsPortable :
    (inside : Bool) (s : Text)
    → All (λ c. is_forbidden c ≡ false) s
    → All IsPortable (collapse_from inside s)
unfolding collapse_from
collapse_from-IsPortable inside [] h = tt
collapse_from-IsPortable inside (c ∷ s) (x, h) = elim (Bool-cases (is_space c)) [
  | inr e ↦ rw e (record { allowed = x; spaces = λ e'. cc }, collapse_from-IsPortable false s h)
  | inl e ↦ elim (Bool-cases inside) [
    | inl f ↦ rw (e, f) (collapse_from-IsPortable true s h)
    | inr f ↦ rw (e, f) (space-IsPortable, collapse_from-IsPortable true s h)
  ]
]

clean_ends-IsPortable : (s : Text) → All IsPortable (clean_ends s)
unfolding clean_ends collapse
clean_ends-IsPortable s = All-strip IsPortable is_space _ (
    All-strip IsPortable is_dot_space _ (
      All-strip IsPortable is_space _
        (collapse_from-IsPortable false (blank_forbidden s) (blank_forbidden-allowed s))))

visible : (c : ℕ) → is_forbidden c ≡ false → is_space c ≡ false → IsPortable c
visible c e f = record { allowed = e; spaces = λ g. cc }

name_suffix : All IsPortable (codes " (name)")
unfolding is_forbidden is_space
name_suffix = (
  space-IsPortable,
  (
    visible b'(' refl refl,
    (
      visible b'n' refl refl,
      (
        visible b'a' refl refl,
        (visible b'm' refl refl, (visible b'e' refl refl, (visible b')' refl refl, tt))),
      ),
    ),
  ),
)

-- A name that is not empty, of characters that are not forbidden and no white space but the space,
-- whose last character is neither a dot nor a space, within 120 characters and 252 bytes.
pub record IsName (s : Text) : Type 0 where
  pub filled : s ≢ []
  pub portable : All IsPortable s
  pub ends : EndsClean s
  pub short : Within 120 252 s

or_else-IsName :
    (s fallback : Text)
    → All IsPortable s
    → EndsClean s
    → Within 120 252 s
    → IsName fallback
    → IsName (or_else s fallback)
or_else-IsName [] fallback p e w f = f
or_else-IsName (c ∷ s) fallback p e w f = record {
  filled = λ n. cc;
  portable = p;
  ends = e;
  short = w;
}

module _ (u : Unicode) where
  open u use {nfc}

  guard_reserved-IsPortable : (s : Text) → All IsPortable s → All IsPortable (guard_reserved u s)
  unfolding guard_reserved
  guard_reserved-IsPortable s h = elim (Bool-cases (is_reserved u s)) [
    | inl e ↦ rw e (All-append IsPortable s (codes " (name)") h name_suffix)
    | inr e ↦ rw e h
  ]

  -- Whatever the value and whatever Unicode's tables say, what `sanitize_stem` returns is not empty,
  -- holds no forbidden character and no white space but the space, ends neither in a dot nor in a
  -- space, and keeps within 120 characters and 252 bytes, provided that its fallback does.
  pub sanitize_stem-IsName :
      (fallback value : Text) → IsName fallback → IsName (sanitize_stem u fallback value)
  unfolding sanitize_stem
  sanitize_stem-IsName fallback value f = elim (Bool-cases (is_empty (clean_ends (nfc value)))) [
    | inl e ↦ rw e f
    | inr e ↦
        let stem = guard_reserved u (clean_ends (nfc value)) in
        let portable =
          guard_reserved-IsPortable (clean_ends (nfc value)) (clean_ends-IsPortable (nfc value)) in
        rw e (
          or_else-IsName (fit 120 252 stem) fallback (All-fit IsPortable 120 252 stem portable)
            (fit-EndsClean 120 252 stem portable) (fit-Within 120 252 stem) f)
  ]
