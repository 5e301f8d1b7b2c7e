-- ===== src/Naming/Unique.antt =====
-- The search of `unique_stem` in coppermind/naming.py ends, and what it returns is free and short.
use coppermind.Base.{
  ◌⊎◌, length-map, ℕ, zero, suc, ◌+◌, ◌-◌, ◌≤◌, ◌<◌, ◌≡◌, refl, sym, ap, ◌∙◌, inl, inr, true, false,
  ◌&&◌, some, List, [], ◌∷◌, ◌++◌, map, length, length-append, All, leb, ◌==◌, if◌then◌else◌,
  Bool-cases, append_assoc, append-nil, arith,
}
use mathlib.Core.List.{append_cancel_right}
use coppermind.Base.Texts.{Text, utf8_length, utf8_width}
use coppermind.Base.Pigeon.{Holds, Holds-le}
use coppermind.Base.Strip.{Within, utf8_length-append}
use coppermind.Naming.{
  Unicode, Laws, fit, decimal, tail_of, candidate, is_taken, search_from, unique_stem,
  max_stem_length, max_stem_bytes,
}
use coppermind.Naming.Fit.{fit-Within}
use coppermind.Naming.Decimal.{decimal_injective, IsDigit, decimal-IsDigit, power, length-decimal}

-- The text behind the last opening parenthesis, `seen` being what was read behind one so far.
after_paren : Text → Text → Text
after_paren seen [] = seen
after_paren seen (c ∷ s) = after_paren (if c == b'(' then [] else seen ++ c ∷ []) s

after_paren-append : (seen s t : Text) → after_paren seen (s ++ b'(' ∷ t) ≡ after_paren [] t
unfolding after_paren
after_paren-append seen [] t = refl
after_paren-append seen (c ∷ s) t =
    after_paren-append (if c == b'(' then [] else seen ++ c ∷ []) s t

after_paren-none :
    (seen t : Text) → All (λ c. (c == b'(') ≡ false) t → after_paren seen t ≡ seen ++ t
unfolding after_paren
after_paren-none seen [] h = sym (append-nil seen)
after_paren-none seen (c ∷ t) (e, h) =
    rw e (after_paren-none (seen ++ c ∷ []) t h ∙ append_assoc seen (c ∷ []) t)

not_paren : (t : Text) → All IsDigit t → All (λ c. (c == b'(') ≡ false) (t ++ b')' ∷ [])
not_paren [] h = (refl, tt)
not_paren (c ∷ t) (d, h) = (ground arith, not_paren t h)

after_paren-tail : (s : Text) (n : ℕ) → after_paren [] (s ++ tail_of n) ≡ decimal n ++ b')' ∷ []
after_paren-tail s n =
    ap (after_paren []) (sym (append_assoc s (b' ' ∷ []) (b'(' ∷ (decimal n ++ b')' ∷ []))))
    ∙ after_paren-append [] (s ++ b' ' ∷ []) (decimal n ++ b')' ∷ [])
    ∙ after_paren-none [] (decimal n ++ b')' ∷ []) (not_paren (decimal n) (decimal-IsDigit n))

-- Texts that end in " (m)" and " (n)" differ where m and n do.
tail_injective : (s t : Text) (m n : ℕ) → s ++ tail_of m ≡ t ++ tail_of n → m ≡ n
tail_injective s t m n h = decimal_injective m n (
    append_cancel_right (decimal m) (decimal n) (b')' ∷ [])
      (sym (after_paren-tail s m) ∙ ap (after_paren []) h ∙ after_paren-tail t n))

self_append : (s : Text) → s ≡ s ++ s → s ≡ []
self_append [] h = refl
self_append (c ∷ s) h = absurd (omega (arith, ap length h, length-append {0} (c ∷ s) (c ∷ s)))

abbrev IsPlain : ℕ → Type 0
IsPlain c = (leb 32 c && leb c 64) ≡ true

tail-IsPlain : (t : Text) → All IsDigit t → All IsPlain (t ++ b')' ∷ [])
tail-IsPlain [] h = (refl, tt)
tail-IsPlain (c ∷ t) (d, h) = (ground arith, tail-IsPlain t h)

utf8_length_plain : (t : Text) → All IsPlain t → utf8_length t ≡ length t
unfolding utf8_length utf8_width
utf8_length_plain [] h = refl
utf8_length_plain (c ∷ t) (x, h) = ground (arith, utf8_length_plain t h)

tail_of-IsPlain : (n : ℕ) → All IsPlain (tail_of n)
tail_of-IsPlain n = (refl, (refl, tail-IsPlain (decimal n) (decimal-IsDigit n)))

length-tail_of : (n k : ℕ) → n < power k → length (tail_of n) ≤ k + 4
length-tail_of n k h =
    omega (arith, length-decimal n k h, length-append {0} (decimal n) (b')' ∷ []))

module _ (u : Unicode) (laws : Laws u) where
  open u use {casefold}

  casefold-nil : casefold [] ≡ []
  casefold-nil = self_append (casefold []) (laws.casefold-append [] [])

  casefold_plain : (s : Text) → All IsPlain s → casefold s ≡ s
  casefold_plain [] h = casefold-nil
  casefold_plain (c ∷ s) (x, h) =
      laws.casefold-append (c ∷ []) s
      ∙ ap (λ t. t ++ casefold s) (laws.casefold_same c x)
      ∙ ap (λ t. c ∷ t) (casefold_plain s h)

  abbrev head_of : Text → ℕ → Text
  head_of stem n =
      fit (max_stem_length - length (tail_of n)) (max_stem_bytes - utf8_length (tail_of n)) stem

  folded : Text → ℕ → Text
  folded stem n = casefold (candidate u stem n)

  folded_lem : (stem : Text) (n : ℕ) → folded stem n ≡ casefold (head_of stem n) ++ tail_of n
  unfolding folded
  folded_lem stem n =
      laws.casefold-append (head_of stem n) (tail_of n)
      ∙ ap (λ t. casefold (head_of stem n) ++ t) (casefold_plain (tail_of n) (tail_of-IsPlain n))

  folded_injective : (stem : Text) (m n : ℕ) → folded stem m ≡ folded stem n → m ≡ n
  folded_injective stem m n h =
      tail_injective (casefold (head_of stem m)) (casefold (head_of stem n)) m n
        (sym (folded_lem stem m) ∙ h ∙ folded_lem stem n)

  candidate-Within :
      (stem : Text) (n k : ℕ) → n < power k → k ≤ 116 → Within 120 252 (candidate u stem n)
  candidate-Within stem n k h le =
      let w =
        fit-Within (max_stem_length - length (tail_of n)) (max_stem_bytes - utf8_length (tail_of n))
          stem in
      omega (
        arith,
        w,
        length-tail_of n k h,
        utf8_length_plain (tail_of n) (tail_of-IsPlain n),
        length-append {0} (head_of stem n) (tail_of n),
        utf8_length-append (head_of stem n) (tail_of n),
      )

  -- The candidate that a search from `start` ends with: it is free, and every one before it, from
  -- the start on, is taken.
  pub record First (lowered : List Text) (stem : Text) (start : ℕ) (r : Text) : Type 0 where
    pub suffix : ℕ
    pub from_start : start ≤ suffix
    pub is_candidate : r ≡ candidate u stem suffix
    pub is_free : is_taken u lowered r ≡ false
    pub others_taken :
        (j : ℕ) → start ≤ j → j < suffix → is_taken u lowered (candidate u stem j) ≡ true

  First-next :
      (lowered : List Text) (stem : Text) (k : ℕ) (r : Text)
      → is_taken u lowered (candidate u stem k) ≡ true
      → First lowered stem (k + 1) r
      → First lowered stem k r
  First-next lowered stem k r taken f = record {
    suffix = f.suffix;
    from_start = omega (arith, f.from_start);
    is_candidate = f.is_candidate;
    is_free = f.is_free;
    others_taken = λ j le lt. elim (Bool-cases (j == k)) [
      | inl e ↦ let same : j ≡ k = ground arith in rw same taken
      | inr e ↦ f.others_taken j (ground arith) lt
    ];
  }

  search_from-First :
      (fuel : ℕ) (lowered : List Text) (stem : Text) (k : ℕ)
      → ((r : Text) × (f : First lowered stem k r) × (search_from u fuel lowered stem k ≡ some r)
          × (f.suffix < k + fuel))
        ⊎ Holds (folded stem) (folded_injective stem) fuel k lowered
  unfolding search_from folded First-next
  search_from-First zero lowered stem k = inr tt
  search_from-First (suc fuel) lowered stem k =
      elim (Bool-cases (is_taken u lowered (candidate u stem k))) [
        | inr e ↦ inl (
          candidate u stem k,
          record {
            suffix = k;
            from_start = omega arith;
            is_candidate = refl;
            is_free = e;
            others_taken = λ j le lt. absurd (omega arith);
          },
          rw e refl,
          omega arith,
        )
        | inl e ↦ elim (search_from-First fuel lowered stem (k + 1)) [
          | inl (r, f, found, lt) ↦
              inl (r, First-next lowered stem k r e f, rw e found, omega arith)
          | inr holds ↦ inr (e, holds)
        ]
      ]

  -- The two ways in which `unique_stem` chooses a name.
  pub data Choice (lowered : List Text) (stem r : Text) : Type 0 where
    as_is : is_taken u lowered stem ≡ false → r ≡ stem → Choice lowered stem r
    suffixed : is_taken u lowered stem ≡ true → First lowered stem 2 r → Choice lowered stem r

  Choice-free :
      (lowered : List Text) (stem r : Text) → Choice lowered stem r → is_taken u lowered r ≡ false
  Choice-free lowered stem r (as_is e same) = rw same e
  Choice-free lowered stem r (suffixed e f) = f.is_free

  -- With more rounds than names are taken, and fewer than 10^9 names taken, the search ends. It
  -- returns the stem itself if that is free, and otherwise the first free one of its variants from
  -- " (2)" on; no taken name has the same case folding as the result; and if the stem is within 120
  -- characters and 252 bytes, then so is the result.
  pub unique_stem-Choice :
      (fuel : ℕ) (stem : Text) (taken : List Text)
      → length taken < fuel
      → fuel + 2 ≤ power 9
      → Within 120 252 stem
      → (r : Text) × (unique_stem u fuel stem taken ≡ some r)
        × Choice (map casefold taken) stem r
        × (is_taken u (map casefold taken) r ≡ false)
        × Within 120 252 r
  unfolding unique_stem
  unique_stem-Choice fuel stem taken more few w =
      elim (Bool-cases (is_taken u (map casefold taken) stem)) [
        | inr e ↦ (stem, rw e refl, as_is e refl, e, w)
        | inl e ↦ elim (search_from-First fuel (map casefold taken) stem 2) [
          | inl (r, f, found, lt) ↦ (
            r,
            rw e found,
            suffixed e f,
            f.is_free,
            rw (f.is_candidate) (candidate-Within stem f.suffix 9 (omega arith) (omega arith)),
          )
          | inr holds ↦ absurd (
              omega (
                arith,
                Holds-le (folded stem) (folded_injective stem) fuel 2 (map casefold taken) holds,
                length-map casefold taken,
              ))
        ]
      ]
