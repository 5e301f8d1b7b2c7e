-- ===== src/Base/Texts.antt =====
-- Python's str as the list of its code points, and the methods of str that the source calls.
use Prim.Native.Char.{code}
use Prim.Native.String.{String}
use coppermind.Base.Tests.{ltb, leb, ◌==◌, if◌then◌else◌}
use coppermind.Base.Lists.{any}
use Prim.Native.Nat.{ℕ, ◌+◌}
use mathlib.Core.Path.{◌≡◌, refl}
use mathlib.Core.Logic.{◌↔◌}
use mathlib.Core.Bool.{Bool, true, false, ◌||◌, ◌&&◌}
use mathlib.Core.List.{List, [], ◌∷◌}
use native.Mathlib.Omega.{arith}

abbrev pub Text : Type 0
Text = List ℕ

-- The code points of a literal.
abbrev pub codes : String → Text
codes String.[] = []
codes (String.◌∷◌ c s) = code c ∷ codes s

abbrev pub eqb : Text → Text → Bool
eqb [] [] = true
eqb [] (d ∷ t) = false
eqb (c ∷ s) [] = false
eqb (c ∷ s) (d ∷ t) = c == d && eqb s t

pub eqb_sound : (s t : Text) → eqb s t ≡ true → s ≡ t
eqb_sound [] [] h = refl
eqb_sound [] (d ∷ t) h = cc
eqb_sound (c ∷ s) [] h = cc
eqb_sound (c ∷ s) (d ∷ t) h = ground (arith, eqb_sound s t)

pub eqb_refl : (s : Text) → eqb s s ≡ true
eqb_refl [] = refl
eqb_refl (c ∷ s) = ground (arith, eqb_refl s)

pub eqb_iff : (s t : Text) → (eqb s t ≡ true) ↔ (s ≡ t)
eqb_iff s t = (eqb_sound s t, λ e. rw e (eqb_refl t))

pub eqb-false_sym : (s t : Text) → eqb s t ≡ false → eqb t s ≡ false
eqb-false_sym s t h = ground (arith, eqb_iff s t, eqb_iff t s)

abbrev pub is_empty : Text → Bool
is_empty [] = true
is_empty (c ∷ s) = false

abbrev pub elem : ℕ → Text → Bool
elem c s = any (λ d. c == d) s

-- str.isspace on one code point, which is also the class \s of the re module.
unfoldable pub is_space : ℕ → Bool
is_space c =
    leb 9 c && leb c 13
    || leb 28 c && leb c 32
    || c == 0x85
    || c == 0xa0
    || c == 0x1680
    || leb 0x2000 c && leb c 0x200a
    || c == 0x2028
    || c == 0x2029
    || c == 0x202f
    || c == 0x205f
    || c == 0x3000

-- lstrip and rstrip, over a test on characters.
module _ (p : ℕ → Bool) where
  unfoldable pub lstrip : Text → Text
  lstrip [] = []
  lstrip (c ∷ s) = if p c then lstrip s else c ∷ s

  unfoldable pub rstrip : Text → Text
  rstrip [] = []
  rstrip (c ∷ s) = let rest = rstrip s in if is_empty rest && p c then [] else c ∷ rest

  unfoldable pub strip : Text → Text
  unfolding lstrip rstrip
  strip s = lstrip (rstrip s)

unfoldable pub starts_with : Text → Text → Bool
starts_with [] s = true
starts_with (d ∷ p) [] = false
starts_with (d ∷ p) (c ∷ s) = d == c && starts_with p s

-- The bytes that UTF-8 spends on a code point.
unfoldable pub utf8_width : ℕ → ℕ
utf8_width c = if ltb c 0x80 then 1 else if ltb c 0x800 then 2 else if ltb c 0x10000 then 3 else 4

-- len(s.encode("utf-8"))
unfoldable pub utf8_length : Text → ℕ
unfolding utf8_width
utf8_length [] = 0
utf8_length (c ∷ s) = utf8_width c + utf8_length s

-- s < t, for str
unfoldable pub precedes : Text → Text → Bool
precedes s [] = false
precedes [] (d ∷ t) = true
precedes (c ∷ s) (d ∷ t) = ltb c d || c == d && precedes s t
