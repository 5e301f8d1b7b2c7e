-- ===== src/Naming/Examples.antt =====
-- The theorems about names, and runs of the functions, at concrete names.
use coppermind.Base.{◌≡◌, refl, true, false, ◌&&◌, some, List, [], ◌∷◌, map, arith}
use coppermind.Base.Texts.{Text, codes, elem, utf8_length, is_space}
use coppermind.Base.Strip.{Within}
use coppermind.Naming.{
  Unicode, Laws, is_forbidden, is_dot_space, is_taken, unique_stem, sanitize_stem, sanitize_folder,
  note_stem, is_reserved, guard_reserved, fit, decimal, untitled,
}
use coppermind.Naming.Unique.{Choice, unique_stem-Choice}
use coppermind.Naming.Clean.{IsName, sanitize_stem-IsName}
use coppermind.Naming.Reserved.{is_reserved-guard_reserved}

-- Tables for texts that are composed already and hold no small letter.
abbrev capitals : Unicode
capitals = record { nfc = λ s. s; upper = λ s. s; casefold = λ s. s }

capitals-Laws : Laws capitals
capitals-Laws = record {
  casefold-append = λ s t. refl;
  upper-append = λ s t. refl;
  upper_same = λ c h. refl;
  casefold_same = λ c h. refl;
}

forbidden_replaced :
    sanitize_stem capitals untitled (codes "Q3: plan/rev <draft>?") ≡ codes "Q3 plan rev draft"
unfolding sanitize_stem
forbidden_replaced = refl

device_suffixed : sanitize_stem capitals untitled (codes "CON") ≡ codes "CON (name)"
unfolding sanitize_stem
device_suffixed = refl

nothing_left : sanitize_stem capitals untitled (codes "///") ≡ untitled
unfolding sanitize_stem
nothing_left = refl

dated :
    note_stem capitals (codes "A") (some (record { year = 2026; month = 9; day = 8 })) true
    ≡ codes "2026-09-08 A"
unfolding note_stem
dated = refl

folder_kept_inside : sanitize_folder capitals (codes "../A//./B\\C") ≡ codes "A/B/C"
unfolding sanitize_folder
folder_kept_inside = refl

abbrev taken : List Text
taken = codes "A" ∷ codes "A (2)" ∷ []

third_free : unique_stem capitals 3 (codes "A") taken ≡ some (codes "A (3)")
unfolding unique_stem fit decimal is_space
third_free = refl

a-Within : Within 120 252 (codes "A")
unfolding utf8_length
a-Within = omega arith

unique_stem-Choice_example :
    (r : Text) × (unique_stem capitals 3 (codes "A") taken ≡ some r)
    × Choice capitals capitals-Laws (map (λ s. s) taken) (codes "A") r
    × (is_taken capitals (map (λ s. s) taken) r ≡ false)
    × Within 120 252 r
unique_stem-Choice_example =
    unique_stem-Choice capitals capitals-Laws 3 (codes "A") taken (omega arith) (omega arith)
      a-Within

x-IsName : IsName (codes "X")
unfolding utf8_length is_forbidden is_space is_dot_space
x-IsName = record {
  filled = λ n. cc;
  portable = (record { allowed = refl; spaces = λ e. cc }, tt);
  ends = refl;
  short = omega arith;
}

sanitize_stem-IsName_example : IsName (sanitize_stem capitals (codes "X") (codes "Q3: plan/rev"))
sanitize_stem-IsName_example =
    sanitize_stem-IsName capitals (codes "X") (codes "Q3: plan/rev") x-IsName

is_reserved-guard_reserved_example :
    is_reserved capitals (guard_reserved capitals (codes "COM1.MD"))
    ≡ (is_reserved capitals (codes "COM1.MD") && elem b'.' (codes "COM1.MD"))
is_reserved-guard_reserved_example =
    is_reserved-guard_reserved capitals capitals-Laws (codes "COM1.MD")
