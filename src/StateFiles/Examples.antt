-- ===== src/StateFiles/Examples.antt =====
-- The theorems on coppermind/statefiles.py at a directory that is written twice, with a small codec
-- whose values are the integers.
use coppermind.Base.{
  ℕ, zero, suc, ◌≡◌, ◌≢◌, refl, ap, ◌∙◌, false, Option, none, some, [], ◌∷◌, ◌++◌, append_assoc,
  append-nil,
}
use coppermind.Base.Texts.{Text, codes, eqb}
use coppermind.Base.Dict.{Dict, has_key, lookup}
use coppermind.Base.Integers.{ℤ, pos, negsuc, suc_int, add_times}
use coppermind.StateFiles.{
  FilePath, Files, atomic_write_text, Document, mapping, Codec, Laws, StateFile, path_for, load,
  dump, read, read_if_exists, check_revision, record_of, write, mode_for, get_int,
  schema_version_key, ok, raises, revision_conflict, unknown_state_file, file_not_found,
}
use coppermind.StateFiles.Revisions.{read-write}
use coppermind.StateFiles.Conflicts.{Writes, unwritten, own_write, write-Writes}

-- A key is its characters raised by one and a 0; a value is its sign and its number.
show_key : Text → Text → Text
show_key [] rest = zero ∷ rest
show_key (c ∷ k) rest = suc c ∷ show_key k rest

show : Dict ℤ → Text
unfolding show_key
show [] = []
show ((k, pos n) ∷ m) = show_key k (0 ∷ n ∷ show m)
show ((k, negsuc n) ∷ m) = show_key k (1 ∷ n ∷ show m)

abbrev cons_entry : Text → ℤ → Option (Dict ℤ) → Option (Dict ℤ)
cons_entry k v none = none
cons_entry k v (some m) = some ((k, v) ∷ m)

scan : Text → Text → Option (Dict ℤ)
scan key [] = some []
scan key (suc c ∷ s) = scan (key ++ c ∷ []) s
scan key (zero ∷ zero ∷ n ∷ s) = cons_entry key (pos n) (scan [] s)
scan key (zero ∷ suc t ∷ n ∷ s) = cons_entry key (negsuc n) (scan [] s)
scan key (zero ∷ s) = none

scan-show_key : (key k s : Text) → scan key (show_key k s) ≡ scan (key ++ k) (zero ∷ s)
unfolding show_key scan
scan-show_key key [] s = rw (append-nil key) refl
scan-show_key key (c ∷ k) s =
    scan-show_key (key ++ c ∷ []) k s ∙ ap (λ x. scan x (zero ∷ s)) (append_assoc key (c ∷ []) k)

scan-show : (m : Dict ℤ) → scan [] (show m) ≡ some m
unfolding scan show
scan-show [] = refl
scan-show ((k, pos n) ∷ m) = scan-show_key [] k (0 ∷ n ∷ show m) ∙ rw (scan-show m) refl
scan-show ((k, negsuc n) ∷ m) = scan-show_key [] k (1 ∷ n ∷ show m) ∙ rw (scan-show m) refl

abbrev loaded : Option (Dict ℤ) → Option (Document ℤ)
loaded none = none
loaded (some m) = some (mapping m)

abbrev codec : Codec
codec = record {
  Value = ℤ;
  load_json = λ text. loaded (scan [] text);
  dump_json = show;
  load_yaml = λ text. loaded (scan [] text);
  dump_yaml = show;
  as_int = some;
  of_int = λ n. n;
}

codec-Laws : Laws codec
codec-Laws = record {
  load-dump_json = λ m d. rw (scan-show m) refl;
  load-dump_yaml = λ m d. rw (scan-show m) refl;
  as_int-of_int = λ n. refl;
}

abbrev rules : Text
rules = codes "rules"

abbrev body : Dict ℤ
body = (codes "limit", pos 5) ∷ []

abbrev path : FilePath
path = record { stem = rules; extension = codes "yaml" }

abbrev record_at : ℤ → Dict ℤ
record_at revision =
    (codes "schema_version", pos 1) ∷ (codes "revision", revision) ∷ (codes "limit", pos 5) ∷ []

abbrev at : ℤ → StateFile codec
at revision = record { name = rules; revision = revision; body = record_at revision }

empty : Files
empty p = none

after_first : Files
after_first = atomic_write_text path (record { text = show (record_at (pos 1)); mode = 420 }) empty

after_second : Files
after_second =
    atomic_write_text path (record { text = show (record_at (pos 2)); mode = 420 }) after_first

first_write : write codec empty rules body none ≡ ok (after_first, at (pos 1))
unfolding write path_for read_if_exists check_revision record_of mode_for dump empty after_first
    get_int lookup
first_write = refl

read_first : read codec after_first rules ≡ ok (at (pos 1))
unfolding read path_for after_first load get_int lookup scan show
read_first = refl

second_write : write codec after_first rules body (some (pos 1)) ≡ ok (after_second, at (pos 2))
unfolding write path_for read_if_exists check_revision record_of mode_for dump empty after_first
    after_second get_int lookup scan show suc_int
second_write = refl

read-write_example :
    (read codec after_first rules ≡ ok (at (pos 1)))
    × ((other : Text)
        → eqb rules other ≡ false
        → read codec after_first other ≡ read codec empty other)
unfolding has_key
read-write_example =
    read-write codec codec-Laws empty rules body none after_first (at (pos 1)) (refl, tt)
      first_write

abbrev once : ℕ
once = 1

one_write : Writes codec rules after_first once after_second
unfolding has_key
one_write = own_write body (some (pos 1)) (at (pos 2)) unwritten (refl, tt) second_write

write-Writes_example :
    (once ≢ 0
      → write codec after_second rules body (some (pos 1))
        ≡ raises (revision_conflict (add_times once (pos 1))))
    × (once ≡ 0
        → (read codec after_second rules ≡ ok (at (pos 1)))
          × ((version : ℤ)
              → get_int codec schema_version_key body ≡ ok version
              → (after : Files) × (file : StateFile codec) × (write codec after_second rules body
                    (some (pos 1))
                  ≡ ok (after, file))
                × (file.revision ≡ suc_int (pos 1))))
write-Writes_example = write-Writes codec codec-Laws rules (at (pos 1)) body read_first one_write

unknown_name : read codec empty (codes "notes") ≡ raises unknown_state_file
unfolding read path_for lookup
unknown_name = refl

never_written : read codec empty rules ≡ raises file_not_found
unfolding read path_for empty lookup
never_written = refl

first_write_conflict :
    write codec empty rules body (some (pos 3)) ≡ raises (revision_conflict (pos 0))
unfolding write path_for read_if_exists check_revision empty lookup
first_write_conflict = refl
