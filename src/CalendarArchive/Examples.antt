-- ===== src/CalendarArchive/Examples.antt =====
-- The theorems on services/store/coppermind_store/calendar_archive.py at an archive that imports one file.
use coppermind.Base.{ℕ, refl, true, none, some, [], ◌∷◌, All}
use coppermind.Base.Texts.{Text, codes}
use coppermind.Base.Attempt.{Attempt, ok}
use coppermind.Dropbox.{Bytes, Error, Marker, Python}
use coppermind.Dropbox.Process.Sound.{Laws}
use coppermind.CalendarArchive.{Receipt, Archive, Parsed, submit, process, services}
use coppermind.CalendarArchive.Receipts.{services-Laws}
use coppermind.CalendarArchive.Catalog.{
  Reachable, empty, step, submits, processes, IsListed, reachable-AllListed,
}

abbrev digest : Text
digest = codes "0123456789abcdef0123456789abcdef0123456789abcdef0123456789abcdef"

-- A library with one hash for all bytes, which calls every file a calendar.
abbrev python : Python
python = record {
  sha256 = λ b. digest;
  suffix = λ s. codes ".ics";
  is_iso_date = λ s. true;
  decode = λ b. some b;
  loads = λ s. none;
  lower = λ s. s;
  encode = λ s. s;
  str_pair = λ m n. m ∷ n ∷ [];
}

abbrev three_events : Receipt → Bytes → Parsed
three_events r data_ = ok 3

abbrev create_artifact : Marker → Text → Bytes → ℕ → Attempt Error Text × ℕ
create_artifact marker filename data_ n = (ok (codes "art"), n)

services-Laws_example : Laws (services python create_artifact)
services-Laws_example = services-Laws python create_artifact

abbrev nothing : Archive
nothing = record { imports = []; originals = []; catalog = [] }

abbrev submitted : Archive
submitted = (submit python (codes "a.ics") (codes "BEGIN:VCALENDAR") [] nothing).1

abbrev with_import : Archive
with_import = (process python three_events digest submitted).1

import_reachable : Reachable python three_events with_import
import_reachable =
    step (step (empty {a = nothing} refl) (submits (codes "a.ics") (codes "BEGIN:VCALENDAR") []))
      (processes digest)

reachable-AllListed_example : All (IsListed with_import.catalog) with_import.imports
reachable-AllListed_example = reachable-AllListed python three_events with_import import_reachable
