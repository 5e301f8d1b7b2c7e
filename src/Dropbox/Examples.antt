-- ===== src/Dropbox/Examples.antt =====
-- The theorems on services/store/coppermind_store/dropbox.py at a drop box of one calendar file.
use coppermind.Base.{
  ℕ, ◌-◌, ◌≡◌, ◌≢◌, ◌⊎◌, refl, subst, inl, inr, true, false, none, some, List, [], ◌∷◌, length,
  Option-cases,
}
use coppermind.Base.Texts.{Text, codes, eqb_refl}
use coppermind.Base.Dict.{lookup, insert}
use coppermind.Base.Attempt.{raises, ok, ok-injective}
use coppermind.Dropbox.{
  Bytes, pending, import_part, artifact_part, Item, ImportReceipt, import_succeeded, Services,
  Python, Dropbox, refusal, submit, adopt_content, history_of, imported, is_duplicate, new_item,
  in_flight, past_completed, item_completed, parts_of, kept_or, is_artifact, expire,
}
use coppermind.Dropbox.Dismiss.{dismiss, no_import}
use coppermind.Dropbox.Process.{receipt_of, or_first, process}
use coppermind.Dropbox.Process.Moves.{Follows, count_pending}
use coppermind.Dropbox.Process.Round.{process-Follows}
use coppermind.Dropbox.Process.Sound.{Keeps, Laws, is_known}
use coppermind.Dropbox.Process.Kept.{AllSound}
use coppermind.Dropbox.Intake.{Adopts, submit-Adopts}
use coppermind.Dropbox.Receipts.{Dismisses, dismiss-Dismisses}
use coppermind.Dropbox.Scan.{File, scan_file}
use coppermind.Dropbox.Scan.Keeps.{passes_over}
use coppermind.Dropbox.Scan.History.{Sighting, begins, meets, Patience, scan_file-Patience}
use coppermind.Dropbox.Life.{
  Reachable, empty, step, submits, rounds, reachable-Sound, reachable-ok, reachable-drains,
}

-- A library whose hash of some bytes is the bytes, and that calls every file a calendar.
abbrev python : Python
python = record {
  sha256 = λ b. b;
  suffix = λ s. codes ".ics";
  is_iso_date = λ s. true;
  decode = λ b. some b;
  loads = λ s. none;
  lower = λ s. s;
  encode = λ s. s;
  str_pair = λ m n. m ∷ n ∷ [];
}

abbrev receipt_from : Bytes → ImportReceipt
receipt_from data_ = record {
  id = codes "one";
  content_hash = data_;
  state = import_succeeded;
  error = [];
}

-- An archive that takes every file at once, under one id.
abbrev services : Services (List ImportReceipt)
services = record {
  receipts = λ a. a;
  import_file = λ name data_ filename a. (ok (codes "one"), receipt_from data_ ∷ a);
  dismiss_import = λ id a. (ok tt, a);
  create_artifact = λ marker filename data_ a. (ok (codes "two"), a);
}

grows : (r : ImportReceipt) (a : List ImportReceipt) → Keeps a (r ∷ a)
unfolding is_known receipt_of or_first
grows r a (artifact_part id) h = h
grows r a (import_part id) h = elim (Option-cases (receipt_of id a)) [
  | inl n ↦ cc (rw n at h)
  | inr s ↦ rw s.1 refl
]

has_it : (r : ImportReceipt) (a : List ImportReceipt) → is_known (r ∷ a) (import_part r.id) ≡ true
unfolding is_known receipt_of or_first
has_it r a = elim (Option-cases (receipt_of r.id a)) [
  | inl n ↦ rw (n, eqb_refl r.id) refl
  | inr s ↦ rw s.1 refl
]

laws : Laws services
laws = record {
  imports = λ name data_ filename id a e.
      subst (λ i. is_known (receipt_from data_ ∷ a) (import_part i) ≡ true) (ok-injective e)
        (has_it (receipt_from data_) a);
  import_keeps = λ name data_ filename a. grows (receipt_from data_) a;
  dismiss_keeps = λ id a p h. h;
  create_keeps = λ marker filename data_ a p h. h;
}

abbrev nothing : Dropbox (List ImportReceipt)
nothing = record {
  records = record { items = []; history = []; observations = [] };
  originals = [];
  seen = [];
  archive = [];
}

abbrev calendar : Bytes
calendar = codes "BEGIN:VCALENDAR"

abbrev name : Text
name = codes "a.ics"

name_passes : refusal name calendar none ≡ none
unfolding refusal is_artifact
name_passes = refl

submit-Adopts_example :
    (i : Item) × (e : Dropbox (List ImportReceipt)) × (submit python services 5 [] name calendar
        none nothing
      ≡ ok (i, e))
    × (((lookup (python.sha256 calendar) nothing.records.items ≡ some i)
          × (in_flight (some i) ≡ true)
          × (e ≡ nothing))
        ⊎ ((in_flight (lookup (python.sha256 calendar) nothing.records.items) ≡ false)
            × Adopts python services name calendar none nothing i e))
submit-Adopts_example = submit-Adopts python services 5 [] name calendar none nothing name_passes

abbrev seven : List ℕ
seven = 7 ∷ []

abbrev waiting : Item
waiting = record {
  id = calendar;
  filename = name;
  state = pending;
  parts = [];
  error = [];
  received_at = some [];
  kind = none;
  completed_at = none;
}

abbrev one_waits : Dropbox (List ImportReceipt)
one_waits = record nothing {
  records = record { items = (calendar, waiting) ∷ []; history = []; observations = [] };
  originals = (calendar, calendar) ∷ [];
}

submitted : submit python services 5 [] name calendar none nothing ≡ ok (waiting, one_waits)
unfolding submit refusal is_artifact kept_or adopt_content history_of imported is_duplicate new_item
    in_flight past_completed item_completed parts_of lookup insert
submitted = refl

one_reachable : Reachable python services one_waits
one_reachable = step (empty {d = nothing} refl) (submits 5 [] name calendar none waiting submitted)

reachable-Sound_example : AllSound [] one_waits.records.items
reachable-Sound_example = reachable-Sound python services laws one_waits one_reachable

reachable-ok_example :
    ((now : ℕ)
      → (e : Dropbox (List ImportReceipt)) × (process python services now one_waits ≡ (ok tt, e)))
    × ((identity : Text) → (dismiss services identity one_waits).0 ≢ raises no_import)
reachable-ok_example = reachable-ok python services laws one_waits one_reachable

reachable-drains_example :
    count_pending (rounds python services seven one_waits).records.items
    ≡ count_pending one_waits.records.items - length seven
reachable-drains_example = reachable-drains python services laws seven one_waits one_reachable

abbrev processed : Dropbox (List ImportReceipt)
processed = ((reachable-ok python services laws one_waits one_reachable).0 7).0

succeeds : process python services 7 one_waits ≡ (ok tt, processed)
succeeds = ((reachable-ok python services laws one_waits one_reachable).0 7).1

process-Follows_example :
    Follows (expire 7 one_waits.records.items) processed.records.items
    × (count_pending processed.records.items ≡ count_pending one_waits.records.items - 1)
process-Follows_example = process-Follows python services 7 one_waits processed succeeds

dismiss-Dismisses_example :
    Dismisses services laws calendar one_waits
      (dismiss services calendar one_waits).0
      (dismiss services calendar one_waits).1
dismiss-Dismisses_example =
    dismiss-Dismisses services laws calendar one_waits
      (reachable-Sound python services laws one_waits one_reachable)

abbrev dropped : File
dropped = record {
  name = name;
  key = name;
  is_regular = true;
  signature = (3, 15);
  sidecar_signature = none;
  reading = ok (record { before = (3, 15); after = (3, 15); data_ = calendar });
  sidecar = none;
}

-- The scan at 2 seconds first meets the file, and the one at 40 takes it.
abbrev noticed : Dropbox (List ImportReceipt)
noticed = scan_file python services 1 [] 2 dropped nothing

abbrev noticed_log : List Sighting
noticed_log =
    record { clock = 2; file = dropped; is_passed = passes_over python services dropped nothing }
    ∷ []

scan_file-Patience_example :
    Patience python services noticed_log 40 dropped noticed
      (scan_file python services 5 [] 40 dropped noticed)
scan_file-Patience_example =
    scan_file-Patience python services (meets (begins nothing refl) 1 [] 2 dropped) 5 [] 40 dropped
