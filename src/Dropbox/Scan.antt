-- ===== src/Dropbox/Scan.antt =====
-- services/store/coppermind_store/dropbox.py: `scan`, which takes the files of the folder once they have
-- been still for half a minute.
pub mod Patience
pub mod Keeps
pub mod History
use coppermind.Base.{
  ℕ, suc, ◌+◌, Bool, true, false, not, ◌&&◌, ◌||◌, Option, none, some, List, [], ◌∷◌, ◌++◌, ltb,
  leb, ◌==◌, if◌then◌else◌,
}
use coppermind.Base.Texts.{Text, codes, eqb, starts_with}
use coppermind.Base.Dict.{Dict, lookup, insert}
use coppermind.Base.Distinct.{member}
use coppermind.Base.Attempt.{Attempt, raises, ok}
use coppermind.Dropbox.{
  Bytes, Error, value_error, os_error, store_error, State, failed, Marker, Item, Records,
  Observation, Services, Python, Dropbox, max_upload, submit,
}
use coppermind.Dropbox.Sidecar.{read_kind_marker}

abbrev pub Signature : Type 0
Signature = ℕ × ℕ

-- What `read_stable` finds of the open file: its signature before and after the bytes are read.
pub record Reading : Type 0 where
  pub before : Signature
  pub after : Signature
  pub data_ : Bytes

-- A file of the folder as `scan` meets it: the signature of its sidecar and, where the folder's listing
-- has the sidecar, what reading that comes to. An OSError is its text.
pub record File : Type 0 where
  pub name : Text
  pub key : Text
  pub is_regular : Bool
  pub signature : Signature
  pub sidecar_signature : Option Signature
  pub reading : Attempt Text Reading
  pub sidecar : Option (Attempt Text Bytes)

-- What the walk finds: no folder, one behind a symlink, or files.
pub data Folder : Type 0 where
  missing symlink : Folder
  holds : List File → Folder

abbrev same_signature : Signature → Signature → Bool
same_signature s t = s.0 == t.0 && s.1 == t.1

unfoldable pub read_stable : Signature → Reading → Option Bytes
read_stable signature r =
    if not (same_signature r.before signature) || not (same_signature r.after signature)
    then none
    else some r.data_

abbrev sidecar_part : Option Signature → Observation
sidecar_part none = []
sidecar_part (some s) = s.0 ∷ s.1 ∷ []

abbrev pub observed : File → Observation
observed f = f.signature.0 ∷ f.signature.1 ∷ sidecar_part f.sidecar_signature

abbrev pub is_seen : Observation → Option Observation → Bool
is_seen o none = false
is_seen o (some p) = eqb p o

-- What came of a file: nothing yet, or an error, or the bytes and the marker to submit.
pub data Intake : Type 0 where
  unstable : Intake
  rejected : Text → Intake
  taken : Bytes → Option Marker → Intake

-- The text of an error that `submit` raises.
abbrev pub reason : Error → Text
reason (value_error s) = s
reason (os_error s) = codes "File could not be read: " ++ s
reason (store_error s) = s

module _ {A : Type 0} (python : Python) (services : Services A) where
  open python use {sha256, suffix, encode, str_pair}

  of_marker : Bytes → Option Marker → Intake
  of_marker data_ none =
      rejected (codes "The .kind sidecar does not declare artifact; nothing was stored.")
  of_marker data_ (some m) = taken data_ (some m)

  of_sidecar : Bytes → Option (Attempt Text Bytes) → Intake
  unfolding of_marker read_kind_marker
  of_sidecar data_ none = taken data_ none
  of_sidecar data_ (some (raises s)) = rejected (codes "File could not be read: " ++ s)
  of_sidecar data_ (some (ok bytes)) = of_marker data_ (read_kind_marker python bytes)

  of_bytes : Option Bytes → Option (Attempt Text Bytes) → Intake
  unfolding of_sidecar
  of_bytes none sidecar = unstable
  of_bytes (some data_) sidecar = of_sidecar data_ sidecar

  of_reading : Signature → Attempt Text Reading → Option (Attempt Text Bytes) → Intake
  unfolding of_bytes read_stable
  of_reading signature (raises s) sidecar = rejected (codes "File could not be read: " ++ s)
  of_reading signature (ok r) sidecar = of_bytes (read_stable signature r) sidecar

  unfoldable pub intake : File → Intake
  unfolding of_reading
  intake f =
      if ltb max_upload f.signature.1
      then rejected (codes "File exceeds 200 MB. Original remains in Dropbox.")
      else of_reading f.signature f.reading f.sidecar

  -- The receipt of a file that was not taken.
  rejection : File → Text → Item
  rejection f error = record {
    id = sha256 (encode (f.key ++ codes ":" ++ str_pair f.signature.0 f.signature.1));
    filename = f.name;
    state = failed;
    parts = [];
    error = error;
    received_at = none;
    kind = none;
    completed_at = none;
  }

  unfoldable pub reject : File → Text → Dropbox A → Dropbox A
  unfolding rejection insert
  reject f error d = record d {
    records = record d.records {
      items = insert (rejection f error).id (rejection f error) d.records.items;
    };
  }

  -- records["observations"][key] = list(observed)
  unfoldable pub note_seen : File → Dropbox A → Dropbox A
  unfolding insert
  note_seen f d = record d {
    records = record d.records { observations = insert f.key (observed f) d.records.observations };
  }

  submitted : File → Attempt Error (Item × Dropbox A) → Dropbox A → Dropbox A
  unfolding reject
  submitted f (raises e) d = reject f (reason e) d
  submitted f (ok (i, e)) d = e

  -- The part of the loop under the lock.
  unfoldable pub take_in : ℕ → Text → File → Intake → Dropbox A → Dropbox A
  unfolding reject note_seen submitted submit
  take_in now received f unstable d = d
  take_in now received f (rejected error) d = note_seen f (reject f error d)
  take_in now received f (taken data_ kind) d =
      note_seen f (submitted f (submit python services now received f.name data_ kind d) d)

  -- self.seen[key] = (observed, time.monotonic())
  unfoldable pub park : ℕ → File → Dropbox A → Dropbox A
  unfolding insert
  park clock f d = record d { seen = insert f.key (observed f, clock) d.seen }

  wait_or_take : ℕ → Text → ℕ → File → Option (Observation × ℕ) → Dropbox A → Dropbox A
  unfolding take_in intake park
  wait_or_take now received clock f none d = park clock f d
  wait_or_take now received clock f (some (o, since)) d =
      if not (eqb o (observed f))
      then park clock f d
      else if ltb clock (since + 30)
      then d
      else take_in now received f (intake f) d

  -- The body of the loop for one file.
  unfoldable pub scan_file : ℕ → Text → ℕ → File → Dropbox A → Dropbox A
  unfolding wait_or_take lookup
  scan_file now received clock f d =
      if not f.is_regular || is_seen (observed f) (lookup f.key d.records.observations)
      then d
      else wait_or_take now received clock f (lookup f.key d.seen) d

  ends_with : Text → Text → Bool
  ends_with ending [] = eqb ending []
  ends_with ending (c ∷ s) = eqb ending (c ∷ s) || ends_with ending s

  -- The files that the loop does not pass over at once.
  unfoldable pub is_candidate : File → Bool
  unfolding ends_with starts_with
  is_candidate f =
      not (starts_with (codes ".") f.name)
      && not (eqb (suffix f.name) (codes ".md"))
      && not (ends_with (codes ".kind") f.name)

  -- The first thousand of them.
  scanned : ℕ → List File → List File
  unfolding is_candidate
  scanned count [] = []
  scanned count (f ∷ files) =
      let rest = scanned (suc count) files in
      let same = scanned count files in
      if not (is_candidate f) then same else if ltb count 1000 then f ∷ rest else rest

  unfoldable pub scan_files : ℕ → Text → ℕ → List File → Dropbox A → Dropbox A
  unfolding scan_file
  scan_files now received clock [] d = d
  scan_files now received clock (f ∷ files) d =
      scan_files now received clock files (scan_file now received clock f d)

  present : List File → List Text
  present [] = []
  present (f ∷ files) = let rest = present files in if f.is_regular then f.key ∷ rest else rest

  -- {k: v for k, v in entries.items() if k in present}
  still_there {ℓ} : {V : Type ℓ} → List Text → Dict V → Dict V
  still_there keys [] = []
  still_there keys ((k, v) ∷ entries) =
      let rest = still_there keys entries in if member eqb k keys then (k, v) ∷ rest else rest

  unfoldable pub forget : List Text → Dropbox A → Dropbox A
  unfolding still_there
  forget keys d = record d {
    seen = still_there keys d.seen;
    records = record d.records { observations = still_there keys d.records.observations };
  }

  -- `scan`, where `raises` is the ValueError for a symlink
  unfoldable pub scan : ℕ → Text → ℕ → Folder → Dropbox A → Attempt Error (Dropbox A)
  unfolding scan_files scanned present forget
  scan now received clock missing d = ok (record d { seen = [] })
  scan now received clock symlink d = raises (value_error (codes "Dropbox must not be a symlink"))
  scan now received clock (holds files) d =
      let some_files = scanned 0 files in
      ok (forget (present some_files) (scan_files now received clock some_files d))
