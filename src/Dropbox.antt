-- ===== src/Dropbox.antt =====
-- services/store/coppermind_store/dropbox.py: the receipts of dropped files. The data, and the intake
-- of one file (`submit`) are here; markers, `process`, `dismiss` and `scan` below.
pub mod Sidecar
pub mod Process
pub mod Scan
pub mod Dismiss
pub mod Intake
pub mod Receipts
pub mod Life
mod Examples
use coppermind.Base.{
  ℕ, ◌+◌, Bool, true, false, not, ◌&&◌, ◌||◌, Option, none, some, List, [], ◌∷◌, length, ltb, any,
  if◌then◌else◌,
}
use coppermind.Base.Texts.{Text, codes, eqb, is_empty}
use coppermind.Base.Dict.{Dict, lookup, insert, remove}
use coppermind.Base.Attempt.{Attempt, raises, ok}

abbrev pub Bytes : Type 0
Bytes = List ℕ

-- The errors that `process` and `scan` catch, each with its text.
pub data Error : Type 0 where
  value_error os_error store_error : Text → Error

abbrev pub error_text : Error → Text
error_text (value_error s) = s
error_text (os_error s) = s
error_text (store_error s) = s

pub data State : Type 0 where
  pending importing succeeded already_imported failed unsupported : State

-- A part of an item: {"import_id": ...} or {"artifact_id": ...}.
pub data Part : Type 0 where
  import_part artifact_part : Text → Part

-- What a sidecar or an upload declares.
pub record Marker : Type 0 where
  pub kind : Text
  pub title : Option Text
  pub tags : List Text
  pub date : Option Text

pub record Item : Type 0 where
  pub id : Text
  pub filename : Text
  pub state : State
  pub parts : List Part
  pub error : Text
  pub received_at : Option Text
  pub kind : Option Marker
  pub completed_at : Option ℕ

-- What the history says of a digest: the state and the parts of an item.
pub record Past : Type 0 where
  pub state : State
  pub parts : List Part

-- mtime and size of a file, then those of its sidecar, if there is one; the source writes (0, -1) for
-- a sidecar that is missing.
abbrev pub Observation : Type 0
Observation = List ℕ

pub record Records : Type 0 where
  pub items : Dict Item
  pub history : Dict Past
  pub observations : Dict Observation

-- ImportReceipt of calendar_archive.py, as far as it is read here
pub data ImportState : Type 0 where
  import_pending import_succeeded import_failed : ImportState

pub record ImportReceipt : Type 0 where
  pub id : Text
  pub content_hash : Text
  pub state : ImportState
  pub error : Text

-- The calendar archive and the artifact store, on a state of theirs: which receipts there are, and
-- the calls that may raise. A new artifact and a new import come back as their ids.
pub record Services (A : Type 0) : Type 0 where
  pub receipts : A → List ImportReceipt
  pub import_file : Text → Bytes → Text → A → Attempt Error Text × A
  pub dismiss_import : Text → A → Attempt Error (Unit {0}) × A
  pub create_artifact : Marker → Text → Bytes → A → Attempt Error Text × A

-- What the module uses of Python's library: hashlib.sha256, Path(...).suffix.lower(),
-- date.fromisoformat, bytes.decode, json.loads and str.lower.
pub data Json : Type 0 where
  json_text : Text → Json
  json_list : List (Option Text) → Json
  json_other : Json

pub record Python : Type 0 where
  pub sha256 : Bytes → Text
  pub suffix : Text → Text
  pub is_iso_date : Text → Bool
  pub decode : Bytes → Option Text
  -- `none` is a JSONDecodeError, and a value that is no object is `some none`
  pub loads : Text → Option (Option (Dict Json))
  pub lower : Text → Text
  -- str.encode, and str of a pair of whole numbers
  pub encode : Text → Bytes
  pub str_pair : ℕ → ℕ → Text

pub record Dropbox (A : Type 0) : Type 0 where
  pub records : Records
  -- the files of dropbox-originals
  pub originals : Dict Bytes
  pub seen : Dict (Observation × ℕ)
  pub archive : A

-- COMPLETED
unfoldable pub is_completed : State → Bool
is_completed succeeded = true
is_completed already_imported = true
is_completed s = false

-- COMPLETED | {"failed", "unsupported"}
unfoldable pub is_settled : State → Bool
unfolding is_completed
is_settled failed = true
is_settled unsupported = true
is_settled s = is_completed s

abbrev pub is_import_succeeded : ImportState → Bool
is_import_succeeded import_succeeded = true
is_import_succeeded s = false

abbrev pub is_import_failed : ImportState → Bool
is_import_failed import_failed = true
is_import_failed s = false

-- Seven days in seconds, and the largest intake in bytes.
abbrev pub receipt_retention : ℕ
receipt_retention = 604800

abbrev pub max_upload : ℕ
max_upload = 200000000

-- `expire`: the items that are kept
unfoldable pub stays : ℕ → Item → Bool
unfolding is_completed
stays now i = elim i.completed_at [
  | none ↦ true
  | some t ↦ not (is_completed i.state) || ltb now (t + receipt_retention)
]

unfoldable pub expire : ℕ → Dict Item → Dict Item
unfolding stays
expire now [] = []
expire now ((k, i) ∷ items) =
    let rest = expire now items in if stays now i then (k, i) ∷ rest else rest

-- The first receipt of a content that was imported.
unfoldable pub imported : Text → List ImportReceipt → Option ImportReceipt
imported digest [] = none
imported digest (r ∷ receipts) =
    if eqb r.content_hash digest && is_import_succeeded r.state
    then some r
    else imported digest receipts

-- The history of a digest, where an import that succeeded replaces what is recorded.
unfoldable pub history_of : Text → List ImportReceipt → Dict Past → Option Past
unfolding imported lookup
history_of digest receipts history = elim (imported digest receipts) [
  | none ↦ lookup digest history
  | some r ↦ some (record { state = succeeded; parts = import_part r.id ∷ [] })
]

past_completed : Option Past → Bool
unfolding is_completed
past_completed none = false
past_completed (some p) = is_completed p.state

parts_of : Option Past → List Part
parts_of none = []
parts_of (some p) = p.parts

item_completed : Option Item → Bool
unfolding is_completed
item_completed none = false
item_completed (some i) = is_completed i.state

abbrev pub is_some {ℓ} : {B : Type ℓ} → Option B → Bool
is_some none = false
is_some (some b) = true

abbrev pub past_of : Item → Past
past_of i = record { state = i.state; parts = i.parts }

-- Whether a content is a duplicate: only a file without a kind is looked up.
unfoldable pub is_duplicate : Option Marker → Option Past → Option Item → Bool
unfolding past_completed item_completed
is_duplicate (some k) past existing = false
is_duplicate none past existing = past_completed past || item_completed existing

-- The item that `submit` records.
unfoldable pub new_item : ℕ → Text → Text → Text → Option Marker → Option Past → Bool → Item
unfolding parts_of
new_item now received digest filename kind past duplicate = record {
  id = digest;
  filename = filename;
  state = if duplicate then already_imported else pending;
  parts = if duplicate then parts_of past else [];
  error = [];
  received_at = some received;
  kind = kind;
  completed_at = if duplicate then some now else none;
}

is_artifact : Option Marker → Bool
is_artifact none = true
is_artifact (some k) = eqb k.kind (codes "artifact")

-- The guards of `submit`.
unfoldable pub refusal : Text → Bytes → Option Marker → Option Error
unfolding is_artifact
refusal filename data_ kind =
    if is_empty filename || ltb 255 (length filename) || any (λ c. ltb c 32) filename
    then some (value_error (codes "invalid filename"))
    else if ltb max_upload (length data_)
    then some (value_error (codes "Dropbox intake limit is 200 MB; file remains in the vault"))
    else if not (is_artifact kind)
    then some (value_error (codes "kind: only artifact is accepted; calendars route themselves"))
    else none

-- An item that is waiting or being imported.
unfoldable pub in_flight : Option Item → Bool
unfolding is_settled
in_flight none = false
in_flight (some i) = not (is_settled i.state)

-- The item of a part, where it is an import.
abbrev pub import_id : Part → Option Text
import_id (import_part id) = some id
import_id (artifact_part id) = none

module _ {A : Type 0} (python : Python) (services : Services A) where
  open python use {sha256}
  open services use {receipts, dismiss_import}

  -- What `submit` writes for a content that is not in flight.
  unfoldable pub adopt_content :
      ℕ → Text → Text → Bytes → Option Marker → Dropbox A → Item × Dropbox A
  unfolding new_item is_duplicate history_of lookup insert
  adopt_content now received filename data_ kind d =
      let digest = sha256 data_ in
      let past = history_of digest (receipts d.archive) d.records.history in
      let duplicate = is_duplicate kind past (lookup digest d.records.items) in
      let item = new_item now received digest filename kind past duplicate in
      (
        item,
        record d {
          originals = insert digest data_ d.originals;
          records = record d.records { items = insert digest item d.records.items };
        },
      )

  -- The item that is there, where it is in flight.
  pub kept_or : Option Item → Dropbox A → Item × Dropbox A → Item × Dropbox A
  unfolding in_flight
  kept_or none d new = new
  kept_or (some i) d new = if in_flight (some i) then (i, d) else new

  unfoldable pub submit :
      ℕ → Text → Text → Bytes → Option Marker → Dropbox A → Attempt Error (Item × Dropbox A)
  unfolding refusal kept_or adopt_content lookup
  submit now received filename data_ kind d =
      let new = adopt_content now received filename data_ kind d in
      let old = lookup (sha256 data_) d.records.items in
      elim (refusal filename data_ kind) [ some e ↦ raises e | none ↦ ok (kept_or old d new) ]

  -- The bytes of an original, whose name must be their hash.
  check_original : Text → Option Bytes → Attempt Error Bytes
  check_original digest none = raises (os_error (codes "No such file or directory"))
  check_original digest (some data_) =
      if eqb (sha256 data_) digest
      then ok data_
      else raises (value_error (codes "Dropbox original failed integrity verification"))

  unfoldable pub original : Dropbox A → Text → Attempt Error Bytes
  unfolding check_original lookup
  original d digest = check_original digest (lookup digest d.originals)
