-- ===== src/Dropbox/Process.antt =====
-- services/store/coppermind_store/dropbox.py: one round of `process`, which hands on the first item that
-- waits and then brings the items up to date with their imports.
pub mod Moves
pub mod Round
pub mod Sound
pub mod Kept
use coppermind.Base.{
  ℕ, Bool, true, false, not, ◌&&◌, ◌||◌, Option, none, some, List, [], ◌∷◌, ◌++◌, all, any,
  if◌then◌else◌,
}
use coppermind.Base.Texts.{Text, codes, eqb}
use coppermind.Base.Dict.{Dict, insert}
use coppermind.Base.Attempt.{Attempt, raises, ok, ◌>>=◌}
use coppermind.Dropbox.{
  Bytes, Error, value_error, error_text, State, pending, importing, succeeded, failed, unsupported,
  Part, import_part, artifact_part, Marker, Item, Past, Records, ImportReceipt, is_import_succeeded,
  is_import_failed, Services, Python, Dropbox, expire, past_of, original, is_some,
}
use coppermind.Dropbox.Sidecar.{handler}

-- NO_KIND
abbrev pub no_kind : Text
no_kind =
    codes "No kind marker. Drop a sidecar named <filename>.kind containing the word artifact, "
    ++ codes "or upload through POST /v1/artifacts with kind: artifact. Original preserved."

unfoldable pub is_pending : State → Bool
is_pending pending = true
is_pending s = false

unfoldable pub is_importing : State → Bool
is_importing importing = true
is_importing s = false

unfoldable pub is_failed : State → Bool
is_failed failed = true
is_failed s = false

abbrev pub fail : Item → Error → Item
fail i e = record i { state = failed; error = error_text e }

abbrev pub park : Item → Item
park i = record i { state = unsupported; error = no_kind }

abbrev pub stored_as : ℕ → Text → Item → Item
stored_as now id i = record i {
  parts = artifact_part id ∷ [];
  state = succeeded;
  completed_at = some now;
}

abbrev pub import_as : Text → Item → Item
import_as id i = record i { parts = import_part id ∷ []; state = importing }

module _ {A : Type 0} (python : Python) (services : Services A) where
  open python use {suffix, is_iso_date}
  open services use {receipts, import_file, create_artifact}

  is_bad_date : Option Text → Bool
  is_bad_date none = false
  is_bad_date (some s) = not (is_iso_date s)

  -- `_store_artifact`
  unfoldable pub store_artifact : Item → Bytes → Marker → A → Attempt Error Text × A
  unfolding is_bad_date
  store_artifact i data_ marker a =
      if is_bad_date marker.date
      then (raises (value_error (codes "kind marker: date must be YYYY-MM-DD")), a)
      else create_artifact marker i.filename data_ a

  -- An item by what storing it, or importing it, came to.
  unfoldable pub after_store : ℕ → Item → Attempt Error Text → Item
  after_store now i (raises e) = fail i e
  after_store now i (ok id) = stored_as now id i

  unfoldable pub after_import : Item → Attempt Error Text → Item
  after_import i (raises e) = fail i e
  after_import i (ok id) = import_as id i

  adopt_artifact : ℕ → Item → Bytes → Marker → A → Item × A
  unfolding store_artifact after_store
  adopt_artifact now i data_ marker a =
      let (outcome, b) = store_artifact i data_ marker a in (after_store now i outcome, b)

  -- The name that an import is filed under.
  import_name : Text → Text → Text
  import_name filename ending =
      if eqb (suffix filename) ending then filename else filename ++ ending

  adopt_import : Item → Bytes → Option Text → A → Item × A
  unfolding after_import import_name
  adopt_import i data_ none a = (park i, a)
  adopt_import i data_ (some ending) a =
      let (outcome, b) = import_file (import_name i.filename ending) data_ i.filename a in
      (after_import i outcome, b)

  -- The marker of an item that says artifact.
  artifact_marker : Option Marker → Option Marker
  artifact_marker none = none
  artifact_marker (some k) = if eqb k.kind (codes "artifact") then some k else none

  adopt_data : ℕ → Item → Bytes → Option Marker → A → Item × A
  unfolding adopt_artifact adopt_import handler
  adopt_data now i data_ none a = adopt_import i data_ (handler python data_ i.filename) a
  adopt_data now i data_ (some k) a = adopt_artifact now i data_ k a

  adopt_original : ℕ → Item → Attempt Error Bytes → A → Item × A
  unfolding adopt_data artifact_marker
  adopt_original now i (raises e) a = (fail i e, a)
  adopt_original now i (ok data_) a = adopt_data now i data_ (artifact_marker i.kind) a

  -- The body of the first loop, for an item that waits.
  unfoldable pub adopt : ℕ → Dropbox A → Item → A → Item × A
  unfolding adopt_original original
  adopt now d i a = adopt_original now i (original python services d i.id) a

  -- The first loop, which ends at the first item that waits.
  unfoldable pub adopt_first : ℕ → Dropbox A → Dict Item → A → Dict Item × A
  unfolding adopt is_pending
  adopt_first now d [] a = ([], a)
  adopt_first now d ((k, i) ∷ items) a =
      let (i', b) = adopt now d i a in
      let (rest, c) = adopt_first now d items a in
      if is_pending i.state then ((k, i') ∷ items, b) else ((k, i) ∷ rest, c)

-- receipts[id] of {r.id: r for r in receipts}: the last receipt of that id
unfoldable pub or_first : Text → ImportReceipt → Option ImportReceipt → Option ImportReceipt
or_first id r (some q) = some q
or_first id r none = if eqb r.id id then some r else none

unfoldable pub receipt_of : Text → List ImportReceipt → Option ImportReceipt
unfolding or_first
receipt_of id [] = none
receipt_of id (r ∷ receipts) = or_first id r (receipt_of id receipts)

unfoldable pub is_import : Part → Bool
is_import (import_part id) = true
is_import (artifact_part id) = false

-- The receipts of parts that are imports; a KeyError carries the id that has none.
found_or : Text → Option ImportReceipt → Attempt Text ImportReceipt
found_or id none = raises id
found_or id (some r) = ok r

unfoldable pub imports_of : List ImportReceipt → List Part → Attempt Text (List ImportReceipt)
unfolding found_or receipt_of
imports_of receipts [] = ok []
imports_of receipts (artifact_part id ∷ parts) = raises []
imports_of receipts (import_part id ∷ parts) = do
  r ← found_or id (receipt_of id receipts)
  rest ← imports_of receipts parts
  ok (r ∷ rest)

first_error : List ImportReceipt → Text
first_error [] = []
first_error (r ∷ imports) =
    let rest = first_error imports in if is_import_failed r.state then r.error else rest

abbrev is_nil {ℓ} : {B : Type ℓ} → List B → Bool
is_nil [] = true
is_nil (b ∷ l) = false

-- The item whose imports have come to this.
unfoldable pub settled_by : ℕ → Item → List ImportReceipt → Item
unfolding first_error is_importing
settled_by now i imports =
    if all (λ r. is_import_succeeded r.state) imports
    then record i { state = succeeded; error = []; completed_at = some now }
    else if is_importing i.state && any (λ r. is_import_failed r.state) imports
    then record i { state = failed; error = first_error imports }
    else i

unfoldable pub waits_for_import : Item → Bool
unfolding is_importing is_failed is_import
waits_for_import i =
    (is_importing i.state || is_failed i.state) && not (is_nil i.parts) && all is_import i.parts

unfoldable pub settle : ℕ → List ImportReceipt → Item → Attempt Text Item
unfolding imports_of settled_by waits_for_import
settle now receipts i =
    let settled = imports_of receipts i.parts >>= λ imports. ok (settled_by now i imports) in
    if waits_for_import i then settled else ok i

-- The history with the item, unless that is still on its way.
unfoldable pub archived : Item → Dict Past → Dict Past
unfolding is_pending is_importing insert
archived i history =
    if is_pending i.state || is_importing i.state then history else insert i.id (past_of i) history

-- The second loop.
unfoldable pub settle_all :
    ℕ → List ImportReceipt → Dict Item → Dict Past → Attempt Text (Dict Item × Dict Past)
unfolding settle archived
settle_all now receipts [] history = ok ([], history)
settle_all now receipts ((k, i) ∷ items) history = do
  i' ← settle now receipts i
  (rest, history') ← settle_all now receipts items (archived i' history)
  ok ((k, i') ∷ rest, history')

-- Whether the first loop saves: an item waits.
unfoldable pub any_pending : Dict Item → Bool
unfolding is_pending
any_pending [] = false
any_pending ((k, i) ∷ items) = is_pending i.state || any_pending items

module _ {A : Type 0} (python : Python) (services : Services A) where
  open services use {receipts}

  after_first : Bool → Dict Item → A → Dropbox A → Dropbox A
  after_first true items a d = record d {
    records = record d.records { items = items };
    archive = a;
  }
  after_first false items a d = record d { archive = a }

  after_second :
      Attempt Text (Dict Item × Dict Past) → Dropbox A → Attempt Text (Unit {0}) × Dropbox A
  after_second (raises id) d = (raises id, d)
  after_second (ok (items, history)) d =
      (ok tt, record d { records = record d.records { items = items; history = history } })

  -- `process`, where `raises` is the KeyError of an import without a receipt
  unfoldable pub process : ℕ → Dropbox A → Attempt Text (Unit {0}) × Dropbox A
  unfolding expire adopt_first any_pending settle_all after_first after_second
  process now d =
      let live = expire now d.records.items in
      let (items, a) = adopt_first python services now d live d.archive in
      let saved = after_first (any_pending live) items a d in
      after_second (settle_all now (receipts a) items d.records.history) saved
