-- ===== src/CalendarArchive.antt =====
-- services/store/coppermind_store/calendar_archive.py: the receipts of imported calendar files, which the
-- drop box hands its files to.
pub mod Receipts
pub mod Catalog
mod Examples
use coppermind.Base.{
  ℕ, Bool, true, false, not, ◌&&◌, ◌||◌, Option, none, some, List, [], ◌∷◌, ◌++◌, map, length, ltb,
  leb, all, any, ◌==◌, if◌then◌else◌,
}
use coppermind.Base.Texts.{precedes, Text, codes, eqb, is_empty, rstrip}
use coppermind.Base.Dict.{Dict, lookup, insert, has_key}
use coppermind.Base.Attempt.{Attempt, raises, ok, ◌>>=◌}
use coppermind.Dropbox.{
  Bytes, Error, value_error, os_error, ImportState, import_pending, import_succeeded, import_failed,
  ImportReceipt, Marker, Services, Python, max_upload, is_import_failed,
}

-- ImportReceipt, without the times and what only a migration sets
pub record Receipt : Type 0 where
  pub id : Text
  pub filename : Text
  pub content_hash : Text
  pub state : ImportState
  pub event_count : ℕ
  pub error : Text
  pub export_filename : Text
  pub dismissed : Bool
  pub retryable : Bool

-- The folder imports: the receipt files, each under its receipt's id, in the order of their paths, and
-- the originals; and the imports that the catalog lists.
pub record Archive : Type 0 where
  pub imports : List Receipt
  pub originals : Dict Bytes
  pub catalog : List Text

-- `_save_receipt`
unfoldable pub save : Receipt → List Receipt → List Receipt
unfolding precedes
save r [] = r ∷ []
save r (s ∷ imports) =
    let rest = save r imports in
    if eqb s.id r.id then r ∷ imports else if precedes r.id s.id then r ∷ s ∷ imports else s ∷ rest

-- The receipt that the file of an id holds.
unfoldable pub read_receipt : Text → List Receipt → Option Receipt
read_receipt id [] = none
read_receipt id (r ∷ imports) = if eqb r.id id then some r else read_receipt id imports

-- The first receipt of a content.
unfoldable pub by_content : Text → List Receipt → Option Receipt
by_content digest [] = none
by_content digest (r ∷ imports) =
    if eqb r.content_hash digest then some r else by_content digest imports

-- re.fullmatch(r"[a-f0-9]{64}", receipt_id)
is_hex : ℕ → Bool
is_hex c = leb b'a' c && leb c b'f' || leb b'0' c && leb c b'9'

unfoldable pub is_identity : Text → Bool
unfolding is_hex
is_identity s = length s == 64 && all is_hex s

-- A receipt whose file may be tried again: dismissed, or failed for a reason that passes.
unfoldable pub is_revived : Receipt → Bool
is_revived r = r.dismissed || is_import_failed r.state && r.retryable

unfoldable pub revive : Receipt → Receipt
revive r =
    if is_import_failed r.state && r.retryable
    then record r { dismissed = false; state = import_pending; error = [] }
    else record r { dismissed = false }

abbrev pub with_imports : Archive → List Receipt → Archive
with_imports a imports = record a { imports = imports }

module _ (python : Python) where
  open python use {sha256, suffix, encode}

  -- The guards of `submit`; the calendar's identity is the shipped one, and the limit the default.
  unfoldable pub submit_problem : Text → Bytes → Option Error
  submit_problem filename data_ =
      let ending = suffix filename in
      if ltb max_upload (length data_)
      then some (value_error (codes "calendar upload exceeds 200 MB"))
      else if is_empty filename || ltb 255 (length filename) || any (λ c. ltb c 32) filename
      then some (value_error (codes "invalid upload filename"))
      else if not (eqb ending (codes ".ics") || eqb ending (codes ".zip"))
      then some (value_error (codes "expected an ICS or ZIP file"))
      else none

  -- sha256(f"{suffix}\0{digest}")
  unfoldable pub identity_of : Text → Text → Text
  identity_of filename digest = sha256 (encode (suffix filename ++ 0 ∷ digest))

  -- export_filename or filename
  filename_or : Text → Text → Text
  filename_or filename [] = filename
  filename_or filename (c ∷ s) = c ∷ s

  unfoldable pub new_receipt : Text → Text → Text → Receipt
  unfolding identity_of filename_or
  new_receipt filename digest export_filename = record {
    id = identity_of filename digest;
    filename = filename;
    content_hash = digest;
    state = import_pending;
    event_count = 0;
    error = [];
    export_filename = filename_or filename export_filename;
    dismissed = false;
    retryable = false;
  }

  -- The branch of a content that is archived already.
  unfoldable pub resubmit : Receipt → Archive → Receipt × Archive
  unfolding is_revived revive save
  resubmit r a =
      if is_revived r then (revive r, with_imports a (save (revive r) a.imports)) else (r, a)

  -- The original that is there: it must be the same bytes.
  is_other : Text → Option Bytes → Bool
  is_other digest none = false
  is_other digest (some data_) = not (eqb (sha256 data_) digest)

  -- Writes the original, if it is not there.
  filed : Text → Bytes → Dict Bytes → Dict Bytes
  unfolding has_key insert
  filed identity data_ originals =
      if has_key identity originals then originals else insert identity data_ originals

  -- The branch of a content that is new, whose receipt's file may be there all the same.
  unfoldable pub submit_new :
      Receipt → Bytes → Option Receipt → Archive → Attempt Error Receipt × Archive
  unfolding is_other filed save lookup
  submit_new r data_ (some old) a = (ok old, a)
  submit_new r data_ none a =
      if is_other r.content_hash (lookup r.id a.originals)
      then (raises (value_error (codes "archived original failed its integrity check")), a)
      else (ok r, record a { imports = save r a.imports; originals = filed r.id data_ a.originals })

  unfoldable pub submit_content :
      Receipt → Bytes → Option Receipt → Archive → Attempt Error Receipt × Archive
  unfolding resubmit submit_new read_receipt
  submit_content r data_ (some existing) a = let (s, b) = resubmit existing a in (ok s, b)
  submit_content r data_ none a = submit_new r data_ (read_receipt r.id a.imports) a

  submit_checked : Option Error → Text → Bytes → Text → Archive → Attempt Error Receipt × Archive
  unfolding submit_content new_receipt by_content
  submit_checked (some e) filename data_ export_filename a = (raises e, a)
  submit_checked none filename data_ export_filename a =
      let digest = sha256 data_ in
      submit_content (new_receipt filename digest export_filename) data_
        (by_content digest a.imports) a

  -- `submit`
  unfoldable pub submit : Text → Bytes → Text → Archive → Attempt Error Receipt × Archive
  unfolding submit_checked submit_problem
  submit filename data_ export_filename a =
      submit_checked (submit_problem filename data_) filename data_ export_filename a

no_file : Error
no_file = os_error (codes "No such file or directory")

bad_identity : Error
bad_identity = value_error (codes "invalid import identity")

-- `dismiss`, from the receipt's file on
unfoldable pub dismiss_receipt : Option Receipt → Archive → Attempt Error (Unit {0}) × Archive
unfolding save no_file
dismiss_receipt none a = (raises no_file, a)
dismiss_receipt (some r) a =
    if is_import_failed r.state && not r.dismissed
    then (ok tt, with_imports a (save (record r { dismissed = true }) a.imports))
    else (ok tt, a)

unfoldable pub dismiss : Text → Archive → Attempt Error (Unit {0}) × Archive
unfolding is_identity dismiss_receipt read_receipt bad_identity
dismiss id a =
    if is_identity id
    then dismiss_receipt (read_receipt id a.imports) a
    else (raises bad_identity, a)

-- What the parsing and the transaction of an import come to: the number of its events, or a
-- CalendarImportError with its text and whether it is one that passes.
abbrev pub Parsed : Type 0
Parsed = Attempt (Text × Bool) ℕ

-- f"{str(exc).rstrip('.')}. Drop the export again to retry." or str(exc)
retry_text : Text → Bool → Text
unfolding rstrip
retry_text s true = rstrip (λ c. c == b'.') s ++ codes ". Drop the export again to retry."
retry_text s false = s

abbrev import_done : Receipt → Receipt
import_done r = record r { state = import_succeeded; error = [] }

module _ (python : Python) (parse : Receipt → Bytes → Parsed) where
  open python use {sha256}

  -- The receipt and the catalog by what the import came to.
  unfoldable pub after_parse : Receipt → Parsed → Archive → Receipt × Archive
  unfolding save retry_text
  after_parse r (raises (s, transient)) a =
      let failed_receipt = record r {
        state = import_failed;
        retryable = transient;
        error = retry_text s transient;
        dismissed = false;
      } in
      (failed_receipt, with_imports a (save failed_receipt a.imports))
  after_parse r (ok n) a =
      let done = import_done (record r { event_count = n }) in
      (done, record a { imports = save done a.imports; catalog = a.catalog ++ r.id ∷ [] })

  process_original : Receipt → Option Bytes → Archive → Attempt Error Receipt × Archive
  unfolding after_parse no_file
  process_original r none a = (raises no_file, a)
  process_original r (some data_) a =
      if eqb (sha256 data_) r.content_hash
      then (let (s, b) = after_parse r (parse r data_) a in (ok s, b))
      else (raises (value_error (codes "archived original failed its integrity check")), a)

  unfoldable pub process_receipt : Option Receipt → Archive → Attempt Error Receipt × Archive
  unfolding process_original save lookup no_file
  process_receipt none a = (raises no_file, a)
  process_receipt (some r) a =
      if any (λ id. eqb id r.id) a.catalog
      then (ok (import_done r), with_imports a (save (import_done r) a.imports))
      else process_original r (lookup r.id a.originals) a

  -- `process`
  unfoldable pub process : Text → Archive → Attempt Error Receipt × Archive
  unfolding is_identity process_receipt read_receipt bad_identity
  process id a =
      if is_identity id
      then process_receipt (read_receipt id a.imports) a
      else (raises bad_identity, a)

-- What the drop box reads of a receipt.
abbrev pub seen_as : Receipt → ImportReceipt
seen_as r = record { id = r.id; content_hash = r.content_hash; state = r.state; error = r.error }

abbrev id_of : Attempt Error Receipt → Attempt Error Text
id_of (raises e) = raises e
id_of (ok r) = ok r.id

-- The archive and an artifact store, as the drop box calls them.
unfoldable pub services :
    {S : Type 0}
    → Python
    → (Marker → Text → Bytes → S → Attempt Error Text × S)
    → Services (Archive × S)
unfolding submit dismiss
services python create_artifact = record {
  receipts = λ w. map seen_as w.0.imports;
  import_file = λ name data_ filename w.
      let (outcome, a) = submit python name data_ filename w.0 in (id_of outcome, (a, w.1));
  dismiss_import = λ id w. let (outcome, a) = dismiss id w.0 in (outcome, (a, w.1));
  create_artifact = λ marker filename data_ w.
      let (outcome, s) = create_artifact marker filename data_ w.1 in (outcome, (w.0, s));
}
