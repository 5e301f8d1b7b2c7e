-- ===== src/Dropbox/Process/Sound.antt =====
-- What holds of every receipt that services/store/coppermind_store/dropbox.py keeps, and that each
-- operation on them keeps it so.
use coppermind.Base.{
  ℕ, ◌≡◌, refl, ◌∙◌, inl, inr, Bool, true, false, ◌||◌, Option, none, some, List, [], ◌∷◌, all, any,
  Bool-cases, arith,
}
use coppermind.Base.Texts.{Text}
use coppermind.Base.Attempt.{Attempt, raises, ok}
use coppermind.Dropbox.{
  Bytes, Error, Part, import_part, artifact_part, Marker, Item, ImportReceipt, Services, Python,
  Dropbox, is_some, is_completed,
}
use coppermind.Dropbox.Process.{
  is_pending, is_importing, is_failed, adopt, adopt_original, adopt_data, adopt_import,
  adopt_artifact, after_store, after_import, artifact_marker, store_artifact, fail, receipt_of,
  import_name, is_bad_date,
}

-- The archive has a receipt of this import.
unfoldable pub is_known : List ImportReceipt → Part → Bool
is_known receipts (import_part id) = is_some (receipt_of id receipts)
is_known receipts (artifact_part id) = false

-- Every receipt of one list has one of its id in the other.
abbrev pub Keeps : List ImportReceipt → List ImportReceipt → Type 0
Keeps before after = (p : Part) → is_known before p ≡ true → is_known after p ≡ true

-- An item that waits has no parts yet; one that is being imported has some; the parts of one that is
-- being imported or has failed are imports that the archive knows; and exactly the completed ones
-- carry the time of their completion.
pub record IsSound (receipts : List ImportReceipt) (key : Text) (i : Item) : Type 0 where
  pub keyed : i.id ≡ key
  pub waiting : is_pending i.state ≡ true → i.parts ≡ []
  pub on_its_way : is_importing i.state ≡ true → any (is_known receipts) i.parts ≡ true
  pub known :
      is_importing i.state || is_failed i.state ≡ true → all (is_known receipts) i.parts ≡ true
  pub timed : is_some i.completed_at ≡ is_completed i.state

-- What the documented calls of the archive and of the artifact store leave of the receipts: an import
-- has one, and none is lost.
pub record Laws {A : Type 0} (services : Services A) : Type 0 where
  pub imports :
      (name : Text) (data_ : Bytes) (filename id : Text) (a : A)
      → (services.import_file name data_ filename a).0 ≡ ok id
      → is_known (services.receipts (services.import_file name data_ filename a).1) (import_part id)
        ≡ true
  pub import_keeps :
      (name : Text) (data_ : Bytes) (filename : Text) (a : A)
      → Keeps
          (services.receipts a)
          (services.receipts (services.import_file name data_ filename a).1)
  pub dismiss_keeps :
      (id : Text) (a : A)
      → Keeps (services.receipts a) (services.receipts (services.dismiss_import id a).1)
  pub create_keeps :
      (marker : Marker) (filename : Text) (data_ : Bytes) (a : A)
      → Keeps
          (services.receipts a)
          (services.receipts (services.create_artifact marker filename data_ a).1)

all_kept :
    (before after : List ImportReceipt)
    → Keeps before after
    → (parts : List Part) → all (is_known before) parts ≡ true
    → all (is_known after) parts ≡ true
all_kept before after keeps [] h = refl
all_kept before after keeps (p ∷ parts) h =
    ground (arith, keeps p, all_kept before after keeps parts)

any_kept :
    (before after : List ImportReceipt)
    → Keeps before after
    → (parts : List Part) → any (is_known before) parts ≡ true
    → any (is_known after) parts ≡ true
any_kept before after keeps [] h = h
any_kept before after keeps (p ∷ parts) h =
    ground (arith, keeps p, any_kept before after keeps parts)

pub IsSound-kept :
    {before after : List ImportReceipt} {key : Text} {i : Item}
    → Keeps before after
    → IsSound before key i
    → IsSound after key i
IsSound-kept {before} {after} {key} {i} keeps s = record {
  keyed = s.keyed;
  waiting = s.waiting;
  on_its_way = λ h. any_kept before after keeps i.parts (s.on_its_way h);
  known = λ h. all_kept before after keeps i.parts (s.known h);
  timed = s.timed;
}

module _ {A : Type 0} (python : Python) (services : Services A) (laws : Laws services) where
  open services use {receipts, import_file, create_artifact}

  -- What handing an item on comes to: it is sound by the receipts of then, and none is lost.
  abbrev pub Handed : Text → A → Item × A → Type 0
  Handed key a p = IsSound (receipts p.1) key p.0 × Keeps (receipts a) (receipts p.1)

  fail-IsSound :
      (key : Text) (i : Item) (e : Error) (rs : List ImportReceipt)
      → IsSound rs key i
      → is_pending i.state ≡ true
      → IsSound rs key (fail i e)
  unfolding is_pending is_importing is_failed is_completed
  fail-IsSound key i e rs s w = record {
    keyed = s.keyed;
    waiting = λ h. s.waiting w;
    on_its_way = λ h. cc h;
    known = λ h. rw (s.waiting w) refl;
    timed = s.timed ∙ grind arith;
  }

  after_store-IsSound :
      (now : ℕ) (key : Text) (i : Item) (rs : List ImportReceipt) (o : Attempt Error Text)
      → IsSound rs key i
      → is_pending i.state ≡ true
      → IsSound rs key (after_store python services now i o)
  unfolding after_store is_pending is_importing is_failed is_completed
  after_store-IsSound now key i rs (raises e) s w = fail-IsSound key i e rs s w
  after_store-IsSound now key i rs (ok id) s w = record {
    keyed = s.keyed;
    waiting = λ h. cc h;
    on_its_way = λ h. cc h;
    known = λ h. cc h;
    timed = refl;
  }

  after_import-IsSound :
      (key : Text) (i : Item) (rs : List ImportReceipt) (o : Attempt Error Text)
      → ((id : Text) → o ≡ ok id → is_known rs (import_part id) ≡ true)
      → IsSound rs key i
      → is_pending i.state ≡ true
      → IsSound rs key (after_import python services i o)
  unfolding after_import is_pending is_importing is_failed is_completed
  after_import-IsSound key i rs (raises e) k s w = fail-IsSound key i e rs s w
  after_import-IsSound key i rs (ok id) k s w = record {
    keyed = s.keyed;
    waiting = λ h. cc h;
    on_its_way = λ h. ground (arith, k id refl);
    known = λ h. ground (arith, k id refl);
    timed = s.timed ∙ grind arith;
  }

  adopt_import-IsSound :
      (key : Text) (i : Item) (data_ : Bytes) (h : Option Text) (a : A)
      → IsSound (receipts a) key i
      → is_pending i.state ≡ true
      → Handed key a (adopt_import python services i data_ h a)
  unfolding adopt_import is_pending is_importing is_failed is_completed
  adopt_import-IsSound key i data_ none a s w = (
    record {
      keyed = s.keyed;
      waiting = λ h. cc h;
      on_its_way = λ h. cc h;
      known = λ h. cc h;
      timed = s.timed ∙ grind arith;
    },
    λ p h. h,
  )
  adopt_import-IsSound key i data_ (some ending) a s w =
      let name = import_name python services i.filename ending in
      let keeps = laws.import_keeps name data_ i.filename a in
      (
        after_import-IsSound key i _ _ (λ id e. laws.imports name data_ i.filename id a e)
            (IsSound-kept keeps s) w,
        keeps,
      )

  store_artifact-Keeps :
      (i : Item) (data_ : Bytes) (k : Marker) (a : A)
      → Keeps (receipts a) (receipts (store_artifact python services i data_ k a).1)
  unfolding store_artifact
  store_artifact-Keeps i data_ k a = elim (Bool-cases (is_bad_date python services k.date)) [
    | inl b ↦ λ p h. rw (b, h) refl
    | inr b ↦ λ p h. rw b (laws.create_keeps k i.filename data_ a p h)
  ]

  adopt_artifact-IsSound :
      (now : ℕ) (key : Text) (i : Item) (data_ : Bytes) (k : Marker) (a : A)
      → IsSound (receipts a) key i
      → is_pending i.state ≡ true
      → Handed key a (adopt_artifact python services now i data_ k a)
  unfolding adopt_artifact
  adopt_artifact-IsSound now key i data_ k a s w =
      let keeps = store_artifact-Keeps i data_ k a in
      (after_store-IsSound now key i _ _ (IsSound-kept keeps s) w, keeps)

  adopt_original-IsSound :
      (now : ℕ) (key : Text) (i : Item) (o : Attempt Error Bytes) (a : A)
      → IsSound (receipts a) key i
      → is_pending i.state ≡ true
      → Handed key a (adopt_original python services now i o a)
  unfolding adopt_original adopt_data
  adopt_original-IsSound now key i (raises e) a s w = (fail-IsSound key i e _ s w, λ p h. h)
  adopt_original-IsSound now key i (ok data_) a s w =
      handed (artifact_marker python services i.kind)
    where
      handed : (k : Option Marker) → Handed key a (adopt_data python services now i data_ k a)
      handed none = adopt_import-IsSound key i data_ _ a s w
      handed (some k) = adopt_artifact-IsSound now key i data_ k a s w

  pub adopt-IsSound :
      (now : ℕ) (d : Dropbox A) (key : Text) (i : Item) (a : A)
      → IsSound (receipts a) key i
      → is_pending i.state ≡ true
      → Handed key a (adopt python services now d i a)
  unfolding adopt
  adopt-IsSound now d key i a s w = adopt_original-IsSound now key i _ a s w
