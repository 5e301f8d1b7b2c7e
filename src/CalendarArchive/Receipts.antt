-- ===== src/CalendarArchive/Receipts.antt =====
-- services/store/coppermind_store/calendar_archive.py keeps what the drop box relies on: an import has a
-- receipt, and no call loses one.
use coppermind.Base.{
  ◌≡◌, refl, sym, ◌∙◌, ap, subst, inl, inr, Bool, true, not, ◌&&◌, ◌||◌, Option, none, some, List,
  [], ◌∷◌, map, any, Bool-cases, arith,
}
use coppermind.Base.Texts.{Text, eqb, eqb_iff, eqb_refl}
use coppermind.Base.Dict.{lookup}
use coppermind.Base.Attempt.{Attempt, raises, ok, ok-injective}
use coppermind.Dropbox.{
  Bytes, Error, import_part, artifact_part, ImportReceipt, Marker, Python, is_some,
  is_import_failed,
}
use coppermind.Dropbox.Process.{receipt_of, or_first}
use coppermind.Dropbox.Process.Sound.{is_known, Keeps, Laws}
use coppermind.CalendarArchive.{
  Receipt, Archive, save, read_receipt, by_content, is_revived, revive, resubmit, submit_new,
  submit_content, submit_checked, submit, is_other, dismiss, dismiss_receipt, is_identity, seen_as,
  id_of, services, after_parse, Parsed,
}

-- A receipt of this id is there.
pub has : Text → List Receipt → Bool
has id imports = any (λ r. eqb r.id id) imports

has-save :
    (id : Text) (r : Receipt) (l : List Receipt) → has id (save r l) ≡ eqb r.id id || has id l
unfolding has save
has-save id r [] = refl
has-save id r (s ∷ l) = ground (arith, eqb_iff s.id r.id, has-save id r l)

-- What one list of receipts has, the other has.
pub Grows : List Receipt → List Receipt → Type 0
Grows before after = (id : Text) → has id before ≡ true → has id after ≡ true

Grows-refl : (l : List Receipt) → Grows l l
unfolding Grows
Grows-refl l id h = h

Grows-save : (r : Receipt) (l : List Receipt) → Grows l (save r l)
unfolding Grows
Grows-save r l id h = ground (arith, has-save id r l)

save-has : (r : Receipt) (l : List Receipt) → has r.id (save r l) ≡ true
save-has r l = ground (arith, has-save r.id r l, eqb_refl r.id)

head-has : (s r : Receipt) (l : List Receipt) → some s ≡ some r → has r.id (s ∷ l) ≡ true
unfolding has
head-has s r l h = subst (λ x. has x.id (s ∷ l) ≡ true) (same h) (rw (eqb_refl s.id) refl)
  where
    same : some s ≡ some r → s ≡ r
    same e = cc e

by_content-has :
    (d : Text) (l : List Receipt) (r : Receipt) → by_content d l ≡ some r → has r.id l ≡ true
unfolding by_content has
by_content-has d [] r h = cc
by_content-has d (s ∷ l) r h = elim (Bool-cases (eqb s.content_hash d)) [
  | inl e ↦ head-has s r l (rw e at h)
  | inr e ↦ ground (arith, by_content-has d l r (rw e at h))
]

read_receipt-has :
    (d : Text) (l : List Receipt) (r : Receipt) → read_receipt d l ≡ some r → has r.id l ≡ true
unfolding read_receipt has
read_receipt-has d [] r h = cc
read_receipt-has d (s ∷ l) r h = elim (Bool-cases (eqb s.id d)) [
  | inl e ↦ head-has s r l (rw e at h)
  | inr e ↦ ground (arith, read_receipt-has d l r (rw e at h))
]

is_some-or_first :
    (id : Text) (r : ImportReceipt) (o : Option ImportReceipt)
    → is_some (or_first id r o) ≡ eqb r.id id || is_some o
unfolding or_first
is_some-or_first id r none = ground arith
is_some-or_first id r (some q) = ground arith

known-has : (id : Text) (l : List Receipt) → is_known (map seen_as l) (import_part id) ≡ has id l
unfolding is_known receipt_of has
known-has id [] = refl
known-has id (r ∷ l) =
    is_some-or_first id (seen_as r) (receipt_of id (map seen_as l))
    ∙ ap (λ b. eqb r.id id || b) (known-has id l)

Grows-Keeps :
    (before after : List Receipt)
    → Grows before after
    → Keeps (map seen_as before) (map seen_as after)
unfolding Grows is_known
Grows-Keeps before after g (artifact_part id) h = cc h
Grows-Keeps before after g (import_part id) h =
    known-has id after ∙ g id (sym (known-has id before) ∙ h)

-- A receipt that an operation returns is among those that it leaves, and none is lost.
pub record Leaves (a : Archive) (r : Receipt) (b : Archive) : Type 0 where
  pub there : has r.id b.imports ≡ true
  pub grows : Grows a.imports b.imports

-- The same, where the operation may raise.
pub Returns : Archive → Attempt Error Receipt → Archive → Type 0
Returns a (raises e) b = Grows a.imports b.imports
Returns a (ok r) b = Leaves a r b

module _ (python : Python) where
  resubmit-Leaves :
      (r : Receipt) (a : Archive)
      → has r.id a.imports ≡ true
      → let (s, b) = resubmit python r a in Leaves a s b
  unfolding resubmit
  resubmit-Leaves r a h = elim (Bool-cases (is_revived r)) [
    | inl e ↦
        rw e
          record { there = save-has (revive r) a.imports; grows = Grows-save (revive r) a.imports }
    | inr e ↦ rw e record { there = h; grows = Grows-refl a.imports }
  ]

  submit_new-Returns :
      (r : Receipt) (data_ : Bytes) (old : Option Receipt) (a : Archive)
      → ((s : Receipt) → old ≡ some s → has s.id a.imports ≡ true)
      → let (o, b) = submit_new python r data_ old a in Returns a o b
  unfolding submit_new Returns
  submit_new-Returns r data_ (some old) a h = record {
    there = h old refl;
    grows = Grows-refl a.imports;
  }
  submit_new-Returns r data_ none a h =
      elim (Bool-cases (is_other python r.content_hash (lookup r.id a.originals))) [
        | inl e ↦ rw e (Grows-refl a.imports)
        | inr e ↦ rw e record { there = save-has r a.imports; grows = Grows-save r a.imports }
      ]

  submit_content-Returns :
      (r : Receipt) (data_ : Bytes) (existing : Option Receipt) (a : Archive)
      → ((s : Receipt) → existing ≡ some s → has s.id a.imports ≡ true)
      → let (o, b) = submit_content python r data_ existing a in Returns a o b
  unfolding submit_content Returns
  submit_content-Returns r data_ none a h =
      submit_new-Returns r data_ (read_receipt r.id a.imports) a
        (λ s e. read_receipt-has r.id a.imports s e)
  submit_content-Returns r data_ (some existing) a h = resubmit-Leaves existing a (h existing refl)

  submit_checked-Returns :
      (p : Option Error) (filename : Text) (data_ : Bytes) (export_filename : Text) (a : Archive)
      → let (o, b) = submit_checked python p filename data_ export_filename a in Returns a o b
  unfolding submit_checked Returns
  submit_checked-Returns (some e) filename data_ export_filename a = Grows-refl a.imports
  submit_checked-Returns none filename data_ export_filename a =
      submit_content-Returns _ data_ _ a (λ s e. by_content-has _ a.imports s e)

  pub submit-Returns :
      (filename : Text) (data_ : Bytes) (export_filename : Text) (a : Archive)
      → let (o, b) = submit python filename data_ export_filename a in Returns a o b
  unfolding submit
  submit-Returns filename data_ export_filename a =
      submit_checked-Returns _ filename data_ export_filename a

dismiss_receipt-Grows :
    (o : Option Receipt) (a : Archive) → Grows a.imports (dismiss_receipt o a).1.imports
unfolding dismiss_receipt
dismiss_receipt-Grows none a = Grows-refl a.imports
dismiss_receipt-Grows (some r) a = elim (Bool-cases (is_import_failed r.state && not r.dismissed)) [
  | inl e ↦ rw e (Grows-save (record r { dismissed = true }) a.imports)
  | inr e ↦ rw e (Grows-refl a.imports)
]

dismiss-Grows : (id : Text) (a : Archive) → Grows a.imports (dismiss id a).1.imports
unfolding dismiss
dismiss-Grows id a = elim (Bool-cases (is_identity id)) [
  | inl e ↦ rw e (dismiss_receipt-Grows _ a)
  | inr e ↦ rw e (Grows-refl a.imports)
]

Returns-Grows :
    (a b : Archive) (o : Attempt Error Receipt) → Returns a o b → Grows a.imports b.imports
unfolding Returns
Returns-Grows a b (raises e) h = h
Returns-Grows a b (ok r) h = h.grows

Returns-has :
    (a b : Archive) (o : Attempt Error Receipt) (id : Text)
    → Returns a o b
    → id_of o ≡ ok id
    → has id b.imports ≡ true
unfolding Returns id_of
Returns-has a b (raises e) id h n = cc n
Returns-has a b (ok r) id h n = subst (λ i. has i b.imports ≡ true) (ok-injective n) h.there

-- The archive keeps what the drop box relies on, with any artifact store beside it: an import that is
-- accepted has a receipt under the id that is returned, and neither an import nor a dismissal, whether
-- it succeeds or raises, loses a receipt.
pub services-Laws :
    {S : Type 0} (python : Python)
    (create_artifact : Marker → Text → Bytes → S → Attempt Error Text × S)
    → Laws (services python create_artifact)
unfolding services
services-Laws python create_artifact = record {
  imports = λ name data_ filename id w e.
      known-has id (submit python name data_ filename w.0).1.imports
      ∙ Returns-has w.0 _ _ id (submit-Returns python name data_ filename w.0) e;
  import_keeps = λ name data_ filename w.
      Grows-Keeps w.0.imports _
        (Returns-Grows w.0 _ _ (submit-Returns python name data_ filename w.0));
  dismiss_keeps = λ id w. Grows-Keeps w.0.imports _ (dismiss-Grows id w.0);
  create_keeps = λ marker filename data_ w p h. h;
}

module _ (python : Python) (parse : Receipt → Bytes → Parsed) where
  after_parse-Leaves :
      (r : Receipt) (p : Parsed) (a : Archive)
      → let (s, b) = after_parse python parse r p a in (s.id ≡ r.id) × Leaves a s b
  unfolding after_parse
  after_parse-Leaves r (raises (s, transient)) a =
      (refl, record { there = save-has _ a.imports; grows = Grows-save _ a.imports })
  after_parse-Leaves r (ok n) a =
      (refl, record { there = save-has _ a.imports; grows = Grows-save _ a.imports })
