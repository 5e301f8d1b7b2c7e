-- ===== src/CalendarArchive/Catalog.antt =====
-- services/store/coppermind_store/calendar_archive.py: a receipt says that its import succeeded only if the
-- catalog lists it.
use coppermind.Base.{
  ◌≡◌, refl, sym, ◌∙◌, subst, inl, inr, Bool, true, not, ◌&&◌, ◌||◌, Option, none, some, List, [],
  ◌∷◌, ◌++◌, any, All, Bool-cases, arith,
}
use coppermind.Base.Texts.{precedes, Text, eqb, eqb_refl}
use coppermind.Base.Dict.{lookup}
use coppermind.Base.Attempt.{raises, ok}
use coppermind.Dropbox.{Bytes, Error, Python, is_import_succeeded, is_import_failed}
use coppermind.CalendarArchive.{
  Receipt, Archive, save, read_receipt, by_content, is_revived, revive, resubmit, submit_new,
  submit_content, submit_checked, new_receipt, submit, is_other, dismiss, dismiss_receipt,
  is_identity, process, process_receipt, process_original, after_parse, import_done, Parsed,
}

-- The catalog lists the import.
abbrev pub lists : List Text → Text → Bool
lists catalog id = any (λ i. eqb i id) catalog

abbrev pub IsListed : List Text → Receipt → Type 0
IsListed catalog r = is_import_succeeded r.state ≡ true → lists catalog r.id ≡ true

-- Every import that succeeded is listed.
abbrev pub AllListed : Archive → Type 0
AllListed a = All (IsListed a.catalog) a.imports

All-save :
    (P : Receipt → Type 0) (r : Receipt) (l : List Receipt) → P r → All P l → All P (save r l)
unfolding save
All-save P r [] p h = (p, tt)
All-save P r (s ∷ l) p (q, h) = elim (Bool-cases (eqb s.id r.id)) [
  | inl e ↦ rw e (p, h)
  | inr e ↦ elim (Bool-cases (precedes r.id s.id)) [
    | inl f ↦ rw (e, f) (p, (q, h))
    | inr f ↦ rw (e, f) (q, All-save P r l p h)
  ]
]

All-read_receipt :
    (P : Receipt → Type 0) (id : Text) (l : List Receipt) (r : Receipt)
    → All P l
    → read_receipt id l ≡ some r
    → P r
unfolding read_receipt
All-read_receipt P id [] r h e = cc e
All-read_receipt P id (s ∷ l) r (p, h) e = elim (Bool-cases (eqb s.id id)) [
  | inl f ↦ subst P (same (rw f at e)) p
  | inr f ↦ All-read_receipt P id l r h (rw f at e)
]
  where
    same : some s ≡ some r → s ≡ r
    same n = cc n

All-by_content :
    (P : Receipt → Type 0) (d : Text) (l : List Receipt) (r : Receipt)
    → All P l
    → by_content d l ≡ some r
    → P r
unfolding by_content
All-by_content P d [] r h e = cc e
All-by_content P d (s ∷ l) r (p, h) e = elim (Bool-cases (eqb s.content_hash d)) [
  | inl f ↦ subst P (same (rw f at e)) p
  | inr f ↦ All-by_content P d l r h (rw f at e)
]
  where
    same : some s ≡ some r → s ≡ r
    same n = cc n

lists-append : (c : List Text) (i id : Text) → lists (c ++ i ∷ []) id ≡ lists c id || eqb i id
lists-append [] i id = ground arith
lists-append (j ∷ c) i id = ground (arith, lists-append c i id)

IsListed-still :
    (c : List Text) (i : Text) (l : List Receipt)
    → All (IsListed c) l
    → All (IsListed (c ++ i ∷ [])) l
IsListed-still c i [] h = tt
IsListed-still c i (r ∷ l) (p, h) =
    (λ s. lists-append c i r.id ∙ rw (p s) refl, IsListed-still c i l h)

revive-IsListed : (c : List Text) (r : Receipt) → IsListed c r → IsListed c (revive r)
unfolding revive
revive-IsListed c r p = elim (Bool-cases (is_import_failed r.state && r.retryable)) [
  | inl e ↦ rw e (λ s. cc s)
  | inr e ↦ rw e p
]

module _ (python : Python) where
  resubmit-AllListed :
      (r : Receipt) (a : Archive)
      → IsListed a.catalog r
      → AllListed a
      → AllListed (resubmit python r a).1
  unfolding resubmit
  resubmit-AllListed r a p h = elim (Bool-cases (is_revived r)) [
    | inl e ↦
        rw e (All-save (IsListed a.catalog) (revive r) a.imports (revive-IsListed a.catalog r p) h)
    | inr e ↦ rw e h
  ]

  submit_new-AllListed :
      (r : Receipt) (data_ : Bytes) (old : Option Receipt) (a : Archive)
      → IsListed a.catalog r
      → AllListed a
      → AllListed (submit_new python r data_ old a).1
  unfolding submit_new
  submit_new-AllListed r data_ (some old) a p h = h
  submit_new-AllListed r data_ none a p h =
      elim (Bool-cases (is_other python r.content_hash (lookup r.id a.originals))) [
        | inl e ↦ rw e h
        | inr e ↦ rw e (All-save (IsListed a.catalog) r a.imports p h)
      ]

  submit_content-AllListed :
      (r : Receipt) (data_ : Bytes) (existing : Option Receipt) (a : Archive)
      → IsListed a.catalog r
      → ((s : Receipt) → existing ≡ some s → IsListed a.catalog s)
      → AllListed a
      → AllListed (submit_content python r data_ existing a).1
  unfolding submit_content
  submit_content-AllListed r data_ none a p q h = submit_new-AllListed r data_ _ a p h
  submit_content-AllListed r data_ (some s) a p q h = resubmit-AllListed s a (q s refl) h

  submit_checked-AllListed :
      (e : Option Error) (filename : Text) (data_ : Bytes) (export_filename : Text) (a : Archive)
      → AllListed a
      → AllListed (submit_checked python e filename data_ export_filename a).1
  unfolding submit_checked new_receipt
  submit_checked-AllListed (some e) filename data_ export_filename a h = h
  submit_checked-AllListed none filename data_ export_filename a h =
      submit_content-AllListed _ data_ _ a (λ s. cc s)
        (λ s e. All-by_content (IsListed a.catalog) _ a.imports s h e) h

  submit-AllListed :
      (filename : Text) (data_ : Bytes) (export_filename : Text) (a : Archive)
      → AllListed a
      → AllListed (submit python filename data_ export_filename a).1
  unfolding submit
  submit-AllListed filename data_ export_filename a h =
      submit_checked-AllListed _ filename data_ export_filename a h

dismiss_receipt-AllListed :
    (o : Option Receipt) (a : Archive)
    → ((s : Receipt) → o ≡ some s → IsListed a.catalog s)
    → AllListed a
    → AllListed (dismiss_receipt o a).1
unfolding dismiss_receipt
dismiss_receipt-AllListed none a q h = h
dismiss_receipt-AllListed (some r) a q h =
    elim (Bool-cases (is_import_failed r.state && not r.dismissed)) [
      | inl e ↦
          rw e
            (All-save (IsListed a.catalog) (record r { dismissed = true }) a.imports (q r refl) h)
      | inr e ↦ rw e h
    ]

dismiss-AllListed : (id : Text) (a : Archive) → AllListed a → AllListed (dismiss id a).1
unfolding dismiss
dismiss-AllListed id a h = elim (Bool-cases (is_identity id)) [
  | inl e ↦ rw e (
      dismiss_receipt-AllListed _ a
        (λ s f. All-read_receipt (IsListed a.catalog) id a.imports s h f) h)
  | inr e ↦ rw e h
]

module _ (python : Python) (parse : Receipt → Bytes → Parsed) where
  after_parse-AllListed :
      (r : Receipt) (p : Parsed) (a : Archive)
      → AllListed a
      → AllListed (after_parse python parse r p a).1
  unfolding after_parse
  after_parse-AllListed r (raises (s, transient)) a h =
      All-save (IsListed a.catalog) _ a.imports (λ n. cc n) h
  after_parse-AllListed r (ok n) a h =
      All-save (IsListed (a.catalog ++ r.id ∷ [])) _ a.imports
        (λ s. lists-append a.catalog r.id r.id ∙ ground (arith, eqb_refl r.id))
        (IsListed-still a.catalog r.id a.imports h)

  process_original-AllListed :
      (r : Receipt) (o : Option Bytes) (a : Archive)
      → AllListed a
      → AllListed (process_original python parse r o a).1
  unfolding process_original
  process_original-AllListed r none a h = h
  process_original-AllListed r (some data_) a h =
      elim (Bool-cases (eqb (python.sha256 data_) r.content_hash)) [
        | inl e ↦ rw e (after_parse-AllListed r (parse r data_) a h)
        | inr e ↦ rw e h
      ]

  process_receipt-AllListed :
      (o : Option Receipt) (a : Archive)
      → AllListed a
      → AllListed (process_receipt python parse o a).1
  unfolding process_receipt
  process_receipt-AllListed none a h = h
  process_receipt-AllListed (some r) a h = elim (Bool-cases (lists a.catalog r.id)) [
    | inl e ↦ rw e (All-save (IsListed a.catalog) (import_done r) a.imports (λ s. e) h)
    | inr e ↦ rw e (process_original-AllListed r (lookup r.id a.originals) a h)
  ]

  process-AllListed :
      (id : Text) (a : Archive) → AllListed a → AllListed (process python parse id a).1
  unfolding process
  process-AllListed id a h = elim (Bool-cases (is_identity id)) [
    | inl e ↦ rw e (process_receipt-AllListed _ a h)
    | inr e ↦ rw e h
  ]

  -- The operations of the archive, each whatever it comes to.
  pub data Step (a : Archive) : Archive → Type 0 where
    submits :
        (filename : Text) (data_ : Bytes) (export_filename : Text)
        → Step a (submit python filename data_ export_filename a).1
    dismisses : (id : Text) → Step a (dismiss id a).1
    processes : (id : Text) → Step a (process python parse id a).1

  pub data Reachable : Archive → Type 0 where
    empty : {a : Archive} → a.imports ≡ [] → Reachable a
    step : {a b : Archive} → Reachable a → Step a b → Reachable b

  -- In every state that the archive can come to, whatever the parsing of the files comes to, a receipt
  -- that says its import succeeded is that of an import which the catalog lists.
  pub reachable-AllListed : (a : Archive) → Reachable a → AllListed a
  reachable-AllListed a (empty e) = subst (All (IsListed a.catalog)) (sym e) tt
  reachable-AllListed _ (step {a} r (submits filename data_ export_filename)) =
      submit-AllListed python filename data_ export_filename a (reachable-AllListed a r)
  reachable-AllListed _ (step {a} r (dismisses id)) =
      dismiss-AllListed id a (reachable-AllListed a r)
  reachable-AllListed _ (step {a} r (processes id)) =
      process-AllListed id a (reachable-AllListed a r)
