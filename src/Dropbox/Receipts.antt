-- ===== src/Dropbox/Receipts.antt =====
-- services/store/coppermind_store/dropbox.py: `submit` and `dismiss` keep every receipt sound, and what a
-- dismissal of a sound receipt can come to.
use coppermind.Base.{
  ℕ, ◌≡◌, ◌≢◌, ◌⊎◌, refl, sym, ◌∙◌, subst, inl, inr, Bool, true, false, Option, none, some, List,
  [], ◌∷◌, all, Bool-cases, Option-cases, arith,
}
use coppermind.Base.Texts.{Text, eqb, eqb_refl, eqb_sound}
use coppermind.Base.Dict.{Dict, lookup, insert, remove, lookup-insert, lookup-remove}
use coppermind.Base.Attempt.{Attempt, raises, ok, ok-injective, Attempt-cases}
use coppermind.Dropbox.{
  Bytes, Error, State, failed, Part, import_part, artifact_part, Marker, Item, Past, ImportReceipt,
  Services, Python, Dropbox, is_completed, is_settled, in_flight, refusal, new_item, history_of,
  adopt_content, kept_or, submit, past_of,
}
use coppermind.Dropbox.Dismiss.{
  Refused, no_import, dismiss_parts, dismiss_failed, dismiss_item, dismiss,
}
use coppermind.Dropbox.Process.{is_pending, is_importing, is_failed, is_import}
use coppermind.Dropbox.Process.Sound.{IsSound, is_known, Keeps, Laws}
use coppermind.Dropbox.Process.Kept.{AllSound, AllSound-kept}
use coppermind.Dropbox.Intake.{kept_or-cases, submit-passes}

pub insert-AllSound :
    (receipts : List ImportReceipt) (k : Text) (i : Item) (items : Dict Item)
    → IsSound receipts k i
    → AllSound receipts items
    → AllSound receipts (insert k i items)
unfolding insert
insert-AllSound receipts k i [] s h = (s, tt)
insert-AllSound receipts k i ((j, l) ∷ items) s (t, h) = elim (Bool-cases (eqb j k)) [
  | inl e ↦ rw e (subst (λ x. IsSound receipts x i) (sym (eqb_sound j k e)) s, h)
  | inr e ↦ rw e (t, insert-AllSound receipts k i items s h)
]

remove-AllSound :
    (receipts : List ImportReceipt) (k : Text) (items : Dict Item)
    → AllSound receipts items
    → AllSound receipts (remove k items)
unfolding remove
remove-AllSound receipts k [] h = tt
remove-AllSound receipts k ((j, l) ∷ items) (t, h) = elim (Bool-cases (eqb j k)) [
  | inl e ↦ rw e (remove-AllSound receipts k items h)
  | inr e ↦ rw e (t, remove-AllSound receipts k items h)
]

lookup-AllSound :
    (receipts : List ImportReceipt) (k : Text) (i : Item) (items : Dict Item)
    → AllSound receipts items
    → lookup k items ≡ some i
    → IsSound receipts k i
unfolding lookup
lookup-AllSound receipts k i [] h e = cc
lookup-AllSound receipts k i ((j, l) ∷ items) (t, h) e = elim (Bool-cases (eqb j k)) [
  | inl f ↦
      subst (λ x. IsSound receipts x i) (eqb_sound j k f)
        (subst (λ x. IsSound receipts j x) (found f) t)
  | inr f ↦ lookup-AllSound receipts k i items h (rw f at e)
]
  where
    found : eqb j k ≡ true → l ≡ i
    found f = cc (rw f at e)

new_item-IsSound :
    (receipts : List ImportReceipt) (now : ℕ) (received digest filename : Text)
    (kind : Option Marker) (past : Option Past) (duplicate : Bool)
    → IsSound receipts digest (new_item now received digest filename kind past duplicate)
unfolding new_item is_pending is_importing is_failed is_completed
new_item-IsSound receipts now received digest filename kind past true = record {
  keyed = refl;
  waiting = λ h. cc h;
  on_its_way = λ h. cc h;
  known = λ h. cc h;
  timed = refl;
}
new_item-IsSound receipts now received digest filename kind past false = record {
  keyed = refl;
  waiting = λ h. refl;
  on_its_way = λ h. cc h;
  known = λ h. cc h;
  timed = refl;
}

module _ {A : Type 0} (python : Python) (services : Services A) where
  open services use {receipts}

  adopt_content-AllSound :
      (now : ℕ) (received filename : Text) (data_ : Bytes) (kind : Option Marker) (d : Dropbox A)
      → AllSound (receipts d.archive) d.records.items
      → let (i, e) = adopt_content python services now received filename data_ kind d in
        AllSound (receipts e.archive) e.records.items
  unfolding adopt_content
  adopt_content-AllSound now received filename data_ kind d h =
      insert-AllSound (receipts d.archive) (python.sha256 data_) _ d.records.items
        (new_item-IsSound (receipts d.archive) now received (python.sha256 data_) filename kind
          (history_of (python.sha256 data_) (receipts d.archive) d.records.history) _)
        h

  -- Whatever file is submitted: if every item is sound before, every item is sound afterwards.
  pub submit-AllSound :
      (now : ℕ) (received filename : Text) (data_ : Bytes) (kind : Option Marker) (d e : Dropbox A)
      (i : Item)
      → submit python services now received filename data_ kind d ≡ ok (i, e)
      → AllSound (receipts d.archive) d.records.items
      → AllSound (receipts e.archive) e.records.items
  unfolding submit
  submit-AllSound now received filename data_ kind d e i s h =
      elim (Option-cases (refusal filename data_ kind)) [
        | inl r ↦
            let passes = submit-passes python services now received filename data_ kind d r in
            subst (λ x. AllSound (receipts x.1.archive) x.1.records.items)
              (ok-injective (sym passes ∙ s)) (kept (kept_or-cases python services old d new))
        | inr r ↦ refused r.0 r.1
      ]
    where
      old : Option Item
      old = lookup (python.sha256 data_) d.records.items

      new : Item × Dropbox A
      new = adopt_content python services now received filename data_ kind d

      kept :
          ((i : Item) × (old ≡ some i)
              × (in_flight old ≡ true)
              × (kept_or python services old d new ≡ (i, d)))
            ⊎ ((in_flight old ≡ false) × (kept_or python services old d new ≡ new))
          → AllSound
              (receipts (kept_or python services old d new).1.archive)
              (kept_or python services old d new).1.records.items
      kept (inl c) = subst (λ x. AllSound (receipts x.1.archive) x.1.records.items) (sym c.3) h
      kept (inr c) =
          subst (λ x. AllSound (receipts x.1.archive) x.1.records.items) (sym c.1)
            (adopt_content-AllSound now received filename data_ kind d h)

      raised : (r : Error) → ◌≡◌ {A = Attempt Error (Item × Dropbox A)} (raises r) (ok (i, e)) → ⊥
      raised r n = cc n

      refused :
          (r : Error)
          → refusal filename data_ kind ≡ some r
          → AllSound (receipts e.archive) e.records.items
      refused r n = absurd (raised r (rw (submit, n) at s))

dismiss_parts-Keeps :
    {A : Type 0} (services : Services A) (laws : Laws services) (parts : List Part) (a : A)
    → Keeps (services.receipts a) (services.receipts (dismiss_parts services parts a).1)
unfolding dismiss_parts
dismiss_parts-Keeps services laws [] a = λ p h. h
dismiss_parts-Keeps services laws (artifact_part id ∷ parts) a = λ p h. h
dismiss_parts-Keeps services laws (import_part id ∷ parts) a =
    elim (Attempt-cases (services.dismiss_import id a).0) [
      | inl c ↦ rw (dismiss_parts, c.1) (laws.dismiss_keeps id a)
      | inr c ↦
          rw (dismiss_parts, c.1)
            (λ p h. dismiss_parts-Keeps services laws parts _ p (laws.dismiss_keeps id a p h))
    ]

dismiss_parts-imports :
    {A : Type 0} (services : Services A) (parts : List Part) (a : A)
    → all is_import parts ≡ true
    → (dismiss_parts services parts a).0 ≢ raises no_import
unfolding dismiss_parts is_import
dismiss_parts-imports services [] a h = λ e. cc e
dismiss_parts-imports services (artifact_part id ∷ parts) a h = cc h
dismiss_parts-imports services (import_part id ∷ parts) a h =
    elim (Attempt-cases (services.dismiss_import id a).0) [
      | inl c ↦ rw (dismiss_parts, c.1) (λ e. cc e)
      | inr c ↦ rw (dismiss_parts, c.1) (dismiss_parts-imports services parts _ h)
    ]

all_import :
    (receipts : List ImportReceipt) (parts : List Part)
    → all (is_known receipts) parts ≡ true
    → all is_import parts ≡ true
unfolding is_known is_import
all_import receipts [] h = refl
all_import receipts (import_part id ∷ parts) h = all_import receipts parts (grind arith)
all_import receipts (artifact_part id ∷ parts) h = cc

is_failed_sound : (s : State) → is_failed s ≡ true → s ≡ failed
unfolding is_failed
is_failed_sound s h = grind arith

module _ {A : Type 0} (services : Services A) (laws : Laws services) where
  open services use {receipts}

  dismiss_unfailed :
      (i : Item) (a : A) → is_failed i.state ≡ false → dismiss_failed services i a ≡ (ok tt, a)
  unfolding dismiss_failed is_failed
  dismiss_unfailed i a h = grind arith

  dismiss_failed-Keeps :
      (key : Text) (i : Item) (a : A)
      → IsSound (receipts a) key i
      → ((dismiss_failed services i a).0 ≢ raises no_import)
        × Keeps (receipts a) (receipts (dismiss_failed services i a).1)
  unfolding dismiss_failed
  dismiss_failed-Keeps key i a s = elim (Bool-cases (is_failed i.state)) [
    | inl f ↦
        let all = all_import (receipts a) i.parts (s.known (rw f grind arith)) in
        rw (dismiss_failed, is_failed_sound i.state f)
          (
            dismiss_parts-imports services i.parts a all,
            dismiss_parts-Keeps services laws i.parts a,
          )
    | inr f ↦ rw (dismiss_unfailed i a f) (λ e. cc e, λ p h. h)
  ]

  -- What a dismissal comes to, by its outcome.
  pub record Dismisses (identity : Text) (d : Dropbox A) (o : Attempt Refused (Unit {0}))
      (e : Dropbox A) : Type 0 where
    pub sound : AllSound (receipts e.archive) e.records.items
    pub imports_only : o ≢ raises no_import
    pub moved :
        o ≡ ok tt
        → (i : Item) × (lookup identity d.records.items ≡ some i)
          × (is_settled i.state ≡ true)
          × (lookup identity e.records.items ≡ none)
          × (lookup identity e.records.history ≡ some (past_of i))
    pub kept : o ≢ ok tt → e.records ≡ d.records

  dismiss_item-Dismisses :
      (identity : Text) (i : Item) (d : Dropbox A)
      → lookup identity d.records.items ≡ some i
      → AllSound (receipts d.archive) d.records.items
      → let (o, e) = dismiss_item services identity i d in Dismisses identity d o e
  unfolding dismiss_item
  dismiss_item-Dismisses identity i d l h = elim (Bool-cases (is_settled i.state)) [
    | inl s ↦
        let (only, keeps) =
          dismiss_failed-Keeps identity i d.archive
            (lookup-AllSound _ identity i d.records.items h l) in
        elim (Attempt-cases (dismiss_failed services i d.archive).0) [
          | inl c ↦
              rw (dismiss_item, s, c.1)
                record {
                  sound = AllSound-kept _ _ d.records.items keeps h;
                  imports_only = rw c.1 at only;
                  moved = λ e. cc e;
                  kept = λ e. refl;
                }
          | inr c ↦
              rw (dismiss_item, s, c.1)
                record {
                  sound =
                      remove-AllSound _ identity d.records.items
                        (AllSound-kept _ _ d.records.items keeps h);
                  imports_only = λ e. cc e;
                  moved = λ e. (
                    i,
                    l,
                    s,
                    rw (lookup-remove identity identity d.records.items, eqb_refl identity) refl,
                    rw
                        (
                          lookup-insert identity identity (past_of i) d.records.history,
                          eqb_refl identity,
                        )
                        refl,
                  );
                  kept = λ e. absurd (e refl);
                }
        ]
    | inr s ↦
        rw s record { sound = h; imports_only = λ e. cc e; moved = λ e. cc e; kept = λ e. refl }
  ]

  -- If every item is sound and the archive loses no receipt, then a dismissal leaves every item sound
  -- and never meets a part that is no import. Where it succeeds, the item was there and was completed,
  -- failed or unsupported; it is gone from the items, and its state and parts are in the history under
  -- its identity. Where it raises, the records are as before.
  pub dismiss-Dismisses :
      (identity : Text) (d : Dropbox A)
      → AllSound (receipts d.archive) d.records.items
      → let (o, e) = dismiss services identity d in Dismisses identity d o e
  unfolding dismiss
  dismiss-Dismisses identity d h = elim (Option-cases (lookup identity d.records.items)) [
    | inl n ↦
        rw (dismiss, n)
          record { sound = h; imports_only = λ e. cc e; moved = λ e. cc e; kept = λ e. refl }
    | inr s ↦ rw (dismiss, s.1) (dismiss_item-Dismisses identity s.0 d s.1 h)
  ]
