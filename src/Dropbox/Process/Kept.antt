-- ===== src/Dropbox/Process/Kept.antt =====
-- A round of services/store/coppermind_store/dropbox.py's `process` on sound items: no import lacks its
-- receipt, and the items are sound afterwards.
use coppermind.Base.{
  ℕ, ◌≡◌, refl, sym, ◌∙◌, subst, inl, inr, Bool, true, false, ◌&&◌, ◌||◌, Option, none, some, List,
  [], ◌∷◌, all, any, Bool-cases, arith,
}
use coppermind.Base.Texts.{Text}
use coppermind.Base.Dict.{Dict}
use coppermind.Base.Attempt.{ok}
use coppermind.Dropbox.{
  Part, import_part, artifact_part, Item, Past, ImportReceipt, is_import_succeeded,
  is_import_failed, Services, Python, Dropbox, is_some, is_completed, expire, stays,
}
use coppermind.Dropbox.Process.{
  is_pending, is_importing, is_failed, adopt_first, settle, settle_all, settled_by, imports_of,
  waits_for_import, receipt_of, found_or, archived, process, after_first, after_second, any_pending,
}
use coppermind.Dropbox.Process.Sound.{IsSound, is_known, Keeps, Laws, IsSound-kept, adopt-IsSound}

-- Every item is sound under its key.
abbrev pub AllSound : List ImportReceipt → Dict Item → Type 0
AllSound receipts [] = Unit
AllSound receipts ((k, i) ∷ items) = IsSound receipts k i × AllSound receipts items

pub AllSound-kept :
    (before after : List ImportReceipt) (items : Dict Item)
    → Keeps before after
    → AllSound before items
    → AllSound after items
AllSound-kept before after [] keeps h = tt
AllSound-kept before after ((k, i) ∷ items) keeps (s, h) =
    (IsSound-kept keeps s, AllSound-kept before after items keeps h)

found_or-ok :
    (id : Text) (o : Option ImportReceipt)
    → is_some o ≡ true
    → (r : ImportReceipt) × (found_or id o ≡ ok r)
unfolding found_or
found_or-ok id none h = cc
found_or-ok id (some r) h = (r, refl)

imports_of-ok :
    (receipts : List ImportReceipt) (parts : List Part)
    → all (is_known receipts) parts ≡ true
    → (imports : List ImportReceipt) × (imports_of receipts parts ≡ ok imports)
unfolding imports_of is_known
imports_of-ok receipts [] h = ([], refl)
imports_of-ok receipts (artifact_part id ∷ parts) h = cc
imports_of-ok receipts (import_part id ∷ parts) h =
    let (r, e) = found_or-ok id (receipt_of id receipts) (grind arith) in
    let (imports, f) = imports_of-ok receipts parts (grind arith) in (r ∷ imports, rw (e, f) refl)

settled_by-IsSound :
    (now : ℕ) (receipts imports : List ImportReceipt) (k : Text) (i : Item)
    → IsSound receipts k i
    → is_importing i.state || is_failed i.state ≡ true
    → IsSound receipts k (settled_by now i imports)
unfolding settled_by is_pending is_importing is_failed is_completed
settled_by-IsSound now receipts imports k i s w =
    elim (Bool-cases (all (λ r. is_import_succeeded r.state) imports)) [
      | inl a ↦ rw a (record {
        keyed = s.keyed;
        waiting = λ h. cc h;
        on_its_way = λ h. cc h;
        known = λ h. cc h;
        timed = refl;
      })
      | inr a ↦
          elim (Bool-cases (is_importing i.state && any (λ r. is_import_failed r.state) imports)) [
            | inl f ↦
                rw (a, f)
                  (record {
                    keyed = s.keyed;
                    waiting = λ h. cc h;
                    on_its_way = λ h. cc h;
                    known = λ h. s.known w;
                    timed = s.timed ∙ grind arith;
                  })
            | inr f ↦ rw (a, f) s
          ]
    ]

settle-ok :
    (now : ℕ) (receipts : List ImportReceipt) (k : Text) (i : Item)
    → IsSound receipts k i
    → (j : Item) × (settle now receipts i ≡ ok j) × IsSound receipts k j
unfolding settle
settle-ok now receipts k i s = elim (Bool-cases (waits_for_import i)) [
  | inl w ↦
      let moving = moves w in
      let (imports, e) = imports_of-ok receipts i.parts (s.known moving) in
      (
        settled_by now i imports,
        rw (w, e) refl,
        settled_by-IsSound now receipts imports k i s moving,
      )
  | inr w ↦ (i, rw w refl, s)
]
  where
    moves : waits_for_import i ≡ true → is_importing i.state || is_failed i.state ≡ true
    moves w = unfold waits_for_import in grind arith

settle_all-ok :
    (now : ℕ) (receipts : List ImportReceipt) (items : Dict Item) (history : Dict Past)
    → AllSound receipts items
    → (r : Dict Item × Dict Past) × (settle_all now receipts items history ≡ ok r)
      × AllSound receipts r.0
unfolding settle_all
settle_all-ok now receipts [] history h = (([], history), refl, tt)
settle_all-ok now receipts ((k, i) ∷ items) history (s, h) =
    let (j, e, t) = settle-ok now receipts k i s in
    let (r, f, u) = settle_all-ok now receipts items (archived j history) h in
    (((k, j) ∷ r.0, r.1), rw (e, f) refl, (t, u))

expire-AllSound :
    (now : ℕ) (receipts : List ImportReceipt) (items : Dict Item)
    → AllSound receipts items
    → AllSound receipts (expire now items)
unfolding expire
expire-AllSound now receipts [] h = tt
expire-AllSound now receipts ((k, i) ∷ items) (s, h) = elim (Bool-cases (stays now i)) [
  | inl e ↦ rw e (s, expire-AllSound now receipts items h)
  | inr e ↦ rw e (expire-AllSound now receipts items h)
]

module _ {A : Type 0} (python : Python) (services : Services A) (laws : Laws services) where
  open services use {receipts}

  adopt_first-AllSound :
      (now : ℕ) (d : Dropbox A) (items : Dict Item) (a : A)
      → AllSound (receipts a) items
      → let (after, b) = adopt_first python services now d items a in
        AllSound (receipts b) after × Keeps (receipts a) (receipts b)
  unfolding adopt_first
  adopt_first-AllSound now d [] a h = (tt, λ p h. h)
  adopt_first-AllSound now d ((k, i) ∷ items) a (s, h) = elim (Bool-cases (is_pending i.state)) [
    | inl w ↦
        let (t, keeps) = adopt-IsSound python services laws now d k i a s w in
        rw w ((t, AllSound-kept _ _ items keeps h), keeps)
    | inr w ↦
        let (t, keeps) = adopt_first-AllSound now d items a h in
        rw w ((IsSound-kept keeps s, t), keeps)
  ]

  archive-after_first :
      (saves : Bool) (items : Dict Item) (a : A) (d : Dropbox A)
      → (after_first python services saves items a d).archive ≡ a
  unfolding after_first
  archive-after_first true items a d = refl
  archive-after_first false items a d = refl

  -- If every item is sound by the receipts of the archive, and importing, dismissing and storing lose
  -- no receipt and give each import one, then a round of `process` never fails for want of a receipt,
  -- and every item is sound afterwards.
  pub process-AllSound :
      (now : ℕ) (d : Dropbox A)
      → AllSound (receipts d.archive) d.records.items
      → (e : Dropbox A) × (process python services now d ≡ (ok tt, e))
        × AllSound (receipts e.archive) e.records.items
  unfolding process after_second
  process-AllSound now d h =
      let live = expire now d.records.items in
      let first = adopt_first python services now d live d.archive in
      let (sound, keeps) =
        adopt_first-AllSound now d live d.archive (expire-AllSound now _ d.records.items h) in
      let (r, e, t) = settle_all-ok now (receipts first.1) first.0 d.records.history sound in
      let saved = after_first python services (any_pending live) first.0 first.1 d in
      (
        record saved { records = record saved.records { items = r.0; history = r.1 } },
        rw e refl,
        subst (λ b. AllSound (receipts b) r.0)
            (sym (archive-after_first (any_pending live) first.0 first.1 d)) t,
      )
