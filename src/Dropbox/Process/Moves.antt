-- ===== src/Dropbox/Process/Moves.antt =====
-- The states that an item goes through in a round of services/store/coppermind_store/dropbox.py's
-- `process`, and what it keeps.
use coppermind.Base.{
  ℕ, suc, ◌-◌, ◌≡◌, refl, ◌∙◌, subst, inl, inr, Bool, true, false, ◌&&◌, ◌||◌, Option, none, some,
  List, [], ◌∷◌, all, any, Bool-cases, if◌then◌else◌, arith,
}
use coppermind.Base.Texts.{Text}
use coppermind.Base.Dict.{Dict}
use coppermind.Base.Attempt.{Attempt, raises, ok, >>=-Succeeds, through, ok-injective}
use coppermind.Dropbox.{
  Bytes, Error, State, pending, importing, succeeded, already_imported, failed, unsupported, Marker,
  Item, Past, ImportReceipt, is_import_succeeded, is_import_failed, Services, Python, Dropbox,
}
use coppermind.Dropbox.Process.{
  is_pending, is_importing, is_failed, adopt, adopt_first, adopt_original, adopt_data, adopt_import,
  adopt_artifact, after_store, after_import, settle, settled_by, settle_all, imports_of,
  waits_for_import, fail,
}

-- Which states may follow a state, in one round or in several.
unfoldable pub may_become : State → State → Bool
may_become pending already_imported = false
may_become pending t = true
may_become importing importing = true
may_become importing succeeded = true
may_become importing failed = true
may_become importing t = false
may_become failed failed = true
may_become failed succeeded = true
may_become failed t = false
may_become succeeded succeeded = true
may_become succeeded t = false
may_become already_imported already_imported = true
may_become already_imported t = false
may_become unsupported unsupported = true
may_become unsupported t = false

may_become_refl : (s : State) → may_become s s ≡ true
unfolding may_become
may_become_refl s = grind arith

may_become_trans :
    (s t u : State) → may_become s t ≡ true → may_become t u ≡ true → may_become s u ≡ true
unfolding may_become
may_become_trans s t u h k = grind arith

-- What an item keeps while its state moves on.
pub record Moves (i j : Item) : Type 0 where
  pub same_id : j.id ≡ i.id
  pub same_filename : j.filename ≡ i.filename
  pub same_kind : j.kind ≡ i.kind
  pub moved : may_become i.state j.state ≡ true

Moves-refl : (i : Item) → Moves i i
Moves-refl i = record {
  same_id = refl;
  same_filename = refl;
  same_kind = refl;
  moved = may_become_refl i.state;
}

pub Moves-trans : (i j k : Item) → Moves i j → Moves j k → Moves i k
Moves-trans i j k m n = record {
  same_id = n.same_id ∙ m.same_id;
  same_filename = n.same_filename ∙ m.same_filename;
  same_kind = n.same_kind ∙ m.same_kind;
  moved = may_become_trans i.state j.state k.state m.moved n.moved;
}

-- The items of one list and those of another, key by key.
pub data Follows : Dict Item → Dict Item → Type 0 where
  none_left : Follows [] []
  next :
      (k : Text) {i j : Item} {before after : Dict Item}
      → Moves i j
      → Follows before after
      → Follows ((k, i) ∷ before) ((k, j) ∷ after)

Follows-refl : (items : Dict Item) → Follows items items
Follows-refl [] = none_left
Follows-refl ((k, i) ∷ items) = next k (Moves-refl i) (Follows-refl items)

-- An item that waits leaves that state, with all it keeps.
pub data Leaves (i : Item) : Item → Type 0 where
  leaves : {j : Item} → Moves i j → is_pending j.state ≡ false → Leaves i j

leave :
    (i j : Item)
    → i.state ≡ pending
    → j.id ≡ i.id
    → j.filename ≡ i.filename
    → j.kind ≡ i.kind
    → is_pending j.state ≡ false
    → may_become pending j.state ≡ true
    → Leaves i j
leave i j e a b c left legal =
    leaves (record { same_id = a; same_filename = b; same_kind = c; moved = rw e legal }) left

module _ {A : Type 0} (python : Python) (services : Services A) where
  open services use {import_file}

  adopt-fail : (i : Item) (e : Error) → i.state ≡ pending → Leaves i (fail i e)
  adopt-fail i e w =
      leave i (fail i e) w refl refl refl (unfold is_pending in refl) (unfold may_become in refl)

  after_store-Leaves :
      (now : ℕ) (i : Item) (o : Attempt Error Text)
      → i.state ≡ pending
      → Leaves i (after_store python services now i o)
  unfolding after_store is_pending may_become
  after_store-Leaves now i (raises e) w = leave i _ w refl refl refl refl refl
  after_store-Leaves now i (ok id) w = leave i _ w refl refl refl refl refl

  after_import-Leaves :
      (i : Item) (o : Attempt Error Text)
      → i.state ≡ pending
      → Leaves i (after_import python services i o)
  unfolding after_import is_pending may_become
  after_import-Leaves i (raises e) w = leave i _ w refl refl refl refl refl
  after_import-Leaves i (ok id) w = leave i _ w refl refl refl refl refl

  adopt_import-Leaves :
      (i : Item) (data_ : Bytes) (h : Option Text) (a : A)
      → i.state ≡ pending
      → Leaves i (adopt_import python services i data_ h a).0
  unfolding adopt_import is_pending may_become
  adopt_import-Leaves i data_ none a w = leave i _ w refl refl refl refl refl
  adopt_import-Leaves i data_ (some ending) a w = after_import-Leaves i _ w

  adopt_data-Leaves :
      (now : ℕ) (i : Item) (data_ : Bytes) (k : Option Marker) (a : A)
      → i.state ≡ pending
      → Leaves i (adopt_data python services now i data_ k a).0
  unfolding adopt_data adopt_artifact
  adopt_data-Leaves now i data_ none a w = adopt_import-Leaves i data_ _ a w
  adopt_data-Leaves now i data_ (some k) a w = after_store-Leaves now i _ w

  adopt_original-Leaves :
      (now : ℕ) (i : Item) (o : Attempt Error Bytes) (a : A)
      → i.state ≡ pending
      → Leaves i (adopt_original python services now i o a).0
  unfolding adopt_original
  adopt_original-Leaves now i (raises e) a w = adopt-fail i e w
  adopt_original-Leaves now i (ok data_) a w = adopt_data-Leaves now i data_ _ a w

  pub adopt-Leaves :
      (now : ℕ) (d : Dropbox A) (i : Item) (a : A)
      → i.state ≡ pending
      → Leaves i (adopt python services now d i a).0
  unfolding adopt
  adopt-Leaves now d i a w = adopt_original-Leaves now i _ a w

pub is_pending_sound : (s : State) → is_pending s ≡ true → s ≡ pending
unfolding is_pending
is_pending_sound s h = grind arith

-- How many items wait.
unfoldable pub count_pending : Dict Item → ℕ
unfolding is_pending
count_pending [] = 0
count_pending ((k, i) ∷ items) =
    let rest = count_pending items in if is_pending i.state then suc rest else rest

module _ {A : Type 0} (python : Python) (services : Services A) where
  pub adopt_first-Follows :
      (now : ℕ) (d : Dropbox A) (items : Dict Item) (a : A)
      → Follows items (adopt_first python services now d items a).0
  unfolding adopt_first
  adopt_first-Follows now d [] a = none_left
  adopt_first-Follows now d ((k, i) ∷ items) a = elim (Bool-cases (is_pending i.state)) [
    | inl w ↦ elim (adopt-Leaves python services now d i a (is_pending_sound i.state w)) [
      | leaves m n ↦ rw w (next k m (Follows-refl items))
    ]
    | inr w ↦ rw w (next k (Moves-refl i) (adopt_first-Follows now d items a))
  ]

  pub count_pending-adopt_first :
      (now : ℕ) (d : Dropbox A) (items : Dict Item) (a : A)
      → count_pending (adopt_first python services now d items a).0 ≡ count_pending items - 1
  unfolding adopt_first count_pending
  count_pending-adopt_first now d [] a = omega arith
  count_pending-adopt_first now d ((k, i) ∷ items) a = elim (Bool-cases (is_pending i.state)) [
    | inl w ↦ elim (adopt-Leaves python services now d i a (is_pending_sound i.state w)) [
      | leaves m n ↦ rw (w, n) omega arith
    ]
    | inr w ↦ rw (w, w) (count_pending-adopt_first now d items a)
  ]

settled_by-Moves :
    (now : ℕ) (i : Item) (imports : List ImportReceipt)
    → is_importing i.state || is_failed i.state ≡ true
    → Moves i (settled_by now i imports)
      × (is_pending (settled_by now i imports).state ≡ is_pending i.state)
unfolding settled_by is_pending is_importing is_failed may_become
settled_by-Moves now i imports w =
    elim (Bool-cases (all (λ r. is_import_succeeded r.state) imports)) [
      | inl s ↦ rw s (
        record { same_id = refl; same_filename = refl; same_kind = refl; moved = grind arith },
        grind arith,
      )
      | inr s ↦
          elim (Bool-cases (is_importing i.state && any (λ r. is_import_failed r.state) imports)) [
            | inl f ↦
                rw (s, f)
                  (
                    record {
                      same_id = refl;
                      same_filename = refl;
                      same_kind = refl;
                      moved = grind arith;
                    },
                    grind arith,
                  )
            | inr f ↦ rw (s, f) (Moves-refl i, refl)
          ]
    ]

settle-Moves :
    (now : ℕ) (receipts : List ImportReceipt) (i j : Item)
    → settle now receipts i ≡ ok j
    → Moves i j × (is_pending j.state ≡ is_pending i.state)
unfolding settle
settle-Moves now receipts i j h = elim (Bool-cases (waits_for_import i)) [
  | inl w ↦ elim (>>=-Succeeds (imports_of receipts i.parts) _ (rw w at h)) [
    | through imports e f ↦
        subst (λ k. Moves i k × (is_pending k.state ≡ is_pending i.state)) (ok-injective f)
          (settled_by-Moves now i imports (waiting w))
  ]
  | inr w ↦
      subst (λ k. Moves i k × (is_pending k.state ≡ is_pending i.state)) (ok-injective (rw w at h))
        (Moves-refl i, refl)
]
  where
    waiting : waits_for_import i ≡ true → is_importing i.state || is_failed i.state ≡ true
    waiting w = unfold waits_for_import in grind arith

-- What the second loop makes of the items: it keeps their keys and which of them wait.
pub settle_all-Follows :
    (now : ℕ) (receipts : List ImportReceipt) (items : Dict Item) (history : Dict Past)
    (result : Dict Item × Dict Past)
    → settle_all now receipts items history ≡ ok result
    → Follows items result.0 × (count_pending result.0 ≡ count_pending items)
unfolding settle_all count_pending
settle_all-Follows now receipts [] history result h =
    subst (λ r. Follows [] r.0 × (count_pending r.0 ≡ 0)) (ok-injective h) (none_left, refl)
settle_all-Follows now receipts ((k, i) ∷ items) history result h =
    elim (>>=-Succeeds (settle now receipts i) _ h) [
      | through j e f ↦ elim (>>=-Succeeds (settle_all now receipts items _) _ f) [
        | through rest g l ↦
            let (m, same) = settle-Moves now receipts i j e in
            let (n, count) = settle_all-Follows now receipts items _ rest g in
            subst
              (λ r.
                Follows ((k, i) ∷ items) r.0 × (count_pending r.0 ≡ count_pending ((k, i) ∷ items)))
              (ok-injective l) (next k m n, rw (same, count) refl)
      ]
    ]
