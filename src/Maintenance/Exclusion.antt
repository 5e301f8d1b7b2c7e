-- ===== src/Maintenance/Exclusion.antt =====
-- The exclusive block of maintenance.py excludes every other task.
use coppermind.Base.{
  ℕ, zero, suc, ◌<◌, ◌≡◌, ◌≢◌, refl, sym, ◌∙◌, inl, inr, Bool, true, false, Option, none, some,
  List, [], ◌∷◌, ◌==◌, if◌then◌else◌, Bool-cases, arith,
}
use coppermind.Maintenance.{
  Task, held, holds, add_hold, drop_hold, is_owner, is_free, may_enter, enter, leave, announce,
  nobody_holds, may_own, one_less, acquire, give_up, release,
}
use coppermind.Maintenance.Run.{
  Block, shared, exclusive, World, start, update, Step, shared_enter, shared_leave,
  exclusive_announce, exclusive_enter, exclusive_give_up, exclusive_leave, Reach, here, next,
}

-- How many shared blocks, and how many exclusive ones, a task is inside.
abbrev pub shared_count : List Block → ℕ
shared_count [] = 0
shared_count (shared ∷ bs) = suc (shared_count bs)
shared_count (exclusive ∷ bs) = shared_count bs

abbrev pub exclusive_count : List Block → ℕ
exclusive_count [] = 0
exclusive_count (shared ∷ bs) = exclusive_count bs
exclusive_count (exclusive ∷ bs) = suc (exclusive_count bs)

-- A dict: no task has two entries, and none has an entry that says 0.
abbrev pub Valid : List (Task × ℕ) → Type 0
Valid [] = Unit
Valid ((s, n) ∷ hs) = (held s hs ≡ 0) × (0 < n) × Valid hs

held-add_hold :
    (t s : Task) (hs : List (Task × ℕ))
    → held s (add_hold t hs) ≡ (if s == t then suc (held s hs) else held s hs)
unfolding held add_hold
held-add_hold t s [] = ground arith
held-add_hold t s ((r, n) ∷ hs) = ground (arith, held-add_hold t s hs)

add_hold-Valid : (t : Task) (hs : List (Task × ℕ)) → Valid hs → Valid (add_hold t hs)
unfolding add_hold
add_hold-Valid t [] h = (unfold held in refl, omega arith, tt)
add_hold-Valid t ((r, n) ∷ hs) (fresh, p, h) = elim (Bool-cases (r == t)) [
  | inl e ↦ rw e (fresh, omega arith, h)
  | inr e ↦ rw e (ground (arith, held-add_hold t r hs), p, add_hold-Valid t hs h)
]

held-drop_hold :
    (t s : Task) (hs : List (Task × ℕ))
    → Valid hs
    → held s (drop_hold t hs) ≡ (if s == t then one_less (held s hs) else held s hs)
unfolding held drop_hold
held-drop_hold t s [] h = ground arith
held-drop_hold t s ((r, zero) ∷ hs) (fresh, p, h) = absurd (omega arith)
held-drop_hold t s ((r, suc zero) ∷ hs) (fresh, p, h) = ground (arith, held-drop_hold t s hs h)
held-drop_hold t s ((r, suc (suc n)) ∷ hs) (fresh, p, h) = ground (arith, held-drop_hold t s hs h)

drop_hold-Valid : (t : Task) (hs : List (Task × ℕ)) → Valid hs → Valid (drop_hold t hs)
unfolding drop_hold
drop_hold-Valid t [] h = tt
drop_hold-Valid t ((r, zero) ∷ hs) (fresh, p, h) = absurd (omega arith)
drop_hold-Valid t ((r, suc zero) ∷ hs) (fresh, p, h) = elim (Bool-cases (r == t)) [
  | inl e ↦ rw e h
  | inr e ↦ rw e (ground (arith, held-drop_hold t r hs h), omega arith, drop_hold-Valid t hs h)
]
drop_hold-Valid t ((r, suc (suc n)) ∷ hs) (fresh, p, h) = elim (Bool-cases (r == t)) [
  | inl e ↦ rw e (fresh, omega arith, h)
  | inr e ↦ rw e (ground (arith, held-drop_hold t r hs h), omega arith, drop_hold-Valid t hs h)
]

pub held_of_holds : (t : Task) (hs : List (Task × ℕ)) → Valid hs → holds t hs ≡ true → 0 < held t hs
unfolding held holds
held_of_holds t [] h e = cc
held_of_holds t ((r, n) ∷ hs) (fresh, p, h) e = elim (Bool-cases (r == t)) [
  | inl f ↦ rw f p
  | inr f ↦ rw f (held_of_holds t hs h (ground arith))
]

abbrev pub one_if : Bool → ℕ
one_if true = 1
one_if false = 0

pub record IsSafe (w : World) : Type 0 where
  pub valid : Valid w.gate.holders
  pub counted : (t : Task) → held t w.gate.holders ≡ shared_count (w.inside t)
  pub owned : (t : Task) → exclusive_count (w.inside t) ≡ one_if (is_owner t w.gate.owner)
  pub alone : (t s : Task) → is_owner t w.gate.owner ≡ true → s ≢ t → held s w.gate.holders ≡ 0

start-IsSafe : IsSafe start
unfolding held
start-IsSafe = record {
  valid = tt;
  counted = λ t. refl;
  owned = λ t. refl;
  alone = λ t s e n. refl;
}

same_owner : (t s : Task) (o : Option Task) → is_owner t o ≡ true → is_owner s o ≡ true → t ≡ s
same_owner t s none e f = cc
same_owner t s (some r) e f = ground arith

pub free_owner : (t : Task) (o : Option Task) → is_free o ≡ true → is_owner t o ≡ false
free_owner t none e = refl
free_owner t (some r) e = cc

pub held_by_nobody : (t : Task) (hs : List (Task × ℕ)) → nobody_holds hs ≡ true → held t hs ≡ 0
unfolding held
held_by_nobody t [] e = refl
held_by_nobody t (h ∷ hs) e = cc

module _ {w : World} (safe : IsSafe w) (t : Task) where
  enter-alone :
      may_enter t w.gate ≡ true
      → (o s : Task) → is_owner o w.gate.owner ≡ true
      → s ≢ o
      → held s (enter t w.gate).holders ≡ 0
  unfolding enter may_enter
  enter-alone ok o s e n = ground (
    arith,
    held-add_hold t s w.gate.holders,
    safe.alone o s e n,
    safe.alone o t e,
    held_of_holds t w.gate.holders safe.valid,
    same_owner t o w.gate.owner,
    free_owner o w.gate.owner,
  )

  enter-IsSafe :
      may_enter t w.gate ≡ true
      → IsSafe
          (record w { gate = enter t w.gate; inside = update w.inside t (shared ∷ w.inside t) })
  unfolding enter
  enter-IsSafe ok = record {
    valid = add_hold-Valid t w.gate.holders safe.valid;
    counted = λ s. ground (arith, held-add_hold t s w.gate.holders, safe.counted s);
    owned = λ s. ground (arith, safe.owned s);
    alone = enter-alone ok;
  }

  leave-IsSafe :
      (rest : List Block)
      → w.inside t ≡ shared ∷ rest
      → IsSafe (record w { gate = leave t w.gate; inside = update w.inside t rest })
  unfolding leave
  leave-IsSafe rest e = record {
    valid = drop_hold-Valid t w.gate.holders safe.valid;
    counted = λ s.
        ground
          (arith, held-drop_hold t s w.gate.holders safe.valid, safe.counted s, safe.counted t);
    owned = λ s. ground (arith, safe.owned s, safe.owned t);
    alone = λ o s own n.
        ground (arith, held-drop_hold t s w.gate.holders safe.valid, safe.alone o s own n);
  }

  acquire-IsSafe :
      may_own w.gate ≡ true
      → IsSafe (record {
        gate = acquire t w.gate;
        inside = update w.inside t (exclusive ∷ w.inside t);
        waits = update w.waits t false;
      })
  unfolding acquire may_own
  acquire-IsSafe ok = record {
    valid = safe.valid;
    counted = λ s. ground (arith, safe.counted s);
    owned = λ s. ground (arith, safe.owned s, free_owner s w.gate.owner);
    alone = λ o s own n. held_by_nobody s w.gate.holders (ground arith);
  }

  release-IsSafe :
      (rest : List Block)
      → w.inside t ≡ exclusive ∷ rest
      → IsSafe (record w { gate = release w.gate; inside = update w.inside t rest })
  unfolding release
  release-IsSafe rest e = record {
    valid = safe.valid;
    counted = λ s. ground (arith, safe.counted s, safe.counted t);
    owned = λ s. ground (arith, safe.owned s, safe.owned t, same_owner t s w.gate.owner);
    alone = λ o s own n. cc;
  }

Step-IsSafe : {w x : World} → Step w x → IsSafe w → IsSafe x
unfolding announce give_up
Step-IsSafe (shared_enter t _ ok) safe = enter-IsSafe safe t ok
Step-IsSafe (shared_leave t rest _ e) safe = leave-IsSafe safe t rest e
Step-IsSafe (exclusive_announce t _) safe = record {
  valid = safe.valid;
  counted = safe.counted;
  owned = safe.owned;
  alone = safe.alone;
}
Step-IsSafe (exclusive_enter t _ ok) safe = acquire-IsSafe safe t ok
Step-IsSafe (exclusive_give_up t _) safe = record {
  valid = safe.valid;
  counted = safe.counted;
  owned = safe.owned;
  alone = safe.alone;
}
Step-IsSafe (exclusive_leave t rest _ e) safe = release-IsSafe safe t rest e

pub Reach-IsSafe : {w : World} → Reach start w → IsSafe w
Reach-IsSafe here = start-IsSafe
Reach-IsSafe (next r s) = Step-IsSafe s (Reach-IsSafe r)

pub no_blocks : (bs : List Block) → shared_count bs ≡ 0 → exclusive_count bs ≡ 0 → bs ≡ []
no_blocks [] e f = refl
no_blocks (shared ∷ bs) e f = cc
no_blocks (exclusive ∷ bs) e f = cc

-- In every state that the tasks can reach from an open gate, if a task is inside the exclusive
-- block, it is inside exactly one, it is the gate's owner, and every other task is inside no block
-- of the gate, neither a shared one nor an exclusive one.
pub exclusive_alone :
    {w : World}
    → Reach start w
    → (t : Task) → 0 < exclusive_count (w.inside t)
    → (exclusive_count (w.inside t) ≡ 1)
      × (is_owner t w.gate.owner ≡ true)
      × ((s : Task) → s ≢ t → w.inside s ≡ [])
exclusive_alone {w} r t p =
    let safe = Reach-IsSafe r in
    let own : is_owner t w.gate.owner ≡ true = ground (arith, safe.owned t) in
    (
      ground (arith, safe.owned t),
      own,
      λ s n.
          no_blocks (w.inside s) (sym (safe.counted s) ∙ safe.alone t s own n)
            (ground (arith, safe.owned s, same_owner s t w.gate.owner)),
    )
