-- ===== src/Maintenance/Waiting.antt =====
-- The counter `waiting` of the gate of maintenance.py is the number of the tasks that wait for the
-- exclusive block.
use coppermind.Base.{
  ℕ, suc, ◌<◌, ◌≡◌, refl, true, false, List, [], ◌∷◌, ◌==◌, length, if◌then◌else◌, arith,
}
use coppermind.Maintenance.{Task, one_less, enter, leave, announce, acquire, give_up, release}
use coppermind.Maintenance.Run.{
  World, start, Step, shared_enter, shared_leave, exclusive_announce, exclusive_enter,
  exclusive_give_up, exclusive_leave, Reach, here, next,
}
use coppermind.Maintenance.Exclusion.{one_if}

-- How often a task stands in a queue, and the queue without its first place.
pub times : Task → List Task → ℕ
times t [] = 0
times t (s ∷ q) = let rest = times t q in if s == t then suc rest else rest

remove : Task → List Task → List Task
remove t [] = []
remove t (s ∷ q) = let rest = remove t q in if s == t then q else s ∷ rest

times-remove :
    (t s : Task) (q : List Task)
    → times s (remove t q) ≡ (if s == t then one_less (times s q) else times s q)
unfolding times remove
times-remove t s [] = ground arith
times-remove t s (r ∷ q) = ground (arith, times-remove t s q)

length-remove :
    (t : Task) (q : List Task) → 0 < times t q → length (remove t q) ≡ one_less (length q)
unfolding times remove
length-remove t [] p = absurd (omega arith)
length-remove t (r ∷ []) p = ground arith
length-remove t (r ∷ s ∷ q) p = ground (arith, length-remove t (s ∷ q))

-- The tasks that wait, in some order, each of them once.
pub record IsCounted (w : World) : Type 0 where
  pub queue : List Task
  pub counted : length queue ≡ w.gate.waiting
  pub once : (t : Task) → times t queue ≡ one_if (w.waits t)

start-IsCounted : IsCounted start
unfolding times
start-IsCounted = record { queue = []; counted = refl; once = λ t. refl }

Step-IsCounted : {w x : World} → Step w x → IsCounted w → IsCounted x
unfolding enter leave announce acquire give_up release times
Step-IsCounted (shared_enter t _ ok) c = record {
  queue = c.queue;
  counted = c.counted;
  once = c.once;
}
Step-IsCounted (shared_leave t rest _ e) c = record {
  queue = c.queue;
  counted = c.counted;
  once = c.once;
}
Step-IsCounted (exclusive_announce t e) c = record {
  queue = t ∷ c.queue;
  counted = omega (arith, c.counted);
  once = λ s. ground (arith, c.once s, c.once t);
}
Step-IsCounted (exclusive_enter t e ok) c = record {
  queue = remove t c.queue;
  counted = ground (arith, length-remove t c.queue, c.once t, c.counted);
  once = λ s. ground (arith, times-remove t s c.queue, c.once s, c.once t);
}
Step-IsCounted (exclusive_give_up t e) c = record {
  queue = remove t c.queue;
  counted = ground (arith, length-remove t c.queue, c.once t, c.counted);
  once = λ s. ground (arith, times-remove t s c.queue, c.once s, c.once t);
}
Step-IsCounted (exclusive_leave t rest _ e) c = record {
  queue = c.queue;
  counted = c.counted;
  once = c.once;
}

pub Reach-IsCounted : {w : World} → Reach start w → IsCounted w
Reach-IsCounted here = start-IsCounted
Reach-IsCounted (next r s) = Step-IsCounted s (Reach-IsCounted r)

empty_queue : (q : List Task) → ((t : Task) → times t q ≡ 0) → length q ≡ 0
unfolding times
empty_queue [] f = refl
empty_queue (t ∷ q) f = absurd (ground (arith, f t))

times_none : (t : Task) (q : List Task) → length q ≡ 0 → times t q ≡ 0
unfolding times
times_none t [] h = refl
times_none t (s ∷ q) h = absurd (omega (arith, h))

-- The counter is at 0 exactly if no task waits.
pub nobody_waits :
    {w : World}
    → IsCounted w
    → ((w.gate.waiting == 0) ≡ true → (t : Task) → w.waits t ≡ false)
      × (((t : Task) → w.waits t ≡ false) → (w.gate.waiting == 0) ≡ true)
nobody_waits {w} c = (
  λ e t. ground (arith, c.counted, times_none t c.queue, c.once t),
  λ f. ground (arith, c.counted, empty_queue c.queue (λ t. ground (arith, c.once t, f t))),
)
