-- ===== src/Maintenance/Run.antt =====
-- The tasks that use the gate of maintenance.py, as interleaved steps. A `with` block is left in the
-- order in which it was entered, so each task has a stack of the blocks that it is inside.
use coppermind.Base.{◌≡◌, Bool, true, false, List, [], ◌∷◌, ◌==◌, if◌then◌else◌}
use coppermind.Maintenance.{
  Task, Gate, open_gate, may_enter, enter, leave, announce, may_own, acquire, give_up, release,
}

pub data Block : Type 0 where
  shared exclusive : Block

pub record World : Type 0 where
  pub gate : Gate
  pub inside : Task → List Block
  pub waits : Task → Bool

abbrev pub start : World
start = record { gate = open_gate; inside = λ t. []; waits = λ t. false }

abbrev pub update {ℓ} : {A : Type ℓ} → (Task → A) → Task → A → Task → A
update f t a s = if s == t then a else f s

-- A task that waits for the exclusive block does nothing else until its wait ends.
pub data Step (w : World) : World → Type 0 where
  shared_enter :
      (t : Task)
      → w.waits t ≡ false
      → may_enter t w.gate ≡ true
      → Step w
          (record w { gate = enter t w.gate; inside = update w.inside t (shared ∷ w.inside t) })
  shared_leave :
      (t : Task) (rest : List Block)
      → w.waits t ≡ false
      → w.inside t ≡ shared ∷ rest
      → Step w (record w { gate = leave t w.gate; inside = update w.inside t rest })
  exclusive_announce :
      (t : Task)
      → w.waits t ≡ false
      → Step w (record w { gate = announce w.gate; waits = update w.waits t true })
  exclusive_enter :
      (t : Task)
      → w.waits t ≡ true
      → may_own w.gate ≡ true
      → Step w (record {
        gate = acquire t w.gate;
        inside = update w.inside t (exclusive ∷ w.inside t);
        waits = update w.waits t false;
      })
  exclusive_give_up :
      (t : Task)
      → w.waits t ≡ true
      → Step w (record w { gate = give_up w.gate; waits = update w.waits t false })
  exclusive_leave :
      (t : Task) (rest : List Block)
      → w.waits t ≡ false
      → w.inside t ≡ exclusive ∷ rest
      → Step w (record w { gate = release w.gate; inside = update w.inside t rest })

pub data Reach (v : World) : World → Type 0 where
  here : Reach v v
  next : {w x : World} → Reach v w → Step w x → Reach v x
