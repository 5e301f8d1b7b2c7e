-- ===== src/Maintenance/Examples.antt =====
-- The theorems on the gate of maintenance.py at a run of two tasks: one writes and finishes, the
-- other announces a purge while it writes and gets the gate after it.
use coppermind.Base.{◌≡◌, ◌≢◌, refl, true, false, [], ◌∷◌, arith}
use coppermind.Maintenance.{
  Task, open_gate, is_owner, holds, add_hold, drop_hold, may_enter, enter, leave, announce, may_own,
  acquire,
}
use coppermind.Maintenance.Run.{
  shared, exclusive, World, start, update, shared_enter, shared_leave, exclusive_announce,
  exclusive_enter, Reach, here, next,
}
use coppermind.Maintenance.Exclusion.{exclusive_count, exclusive_alone}
use coppermind.Maintenance.Progress.{may_enter_lem, may_own_lem}

abbrev writing : World
writing = record start { gate = enter 1 open_gate; inside = update start.inside 1 (shared ∷ []) }

abbrev announced : World
announced = record writing {
  gate = announce (enter 1 open_gate);
  waits = update start.waits 2 true;
}

abbrev written : World
written = record announced {
  gate = leave 1 (announce (enter 1 open_gate));
  inside = update writing.inside 1 [];
}

abbrev purging : World
purging = record {
  gate = acquire 2 written.gate;
  inside = update written.inside 2 (exclusive ∷ []);
  waits = update announced.waits 2 false;
}

to_writing : Reach start writing
unfolding may_enter
to_writing = next here (shared_enter 1 refl refl)

to_announced : Reach start announced
to_announced = next to_writing (exclusive_announce 2 refl)

to_purging : Reach start purging
unfolding may_own enter add_hold leave drop_hold announce
to_purging = next (next to_announced (shared_leave 1 [] refl refl)) (exclusive_enter 2 refl refl)

exclusive_alone_example :
    (exclusive_count (purging.inside 2) ≡ 1)
    × (is_owner 2 purging.gate.owner ≡ true)
    × ((s : Task) → s ≢ 2 → purging.inside s ≡ [])
exclusive_alone_example = exclusive_alone to_purging 2 (omega arith)

-- The writer is let in again, and a newcomer is not.
may_enter_lem_example :
    (announced.inside 1 ≢ [] → may_enter 1 announced.gate ≡ true)
    × (announced.inside 1 ≡ []
        → may_enter 1 announced.gate ≡ true
        → (s : Task) → (exclusive_count (announced.inside s) ≡ 0) × (announced.waits s ≡ false))
    × (announced.inside 1 ≡ []
        → ((s : Task) → (exclusive_count (announced.inside s) ≡ 0) × (announced.waits s ≡ false))
        → may_enter 1 announced.gate ≡ true)
may_enter_lem_example = may_enter_lem to_announced 1

may_own_lem_example :
    (may_own announced.gate ≡ true → (t : Task) → announced.inside t ≡ [])
    × (((t : Task) → announced.inside t ≡ []) → may_own announced.gate ≡ true)
may_own_lem_example = may_own_lem to_announced

newcomer_waits : may_enter 3 announced.gate ≡ false
unfolding may_enter enter announce add_hold holds
newcomer_waits = refl

purger_waits : may_own announced.gate ≡ false
unfolding may_own enter announce add_hold
purger_waits = refl
