-- ===== src/Maintenance.antt =====
-- services/store/coppermind_store/maintenance.py: ordinary writers overlap, and retention purge runs
-- behind an exclusive barrier. Every block under the gate's condition is one atomic step.
pub mod Run
pub mod Exclusion
pub mod Waiting
pub mod Progress
mod Examples
use coppermind.Base.{
  ℕ, zero, suc, ◌+◌, Bool, true, false, not, ◌&&◌, ◌||◌, Option, none, some, List, [], ◌∷◌, ◌==◌,
  ltb, if◌then◌else◌,
}

-- A task of the event loop, by its identity.
abbrev pub Task : Type 0
Task = ℕ

pub record Gate : Type 0 where
  -- self.holders, a dict from a task to how often it holds the gate
  pub holders : List (Task × ℕ)
  pub owner : Option Task
  pub waiting : ℕ

abbrev pub open_gate : Gate
open_gate = record { holders = []; owner = none; waiting = 0 }

-- holders.get(task, 0)
unfoldable pub held : Task → List (Task × ℕ) → ℕ
held t [] = 0
held t ((s, n) ∷ hs) = if s == t then n else held t hs

-- task in holders
unfoldable pub holds : Task → List (Task × ℕ) → Bool
holds t [] = false
holds t ((s, n) ∷ hs) = s == t || holds t hs

-- holders[task] = holders.get(task, 0) + 1
unfoldable pub add_hold : Task → List (Task × ℕ) → List (Task × ℕ)
add_hold t [] = (t, 1) ∷ []
add_hold t ((s, n) ∷ hs) = if s == t then (s, n + 1) ∷ hs else (s, n) ∷ add_hold t hs

-- holders[task] -= 1, and the entry is deleted when that leaves 0
unfoldable pub drop_hold : Task → List (Task × ℕ) → List (Task × ℕ)
drop_hold t [] = []
drop_hold t ((s, zero) ∷ hs) = if s == t then hs else (s, zero) ∷ drop_hold t hs
drop_hold t ((s, suc zero) ∷ hs) = if s == t then hs else (s, 1) ∷ drop_hold t hs
drop_hold t ((s, suc (suc n)) ∷ hs) =
    if s == t then (s, suc n) ∷ hs else (s, suc (suc n)) ∷ drop_hold t hs

abbrev pub is_owner : Task → Option Task → Bool
is_owner t none = false
is_owner t (some s) = s == t

abbrev pub is_free : Option Task → Bool
is_free none = true
is_free (some s) = false

-- The condition on which `shared` waits.
unfoldable pub may_enter : Task → Gate → Bool
unfolding holds
may_enter t g = is_owner t g.owner || holds t g.holders || (is_free g.owner && g.waiting == 0)

-- `shared`, its entry and its exit.
unfoldable pub enter : Task → Gate → Gate
unfolding add_hold
enter t g = record g { holders = add_hold t g.holders }

unfoldable pub leave : Task → Gate → Gate
unfolding drop_hold
leave t g = record g { holders = drop_hold t g.holders }

-- `exclusive`: the announcement, the condition on which it waits, the two ways in which that wait
-- ends, and the exit.
unfoldable pub announce : Gate → Gate
announce g = record g { waiting = g.waiting + 1 }

abbrev pub nobody_holds : List (Task × ℕ) → Bool
nobody_holds [] = true
nobody_holds (h ∷ hs) = false

unfoldable pub may_own : Gate → Bool
may_own g = nobody_holds g.holders && is_free g.owner

abbrev pub one_less : ℕ → ℕ
one_less zero = zero
one_less (suc n) = n

unfoldable pub acquire : Task → Gate → Gate
acquire t g = record g { owner = some t; waiting = one_less g.waiting }

unfoldable pub give_up : Gate → Gate
give_up g = record g { waiting = one_less g.waiting }

unfoldable pub release : Gate → Gate
release g = record g { owner = none }
