-- ===== src/Maintenance/Progress.antt =====
-- When the gate of maintenance.py lets a task in.
use coppermind.Base.{
  ℕ, ◌<◌, ◌≡◌, ◌≢◌, refl, sym, ap, ◌∙◌, inl, inr, ◌⊎◌, true, false, Option, none, some, List, [],
  ◌∷◌, ◌==◌, Bool-cases, arith,
}
use coppermind.Maintenance.{Task, held, holds, is_owner, is_free, may_enter, nobody_holds, may_own}
use coppermind.Maintenance.Run.{Block, shared, exclusive, World, start, Reach}
use coppermind.Maintenance.Exclusion.{
  shared_count, exclusive_count, Valid, IsSafe, Reach-IsSafe, no_blocks, free_owner, held_by_nobody,
  held_of_holds, one_if,
}
use coppermind.Maintenance.Waiting.{Reach-IsCounted, nobody_waits}

held_if_holds : (t : Task) (hs : List (Task × ℕ)) → 0 < held t hs → holds t hs ≡ true
unfolding held holds
held_if_holds t [] p = absurd (omega arith)
held_if_holds t ((r, n) ∷ hs) p = ground (arith, held_if_holds t hs)

nobody_if_unheld :
    (hs : List (Task × ℕ)) → Valid hs → ((t : Task) → held t hs ≡ 0) → nobody_holds hs ≡ true
unfolding held
nobody_if_unheld [] h f = refl
nobody_if_unheld ((s, n) ∷ hs) (fresh, p, h) f = absurd (ground (arith, f s))

free_if_unowned : (o : Option Task) → ((t : Task) → is_owner t o ≡ false) → is_free o ≡ true
free_if_unowned none f = refl
free_if_unowned (some s) f = absurd (ground (arith, f s))

empty_or_counted : (bs : List Block) → bs ≢ [] → (0 < shared_count bs) ⊎ (0 < exclusive_count bs)
empty_or_counted [] n = absurd (n refl)
empty_or_counted (shared ∷ bs) n = inl (omega arith)
empty_or_counted (exclusive ∷ bs) n = inr (omega arith)

unowned : {w : World} (t : Task) → IsSafe w → w.inside t ≡ [] → is_owner t w.gate.owner ≡ false
unowned {w} t safe e = ground (arith, safe.owned t, ap exclusive_count e)

unheld_is_out :
    {w : World} (t : Task) → IsSafe w → held t w.gate.holders ≡ 0 → holds t w.gate.holders ≡ false
unheld_is_out {w} t safe e = elim (Bool-cases (holds t w.gate.holders)) [
  | inl f ↦ absurd (ground (arith, held_of_holds t w.gate.holders safe.valid))
  | inr f ↦ f
]

-- What the condition says to a task inside no block.
let_in :
    {w : World} (t : Task)
    → IsSafe w
    → w.inside t ≡ []
    → may_enter t w.gate ≡ true
    → (is_free w.gate.owner ≡ true) × ((w.gate.waiting == 0) ≡ true)
unfolding may_enter
let_in {w} t safe e ok =
    ground (arith, ok, unheld_is_out t safe (safe.counted t ∙ ap shared_count e), unowned t safe e)

module _ {w : World} (r : Reach start w) where
  -- In every state that the tasks can reach from an open gate, a task that is inside a block, shared
  -- or exclusive, is let into a further shared block at once, however many tasks wait for the
  -- exclusive one; and a task that is inside no block is let in exactly if no task is inside an
  -- exclusive block and none waits for one.
  pub may_enter_lem :
      (t : Task)
      → (w.inside t ≢ [] → may_enter t w.gate ≡ true)
        × (w.inside t ≡ []
            → may_enter t w.gate ≡ true
            → (s : Task) → (exclusive_count (w.inside s) ≡ 0) × (w.waits s ≡ false))
        × (w.inside t ≡ []
            → ((s : Task) → (exclusive_count (w.inside s) ≡ 0) × (w.waits s ≡ false))
            → may_enter t w.gate ≡ true)
  unfolding may_enter
  may_enter_lem t =
      let safe = Reach-IsSafe r in
      let (idle, alone) = nobody_waits (Reach-IsCounted r) in
      (
        λ n. elim (empty_or_counted (w.inside t) n) [
          | inl p ↦ ground (arith, held_if_holds t w.gate.holders (ground (arith, safe.counted t)))
          | inr p ↦ ground (arith, safe.owned t)
        ],
        λ e ok s.
            let (free, none_waits) = let_in t safe e ok in
            (safe.owned s ∙ ap one_if (free_owner s w.gate.owner free), idle none_waits s),
        λ e out.
            rw
              (
                free_if_unowned w.gate.owner (λ s. ground (arith, safe.owned s, out s)),
                alone (λ s. (out s).1),
              )
              (ground arith),
      )

  -- In every state that the tasks can reach from an open gate, the condition on which the exclusive
  -- block waits holds exactly if no task is inside a block of the gate.
  pub may_own_lem :
      (may_own w.gate ≡ true → (t : Task) → w.inside t ≡ [])
      × (((t : Task) → w.inside t ≡ []) → may_own w.gate ≡ true)
  unfolding may_own
  may_own_lem =
      let safe = Reach-IsSafe r in
      (
        λ ok t.
            no_blocks (w.inside t)
              (sym (safe.counted t) ∙ held_by_nobody t w.gate.holders (ground arith))
              (ground (arith, safe.owned t, free_owner t w.gate.owner)),
        λ out.
            rw
              (nobody_if_unheld w.gate.holders safe.valid
                (λ t. safe.counted t ∙ ap shared_count (out t)))
              (free_if_unowned w.gate.owner (λ t. unowned t safe (out t))),
      )
