-- ===== src/Dropbox/Process/Round.antt =====
-- A whole round of services/store/coppermind_store/dropbox.py's `process`.
use coppermind.Base.{ℕ, ◌-◌, ◌≡◌, refl, sym, ◌∙◌, ap, true, [], ◌∷◌, arith}
use coppermind.Base.Texts.{Text}
use coppermind.Base.Dict.{Dict}
use coppermind.Base.Attempt.{Attempt, raises, ok}
use coppermind.Dropbox.{Item, Past, Services, Python, Dropbox, expire, stays, is_completed}
use coppermind.Dropbox.Process.{is_pending, adopt_first, process, after_second}
use coppermind.Dropbox.Process.Moves.{
  Moves-trans, Follows, none_left, next, count_pending, adopt_first-Follows,
  count_pending-adopt_first, settle_all-Follows,
}

Follows-trans :
    {before between after : Dict Item}
    → Follows before between
    → Follows between after
    → Follows before after
Follows-trans none_left none_left = none_left
Follows-trans (next k m f) (next _ n g) = next k (Moves-trans _ _ _ m n) (Follows-trans f g)

-- An item that waits does not expire.
stays-pending : (now : ℕ) (i : Item) → is_pending i.state ≡ true → stays now i ≡ true
unfolding stays is_completed is_pending
stays-pending now i w = grind arith

count_pending-expire :
    (now : ℕ) (items : Dict Item) → count_pending (expire now items) ≡ count_pending items
unfolding expire count_pending
count_pending-expire now [] = refl
count_pending-expire now ((k, i) ∷ items) =
    ground (arith, stays-pending now i, count_pending-expire now items)

after_second-ok :
    {A : Type 0} (python : Python) (services : Services A)
    (o : Attempt Text (Dict Item × Dict Past)) (d e : Dropbox A)
    → after_second python services o d ≡ (ok tt, e)
    → (r : Dict Item × Dict Past) × (o ≡ ok r) × (e.records.items ≡ r.0)
unfolding after_second
after_second-ok python services (raises id) d e h = cc
after_second-ok python services (ok (items, history)) d e h =
    ((items, history), refl, ap (λ p. p.1.records.items) (sym h))

module _ {A : Type 0} (python : Python) (services : Services A) where
  -- A round of `process` that raises nothing keeps the items that have not expired, each under its
  -- key with its id, its name and its kind, in a state that may follow its own; and it takes exactly
  -- one item, if there is any, from those that wait.
  pub process-Follows :
      (now : ℕ) (d e : Dropbox A)
      → process python services now d ≡ (ok tt, e)
      → Follows (expire now d.records.items) e.records.items
        × (count_pending e.records.items ≡ count_pending d.records.items - 1)
  unfolding process
  process-Follows now d e h =
      let live = expire now d.records.items in
      let first = adopt_first python services now d live d.archive in
      let (r, s, t) = after_second-ok python services _ _ e h in
      let (f, c) =
        settle_all-Follows now (services.receipts first.1) first.0 d.records.history r s in
      rw t (
        Follows-trans (adopt_first-Follows python services now d live d.archive) f,
        c
            ∙ count_pending-adopt_first python services now d live d.archive
            ∙ ap (λ n. n - 1) (count_pending-expire now d.records.items),
      )
