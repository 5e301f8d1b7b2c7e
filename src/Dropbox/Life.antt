-- ===== src/Dropbox/Life.antt =====
-- The life of the drop box of services/store/coppermind_store/dropbox.py: any sequence of its operations,
-- and of changes of the archive, from an empty one.
use coppermind.Base.{
  ℕ, ◌-◌, ◌≡◌, ◌≢◌, sym, ◌∙◌, subst, inl, inr, Option, List, [], ◌∷◌, length, arith,
}
use coppermind.Base.Texts.{Text}
use coppermind.Base.Attempt.{raises, ok, ok-injective}
use coppermind.Dropbox.{Bytes, Marker, Item, Services, Python, Dropbox, submit}
use coppermind.Dropbox.Dismiss.{dismiss, no_import}
use coppermind.Dropbox.Process.{process}
use coppermind.Dropbox.Process.Moves.{count_pending}
use coppermind.Dropbox.Process.Round.{process-Follows}
use coppermind.Dropbox.Process.Sound.{Keeps, Laws}
use coppermind.Dropbox.Process.Kept.{AllSound, AllSound-kept, process-AllSound}
use coppermind.Dropbox.Receipts.{submit-AllSound, dismiss-Dismisses}
use coppermind.Dropbox.Scan.{File, Folder, scan, scan_file}
use coppermind.Dropbox.Scan.Patience.{scan-AllSound, scan_file-Sound}

module _ {A : Type 0} (python : Python) (services : Services A) where
  open services use {receipts}

  -- One operation, whatever it comes to, or a change of the archive that loses no receipt.
  pub data Step (d : Dropbox A) : Dropbox A → Type 0 where
    submits :
        (now : ℕ) (received filename : Text) (data_ : Bytes) (kind : Option Marker) (i : Item)
        {e : Dropbox A}
        → submit python services now received filename data_ kind d ≡ ok (i, e)
        → Step d e
    processes : (now : ℕ) → Step d (process python services now d).1
    dismisses : (identity : Text) → Step d (dismiss services identity d).1
    scans :
        (now : ℕ) (received : Text) (clock : ℕ) (folder : Folder) {e : Dropbox A}
        → scan python services now received clock folder d ≡ ok e
        → Step d e
    scans_file :
        (now : ℕ) (received : Text) (clock : ℕ) (f : File)
        → Step d (scan_file python services now received clock f d)
    archives : (a : A) → Keeps (receipts d.archive) (receipts a) → Step d (record d { archive = a })

  pub data Reachable : Dropbox A → Type 0 where
    empty : {d : Dropbox A} → d.records.items ≡ [] → Reachable d
    step : {d e : Dropbox A} → Reachable d → Step d e → Reachable e

  -- Rounds of `process`, each at its own time.
  unfoldable pub rounds : List ℕ → Dropbox A → Dropbox A
  unfolding process
  rounds [] d = d
  rounds (now ∷ times) d = rounds times (process python services now d).1

module _ {A : Type 0} (python : Python) (services : Services A) (laws : Laws services) where
  open services use {receipts}

  abbrev pub Sound : Dropbox A → Type 0
  Sound d = AllSound (receipts d.archive) d.records.items

  Step-Sound : (d e : Dropbox A) → Step python services d e → Sound d → Sound e
  unfolding scan
  Step-Sound d e (submits now received filename data_ kind i s) h =
      submit-AllSound python services now received filename data_ kind d e i s h
  Step-Sound d _ (processes now) h =
      let (e, s, t) = process-AllSound python services laws now d h in
      subst (λ p. Sound p.1) (sym s) t
  Step-Sound d _ (dismisses identity) h = (dismiss-Dismisses services laws identity d h).sound
  Step-Sound d e (scans now received clock folder s) h =
      elim (scan-AllSound python services now received clock folder d h) [
        | inl l ↦ cc (rw l at s)
        | inr c ↦ subst Sound (ok-injective (sym c.1 ∙ s)) c.2
      ]
  Step-Sound d _ (scans_file now received clock f) h =
      scan_file-Sound python services now received clock f d h
  Step-Sound d _ (archives a keeps) h = AllSound-kept _ _ d.records.items keeps h

  -- Every state that the drop box can come to by its operations and by changes of an archive that gives
  -- each import a receipt and loses none: every item has its key for its id; an item that waits has no
  -- parts; one that is being imported has some; the parts of those and of failed items are imports with
  -- a receipt; and exactly the completed items carry the time of their completion.
  pub reachable-Sound : (d : Dropbox A) → Reachable python services d → Sound d
  reachable-Sound d (empty e) = subst (AllSound (receipts d.archive)) (sym e) tt
  reachable-Sound e (step {d} r s) = Step-Sound d e s (reachable-Sound d r)

  -- In every state that the drop box can come to, a round of `process` does not fail for want of an
  -- import's receipt, and a dismissal does not meet a part that is no import, as long as the archive
  -- gives each import a receipt and loses none.
  pub reachable-ok :
      (d : Dropbox A)
      → Reachable python services d
      → ((now : ℕ) → (e : Dropbox A) × (process python services now d ≡ (ok tt, e)))
        × ((identity : Text) → (dismiss services identity d).0 ≢ raises no_import)
  reachable-ok d r = (
    λ now.
        let (e, s, t) = process-AllSound python services laws now d (reachable-Sound d r) in (e, s),
    λ identity. (dismiss-Dismisses services laws identity d (reachable-Sound d r)).imports_only,
  )

  rounds-Sound :
      (times : List ℕ) (d : Dropbox A)
      → Sound d
      → count_pending (rounds python services times d).records.items
        ≡ count_pending d.records.items - length times
  unfolding rounds
  rounds-Sound [] d h = omega arith
  rounds-Sound (now ∷ times) d h =
      let (e, s, t) = process-AllSound python services laws now d h in
      let (f, c) = process-Follows python services now d e s in
      subst
        (λ p.
          count_pending (rounds python services times p.1).records.items
          ≡ count_pending d.records.items - length (now ∷ times))
        (sym s) (omega (arith, rounds-Sound times e t, c))

  -- From every state that the drop box can come to, rounds of `process` leave as many items waiting as
  -- there were, less one for each round, and none once there are as many rounds as items that waited.
  pub reachable-drains :
      (times : List ℕ) (d : Dropbox A)
      → Reachable python services d
      → count_pending (rounds python services times d).records.items
        ≡ count_pending d.records.items - length times
  reachable-drains times d r = rounds-Sound times d (reachable-Sound d r)
