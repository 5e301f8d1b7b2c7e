-- ===== src/Dropbox/Scan/Patience.antt =====
-- When services/store/coppermind_store/dropbox.py's `scan` takes a file, and what it does to the receipts.
use coppermind.Base.{
  ℕ, ◌+◌, ◌≤◌, ◌≡◌, ◌⊎◌, refl, subst, inl, inr, not, ◌||◌, Option, none, some, List, [], ◌∷◌, ltb,
  Bool-cases, arith,
}
use coppermind.Base.Texts.{Text, eqb, eqb_sound, eqb_refl}
use coppermind.Base.Dict.{lookup, lookup-insert}
use coppermind.Base.Attempt.{ok, Attempt-cases}
use coppermind.Dropbox.{Observation, ImportReceipt, Services, Python, Dropbox, submit, is_completed}
use coppermind.Dropbox.Process.{is_pending, is_importing, is_failed}
use coppermind.Dropbox.Process.Sound.{IsSound}
use coppermind.Dropbox.Process.Kept.{AllSound}
use coppermind.Dropbox.Receipts.{insert-AllSound, submit-AllSound}
use coppermind.Dropbox.Scan.{
  File, Intake, unstable, rejected, taken, observed, is_seen, intake, rejection, reject, note_seen,
  submitted, take_in, park, wait_or_take, scan_file, scan_files, Folder, missing, symlink, holds,
  scan, forget, scanned,
}

module _ {A : Type 0} (python : Python) (services : Services A) where
  open services use {receipts}

  -- A file that has been handled with this observation is left alone.
  unfoldable pub Handled : File → Dropbox A → Type 0
  Handled f d = lookup f.key d.records.observations ≡ some (observed f)

  pub Handled-fixed :
      (now : ℕ) (received : Text) (clock : ℕ) (f : File) (d : Dropbox A)
      → Handled f d
      → scan_file python services now received clock f d ≡ d
  unfolding scan_file Handled
  Handled-fixed now received clock f d h = elim (Bool-cases f.is_regular) [
    | inl r ↦ rw (r, h, eqb_refl (observed f)) refl
    | inr r ↦ rw r refl
  ]

  -- What became of a file: the records are as before; or it has waited for half a minute, and is
  -- handled.
  pub data Outcome (clock : ℕ) (f : File) (d e : Dropbox A) : Type 0 where
    waits : e.records ≡ d.records → Outcome clock f d e
    handles :
        (since : ℕ)
        → lookup f.key d.seen ≡ some (observed f, since)
        → since + 30 ≤ clock
        → Handled f e
        → Outcome clock f d e

  note_seen-Handled : (f : File) (d : Dropbox A) → Handled f (note_seen python services f d)
  unfolding note_seen Handled
  note_seen-Handled f d =
      rw (lookup-insert f.key f.key (observed f) d.records.observations, eqb_refl f.key) refl

  take_in-Outcome :
      (now : ℕ) (received : Text) (clock since : ℕ) (f : File) (i : Intake) (d : Dropbox A)
      → lookup f.key d.seen ≡ some (observed f, since)
      → since + 30 ≤ clock
      → Outcome clock f d (take_in python services now received f i d)
  unfolding take_in
  take_in-Outcome now received clock since f unstable d l t = waits refl
  take_in-Outcome now received clock since f (rejected error) d l t =
      handles since l t (note_seen-Handled f _)
  take_in-Outcome now received clock since f (taken data_ kind) d l t =
      handles since l t (note_seen-Handled f _)

  wait_or_take-Outcome :
      (now : ℕ) (received : Text) (clock : ℕ) (f : File) (s : Option (Observation × ℕ))
      (d : Dropbox A)
      → lookup f.key d.seen ≡ s
      → Outcome clock f d (wait_or_take python services now received clock f s d)
  unfolding wait_or_take park
  wait_or_take-Outcome now received clock f none d l = waits refl
  wait_or_take-Outcome now received clock f (some (o, since)) d l =
      elim (Bool-cases (eqb o (observed f))) [
        | inr n ↦ rw n (waits refl)
        | inl n ↦ elim (Bool-cases (ltb clock (since + 30))) [
          | inl t ↦ rw (n, t) (waits refl)
          | inr t ↦
              rw (n, t)
                (take_in-Outcome now received clock since f _ d
                  (subst (λ x. lookup f.key d.seen ≡ some (x, since)) (eqb_sound o (observed f) n)
                    l)
                  (ground arith))
        ]
      ]

  -- One file in a scan either leaves the records as they are, or the time at which `seen` has it with
  -- the same size, time of change and sidecar is half a minute ago or longer; and then that observation
  -- of it is on record.
  pub scan_file-Outcome :
      (now : ℕ) (received : Text) (clock : ℕ) (f : File) (d : Dropbox A)
      → Outcome clock f d (scan_file python services now received clock f d)
  unfolding scan_file
  scan_file-Outcome now received clock f d =
      elim (Bool-cases
        (not f.is_regular || is_seen (observed f) (lookup f.key d.records.observations))) [
          | inl s ↦ rw s (waits refl)
          | inr s ↦ rw s (wait_or_take-Outcome now received clock f (lookup f.key d.seen) d refl)
        ]

  -- The receipts that a scan leaves.
  abbrev pub Sound : Dropbox A → Type 0
  Sound d = AllSound (receipts d.archive) d.records.items

  rejection-IsSound :
      (rs : List ImportReceipt) (f : File) (error : Text)
      → IsSound rs (rejection python services f error).id (rejection python services f error)
  unfolding rejection is_pending is_importing is_failed is_completed
  rejection-IsSound rs f error = record {
    keyed = refl;
    waiting = λ h. refl;
    on_its_way = λ h. cc h;
    known = λ h. refl;
    timed = refl;
  }

  reject-Sound :
      (f : File) (error : Text) (d : Dropbox A) → Sound d → Sound (reject python services f error d)
  unfolding reject
  reject-Sound f error d h =
      insert-AllSound _ _ (rejection python services f error) d.records.items
        (rejection-IsSound _ f error) h

  take_in-Sound :
      (now : ℕ) (received : Text) (f : File) (i : Intake) (d : Dropbox A)
      → Sound d
      → Sound (take_in python services now received f i d)
  unfolding take_in note_seen submitted
  take_in-Sound now received f unstable d h = h
  take_in-Sound now received f (rejected error) d h = reject-Sound f error d h
  take_in-Sound now received f (taken data_ kind) d h =
      elim (Attempt-cases (submit python services now received f.name data_ kind d)) [
        | inl c ↦ rw c.1 (reject-Sound f _ d h)
        | inr c ↦
            rw c.1
              (submit-AllSound python services now received f.name data_ kind d c.0.1 c.0.0 c.1 h)
      ]

  wait_or_take-Sound :
      (now : ℕ) (received : Text) (clock : ℕ) (f : File) (s : Option (Observation × ℕ))
      (d : Dropbox A)
      → Sound d
      → Sound (wait_or_take python services now received clock f s d)
  unfolding wait_or_take park
  wait_or_take-Sound now received clock f none d h = h
  wait_or_take-Sound now received clock f (some (o, since)) d h =
      elim (Bool-cases (eqb o (observed f))) [
        | inr n ↦ rw n h
        | inl n ↦ elim (Bool-cases (ltb clock (since + 30))) [
          | inl t ↦ rw (n, t) h
          | inr t ↦ rw (n, t) (take_in-Sound now received f (intake python services f) d h)
        ]
      ]

  pub scan_file-Sound :
      (now : ℕ) (received : Text) (clock : ℕ) (f : File) (d : Dropbox A)
      → Sound d
      → Sound (scan_file python services now received clock f d)
  unfolding scan_file
  scan_file-Sound now received clock f d h =
      elim (Bool-cases
        (not f.is_regular || is_seen (observed f) (lookup f.key d.records.observations))) [
          | inl s ↦ rw s h
          | inr s ↦ rw s (wait_or_take-Sound now received clock f (lookup f.key d.seen) d h)
        ]

  scan_files-Sound :
      (now : ℕ) (received : Text) (clock : ℕ) (files : List File) (d : Dropbox A)
      → Sound d
      → Sound (scan_files python services now received clock files d)
  unfolding scan_files
  scan_files-Sound now received clock [] d h = h
  scan_files-Sound now received clock (f ∷ files) d h =
      scan_files-Sound now received clock files _ (scan_file-Sound now received clock f d h)

  -- Whatever the folder holds: a scan raises only for a symlink, and if every item is sound before it,
  -- every item is sound afterwards.
  pub scan-AllSound :
      (now : ℕ) (received : Text) (clock : ℕ) (folder : Folder) (d : Dropbox A)
      → Sound d
      → (folder ≡ symlink)
        ⊎ ((e : Dropbox A) × (scan python services now received clock folder d ≡ ok e) × Sound e)
  unfolding scan forget
  scan-AllSound now received clock missing d h = inr (_, refl, h)
  scan-AllSound now received clock symlink d h = inl refl
  scan-AllSound now received clock (holds files) d h =
      inr (_, refl, scan_files-Sound now received clock (scanned python services 0 files) d h)
