-- ===== src/Dropbox/Scan/History.antt =====
-- The patience of services/store/coppermind_store/dropbox.py's `scan` over whole runs: which scans stand
-- behind the time that `seen` has for a file, and what later ones do to a file that was handled.
use coppermind.Base.{
  ℕ, ◌+◌, ◌≤◌, ◌≡◌, sym, ap, ◌∙◌, inl, inr, Bool, true, false, Option, some, List, [], ◌∷◌,
  if◌then◌else◌, Bool-cases, arith,
}
use coppermind.Base.Texts.{Text, eqb, eqb_iff}
use coppermind.Base.Dict.{lookup, lookup-insert}
use coppermind.Base.Distinct.{member}
use coppermind.Dropbox.{Observation, Services, Python, Dropbox}
use coppermind.Dropbox.Scan.{File, observed, scan_file, forget}
use coppermind.Dropbox.Scan.Keeps.{
  passes_over, Sees, passed, parked, same, scan_file-Sees, scan_file-observations,
  forget-observations, forget-seen,
}
use coppermind.Dropbox.Scan.Patience.{Handled, Handled-fixed, waits, handles, scan_file-Outcome}

-- A file as a scan met it, and whether the scan passed it over.
pub record Sighting : Type 0 where
  pub clock : ℕ
  pub file : File
  pub is_passed : Bool

-- A log, the latest sighting first, in which a file was looked at with an observation at some time, and each
-- later scan that did not pass it over met it with the same.
pub data Still (key : Text) (o : Observation) (since : ℕ) : List Sighting → Type 0 where
  first :
      (s : Sighting) (log : List Sighting)
      → s.clock ≡ since
      → s.is_passed ≡ false
      → s.file.key ≡ key
      → observed s.file ≡ o
      → Still key o since (s ∷ log)
  looked_on :
      (s : Sighting) (log : List Sighting)
      → (s.file.key ≡ key → s.is_passed ≡ false → observed s.file ≡ o)
      → Still key o since log
      → Still key o since (s ∷ log)

first_same :
    {o p : Observation} {m n : ℕ}
    → Path (Option (Observation × ℕ)) (some (o, m)) (some (p, n))
    → o ≡ p
first_same {o} {p} {m} {n} e = ground arith

second_same :
    {o p : Observation} {m n : ℕ}
    → Path (Option (Observation × ℕ)) (some (o, m)) (some (p, n))
    → m ≡ n
second_same {o} {p} {m} {n} e = ground arith

module _ {A : Type 0} (python : Python) (services : Services A) where
  -- A drop box since it started, with the log of its scans. Whatever else is done to it leaves `seen`
  -- alone.
  pub data Watched : List Sighting → Dropbox A → Type 0 where
    begins : (d : Dropbox A) → d.seen ≡ [] → Watched [] d
    meets :
        {log : List Sighting} {d : Dropbox A}
        → Watched log d
        → (now : ℕ) (received : Text) (clock : ℕ) (f : File)
        → Watched
            (record { clock = clock; file = f; is_passed = passes_over python services f d } ∷ log)
            (scan_file python services now received clock f d)
    forgets :
        {log : List Sighting} {d : Dropbox A}
        → Watched log d
        → (keys : List Text) → Watched log (forget python services keys d)
    loses :
        {log : List Sighting} {d : Dropbox A} → Watched log d → Watched log (record d { seen = [] })
    works :
        {log : List Sighting} {d : Dropbox A}
        → Watched log d
        → (e : Dropbox A) → e.seen ≡ d.seen
        → Watched log e

  meets-Still :
      {log : List Sighting} {d e : Dropbox A} (clock : ℕ) (f : File) (key : Text) (o : Observation)
      (since : ℕ)
      → Sees python services clock f d e
      → (lookup key d.seen ≡ some (o, since) → Still key o since log)
      → lookup key e.seen ≡ some (o, since)
      → Still key o since
          (record { clock = clock; file = f; is_passed = passes_over python services f d } ∷ log)
  meets-Still {log} {d} {e} clock f key o since (passed p is) old h =
      looked_on _ log (λ k n. cc (p, n)) (old (rw is at h))
  meets-Still {log} {d} {e} clock f key o since (same t p l is) old h =
      let before = rw is at h in looked_on _ log (λ k n. known k before) (old before)
    where
      known : f.key ≡ key → lookup key d.seen ≡ some (o, since) → observed f ≡ o
      known k before = first_same (sym l ∙ ap (λ u. lookup u d.seen) k ∙ before)
  meets-Still {log} {d} {e} clock f key o since (parked p is) old h =
      elim (Bool-cases (eqb f.key key)) [
        | inl k ↦ first _ log (second_same (put k)) p ((eqb_iff f.key key).0 k) (first_same (put k))
        | inr k ↦ looked_on _ log (λ e n. cc ((eqb_iff f.key key).1 e, k)) (old (kept k))
      ]
    where
      found :
          Path
            (Option (Observation × ℕ))
            (if eqb f.key key then some (observed f, clock) else lookup key d.seen)
            (some (o, since))
      found = sym (lookup-insert f.key key (observed f, clock) d.seen) ∙ (rw is at h)

      put :
          eqb f.key key ≡ true
          → Path (Option (Observation × ℕ)) (some (observed f, clock)) (some (o, since))
      put k = rw k at found

      kept : eqb f.key key ≡ false → lookup key d.seen ≡ some (o, since)
      kept k = rw k at found

  pub Watched-Still :
      {log : List Sighting} {d : Dropbox A}
      → Watched log d
      → (key : Text) (o : Observation) (since : ℕ) → lookup key d.seen ≡ some (o, since)
      → Still key o since log
  unfolding lookup
  Watched-Still (begins d e) key o since h = cc (rw e at h)
  Watched-Still (meets {log} {d} w now received clock f) key o since h =
      meets-Still clock f key o since (scan_file-Sees python services now received clock f d)
        (Watched-Still w key o since) h
  Watched-Still (forgets {log} {d} w keys) key o since h =
      Watched-Still w key o since (forget-seen python services keys d key (o, since) h)
  Watched-Still (loses w) key o since h = cc h
  Watched-Still (works w e same_seen) key o since h =
      Watched-Still w key o since (rw same_seen at h)

  -- What may happen behind a scan as long as the file stays as it is: scans of other files, scans that
  -- meet it with the same observation, forgetting files but not this one, and whatever leaves the
  -- observations alone.
  pub data Quiet (f : File) (d : Dropbox A) : Dropbox A → Type 0 where
    at_once : Quiet f d d
    meets :
        {e : Dropbox A}
        → Quiet f d e
        → (now : ℕ) (received : Text) (clock : ℕ) (g : File)
        → (g.key ≡ f.key → observed g ≡ observed f)
        → Quiet f d (scan_file python services now received clock g e)
    forgets :
        {e : Dropbox A}
        → Quiet f d e
        → (keys : List Text) → member eqb f.key keys ≡ true
        → Quiet f d (forget python services keys e)
    works :
        {e : Dropbox A}
        → Quiet f d e
        → (x : Dropbox A) → x.records.observations ≡ e.records.observations
        → Quiet f d x

  Quiet-Handled :
      (f : File) {d e : Dropbox A}
      → Handled python services f d
      → Quiet f d e
      → Handled python services f e
  unfolding Handled
  Quiet-Handled f h at_once = h
  Quiet-Handled f h (meets {e} q now received clock g alike) =
      let before = Quiet-Handled f h q in
      elim (Bool-cases (eqb g.key f.key)) [
        | inl k ↦
            let is = (eqb_iff g.key f.key).0 k in
            let handled : Handled python services g e =
              ap (λ t. lookup t e.records.observations) is ∙ before ∙ ap some (sym (alike is)) in
            rw (Handled-fixed python services now received clock g e handled) before
        | inr k ↦ scan_file-observations python services now received clock g e f.key k ∙ before
      ]
  Quiet-Handled f h (forgets {e} q keys m) =
      forget-observations python services keys e f.key m ∙ Quiet-Handled f h q
  Quiet-Handled f h (works {e} q x kept) = ap (lookup f.key) kept ∙ Quiet-Handled f h q

  -- What a scan of one file comes to.
  pub data Patience (log : List Sighting) (clock : ℕ) (f : File) (d e : Dropbox A) : Type 0 where
    untouched : e.records ≡ d.records → Patience log clock f d e
    handled :
        (since : ℕ)
        → Still f.key (observed f) since log
        → since + 30 ≤ clock
        → ((x : Dropbox A)
            → Quiet f e x
            → (now : ℕ) (received : Text) (later : ℕ)
            → scan_file python services now received later f x ≡ x)
        → Patience log clock f d e

  -- A scan of one file, in a drop box whose scans since its start are logged, either leaves the records
  -- as they are; or an earlier scan, half a minute ago or longer, met the file with the same size, time
  -- of change and sidecar, and so did each scan since then that did not pass the file over. In that case
  -- no later scan that meets the file as it is does anything, whatever scans of other files, or other
  -- work that leaves the observations alone, come in between, unless the file is forgotten.
  pub scan_file-Patience :
      {log : List Sighting} {d : Dropbox A}
      → Watched log d
      → (now : ℕ) (received : Text) (clock : ℕ) (f : File)
      → Patience log clock f d (scan_file python services now received clock f d)
  scan_file-Patience {log} {d} w now received clock f =
      elim (scan_file-Outcome python services now received clock f d) [
        | waits same_records ↦ untouched same_records
        | handles since l t h ↦
            handled since (Watched-Still w f.key (observed f) since l) t
              λ x q n r c. Handled-fixed python services n r c f x (Quiet-Handled f h q)
      ]
