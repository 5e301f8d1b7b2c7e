-- ===== src/Dropbox/Scan/Keeps.antt =====
-- What services/store/coppermind_store/dropbox.py's `scan` of one file keeps of `seen` and of the
-- observations of other files.
use coppermind.Base.{
  if◌then◌else◌, ◌+◌, ℕ, ◌≡◌, refl, ap, ◌∙◌, inl, inr, Bool, true, false, not, ◌||◌, Option, none,
  some, List, [], ◌∷◌, ltb, Bool-cases, arith,
}
use coppermind.Base.Texts.{Text, eqb, eqb_iff, eqb_refl}
use coppermind.Base.Dict.{Dict, lookup, insert, lookup-insert}
use coppermind.Base.Distinct.{member}
use coppermind.Base.Attempt.{raises, ok}
use coppermind.Dropbox.{
  Bytes, Error, Marker, Item, Observation, Services, Python, Dropbox, adopt_content, kept_or,
  refusal, submit,
}
use coppermind.Dropbox.Intake.{kept_or-cases}
use coppermind.Dropbox.Scan.{
  File, Intake, unstable, rejected, taken, observed, is_seen, intake, reject, note_seen, submitted,
  take_in, park, wait_or_take, scan_file, still_there, forget,
}

module _ {A : Type 0} (python : Python) (services : Services A) where
  -- Neither `seen` nor the observations change.
  pub record Same (d e : Dropbox A) : Type 0 where
    pub seen : e.seen ≡ d.seen
    pub observations : e.records.observations ≡ d.records.observations

  kept_or-Same :
      (old : Option Item) (d : Dropbox A) (new : Item × Dropbox A)
      → Same d new.1
      → Same d (kept_or python services old d new).1
  kept_or-Same old d new h = elim (kept_or-cases python services old d new) [
    | inl (i, e, b, k) ↦ rw k (record { seen = refl; observations = refl })
    | inr (b, k) ↦ rw k h
  ]

  submitted-Same :
      (now : ℕ) (received : Text) (f : File) (data_ : Bytes) (kind : Option Marker) (d : Dropbox A)
      → Same d
          (submitted python services f (submit python services now received f.name data_ kind d) d)
  unfolding submit
  submitted-Same now received f data_ kind d = settled (refusal f.name data_ kind)
    where
      settled :
          (r : Option Error)
          → Same d (
              submitted python services f
                (elim r [
                  | some e ↦ raises e
                  | none ↦ ok (
                      kept_or python services
                        (lookup (python.sha256 data_) d.records.items)
                        d
                        (adopt_content python services now received f.name data_ kind d))
                ])
                d)
      settled (some e) = unfold submitted reject in record { seen = refl; observations = refl }
      settled none =
          let new = adopt_content python services now received f.name data_ kind d in
          let adopted : Same d new.1 =
            unfold adopt_content in record { seen = refl; observations = refl } in
          let old = lookup (python.sha256 data_) d.records.items in
          let kept : Same d (kept_or python services old d new).1 =
            kept_or-Same old d new adopted in
          unfold submitted in kept

  take_in-seen :
      (now : ℕ) (received : Text) (f : File) (i : Intake) (d : Dropbox A)
      → (take_in python services now received f i d).seen ≡ d.seen
  unfolding take_in note_seen reject
  take_in-seen now received f unstable d = refl
  take_in-seen now received f (rejected error) d = refl
  take_in-seen now received f (taken data_ kind) d =
      (submitted-Same now received f data_ kind d).seen

  take_in-observations :
      (now : ℕ) (received : Text) (f : File) (i : Intake) (d : Dropbox A) (key : Text)
      → eqb f.key key ≡ false
      → lookup key (take_in python services now received f i d).records.observations
        ≡ lookup key d.records.observations
  unfolding take_in note_seen reject
  take_in-observations now received f unstable d key n = refl
  take_in-observations now received f (rejected error) d key n =
      rw (lookup-insert f.key key (observed f) d.records.observations, n) refl
  take_in-observations now received f (taken data_ kind) d key n =
      let e =
        submitted python services f (submit python services now received f.name data_ kind d) d in
      lookup-insert f.key key (observed f) e.records.observations
      ∙ (rw n (ap (lookup key) (submitted-Same now received f data_ kind d).observations))

  -- The test by which the loop passes over a file.
  abbrev pub passes_over : File → Dropbox A → Bool
  passes_over f d = not f.is_regular || is_seen (observed f) (lookup f.key d.records.observations)

  -- What a scan of one file does to `seen`.
  pub data Sees (clock : ℕ) (f : File) (d e : Dropbox A) : Type 0 where
    passed : passes_over f d ≡ true → e ≡ d → Sees clock f d e
    parked :
        passes_over f d ≡ false
        → e.seen ≡ insert f.key (observed f, clock) d.seen
        → Sees clock f d e
    same :
        (since : ℕ)
        → passes_over f d ≡ false
        → lookup f.key d.seen ≡ some (observed f, since)
        → e.seen ≡ d.seen
        → Sees clock f d e

  waits-Sees :
      (now : ℕ) (received : Text) (clock : ℕ) (f : File) (s : Option (Observation × ℕ))
      (d : Dropbox A)
      → passes_over f d ≡ false
      → lookup f.key d.seen ≡ s
      → Sees clock f d (wait_or_take python services now received clock f s d)
  unfolding wait_or_take park
  waits-Sees now received clock f none d p l = parked p refl
  waits-Sees now received clock f (some (o, since)) d p l = elim (Bool-cases (eqb o (observed f))) [
    | inr n ↦ rw n (parked p refl)
    | inl n ↦
        let found : lookup f.key d.seen ≡ some (observed f, since) =
          l ∙ ap (λ q. some (q, since)) ((eqb_iff o (observed f)).0 n) in
        elim (Bool-cases (ltb clock (since + 30))) [
          | inl t ↦ rw (n, t) (same since p found refl)
          | inr t ↦
              rw (n, t)
                (same since p found (take_in-seen now received f (intake python services f) d))
        ]
  ]

  pub scan_file-Sees :
      (now : ℕ) (received : Text) (clock : ℕ) (f : File) (d : Dropbox A)
      → Sees clock f d (scan_file python services now received clock f d)
  unfolding scan_file
  scan_file-Sees now received clock f d = elim (Bool-cases (passes_over f d)) [
    | inl p ↦ rw p (passed p refl)
    | inr p ↦ rw p (waits-Sees now received clock f (lookup f.key d.seen) d p refl)
  ]

  waits-observations :
      (now : ℕ) (received : Text) (clock : ℕ) (f : File) (s : Option (Observation × ℕ))
      (d : Dropbox A) (key : Text)
      → eqb f.key key ≡ false
      → lookup key (wait_or_take python services now received clock f s d).records.observations
        ≡ lookup key d.records.observations
  unfolding wait_or_take park
  waits-observations now received clock f none d key n = refl
  waits-observations now received clock f (some (o, since)) d key n =
      elim (Bool-cases (eqb o (observed f))) [
        | inr e ↦ rw e refl
        | inl e ↦ elim (Bool-cases (ltb clock (since + 30))) [
          | inl t ↦ rw (e, t) refl
          | inr t ↦
              rw (e, t) (take_in-observations now received f (intake python services f) d key n)
        ]
      ]

  -- A scan of one file keeps the observations of the others.
  pub scan_file-observations :
      (now : ℕ) (received : Text) (clock : ℕ) (f : File) (d : Dropbox A) (key : Text)
      → eqb f.key key ≡ false
      → lookup key (scan_file python services now received clock f d).records.observations
        ≡ lookup key d.records.observations
  unfolding scan_file
  scan_file-observations now received clock f d key n = elim (Bool-cases (passes_over f d)) [
    | inl p ↦ rw p refl
    | inr p ↦ rw p (waits-observations now received clock f (lookup f.key d.seen) d key n)
  ]

  lookup-still_there :
      {V : Type 0} (keys : List Text) (d : Dict V) (key : Text)
      → lookup key (still_there python services keys d)
        ≡ (if member eqb key keys then lookup key d else none)
  unfolding still_there lookup
  lookup-still_there keys [] key = ground arith
  lookup-still_there keys ((j, v) ∷ d) key = elim (Bool-cases (eqb j key)) [
    | inl e ↦ rw ((eqb_iff j key).0 e) (ground (arith, lookup-still_there keys d key, eqb_refl key))
    | inr e ↦ elim (Bool-cases (member eqb j keys)) [
      | inl f ↦ rw (e, f, e) (lookup-still_there keys d key)
      | inr f ↦ rw (e, f) (lookup-still_there keys d key)
    ]
  ]

  -- Forgetting the files that are gone.
  pub forget-observations :
      (keys : List Text) (d : Dropbox A) (key : Text)
      → member eqb key keys ≡ true
      → lookup key (forget python services keys d).records.observations
        ≡ lookup key d.records.observations
  unfolding forget
  forget-observations keys d key h =
      lookup-still_there keys d.records.observations key ∙ (rw h refl)

  pub forget-seen :
      (keys : List Text) (d : Dropbox A) (key : Text) (s : Observation × ℕ)
      → lookup key (forget python services keys d).seen ≡ some s
      → lookup key d.seen ≡ some s
  unfolding forget
  forget-seen keys d key s h = ground (arith, lookup-still_there keys d.seen key)
