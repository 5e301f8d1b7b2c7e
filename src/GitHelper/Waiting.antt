-- ===== src/GitHelper/Waiting.antt =====
-- When the helper of services/git/coppermind_git/main.py wakes up.
use coppermind.Base.{
  ℕ, ◌+◌, ◌-◌, ◌≤◌, ◌<◌, ◌≡◌, refl, ap, ◌∙◌, inl, inr, true, false, Option, none, some, List, leb,
  ◌==◌, Bool-cases, Option-cases, arith,
}
use coppermind.Base.Texts.{Text}
use coppermind.Base.Attempt.{Attempt, raises, ok}
use coppermind.GitHelper.{
  HelperSettings, second, heartbeat, Snapshot, NotesRepo, Helper, settling, wait_of, until_scan,
  refresh_settings, count, is_pending, finish, committed, head_found, after_commit, settle,
  after_stage, with_head, find_head, after_ensure, scan, clamp, scan_if_due, tick,
}

-- A scan keeps the settings, and the time at which it began.
record Begun (h : Helper) (h' : Helper) : Type 0 where
  same_settings : h'.settings ≡ h.settings
  same_time : h'.last_scan_at ≡ h.last_scan_at

-- Times that `load` accepts.
abbrev pub Positive : HelperSettings → Type 0
Positive s = (0 < s.debounce_s) × (0 < s.poll_interval_s)

wait_of-Positive : (h : Helper) → Positive h.settings → 0 < wait_of h
wait_of-Positive h (p, q) = elim (Bool-cases (settling h)) [
  | inl e ↦ rw e (omega arith)
  | inr e ↦ rw e (omega arith)
]

-- A scan has begun, and the next one is not due yet.
abbrev pub IsAhead : Helper → ℕ → Type 0
IsAhead h now = (begun : ℕ) × (h.last_scan_at ≡ some begun) × (now < begun + wait_of h)

later-IsAhead :
    (h : Helper) (now : ℕ)
    → h.settings.enabled ≡ true
    → leb (until_scan h now) 0 ≡ false
    → IsAhead h now
unfolding until_scan
later-IsAhead h now e later = elim (Option-cases h.last_scan_at) [
  | inl f ↦ cc (rw (e, f) at later)
  | inr (begun, f) ↦
      let left : leb (begun + wait_of h - now) 0 ≡ false = rw (e, f) at later in
      (begun, f, ground arith)
]

-- The wait before the next tick, against the time at which the next scan is due.
pub record IsTimely (h : Helper) (now wait : ℕ) : Type 0 where
  pub ahead : IsAhead h now
  pub prompt : now + wait < ahead.0 + wait_of h + second

clamp-IsTimely :
    (h : Helper) (now : ℕ)
    → h.settings.enabled ≡ true
    → IsAhead h now
    → IsTimely h now (clamp (until_scan h now))
unfolding until_scan
clamp-IsTimely h now e (begun, f, p) = record {
  ahead = (begun, f, p);
  prompt = rw (e, f) (prompt_in (wait_of h) p);
}
  where
    prompt_in : (w : ℕ) → now < begun + w → now + clamp (begun + w - now) < begun + w + second
    prompt_in w q = ground arith

module _ (n : NotesRepo) where
  open n use {Repo, last_commit, stage, commit, ensure}

  committed-Begun :
      (now : ℕ) (s : Snapshot) (h : Helper) (r : Repo) (head : Attempt Text (Option (Text × Text)))
      → Begun h (committed n now s h r head).0
  unfolding committed finish
  committed-Begun now s h r (raises error) = record { same_settings = refl; same_time = refl }
  committed-Begun now s h r (ok head) = record { same_settings = refl; same_time = refl }

  after_commit-Begun :
      (now : ℕ) (s : Snapshot) (h : Helper) (r : Repo) (made : Attempt Text Text)
      → Begun h (after_commit n now s h r made).0
  unfolding after_commit
  after_commit-Begun now s h r (raises error) = record { same_settings = refl; same_time = refl }
  after_commit-Begun now s h r (ok sha) = committed-Begun now s h r (last_commit r)

  settle-Begun : (now : ℕ) (s : Snapshot) (h : Helper) (r : Repo) → Begun h (settle n now s h r).0
  unfolding settle finish
  settle-Begun now s h r = elim (Bool-cases (count s.changes == 0)) [
    | inl e ↦ rw e (record { same_settings = refl; same_time = refl })
    | inr e ↦ elim (Bool-cases (is_pending s.tree h.pending_tree)) [
      | inl f ↦
          rw (e, f) (after_commit-Begun now s h (commit h.settings s r).0 (commit h.settings s r).1)
      | inr f ↦ rw (e, f) (record { same_settings = refl; same_time = refl })
    ]
  ]

  after_stage-Begun :
      (now : ℕ) (h : Helper) (r : Repo) (staged : Attempt Text Snapshot)
      → Begun h (after_stage n now h r staged).0
  unfolding after_stage
  after_stage-Begun now h r (raises error) = record { same_settings = refl; same_time = refl }
  after_stage-Begun now h r (ok s) = settle-Begun now s h r

  with_head-Begun : (now : ℕ) (h : Helper) (r : Repo) → Begun h (with_head n now h r).0
  unfolding with_head
  with_head-Begun now h r = after_stage-Begun now h (stage h.settings r).0 (stage h.settings r).1

  find_head-Begun :
      (now : ℕ) (h : Helper) (r : Repo) (known : Option (Text × Text))
      → Begun h (find_head n now h r known).0
  unfolding find_head head_found
  find_head-Begun now h r (some head) = with_head-Begun now h r
  find_head-Begun now h r none = head_found-Begun (last_commit r)
    where
      head_found-Begun :
          (head : Attempt Text (Option (Text × Text))) → Begun h (head_found n now h r head).0
      head_found-Begun (raises error) = record { same_settings = refl; same_time = refl }
      head_found-Begun (ok head) =
          let b = with_head-Begun now (record h { last_commit = head }) r in
          record { same_settings = b.same_settings; same_time = b.same_time }

  after_ensure-Begun :
      (now : ℕ) (h : Helper) (r : Repo) (made : Attempt Text (List Text))
      → Begun h (after_ensure n now h r made).0
  unfolding after_ensure
  after_ensure-Begun now h r (raises error) = record { same_settings = refl; same_time = refl }
  after_ensure-Begun now h r (ok actions) = find_head-Begun now h r h.last_commit

  scan-Begun :
      (now : ℕ) (h : Helper) (r : Repo)
      → Begun (record h { last_scan_at = some now }) (scan n now h r).0
  unfolding scan
  scan-Begun now h r =
      after_ensure-Begun now (record h { last_scan_at = some now }) (ensure h.settings r).0
        (ensure h.settings r).1

  scan_if_due-IsAhead :
      (now : ℕ) (h : Helper) (r : Repo)
      → Positive h.settings
      → h.settings.enabled ≡ true
      → IsAhead (scan_if_due n now h r).0 now × ((scan_if_due n now h r).0.settings ≡ h.settings)
  unfolding scan_if_due
  scan_if_due-IsAhead now h r p e = elim (Bool-cases (leb (until_scan h now) 0)) [
    | inr later ↦ rw later (later-IsAhead h now e later, refl)
    | inl due ↦
        let b = scan-Begun now h r in
        let positive = wait_of-Positive (scan n now h r).0 (rw (b.same_settings) p) in
        rw due ((now, b.same_time, omega (arith, positive)), b.same_settings)
  ]

  -- Whatever is loaded, found and raised in a tick: the helper waits at least a second and at most
  -- half a minute. If the settings that the tick leaves it are enabled, with both times at least a
  -- second, then a scan has begun by then, the next one is not due at the time of the tick, and the
  -- next tick comes less than a second after it is.
  pub tick-IsTimely :
      (now : ℕ) (loaded : Attempt Text HelperSettings) (h : Helper) (r : Repo)
      → let (h', r', wait) = tick n now loaded h r in
        (second ≤ wait)
        × (wait ≤ heartbeat)
        × (Positive (refresh_settings loaded h).settings
            → (refresh_settings loaded h).settings.enabled ≡ true
            → IsTimely h' now wait)
  unfolding tick
  tick-IsTimely now loaded h r =
      let before = refresh_settings loaded h in
      let after = (scan_if_due n now before r).0 in
      (
        ground arith,
        ground arith,
        λ p e.
            let (ahead, same) = scan_if_due-IsAhead now before r p e in
            clamp-IsTimely after now (ap HelperSettings.enabled same ∙ e) ahead,
      )
