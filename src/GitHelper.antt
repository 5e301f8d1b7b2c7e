-- ===== src/GitHelper.antt =====
-- services/git/coppermind_git/main.py: the process that commits the notes once they have settled.
pub mod Waiting
pub mod Settling
pub mod Settings
mod Examples
use coppermind.Base.{
  ℕ, zero, suc, ◌+◌, ◌-◌, ◌*◌, ◌≡◌, Bool, true, false, not, ◌&&◌, ◌||◌, Option, none, some, List,
  [], ◌∷◌, leb, ltb, ◌==◌, if◌then◌else◌,
}
use coppermind.Base.Texts.{Text, codes, eqb}
use coppermind.Base.Attempt.{Attempt, raises, ok}

-- HelperSettings, with its defaults. `load` makes one with both times at least 1 second.
pub record HelperSettings : Type 0 where
  pub enabled : Bool
  pub debounce_s : ℕ
  pub poll_interval_s : ℕ
  pub identity_name : Text
  pub identity_email : Text
  pub gc_auto : Bool
  pub sources_folder : Text
  pub trash_folder : Text

abbrev pub shipped : HelperSettings
shipped = record {
  enabled = true;
  debounce_s = 60;
  poll_interval_s = 300;
  identity_name = codes "Coppermind";
  identity_email = codes "coppermind@localhost";
  gc_auto = true;
  sources_folder = codes "_Sources";
  trash_folder = codes "_Trash";
}

-- Times are in milliseconds. HEARTBEAT_S.
abbrev pub second : ℕ
second = 1000

abbrev pub heartbeat : ℕ
heartbeat = 30 * second

pub record Snapshot : Type 0 where
  pub tree : Text
  pub changes : List (Text × Text)

-- NotesRepo, as the helper uses it: each command changes the repository and returns or raises.
pub record NotesRepo : Type 1 where
  pub Repo : Type 0
  pub ensure : HelperSettings → Repo → Repo × Attempt Text (List Text)
  pub last_commit : Repo → Attempt Text (Option (Text × Text))
  pub stage : HelperSettings → Repo → Repo × Attempt Text Snapshot
  pub commit : HelperSettings → Snapshot → Repo → Repo × Attempt Text Text

-- Helper, and what it keeps between two ticks.
pub record Helper : Type 0 where
  pub settings : HelperSettings
  pub settings_error : Option Text
  pub scan_error : Option Text
  pub last_scan_at : Option ℕ
  pub last_run_at : Option ℕ
  pub pending_tree : Option Text
  pub dirty_files : ℕ
  pub last_commit : Option (Text × Text)

abbrev pub fresh : Helper
fresh = record {
  settings = shipped;
  settings_error = none;
  scan_error = none;
  last_scan_at = none;
  last_run_at = none;
  pending_tree = none;
  dirty_files = 0;
  last_commit = none;
}

abbrev pub is_some {ℓ} : {A : Type ℓ} → Option A → Bool
is_some none = false
is_some (some a) = true

-- A failed scan retries on the short interval, as a pending change does.
abbrev pub settling : Helper → Bool
settling h = is_some h.pending_tree || is_some h.scan_error

abbrev pub wait_of : Helper → ℕ
wait_of h = (if settling h then h.settings.debounce_s else h.settings.poll_interval_s) * second

-- `seconds_until_scan`, in milliseconds, where 0 stands for a time in the past as well: its callers
-- compare it with 0 and raise it to a second.
unfoldable pub until_scan : Helper → ℕ → ℕ
until_scan h now =
    if not h.settings.enabled
    then heartbeat
    else elim h.last_scan_at [ none ↦ 0 | some at ↦ at + wait_of h - now ]

-- `_refresh_settings`, given what `load` comes to
abbrev pub refresh_settings : Attempt Text HelperSettings → Helper → Helper
refresh_settings (raises error) h = record h { settings_error = some error }
refresh_settings (ok loaded) h = record h { settings = loaded; settings_error = none }

abbrev pub count {ℓ} : {A : Type ℓ} → List A → ℕ
count [] = 0
count (a ∷ l) = suc (count l)

-- snapshot.tree == self.pending_tree
abbrev pub is_pending : Text → Option Text → Bool
is_pending tree none = false
is_pending tree (some pending) = eqb tree pending

-- The truth of an optional text: an empty one is false.
abbrev pub is_true : Option Text → Bool
is_true none = false
is_true (some []) = false
is_true (some (c ∷ s)) = true

-- max(1.0, min(HEARTBEAT_S, …))
abbrev pub clamp : ℕ → ℕ
clamp wait = if ltb wait second then second else if ltb heartbeat wait then heartbeat else wait

module _ (n : NotesRepo) where
  open n use {Repo, ensure, last_commit, stage, commit}

  -- A scan that raises: the helper and the repository stay as they were at that statement.
  abbrev pub failed : Text → Helper → Repo → Helper × Repo
  failed error h r = (record h { scan_error = some error }, r)

  -- The end of a scan that raises nothing.
  pub finish : ℕ → Snapshot → Helper → Repo → Helper × Repo
  finish now snapshot h r = (
    record h {
      dirty_files = if is_true h.pending_tree then count snapshot.changes else 0;
      last_run_at = some now;
      scan_error = none;
    },
    r,
  )

  pub committed : ℕ → Snapshot → Helper → Repo → Attempt Text (Option (Text × Text)) → Helper × Repo
  unfolding finish
  committed now snapshot h r (raises error) = failed error h r
  committed now snapshot h r (ok head) =
      finish now snapshot (record h { last_commit = head; pending_tree = none }) r

  pub after_commit : ℕ → Snapshot → Helper → Repo → Attempt Text Text → Helper × Repo
  unfolding committed
  after_commit now snapshot h r (raises error) = failed error h r
  after_commit now snapshot h r (ok sha) = committed now snapshot h r (last_commit r)

  pub settle : ℕ → Snapshot → Helper → Repo → Helper × Repo
  unfolding finish after_commit
  settle now snapshot h r =
      let (r', made) = commit h.settings snapshot r in
      if count snapshot.changes == 0
      then finish now snapshot (record h { pending_tree = none }) r
      else if is_pending snapshot.tree h.pending_tree
      then after_commit now snapshot h r' made
      else finish now snapshot (record h { pending_tree = some snapshot.tree }) r

  pub after_stage : ℕ → Helper → Repo → Attempt Text Snapshot → Helper × Repo
  unfolding settle
  after_stage now h r (raises error) = failed error h r
  after_stage now h r (ok snapshot) = settle now snapshot h r

  pub with_head : ℕ → Helper → Repo → Helper × Repo
  unfolding after_stage
  with_head now h r = let (r', staged) = stage h.settings r in after_stage now h r' staged

  pub head_found : ℕ → Helper → Repo → Attempt Text (Option (Text × Text)) → Helper × Repo
  unfolding with_head
  head_found now h r (raises error) = failed error h r
  head_found now h r (ok head) = with_head now (record h { last_commit = head }) r

  pub find_head : ℕ → Helper → Repo → Option (Text × Text) → Helper × Repo
  unfolding with_head head_found
  find_head now h r (some head) = with_head now h r
  find_head now h r none = head_found now h r (last_commit r)

  pub after_ensure : ℕ → Helper → Repo → Attempt Text (List Text) → Helper × Repo
  unfolding find_head
  after_ensure now h r (raises error) = failed error h r
  after_ensure now h r (ok actions) = find_head now h r h.last_commit

  -- `_scan`
  unfoldable pub scan : ℕ → Helper → Repo → Helper × Repo
  unfolding after_ensure
  scan now h r =
      let (r', made) = ensure h.settings r in
      after_ensure now (record h { last_scan_at = some now }) r' made

  pub scan_if_due : ℕ → Helper → Repo → Helper × Repo
  unfolding until_scan scan
  scan_if_due now h r =
      let scanned = scan now h r in if leb (until_scan h now) 0 then scanned else (h, r)

  -- `tick`, given what loading the settings comes to: the helper, the repository and the wait
  unfoldable pub tick : ℕ → Attempt Text HelperSettings → Helper → Repo → Helper × Repo × ℕ
  unfolding scan_if_due until_scan
  tick now loaded h r =
      let (h', r') = scan_if_due now (refresh_settings loaded h) r in
      (h', r', clamp (until_scan h' now))
