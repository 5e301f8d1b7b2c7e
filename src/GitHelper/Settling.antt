-- ===== src/GitHelper/Settling.antt =====
-- What a scan of services/git/coppermind_git/main.py does with the changes that it finds.
use coppermind.Base.{
  ℕ, ◌≡◌, ◌≢◌, refl, sym, ◌∙◌, inl, inr, true, false, Option, none, some, List, [], ◌∷◌, ◌==◌,
  Bool-cases, arith,
}
use coppermind.Base.Texts.{Text, eqb_iff}
use coppermind.Base.Attempt.{Attempt, raises, ok}
use coppermind.GitHelper.{
  HelperSettings, Snapshot, NotesRepo, Helper, count, is_pending, finish, committed, after_commit,
  settle, after_stage, with_head, head_found, find_head, after_ensure, scan,
}

is_pending_sound :
    (tree : Text) (pending : Option Text) → is_pending tree pending ≡ true → pending ≡ some tree
is_pending_sound tree none h = cc
is_pending_sound tree (some p) h = ground (arith, eqb_iff tree p)

is_pending_complete :
    (tree : Text) (pending : Option Text) → is_pending tree pending ≡ false → pending ≢ some tree
is_pending_complete tree none h = λ e. cc
is_pending_complete tree (some p) h = λ e. ground (arith, eqb_iff tree p)

changes_empty : {A : Type 0} (l : List A) → (count l == 0) ≡ true → l ≡ []
unfolding count
changes_empty [] h = refl
changes_empty (a ∷ l) h = ground arith

module _ (n : NotesRepo) where
  open n use {Repo, ensure, last_commit, stage, commit}

  -- The ways in which a scan ends: what it found, what it leaves of the repository, and the tree that
  -- is pending afterwards.
  pub data Ending (settings : HelperSettings) (known : Option (Text × Text)) (pending : Option Text)
      (r : Repo) (h' : Helper) (r' : Repo) : Type 0 where
    not_ready :
        (error : Text)
        → (ensure settings r).1 ≡ raises error
        → r' ≡ (ensure settings r).0
        → h'.pending_tree ≡ pending
        → Ending settings known pending r h' r'
    no_head :
        (error : Text)
        → known ≡ none
        → last_commit (ensure settings r).0 ≡ raises error
        → r' ≡ (ensure settings r).0
        → h'.pending_tree ≡ pending
        → Ending settings known pending r h' r'
    not_staged :
        (error : Text)
        → (stage settings (ensure settings r).0).1 ≡ raises error
        → r' ≡ (stage settings (ensure settings r).0).0
        → h'.pending_tree ≡ pending
        → Ending settings known pending r h' r'
    clean :
        (s : Snapshot)
        → (stage settings (ensure settings r).0).1 ≡ ok s
        → s.changes ≡ []
        → r' ≡ (stage settings (ensure settings r).0).0
        → h'.pending_tree ≡ none
        → Ending settings known pending r h' r'
    noticed :
        (s : Snapshot)
        → (stage settings (ensure settings r).0).1 ≡ ok s
        → s.changes ≢ []
        → pending ≢ some s.tree
        → r' ≡ (stage settings (ensure settings r).0).0
        → h'.pending_tree ≡ some s.tree
        → Ending settings known pending r h' r'
    not_committed :
        (s : Snapshot) (error : Text)
        → (stage settings (ensure settings r).0).1 ≡ ok s
        → s.changes ≢ []
        → pending ≡ some s.tree
        → (commit settings s (stage settings (ensure settings r).0).0).1 ≡ raises error
        → r' ≡ (commit settings s (stage settings (ensure settings r).0).0).0
        → h'.pending_tree ≡ pending
        → Ending settings known pending r h' r'
    unread :
        (s : Snapshot) (sha error : Text)
        → (stage settings (ensure settings r).0).1 ≡ ok s
        → s.changes ≢ []
        → pending ≡ some s.tree
        → (commit settings s (stage settings (ensure settings r).0).0).1 ≡ ok sha
        → last_commit (commit settings s (stage settings (ensure settings r).0).0).0 ≡ raises error
        → r' ≡ (commit settings s (stage settings (ensure settings r).0).0).0
        → h'.pending_tree ≡ pending
        → Ending settings known pending r h' r'
    recorded :
        (s : Snapshot) (sha : Text) (head : Option (Text × Text))
        → (stage settings (ensure settings r).0).1 ≡ ok s
        → s.changes ≢ []
        → pending ≡ some s.tree
        → (commit settings s (stage settings (ensure settings r).0).0).1 ≡ ok sha
        → last_commit (commit settings s (stage settings (ensure settings r).0).0).0 ≡ ok head
        → r' ≡ (commit settings s (stage settings (ensure settings r).0).0).0
        → h'.pending_tree ≡ none
        → Ending settings known pending r h' r'

  count_nonempty : (s : Snapshot) → (count s.changes == 0) ≡ false → s.changes ≢ []
  count_nonempty s h e = cc (rw e at h)

  count_empty : (s : Snapshot) → (count s.changes == 0) ≡ true → s.changes ≡ []
  count_empty s h = changes_empty s.changes h

  -- Behind the start of a scan: a helper with the settings and the pending tree of that start.
  module _ (known : Option (Text × Text)) (pending : Option Text) (r : Repo) where
    -- The repository that is ready, the one that is staged and the one behind a commit.
    abbrev ready : HelperSettings → Repo
    ready settings = (ensure settings r).0

    abbrev laid : HelperSettings → Repo
    laid settings = (stage settings (ready settings)).0

    abbrev behind : HelperSettings → Snapshot → Repo
    behind settings s = (commit settings s (laid settings)).0

    abbrev Ends : HelperSettings → Helper × Repo → Type 0
    Ends settings (h', r') = Ending settings known pending r h' r'

    committed-Ending :
        (now : ℕ) (s : Snapshot) (h : Helper) (sha : Text)
        (head : Attempt Text (Option (Text × Text)))
        → (stage h.settings (ready h.settings)).1 ≡ ok s
        → s.changes ≢ []
        → pending ≡ some s.tree
        → (commit h.settings s (laid h.settings)).1 ≡ ok sha
        → last_commit (behind h.settings s) ≡ head
        → h.pending_tree ≡ pending
        → Ends h.settings (committed n now s h (behind h.settings s) head)
    unfolding committed finish
    committed-Ending now s h sha (raises error) staged ne e made read p =
        unread s sha error staged ne e made read refl p
    committed-Ending now s h sha (ok head) staged ne e made read p =
        recorded s sha head staged ne e made read refl refl

    after_commit-Ending :
        (now : ℕ) (s : Snapshot) (h : Helper) (made : Attempt Text Text)
        → (stage h.settings (ready h.settings)).1 ≡ ok s
        → s.changes ≢ []
        → pending ≡ some s.tree
        → (commit h.settings s (laid h.settings)).1 ≡ made
        → h.pending_tree ≡ pending
        → Ends h.settings (after_commit n now s h (behind h.settings s) made)
    unfolding after_commit
    after_commit-Ending now s h (raises error) staged ne e made p =
        not_committed s error staged ne e made refl p
    after_commit-Ending now s h (ok sha) staged ne e made p =
        committed-Ending now s h sha (last_commit (behind h.settings s)) staged ne e made refl p

    settle-Ending :
        (now : ℕ) (s : Snapshot) (h : Helper)
        → (stage h.settings (ready h.settings)).1 ≡ ok s
        → h.pending_tree ≡ pending
        → Ends h.settings (settle n now s h (laid h.settings))
    unfolding settle finish
    settle-Ending now s h staged p = elim (Bool-cases (count s.changes == 0)) [
      | inl e ↦ rw e (clean s staged (count_empty s e) refl refl)
      | inr e ↦ elim (Bool-cases (is_pending s.tree h.pending_tree)) [
        | inl f ↦
            rw (e, f)
              (after_commit-Ending now s h (commit h.settings s (laid h.settings)).1 staged
                (count_nonempty s e) (sym p ∙ is_pending_sound s.tree h.pending_tree f) refl p)
        | inr f ↦
            rw (e, f)
              (noticed s staged (count_nonempty s e)
                (λ g. is_pending_complete s.tree h.pending_tree f (p ∙ g)) refl refl)
      ]
    ]

    after_stage-Ending :
        (now : ℕ) (h : Helper) (staged : Attempt Text Snapshot)
        → (stage h.settings (ready h.settings)).1 ≡ staged
        → h.pending_tree ≡ pending
        → Ends h.settings (after_stage n now h (laid h.settings) staged)
    unfolding after_stage
    after_stage-Ending now h (raises error) e p = not_staged error e refl p
    after_stage-Ending now h (ok s) e p = settle-Ending now s h e p

    with_head-Ending :
        (now : ℕ) (h : Helper)
        → h.pending_tree ≡ pending
        → Ends h.settings (with_head n now h (ready h.settings))
    unfolding with_head
    with_head-Ending now h p =
        after_stage-Ending now h (stage h.settings (ready h.settings)).1 refl p

    head_found-Ending :
        (now : ℕ) (h : Helper) (head : Attempt Text (Option (Text × Text)))
        → known ≡ none
        → last_commit (ready h.settings) ≡ head
        → h.pending_tree ≡ pending
        → Ends h.settings (head_found n now h (ready h.settings) head)
    unfolding head_found
    head_found-Ending now h (raises error) e read p = no_head error e read refl p
    head_found-Ending now h (ok head) e read p =
        with_head-Ending now (record h { last_commit = head }) p

    find_head-Ending :
        (now : ℕ) (h : Helper) (before : Option (Text × Text))
        → known ≡ before
        → h.pending_tree ≡ pending
        → Ends h.settings (find_head n now h (ready h.settings) before)
    unfolding find_head
    find_head-Ending now h (some head) e p = with_head-Ending now h p
    find_head-Ending now h none e p =
        head_found-Ending now h (last_commit (ready h.settings)) e refl p

    after_ensure-Ending :
        (now : ℕ) (h : Helper) (made : Attempt Text (List Text))
        → (ensure h.settings r).1 ≡ made
        → h.last_commit ≡ known
        → h.pending_tree ≡ pending
        → Ends h.settings (after_ensure n now h (ready h.settings) made)
    unfolding after_ensure
    after_ensure-Ending now h (raises error) e head p = not_ready error e refl p
    after_ensure-Ending now h (ok actions) e head p =
        find_head-Ending now h h.last_commit (sym head) p

  -- How a scan ends. Where making the repository ready, reading an unknown head or staging raises,
  -- the scan stops there and the pending tree stays. Where it stages no changes, nothing is pending
  -- afterwards. If it stages changes to another tree than the pending one, it commits nothing and
  -- that tree is pending. If it stages changes to the very tree that was pending from before, it
  -- commits them: then nothing is pending, unless the commit or reading the new head raises, when
  -- the pending tree stays.
  pub scan-Ending :
      (now : ℕ) (h : Helper) (r : Repo)
      → let (h', r') = scan n now h r in Ending h.settings h.last_commit h.pending_tree r h' r'
  unfolding scan
  scan-Ending now h r =
      after_ensure-Ending h.last_commit h.pending_tree r now (record h { last_scan_at = some now })
        (ensure h.settings r).1 refl refl refl
