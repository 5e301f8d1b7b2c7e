-- ===== src/Schema/Changes.antt =====
-- coppermind/schema.py: the patch that a suggested value makes (`field_suggestion_changes`), and
-- services/store/coppermind_store/note_lifecycle.py: whether a note's date and time allow its review
-- to be completed (`validate_review`).
pub mod Reviewed
use coppermind.Base.{
  ◌≡◌, Bool, true, false, not, ◌&&◌, ◌||◌, Option, none, some, List, [], ◌∷◌, ◌++◌, map,
  if◌then◌else◌,
}
use coppermind.Base.Texts.{Text, codes, eqb}
use coppermind.Base.Dict.{Dict}
use coppermind.Base.Distinct.{add_all}
use coppermind.Base.Attempt.{Attempt, raises, ok, ◌>>=◌}
use coppermind.Naming.{Date}
use coppermind.Schema.{
  Clock, Item, word, Value, null, boolean, text, items, Frontmatter, get, FrontmatterSchema,
  SchemaError, role,
}
use coppermind.Schema.Times.{
  Iso, DateProblem, parse_note_time, is_some, time_key, note_date_by, note_start_time_by,
  date_field_problem_by, normalize_note_time,
}
use coppermind.Schema.Tags.{account_list}

module _ (iso : Iso) where
  -- The value that a suggested date is written as.
  written_date : Text → Frontmatter → Value → Value
  unfolding parse_note_time normalize_note_time get
  written_date date_key fm v =
      let parsed = parse_note_time iso v in
      if parsed.valid && is_some parsed.time_value
      then text (normalize_note_time iso v (note_date_by iso date_key fm))
      else v

  -- The names of an account with those of a suggestion behind them.
  pub with_accounts : Value → Value → List Text
  unfolding account_list add_all
  with_accounts current v = add_all eqb (account_list current) (account_list v)

  -- `field_suggestion_changes`: what to set, and what to unset
  pub date_changes : Text → Frontmatter → Value → Frontmatter × List Text
  unfolding written_date
  date_changes date_key fm v =
      ((date_key, written_date date_key fm v) ∷ [], time_key ∷ codes "timezone" ∷ [])

  pub other_changes : Text → Frontmatter → Text → Value → Frontmatter × List Text
  unfolding with_accounts get
  other_changes account_key fm field v =
      if eqb field account_key
      then ((account_key, items (map word (with_accounts (get account_key fm) v))) ∷ [], [])
      else ((field, v) ∷ [], [])

  unfoldable pub changes_by :
      FrontmatterSchema
      → Frontmatter
      → Text
      → Value
      → Text
      → Attempt SchemaError (Frontmatter × List Text)
  unfolding date_changes other_changes role
  changes_by s fm field v date_key =
      let others = role s (codes "account_key") >>= λ key. ok (other_changes key fm field v) in
      if eqb field date_key || eqb field time_key then ok (date_changes date_key fm v) else others

  unfoldable pub field_suggestion_changes :
      Frontmatter → FrontmatterSchema → Text → Value → Attempt SchemaError (Frontmatter × List Text)
  unfolding changes_by role
  field_suggestion_changes fm s field v = role s (codes "date_key") >>= changes_by s fm field v

-- What `validate_review` raises; a role that the schema lacks is an error of the schema.
pub data ReviewProblem : Type 0 where
  bad_date : DateProblem → ReviewProblem
  no_date invalid_meeting_time no_meeting_time : ReviewProblem
  bad_schema : SchemaError → ReviewProblem

is_text : Text → Value → Bool
is_text s (text t) = eqb t s
is_text s v = false

is_true : Value → Bool
is_true (boolean true) = true
is_true v = false

abbrev check {ℓ} : {E : Type 0} {A : Type ℓ} → Bool → E → Attempt E A → Attempt E A
check true e rest = raises e
check false e rest = rest

module _ (iso : Iso) where
  -- The checks of a work note's time.
  unfoldable pub review_time : Text → Frontmatter → Attempt ReviewProblem (Unit {0})
  unfolding parse_note_time get is_true
  review_time date_key fm =
      let legacy = parse_note_time iso (get time_key fm) in
      check (legacy.present && not legacy.valid) invalid_meeting_time (
        if is_true (get (codes "time_unknown") fm)
        then ok tt
        else check (not (is_some (note_start_time_by iso date_key fm))) no_meeting_time (ok tt))

  check_problem :
      Option DateProblem → Attempt ReviewProblem (Unit {0}) → Attempt ReviewProblem (Unit {0})
  check_problem none rest = rest
  check_problem (some p) rest = raises (bad_date p)

  role_or :
      Attempt SchemaError Text
      → (Text → Attempt ReviewProblem (Unit {0}))
      → Attempt ReviewProblem (Unit {0})
  role_or (raises e) rest = raises (bad_schema e)
  role_or (ok key) rest = rest key

  unfoldable pub review_type : Text → Frontmatter → Text → Attempt ReviewProblem (Unit {0})
  unfolding review_time is_text get
  review_type date_key fm type_key =
      if is_text (codes "work") (get type_key fm) then review_time date_key fm else ok tt

  unfoldable pub review_date :
      Text → Attempt SchemaError Text → Frontmatter → Attempt ReviewProblem (Unit {0})
  unfolding review_type check_problem role_or parse_note_time get
  review_date date_key type_role fm = check_problem (date_field_problem_by iso date_key fm) (
      check (not (is_some (note_date_by iso date_key fm))) no_date
        (role_or type_role (review_type date_key fm)))

  unfoldable pub validate_review :
      Frontmatter → FrontmatterSchema → Attempt ReviewProblem (Unit {0})
  unfolding review_date role_or role
  validate_review fm s =
      role_or (role s (codes "date_key"))
        λ date_key. review_date date_key (role s (codes "type_key")) fm
