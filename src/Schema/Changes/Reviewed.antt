-- ===== src/Schema/Changes/Reviewed.antt =====
-- What a note has whose review services/store/coppermind_store/note_lifecycle.py lets be completed, and
-- what a suggestion leaves of its accounts.
use coppermind.Base.{
  ◌≡◌, ◌≢◌, refl, ap, inl, inr, Bool, true, false, not, ◌&&◌, Option, none, some, Bool-cases, arith,
}
use coppermind.Base.Texts.{Text, codes, is_empty, is_space, strip}
use coppermind.Base.Distinct.{Distinct}
use coppermind.Base.Attempt.{Attempt, raises, ok}
use coppermind.Naming.{Date}
use coppermind.Schema.{
  Clock, Value, null, other, boolean, integer, text, items, day, moment, Frontmatter, get,
  FrontmatterSchema, SchemaError, role,
}
use coppermind.Schema.Times.{
  Iso, DateProblem, parse_note_time, says_something, is_some, time_key, note_date_by,
  note_start_time_by, date_field_problem_by,
}
use coppermind.Schema.Changes.{
  ReviewProblem, validate_review, review_date, review_type, review_time, check_problem, check,
  role_or, is_text, is_true, no_meeting_time,
}

is_true_sound : (v : Value) → is_true v ≡ true → v ≡ boolean true
unfolding is_true
is_true_sound null h = cc
is_true_sound other h = cc
is_true_sound (boolean true) h = refl
is_true_sound (boolean false) h = cc
is_true_sound (integer n) h = cc
is_true_sound (text s) h = cc
is_true_sound (items l) h = cc
is_true_sound (day d) h = cc
is_true_sound (moment m) h = cc

module _ (iso : Iso) where
  -- A value that names no date, being null or a blank text, or that is read as a date without an
  -- offset.
  pub data IsDated (v : Value) : Type 0 where
    unset : v ≡ null → IsDated v
    blank : (s : Text) → v ≡ text s → is_empty (strip is_space s) ≡ true → IsDated v
    of_day :
        (d : Date)
        → (parse_note_time iso v).valid ≡ true
        → (parse_note_time iso v).has_offset ≡ false
        → (parse_note_time iso v).date_value ≡ some d
        → IsDated v

  -- What a completed review rests on.
  pub record IsReviewed (fm : Frontmatter) (date_key type_key : Text) : Type 0 where
    pub day : Date
    pub day_found : note_date_by iso date_key fm ≡ some day
    pub dated : IsDated (get date_key fm)
    pub no_offset : (parse_note_time iso (get time_key fm)).has_offset ≡ false
    pub start :
        get type_key fm ≡ text (codes "work")
        → get (codes "time_unknown") fm ≢ boolean true
        → (clock : Clock) × (note_start_time_by iso date_key fm ≡ some clock)

  check_problem-ok :
      (o : Option DateProblem) (rest : Attempt ReviewProblem (Unit {0}))
      → check_problem iso o rest ≡ ok tt
      → (o ≡ none) × (rest ≡ ok tt)
  unfolding check_problem
  check_problem-ok none rest h = (refl, h)
  check_problem-ok (some p) rest h = cc

  is_some-some : {A : Type 0} (o : Option A) → not (is_some o) ≡ false → (a : A) × (o ≡ some a)
  is_some-some none h = cc
  is_some-some (some a) h = (a, refl)

  silent-IsDated : (v : Value) → says_something iso v ≡ false → IsDated v
  unfolding says_something
  silent-IsDated null h = unset refl
  silent-IsDated other h = cc
  silent-IsDated (boolean b) h = cc
  silent-IsDated (integer n) h = cc
  silent-IsDated (text s) h = blank s refl (ground arith)
  silent-IsDated (items l) h = cc
  silent-IsDated (day d) h = cc
  silent-IsDated (moment m) h = cc

  loud-IsDated :
      (v : Value)
      → (parse_note_time iso v).has_offset ≡ false
      → (parse_note_time iso v).valid ≡ true
      → is_some (parse_note_time iso v).date_value ≡ true
      → IsDated v
  loud-IsDated v o w d =
      let (found, same) = is_some-some (parse_note_time iso v).date_value (ap not d) in
      of_day found w o same

  -- The absence of a problem, taken apart.
  date_field_problem_by-none :
      (date_key : Text) (fm : Frontmatter)
      → date_field_problem_by iso date_key fm ≡ none
      → IsDated (get date_key fm) × ((parse_note_time iso (get time_key fm)).has_offset ≡ false)
  unfolding date_field_problem_by
  date_field_problem_by-none date_key fm h =
      elim (Bool-cases (says_something iso (get date_key fm))) [
        | inr e ↦ (silent-IsDated (get date_key fm) e, ground arith)
        | inl e ↦ (
          loud-IsDated (get date_key fm) (ground arith) (ground arith) (ground arith),
          ground arith,
        )
      ]

  check-ok :
      (b : Bool) (e : ReviewProblem) (rest : Attempt ReviewProblem (Unit {0}))
      → check b e rest ≡ ok tt
      → (b ≡ false) × (rest ≡ ok tt)
  check-ok true e rest h = cc
  check-ok false e rest h = (refl, h)

  review_time-ok :
      (date_key : Text) (fm : Frontmatter)
      → review_time iso date_key fm ≡ ok tt
      → get (codes "time_unknown") fm ≢ boolean true
      → (clock : Clock) × (note_start_time_by iso date_key fm ≡ some clock)
  unfolding review_time
  review_time-ok date_key fm h known =
      let legacy = parse_note_time iso (get time_key fm) in
      let (timely, h₁) = check-ok (legacy.present && not legacy.valid) _ _ h in
      elim (Bool-cases (is_true (get (codes "time_unknown") fm))) [
        | inl e ↦ absurd (known (is_true_sound (get (codes "time_unknown") fm) e))
        | inr e ↦
            let (found, h₂) =
              check-ok (not (is_some (note_start_time_by iso date_key fm))) no_meeting_time (ok tt)
                (rw e at h₁) in
            is_some-some (note_start_time_by iso date_key fm) found
      ]

  review_type-ok :
      (date_key type_key : Text) (fm : Frontmatter)
      → review_type iso date_key fm type_key ≡ ok tt
      → get type_key fm ≡ text (codes "work")
      → review_time iso date_key fm ≡ ok tt
  unfolding review_type is_text
  review_type-ok date_key type_key fm h e = rw e at h

  role_or-ok :
      (key : Attempt SchemaError Text) (rest : Text → Attempt ReviewProblem (Unit {0}))
      → role_or iso key rest ≡ ok tt
      → (k : Text) × (key ≡ ok k) × (rest k ≡ ok tt)
  unfolding role_or
  role_or-ok (raises e) rest h = cc
  role_or-ok (ok k) rest h = (k, refl, h)

  -- A note whose review may be completed: the schema names its date key and its type key; a day is
  -- found for the note; its date key holds nothing, a blank text or a value that is read as a valid
  -- date without an offset; its legacy time has no offset; and if it is a work note that does not
  -- say that its time is unknown, a start time is found as well.
  pub validate_review-IsReviewed :
      (fm : Frontmatter) (s : FrontmatterSchema)
      → validate_review iso fm s ≡ ok tt
      → (date_key : Text) × (type_key : Text) × (role s (codes "date_key") ≡ ok date_key)
        × (role s (codes "type_key") ≡ ok type_key)
        × IsReviewed fm date_key type_key
  unfolding validate_review review_date
  validate_review-IsReviewed fm s h =
      let (date_key, dated, h₁) = role_or-ok (role s (codes "date_key")) _ h in
      let (sound, h₂) = check_problem-ok (date_field_problem_by iso date_key fm) _ h₁ in
      let (usable, local) = date_field_problem_by-none date_key fm sound in
      let (found, h₃) = check-ok (not (is_some (note_date_by iso date_key fm))) _ _ h₂ in
      let (type_key, typed, h₄) = role_or-ok (role s (codes "type_key")) _ h₃ in
      let (found_day, same) = is_some-some (note_date_by iso date_key fm) found in
      (
        date_key,
        type_key,
        dated,
        typed,
        record {
          day = found_day;
          day_found = same;
          dated = usable;
          no_offset = local;
          start = λ work known.
              review_time-ok date_key fm (review_type-ok date_key type_key fm h₄ work) known;
        },
      )
