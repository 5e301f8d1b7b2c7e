-- ===== src/Schema/Times.antt =====
-- coppermind/schema.py: reading the date of a note, and its time of day, from the values of its
-- frontmatter (`parse_note_time`, `note_date`, `note_start_time` and their kin).
pub mod Read
use coppermind.Base.{
  ℕ, zero, suc, ◌≡◌, Bool, true, false, not, ◌&&◌, ◌||◌, Option, none, some, List, [], ◌∷◌, length,
  ltb, ◌==◌, if◌then◌else◌,
}
use coppermind.Base.Texts.{Text, codes, is_empty, is_space, strip, eqb}
use coppermind.Base.Attempt.{Attempt, raises, ok, ◌>>=◌}
use coppermind.Naming.{Date}
use coppermind.Schema.{
  Clock, Moment, Value, null, boolean, integer, text, items, day, moment, other, Frontmatter, get,
  FrontmatterSchema, SchemaError, role,
}

-- What the module uses of datetime: the three fromisoformat, where `none` is a ValueError, isoformat
-- and strftime with the format that it writes; and the class \d of re.
pub record Iso : Type 0 where
  pub date_of : Text → Option Date
  pub datetime_of : Text → Option Moment
  pub time_of : Text → Option (Clock × Bool)
  pub datetime_text : Moment → Text
  pub strftime : Date → Clock → Text
  pub strftime_time : Clock → Text
  pub is_digit : ℕ → Bool
  -- str of a value that is no text
  pub str_of : Value → Text

-- Why a date cannot be used: `date_field_problem`.
pub data DateProblem : Type 0 where
  date_has_offset expected_valid_date time_has_offset : DateProblem

-- ParsedNoteTime
pub record ParsedNoteTime : Type 0 where
  pub present : Bool
  pub valid : Bool
  pub date_value : Option Date
  pub time_value : Option Clock
  pub has_offset : Bool

abbrev pub absent : ParsedNoteTime
absent = record {
  present = false;
  valid = false;
  date_value = none;
  time_value = none;
  has_offset = false;
}

abbrev pub unreadable : ParsedNoteTime
unreadable = record absent { present = true }

-- .replace(microsecond=0)
abbrev pub whole : Clock → Clock
whole c = record c { microsecond = 0 }

-- text[n : n + 1] == c
unfoldable pub is_at : ℕ → ℕ → Text → Bool
is_at n c [] = false
is_at zero c (d ∷ s) = d == c
is_at (suc n) c (d ∷ s) = is_at n c s

-- text.endswith(("Z", "z"))
unfoldable pub ends_zulu : Text → Bool
ends_zulu [] = false
ends_zulu (c ∷ []) = c == b'Z' || c == b'z'
ends_zulu (c ∷ d ∷ s) = ends_zulu (d ∷ s)

abbrev has_dashes : Text → Bool
has_dashes s = is_at 4 b'-' s && is_at 7 b'-' s

-- A text of exactly such characters.
unfoldable pub fits : List (ℕ → Bool) → Text → Bool
fits [] [] = true
fits [] (c ∷ s) = false
fits (p ∷ ps) [] = false
fits (p ∷ ps) (c ∷ s) = p c && fits ps s

abbrev pub is_some {ℓ} : {A : Type ℓ} → Option A → Bool
is_some none = false
is_some (some a) = true

abbrev pub time_key : Text
time_key = codes "time"

module _ (iso : Iso) where
  open iso use {
    date_of, datetime_of, time_of, datetime_text, strftime, strftime_time, is_digit, str_of,
  }

  abbrev is_colon : ℕ → Bool
  is_colon c = c == b':'

  abbrev is_t : ℕ → Bool
  is_t c = c == b'T' || c == b't' || c == b' '

  abbrev is_dash : ℕ → Bool
  is_dash c = c == b'-'

  abbrev minutes : List (ℕ → Bool)
  minutes = is_digit ∷ is_digit ∷ is_colon ∷ is_digit ∷ is_digit ∷ []

  abbrev seconds : List (ℕ → Bool)
  seconds =
      is_digit ∷ is_digit ∷ is_colon ∷ is_digit ∷ is_digit ∷ is_colon ∷ is_digit ∷ is_digit ∷ []

  abbrev on_day : List (ℕ → Bool) → List (ℕ → Bool)
  on_day ps =
      is_digit ∷ is_digit ∷ is_digit ∷ is_digit ∷ is_dash ∷ is_digit ∷ is_digit ∷ is_dash ∷ is_digit
      ∷ is_digit ∷ is_t ∷ ps

  -- _LEGACY_TIME_PATTERN and _LOCAL_DATETIME_PREFIX, by fullmatch
  unfoldable pub is_legacy_time : Text → Bool
  unfolding fits
  is_legacy_time s = fits minutes s || fits seconds s

  unfoldable pub is_local_datetime : Text → Bool
  unfolding fits
  is_local_datetime s = fits (on_day minutes) s || fits (on_day seconds) s

  -- `parse_date_value` on a text
  unfoldable pub parse_date_text : Text → Option Date
  unfolding strip
  parse_date_text s =
      let stripped = strip is_space s in if length stripped == 10 then date_of stripped else none

  unfoldable pub parse_date_value : Value → Option Date
  unfolding parse_date_text
  parse_date_value (day d) = some d
  parse_date_value (text s) = parse_date_text s
  parse_date_value v = none

  -- A date alone.
  abbrev of_date : Option Date → ParsedNoteTime
  of_date d = record unreadable { valid = is_some d; date_value = d }

  with_offset : Option Date → Clock → ParsedNoteTime
  with_offset d c = record unreadable {
    date_value = d;
    time_value = some (whole c);
    has_offset = true;
  }

  local : Option Date → Clock → ParsedNoteTime
  local d c = record unreadable { valid = true; date_value = d; time_value = some (whole c) }

  of_datetime_text : Text → Option Moment → ParsedNoteTime
  unfolding with_offset local ends_zulu is_local_datetime
  of_datetime_text s none = unreadable
  of_datetime_text s (some m) =
      if m.has_offset || ends_zulu s
      then with_offset (some m.date) m.clock
      else if is_local_datetime s
      then local (some m.date) m.clock
      else unreadable

  of_time_text : Text → Option (Clock × Bool) → ParsedNoteTime
  unfolding with_offset local ends_zulu is_legacy_time
  of_time_text s none = unreadable
  of_time_text s (some (c, offset)) =
      if offset || ends_zulu s
      then with_offset none c
      else if is_legacy_time s
      then local none c
      else unreadable

  -- `parse_note_time` on a text, whose ends are stripped already
  of_text : Text → ParsedNoteTime
  unfolding is_at parse_date_text of_datetime_text of_time_text
  of_text s =
      if is_empty s
      then absent
      else if length s == 10 && has_dashes s
      then of_date (parse_date_text s)
      else if ltb 10 (length s)
          && has_dashes s
          && (is_at 10 b'T' s || is_at 10 b't' s || is_at 10 b' ' s)
      then of_datetime_text s (datetime_of s)
      else of_time_text s (time_of s)

  unfoldable pub parse_note_time : Value → ParsedNoteTime
  unfolding with_offset local of_text strip
  parse_note_time null = absent
  parse_note_time (moment m) =
      if m.has_offset then with_offset (some m.date) m.clock else local (some m.date) m.clock
  parse_note_time (day d) = of_date (some d)
  parse_note_time (text s) = of_text (strip is_space s)
  parse_note_time v = unreadable

  -- `_is_date`
  unfoldable pub is_date : Value → Bool
  unfolding parse_note_time
  is_date v = (parse_note_time v).valid && is_some (parse_note_time v).date_value

  -- The date, if both the value and the date are there.
  abbrev valid_date : ParsedNoteTime → Option Date
  valid_date p = if p.valid then p.date_value else none

  abbrev or_else {ℓ} : {A : Type ℓ} → Option A → Option A → Option A
  or_else none b = b
  or_else (some a) b = some a

  -- `note_date`, with the key that plays date_key
  abbrev pub note_date_by : Text → Frontmatter → Option Date
  note_date_by date_key fm =
      or_else (valid_date (parse_note_time (get date_key fm)))
        (valid_date (parse_note_time (get time_key fm)))

  unfoldable pub note_date : Frontmatter → FrontmatterSchema → Attempt SchemaError (Option Date)
  unfolding parse_note_time get role
  note_date fm s = do date_key ← role s (codes "date_key"); ok (note_date_by date_key fm)

  same_date : Date → Date → Bool
  same_date d e = d.year == e.year && d.month == e.month && d.day == e.day

  differing : Option Date → Option Date → Option (Date × Date)
  differing (some d) (some e) = if same_date d e then none else some (d, e)
  differing d e = none

  unfoldable pub note_date_mismatch :
      Frontmatter → FrontmatterSchema → Attempt SchemaError (Option (Date × Date))
  unfolding parse_note_time get role same_date differing
  note_date_mismatch fm s = do
    date_key ← role s (codes "date_key")
    let explicit = valid_date (parse_note_time (get date_key fm))
    ok (differing explicit (valid_date (parse_note_time (get time_key fm))))

  -- The time of a value that has a valid date too.
  abbrev dated_time : ParsedNoteTime → Option Clock
  dated_time p = if p.valid && is_some p.date_value then p.time_value else none

  abbrev valid_time : ParsedNoteTime → Option Clock
  valid_time p = if p.valid then p.time_value else none

  abbrev pub note_start_time_by : Text → Frontmatter → Option Clock
  note_start_time_by date_key fm =
      or_else (dated_time (parse_note_time (get date_key fm)))
        (valid_time (parse_note_time (get time_key fm)))

  unfoldable pub note_start_time :
      Frontmatter → FrontmatterSchema → Attempt SchemaError (Option Clock)
  unfolding parse_note_time get role
  note_start_time fm s = do
    date_key ← role s (codes "date_key")
    ok (note_start_time_by date_key fm)

  -- raw is not None and (not isinstance(raw, str) or raw.strip())
  unfoldable pub says_something : Value → Bool
  unfolding strip
  says_something null = false
  says_something (text s) = not (is_empty (strip is_space s))
  says_something v = true

  unfoldable pub date_field_problem_by : Text → Frontmatter → Option DateProblem
  unfolding says_something parse_note_time get
  date_field_problem_by date_key fm =
      let raw = get date_key fm in
      let parsed = parse_note_time raw in
      let legacy =
        if (parse_note_time (get time_key fm)).has_offset then some time_has_offset else none in
      if says_something raw
      then (if parsed.has_offset
          then some date_has_offset
          else if not parsed.valid || not (is_some parsed.date_value)
          then some expected_valid_date
          else legacy)
      else legacy

  unfoldable pub date_field_problem :
      Frontmatter → FrontmatterSchema → Attempt SchemaError (Option DateProblem)
  unfolding date_field_problem_by role
  date_field_problem fm s = do
    date_key ← role s (codes "date_key")
    ok (date_field_problem_by date_key fm)

  str : Value → Text
  str (text s) = s
  str v = str_of v

  str_or_empty : Value → Text
  unfolding strip str
  str_or_empty null = []
  str_or_empty v = strip is_space (str v)

  abbrev midnight : Clock
  midnight = record { hour = 0; minute = 0; second = 0; microsecond = 0 }

  abbrev clock_or_midnight : Option Clock → Clock
  clock_or_midnight none = midnight
  clock_or_midnight (some c) = c

  -- The text of a valid value, by its day, the fallback included, and its time of day.
  normal_text : Value → Option Date → Option Clock → Option Date → Text
  unfolding str_or_empty
  normal_text v (some d) clock fallback = strftime d (clock_or_midnight clock)
  normal_text v none (some c) (some d) = strftime d c
  normal_text v none (some c) none = strftime_time c
  normal_text v none none fallback = str_or_empty v

  -- `normalize_note_time`
  unfoldable pub normalize_note_time : Value → Option Date → Text
  unfolding parse_note_time str_or_empty normal_text
  normalize_note_time v fallback =
      let parsed = parse_note_time v in
      if parsed.valid
      then normal_text v parsed.date_value parsed.time_value fallback
      else str_or_empty v
