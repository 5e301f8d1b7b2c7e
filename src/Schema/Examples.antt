-- ===== src/Schema/Examples.antt =====
-- The theorems on coppermind/schema.py at the schema of a fresh install and at small notes.
use coppermind.Base.{◌≡◌, refl, true, false, ◌&&◌, Option, some, List, [], ◌∷◌, map, All, leb}
use coppermind.Base.Texts.{Text, codes, eqb, is_space}
use coppermind.Base.Dict.{lookup}
use coppermind.Base.Distinct.{Distinct, add_all, add_new}
use coppermind.Base.Attempt.{raises, ok}
use coppermind.Naming.{Date}
use coppermind.Schema.{
  Clock, Moment, Item, word, nested, unhashable, Value, text, items, moment, Frontmatter, get,
  same_item, date_kind, closed_tags, KeyDefinition, FrontmatterSchema, role, validate_roles,
  validate_tags, is_tag, check_aliases, check_alias, names_of,
}
use coppermind.Schema.Times.{
  Iso, DateProblem, parse_note_time, note_date, note_start_time, date_field_problem,
  date_field_problem_by,
}
use coppermind.Schema.Times.Read.{IsCoherent, parse_note_time-IsCoherent}
use coppermind.Schema.Tags.{
  normalize_tags, tag_problems_by, refused, carried_tags, is_listed, canonical_tag, account_list,
}
use coppermind.Schema.Tags.Normal.{IsCanonical, normalize_tags_lem}
use coppermind.Schema.Tags.Accounts.{IsName, account_list_lem}
use coppermind.Schema.Checks.{
  Problem, Roles, problems, required_keys, problems_of_key, is_required, exempt, requires,
}
use coppermind.Schema.Checks.Required.{is_none}
use coppermind.Schema.Edits.{edit_problems, repeated}
use coppermind.Schema.Edits.Sound.{IsSound, edit_problems-IsSound}
use coppermind.Schema.Changes.{
  validate_review, review_date, review_type, review_time, field_suggestion_changes,
}
use coppermind.Schema.Changes.Reviewed.{IsReviewed, validate_review-IsReviewed}
use coppermind.Schema.Defaults.{default_schema}
use coppermind.Schema.Roles.{Asked, questions-ok}

abbrev noon : Clock
noon = record { hour = 12; minute = 0; second = 0; microsecond = 5 }

abbrev new_year : Date
new_year = record { year = 2024; month = 1; day = 1 }

abbrev at_noon : Moment
at_noon = record { date = new_year; clock = noon; has_offset = false }

-- A reading of texts that takes every date for New Year and every time for noon.
abbrev iso : Iso
iso = record {
  date_of = λ s. some new_year;
  datetime_of = λ s. some at_noon;
  time_of = λ s. some (noon, false);
  datetime_text = λ m. codes "2024-01-01T12:00:00";
  strftime = λ d c. codes "2024-01-01T12:00:00";
  strftime_time = λ c. codes "12:00:00";
  is_digit = λ c. leb b'0' c && leb c b'9';
  str_of = λ v. [];
}

abbrev tagged : FrontmatterSchema
tagged = record default_schema {
  tag_aliases = (codes "ref", codes "reference") ∷ [];
  tag_mode = closed_tags;
}

tagged_valid : validate_tags tagged ≡ ok tt
unfolding validate_tags is_tag check_aliases check_alias is_space
tagged_valid = refl

abbrev two_tags : List Item
two_tags = word (codes "ref") ∷ word (codes "reference") ∷ []

normalize_tags_lem_example :
    All (IsCanonical tagged tagged_valid) (normalize_tags tagged two_tags)
    × Distinct same_item (normalize_tags tagged two_tags)
    × (All (IsCanonical tagged tagged_valid) two_tags
        → Distinct same_item two_tags
        → normalize_tags tagged two_tags ≡ two_tags)
    × (normalize_tags tagged (normalize_tags tagged two_tags) ≡ normalize_tags tagged two_tags)
normalize_tags_lem_example = normalize_tags_lem tagged tagged_valid two_tags

two_tags_are_one : normalize_tags tagged two_tags ≡ word (codes "reference") ∷ []
unfolding normalize_tags canonical_tag lookup add_all add_new
two_tags_are_one = refl

abbrev tags : Text
tags = codes "tags"

abbrev new_tags : Frontmatter
new_tags = (tags, items (word (codes "ref") ∷ word (codes "plan") ∷ [])) ∷ []

one_refused : tag_problems_by tagged tags new_tags [] ≡ ok (word (codes "plan") ∷ [])
unfolding tag_problems_by normalize_tags refused is_listed carried_tags canonical_tag lookup get
    add_all add_new
one_refused = refl

abbrev list_tag : Frontmatter
list_tag = (tags, items (nested 0 ∷ [])) ∷ []

list_not_hashed : tag_problems_by tagged tags new_tags list_tag ≡ raises unhashable
unfolding tag_problems_by carried_tags get lookup
list_not_hashed = refl

abbrev accounts : Value
accounts = items (word (codes " Acme") ∷ word (codes "Acme ") ∷ word (codes " ") ∷ [])

account_list_lem_example :
    All IsName (account_list accounts)
    × Distinct eqb (account_list accounts)
    × (account_list (items (map word (account_list accounts))) ≡ account_list accounts)
account_list_lem_example = account_list_lem accounts

parse_note_time-IsCoherent_example : IsCoherent (parse_note_time iso (text (codes "12:00")))
parse_note_time-IsCoherent_example = parse_note_time-IsCoherent iso (text (codes "12:00"))

-- A date that is asked for by the context of the note, on a note whose time carries a date.
abbrev watched_date : KeyDefinition
watched_date = record {
  name = codes "date";
  kind = date_kind;
  required = false;
  default = text [];
  vocabulary = [];
  vocabulary_meanings = [];
  required_when = some (codes "context");
  required_when_values = codes "external" ∷ [];
}

abbrev timed : Frontmatter
timed = (codes "time", moment at_noon) ∷ (codes "context", text (codes "external")) ∷ []

abbrev roles : Roles iso
roles = record { date_key = codes "date"; account_key = codes "account"; has_time_date = true }

not_required : is_required iso roles watched_date timed ≡ false
unfolding is_required exempt requires lookup get
not_required = refl

but_a_problem : is_none (problems_of_key iso roles watched_date timed) ≡ false
unfolding problems_of_key requires lookup get
but_a_problem = refl

abbrev work_note : Frontmatter
work_note = (codes "date", moment at_noon) ∷ (codes "type", text (codes "work")) ∷ []

work_note_reviewed : validate_review iso work_note default_schema ≡ ok tt
unfolding validate_review review_date review_type review_time role get lookup parse_note_time
    date_field_problem_by
work_note_reviewed = refl

validate_review-IsReviewed_example :
    (date_key : Text) × (type_key : Text) × (role default_schema (codes "date_key") ≡ ok date_key)
    × (role default_schema (codes "type_key") ≡ ok type_key)
    × IsReviewed iso work_note date_key type_key
validate_review-IsReviewed_example =
    validate_review-IsReviewed iso work_note default_schema work_note_reviewed

default_edits : edit_problems default_schema ≡ []
unfolding edit_problems repeated
default_edits = refl

edit_problems-IsSound_example :
    Distinct eqb (names_of default_schema.keys)
    × All (IsSound (names_of default_schema.keys)) default_schema.keys
edit_problems-IsSound_example = edit_problems-IsSound default_schema default_edits

default_roles : validate_roles default_schema ≡ ok tt
unfolding validate_roles lookup
default_roles = refl

questions-ok_example :
    ((ps : List (Text × Problem)) × (problems iso default_schema work_note ≡ ok ps))
    × ((keys : List Text) × (required_keys iso default_schema work_note ≡ ok keys))
    × Asked default_schema default_roles work_note []
    × ((d : Option Date) × (note_date iso work_note default_schema ≡ ok d))
    × ((c : Option Clock) × (note_start_time iso work_note default_schema ≡ ok c))
    × ((p : Option DateProblem) × (date_field_problem iso work_note default_schema ≡ ok p))
    × ((c : Frontmatter × List Text) × (field_suggestion_changes iso work_note default_schema tags
            accounts
          ≡ ok c))
questions-ok_example = questions-ok default_schema default_roles iso work_note [] tags accounts
