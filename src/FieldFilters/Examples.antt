-- ===== src/FieldFilters/Examples.antt =====
-- The theorem on coppermind/field_filters.py at a filter for the notes of a year.
use coppermind.Base.{◌≡◌, refl, some, true, List, [], ◌∷◌, length, All}
use coppermind.Base.Texts.{precedes, codes}
use coppermind.Base.Dict.{lookup, insert}
use coppermind.Base.Attempt.{ok}
use coppermind.Schema.{text}
use coppermind.Schema.Defaults.{default_schema}
use coppermind.FieldFilters.{
  at_least, at_most, FieldClause, Parser, parse_filter, parsed, not_null, has_null, fits,
  fields_fit, definition_of, is_operator, is_valid, narrowed, add_bound, check_clause,
  check_declared, check_clauses, is_crossed, check_ranges, validate_filter,
}
use coppermind.FieldFilters.Accepted.{IsAccepted, Agree, validate_filter-IsAccepted}

abbrev a_year : List FieldClause
a_year =
    record { field = codes "date"; op = at_least; value = text (codes "2024-01-01") }
    ∷ record { field = codes "date"; op = at_most; value = text (codes "2024-12-31") }
    ∷ []

abbrev parser : Parser
parser = record { quoted_length = λ s. length s; clauses = λ s. some a_year; is_day = λ s. true }

year_accepted : validate_filter parser (codes "{}") default_schema ≡ ok a_year
unfolding validate_filter parse_filter parsed not_null has_null fits fields_fit definition_of
    is_operator is_valid narrowed add_bound check_clause check_declared check_clauses is_crossed
    check_ranges precedes lookup insert
year_accepted = refl

validate_filter-IsAccepted_example :
    All (IsAccepted parser default_schema.keys) a_year
    × All (λ c. All (Agree parser c) a_year) a_year
validate_filter-IsAccepted_example =
    validate_filter-IsAccepted parser (codes "{}") default_schema a_year year_accepted
