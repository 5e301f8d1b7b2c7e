-- ===== src/FieldFilters.antt =====
-- coppermind/field_filters.py: the filters on metadata that a query may carry, checked against the schema.
pub mod Order
pub mod Ranges
pub mod Accepted
mod Examples
use coppermind.Base.{
  ℕ, Bool, true, false, not, ◌&&◌, ◌||◌, Option, none, some, List, [], ◌∷◌, ◌++◌, length, ltb, ◌==◌,
  all, if◌then◌else◌,
}
use coppermind.Base.Texts.{precedes, Text, codes, eqb, is_empty}
use coppermind.Base.Dict.{Dict, lookup, insert}
use coppermind.Base.Attempt.{Attempt, raises, ok, ◌>>=◌}
use coppermind.Schema.{
  Value, null, boolean, integer, text, KeyKind, string_kind, int_kind, date_kind, bool_kind,
  enum_kind, list_kind, KeyDefinition, FrontmatterSchema, has_text,
}

pub data Op : Type 0 where
  equals contains at_least at_most : Op

-- FieldClause
pub record FieldClause : Type 0 where
  pub field : Text
  pub op : Op
  pub value : Value

-- The ValueErrors, with the field that they name.
pub data FilterError : Type 0 where
  too_long malformed null_value : FilterError
  not_declared bad_operator bad_value crossed : Text → FilterError

-- The bounds of a date field: the entries "gte" and "lte" of its dict.
pub record Bounds : Type 0 where
  pub gte : Option Text
  pub lte : Option Text

-- {key.name: key for key in schema.keys}.get(field): the last key of that name
unfoldable pub definition_of : Text → List KeyDefinition → Option KeyDefinition
definition_of field [] = none
definition_of field (d ∷ keys) = elim (definition_of field keys) [
  | some later ↦ some later
  | none ↦ if eqb d.name field then some d else none
]

-- The operators of a kind of key.
unfoldable pub is_operator : KeyKind → Op → Bool
is_operator list_kind contains = true
is_operator list_kind op = false
is_operator date_kind contains = false
is_operator date_kind op = true
is_operator k equals = true
is_operator k op = false

abbrev pub is_date_kind : KeyKind → Bool
is_date_kind date_kind = true
is_date_kind k = false

-- clause.op in {"gte", "lte"}
abbrev pub is_bound : Op → Bool
is_bound at_least = true
is_bound at_most = true
is_bound op = false

-- The vocabulary of an enum key, where it has one.
in_vocabulary : List Text → Text → Bool
in_vocabulary [] s = true
in_vocabulary (v ∷ vocabulary) s = has_text s (v ∷ vocabulary)

abbrev pub or_text : Option Text → Text → Text
or_text none s = s
or_text (some t) s = t

-- max and min, of which the first of two equal texts is the same
abbrev pub later : Text → Text → Text
later s t = if precedes s t then t else s

abbrev pub earlier : Text → Text → Text
earlier s t = if precedes t s then t else s

abbrev no_bounds : Bounds
no_bounds = record { gte = none; lte = none }

abbrev pub bounds_or : Option Bounds → Bounds
bounds_or none = no_bounds
bounds_or (some b) = b

-- `raw` is parsed by json and pydantic, without the limits below: `none` is any of the errors that end
-- the parsing.
pub record Parser : Type 0 where
  -- len(quote(raw, safe="").encode())
  pub quoted_length : Text → ℕ
  pub clauses : Text → Option (List FieldClause)
  -- date.fromisoformat(value).isoformat() == value
  pub is_day : Text → Bool

unfoldable pub has_null : List FieldClause → Bool
has_null [] = false
has_null (c ∷ clauses) = elim c.value [ null ↦ true | _ ↦ has_null clauses ]

not_null : List FieldClause → Attempt FilterError (List FieldClause)
unfolding has_null
not_null clauses = if has_null clauses then raises null_value else ok clauses

-- The limits that FieldFilter and FieldClause set: 1 to 20 clauses, and 1 to 200 characters of a field.
unfoldable pub fields_fit : List FieldClause → Bool
fields_fit [] = true
fields_fit (c ∷ clauses) =
    not (is_empty c.field) && not (ltb 200 (length c.field)) && fields_fit clauses

unfoldable pub fits : List FieldClause → Bool
unfolding fields_fit
fits [] = false
fits (c ∷ clauses) = not (ltb 20 (length (c ∷ clauses))) && fields_fit (c ∷ clauses)

parsed : Option (List FieldClause) → Attempt FilterError (List FieldClause)
unfolding not_null fits
parsed none = raises malformed
parsed (some clauses) = if fits clauses then not_null clauses else raises malformed

module _ (parser : Parser) where
  open parser use {is_day}

  unfoldable pub parse_filter : Text → Attempt FilterError (List FieldClause)
  unfolding parsed
  parse_filter raw =
      if ltb 8192 (Parser.quoted_length parser raw)
      then raises too_long
      else parsed (Parser.clauses parser raw)

  -- Whether a value is one of the kind, without coercion.
  unfoldable pub is_valid : KeyDefinition → KeyKind → Value → Bool
  unfolding in_vocabulary
  is_valid d string_kind (text s) = true
  is_valid d enum_kind (text s) = in_vocabulary d.vocabulary s
  is_valid d date_kind (text s) = is_day s
  is_valid d bool_kind (boolean b) = true
  is_valid d int_kind (integer n) = true
  is_valid d list_kind v = true
  is_valid d k v = false

  -- The bounds of a field with one clause more.
  unfoldable pub narrowed : Op → Text → Bounds → Bounds
  unfolding precedes
  narrowed at_least s b = record b { gte = some (later (or_text b.gte s) s) }
  narrowed at_most s b = record b { lte = some (earlier (or_text b.lte s) s) }
  narrowed op s b = b

  add_bound : FieldClause → Value → Dict Bounds → Dict Bounds
  unfolding narrowed lookup insert
  add_bound c (text s) ranges =
      insert c.field (narrowed c.op s (bounds_or (lookup c.field ranges))) ranges
  add_bound c v ranges = ranges

  -- The ranges after a clause whose field is declared so.
  unfoldable pub check_clause :
      KeyDefinition → FieldClause → Dict Bounds → Attempt FilterError (Dict Bounds)
  unfolding is_operator is_valid add_bound
  check_clause d c ranges =
      if not (is_operator d.kind c.op)
      then raises (bad_operator c.field)
      else if not (is_valid d d.kind c.value)
      then raises (bad_value c.field)
      else if is_date_kind d.kind && is_bound c.op
      then ok (add_bound c c.value ranges)
      else ok ranges

  check_declared :
      Option KeyDefinition → FieldClause → Dict Bounds → Attempt FilterError (Dict Bounds)
  unfolding check_clause
  check_declared none c ranges = raises (not_declared c.field)
  check_declared (some d) c ranges = check_clause d c ranges

  -- The loop over the clauses.
  unfoldable pub check_clauses :
      List KeyDefinition → List FieldClause → Dict Bounds → Attempt FilterError (Dict Bounds)
  unfolding check_declared definition_of
  check_clauses keys [] ranges = ok ranges
  check_clauses keys (c ∷ clauses) ranges = do
    narrower ← check_declared (definition_of c.field keys) c ranges
    check_clauses keys clauses narrower

  -- bounds.get("gte", "") > bounds.get("lte", "9999-12-31")
  unfoldable pub is_crossed : Bounds → Bool
  unfolding precedes
  is_crossed b = precedes (or_text b.lte (codes "9999-12-31")) (or_text b.gte [])

  unfoldable pub check_ranges : Dict Bounds → Attempt FilterError (Unit {0})
  unfolding is_crossed
  check_ranges [] = ok tt
  check_ranges ((field, b) ∷ ranges) =
      let rest = check_ranges ranges in if is_crossed b then raises (crossed field) else rest

  -- `validate_filter`
  unfoldable pub validate_filter : Text → FrontmatterSchema → Attempt FilterError (List FieldClause)
  unfolding parse_filter check_clauses check_ranges
  validate_filter raw s = do
    clauses ← parse_filter raw
    ranges ← check_clauses s.keys clauses []
    checked ← check_ranges ranges
    ok clauses
