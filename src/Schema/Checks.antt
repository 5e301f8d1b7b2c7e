-- ===== src/Schema/Checks.antt =====
-- coppermind/schema.py: which keys a note must carry and what is wrong with the values that it has
-- (`required_keys`, `validate_frontmatter`).
pub mod Required
use coppermind.Base.{
  ℕ, zero, suc, ◌≡◌, Bool, true, false, not, ◌&&◌, ◌||◌, Option, none, some, List, [], ◌∷◌, ◌++◌,
  map, any, ltb, ◌==◌, if◌then◌else◌,
}
use coppermind.Base.Texts.{Text, codes, eqb, is_empty}
use coppermind.Base.Attempt.{Attempt, raises, ok, ◌>>=◌}
use coppermind.Schema.{
  Item, word, thing, nested, Value, null, boolean, integer, text, items, day, moment, other,
  Frontmatter, get, is_null, KeyKind, string_kind, int_kind, date_kind, bool_kind, enum_kind,
  list_kind, KeyDefinition, FrontmatterSchema, SchemaError, role, kind_key, kind_problem, has_text,
  names_of,
}
use coppermind.Schema.Times.{Iso, parse_note_time, is_date, is_some, time_key}
use coppermind.Schema.Tags.{account_list}

-- What a problem says of its key.
pub data Problem : Type 0 where
  expected_flag expected_whole_number expected_list expected_date expected_text : Problem
  date_has_offset not_allowed expected_text_entries missing missing_when is_artifact : Problem

-- `_requires`: the text is the key to watch, an empty one being none.
requires_by : Text → List Text → Frontmatter → Bool
requires_by key values fm = elim (get key fm) [ text s ↦ has_text s values | _ ↦ false ]

watched : Option Text → Text
watched none = []
watched (some key) = key

unfoldable pub requires : KeyDefinition → Frontmatter → Bool
unfolding requires_by watched get
requires d fm =
    not (is_empty (watched d.required_when))
    && requires_by (watched d.required_when) d.required_when_values fm

pub is_word : Item → Bool
is_word (word s) = true
is_word (thing n) = false
is_word (nested n) = false

-- The text that a string or enum key is checked by; a datetime is written out.
module _ (iso : Iso) where
  open iso use {datetime_text}

  text_of : Value → Option Text
  text_of (text s) = some s
  text_of (moment m) = some (datetime_text m)
  text_of v = none

  check_enum : List Text → Option Text → List Problem
  check_enum vocabulary none = expected_text ∷ []
  check_enum [] (some s) = []
  check_enum (v ∷ vocabulary) (some s) =
      if has_text s (v ∷ vocabulary) then [] else not_allowed ∷ []

  check_string : Option Text → List Problem
  check_string none = expected_text ∷ []
  check_string (some s) = []

  check_date : Value → List Problem
  unfolding parse_note_time is_date
  check_date v =
      if (parse_note_time iso v).has_offset
      then date_has_offset ∷ []
      else if is_date iso v
      then []
      else expected_date ∷ []

  is_boolean : Value → Bool
  is_boolean (boolean b) = true
  is_boolean v = false

  is_integer : Value → Bool
  is_integer (integer n) = true
  is_integer v = false

  is_list : Value → Bool
  is_list (items l) = true
  is_list v = false

  -- `_check_value`, by the kind of the key
  check_kind : KeyKind → List Text → Value → List Problem
  unfolding check_enum check_string check_date is_boolean is_integer is_list text_of
  check_kind bool_kind vocabulary v = if is_boolean v then [] else expected_flag ∷ []
  check_kind int_kind vocabulary v = if is_integer v then [] else expected_whole_number ∷ []
  check_kind list_kind vocabulary v = if is_list v then [] else expected_list ∷ []
  check_kind date_kind vocabulary v = check_date v
  check_kind string_kind vocabulary v = check_string (text_of v)
  check_kind enum_kind vocabulary v = check_enum vocabulary (text_of v)

  unfoldable pub check_value : KeyDefinition → Value → List Problem
  unfolding check_kind
  check_value d v = check_kind d.kind d.vocabulary v

  -- The two keys that play a role here, and whether the legacy time carries a date.
  pub record Roles : Type 0 where
    pub date_key : Text
    pub account_key : Text
    pub has_time_date : Bool

  -- `_date_satisfied_by_time`
  unfoldable pub date_satisfied_by_time : Frontmatter → Bool
  unfolding parse_note_time get
  date_satisfied_by_time fm = is_some (parse_note_time iso (get time_key fm)).date_value

  unfoldable pub exempt : Roles → KeyDefinition → Bool
  exempt r d = eqb d.name r.date_key && r.has_time_date

  -- The checks of one key that follow those of the account key. A key is null in the mapping or
  -- missing from it alike.
  unfoldable pub check_key : Roles → KeyDefinition → Frontmatter → Value → List Problem
  unfolding check_value requires exempt
  check_key r d fm v =
      if is_null v
      then (if d.required
          then (if exempt r d then [] else missing ∷ [])
          else if requires d fm
          then missing_when ∷ []
          else [])
      else check_value d v

  -- What is left to check, by the names that an account value carries.
  accounts_left : List Text → List Problem → List Problem
  accounts_left [] rest = rest
  accounts_left (name ∷ names) rest = []

  -- The account key's own checks: its entries are texts, and blank ones count as none at all.
  check_accounts : Roles → KeyDefinition → Frontmatter → Value → List Item → List Problem
  unfolding check_key is_word accounts_left
  check_accounts r d fm v entries =
      if any (λ i. not (is_word i)) entries
      then expected_text_entries ∷ []
      else accounts_left (account_list v) (check_key r d fm null)

  check_account : Roles → KeyDefinition → Frontmatter → Value → List Problem
  unfolding check_accounts check_key
  check_account r d fm null = check_key r d fm null
  check_account r d fm (text s) = check_accounts r d fm (text s) (word s ∷ [])
  check_account r d fm (items l) = check_accounts r d fm (items l) l
  check_account r d fm v = expected_list ∷ []

  -- The problems of one key, in the loop of `_problems`.
  unfoldable pub problems_of_key : Roles → KeyDefinition → Frontmatter → List Problem
  unfolding check_account check_key get
  problems_of_key r d fm =
      let v = get d.name fm in
      if eqb d.name r.account_key then check_account r d fm v else check_key r d fm v

  named : Text → List Problem → List (Text × Problem)
  named name [] = []
  named name (p ∷ ps) = (name, p) ∷ named name ps

  problems_of_keys : Roles → List KeyDefinition → Frontmatter → List (Text × Problem)
  unfolding named problems_of_key
  problems_of_keys r [] fm = []
  problems_of_keys r (d ∷ keys) fm =
      named d.name (problems_of_key r d fm) ++ problems_of_keys r keys fm

  unfoldable pub roles_of : FrontmatterSchema → Frontmatter → Attempt SchemaError Roles
  unfolding role date_satisfied_by_time
  roles_of s fm = do
    date_key ← role s (codes "date_key")
    account_key ← role s (codes "account_key")
    ok (record {
      date_key = date_key;
      account_key = account_key;
      has_time_date = date_satisfied_by_time fm;
    })

  -- `_problems`, of which validate_frontmatter tells the second parts and invalid_keys the first
  unfoldable pub problems :
      FrontmatterSchema → Frontmatter → Attempt SchemaError (List (Text × Problem))
  unfolding roles_of problems_of_keys kind_problem
  problems s fm = do
    r ← roles_of s fm
    let kind = if kind_problem s fm then (kind_key s, is_artifact) ∷ [] else []
    ok (problems_of_keys r s.keys fm ++ kind)

  unfoldable pub is_required : Roles → KeyDefinition → Frontmatter → Bool
  unfolding requires exempt
  is_required r d fm = (d.required || requires d fm) && not (exempt r d)

  names_required : Roles → List KeyDefinition → Frontmatter → List Text
  unfolding is_required
  names_required r [] fm = []
  names_required r (d ∷ keys) fm =
      let rest = names_required r keys fm in if is_required r d fm then d.name ∷ rest else rest

  -- `required_keys`, a set in the order of its keys. It looks up the date key alone, and none of its
  -- tests reads the account key.
  unfoldable pub required_keys : FrontmatterSchema → Frontmatter → Attempt SchemaError (List Text)
  unfolding role date_satisfied_by_time names_required
  required_keys s fm = do
    date_key ← role s (codes "date_key")
    let r : Roles = record {
      date_key = date_key;
      account_key = [];
      has_time_date = date_satisfied_by_time fm;
    }
    ok (names_required r s.keys fm)
