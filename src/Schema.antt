-- ===== src/Schema.antt =====
-- coppermind/schema.py: the keys that a note's frontmatter carries and what they may hold. The values
-- and the schema are here; reading dates, tags, the checks and the edits are in the modules below.
pub mod Times
pub mod Tags
pub mod Checks
pub mod Edits
pub mod Changes
pub mod Defaults
pub mod Roles
mod Examples
use coppermind.Base.{
  ℕ, ◌≡◌, Bool, true, false, not, ◌&&◌, ◌||◌, Option, none, some, List, [], ◌∷◌, ◌++◌, all, ◌==◌,
  if◌then◌else◌,
}
use coppermind.Base.Texts.{Text, codes, eqb, is_empty, is_space, strip}
use coppermind.Base.Dict.{Dict, lookup, insert}
use coppermind.Base.Distinct.{member}
use coppermind.Base.Integers.{ℤ}
use coppermind.Base.Attempt.{Attempt, raises, ok, ◌>>=◌}
use coppermind.Naming.{Date}

-- A time of day, and a datetime, of which the source asks no more than whether it has an offset.
pub record Clock : Type 0 where
  pub hour : ℕ
  pub minute : ℕ
  pub second : ℕ
  pub microsecond : ℕ

pub record Moment : Type 0 where
  pub date : Date
  pub clock : Clock
  pub has_offset : Bool

-- An entry of a list: a text, a list or a mapping, which has no hash, or anything else; the last two
-- by the class of the values that are equal to it.
pub data Item : Type 0 where
  word : Text → Item
  thing : ℕ → Item
  nested : ℕ → Item

-- A value of a frontmatter mapping, by the classes that the module asks for.
pub data Value : Type 0 where
  null other : Value
  boolean : Bool → Value
  integer : ℤ → Value
  text : Text → Value
  items : List Item → Value
  day : Date → Value
  moment : Moment → Value

abbrev pub Frontmatter : Type 0
Frontmatter = Dict Value

abbrev get_or_null : Option Value → Value
get_or_null none = null
get_or_null (some v) = v

-- frontmatter.get(key)
unfoldable pub get : Text → Frontmatter → Value
get key fm = get_or_null (lookup key fm)

abbrev pub is_null : Value → Bool
is_null null = true
is_null v = false

abbrev pub same_item : Item → Item → Bool
same_item (word s) (word t) = eqb s t
same_item (thing m) (thing n) = m == n
same_item (nested m) (nested n) = m == n
same_item a b = false

-- KeyKind and TagMode
pub data KeyKind : Type 0 where
  string_kind int_kind date_kind bool_kind enum_kind list_kind : KeyKind

pub data TagMode : Type 0 where
  open_tags closed_tags : TagMode

-- A default of None is `null`.
pub record KeyDefinition : Type 0 where
  pub name : Text
  pub kind : KeyKind
  pub required : Bool
  pub default : Value
  pub vocabulary : List Text
  pub vocabulary_meanings : Dict Text
  pub required_when : Option Text
  pub required_when_values : List Text

pub record FrontmatterSchema : Type 0 where
  pub schema_version : ℤ
  pub keys : List KeyDefinition
  pub roles : Dict Text
  pub tags : Dict Text
  pub tag_aliases : Dict Text
  pub tag_mode : TagMode

-- What the validators and the lookups of a role raise, and the TypeError of a value without a hash.
pub data SchemaError : Type 0 where
  stray_meanings bad_tags alias_of_itself alias_is_listed alias_of_alias alias_is_refused :
      SchemaError
  missing_roles undefined_roles unhashable : SchemaError
  no_role : Text → SchemaError

-- text in texts
abbrev pub has_text : Text → List Text → Bool
has_text = member eqb

abbrev pub keys_of {ℓ} : {V : Type ℓ} → Dict V → List Text
keys_of [] = []
keys_of ((k, v) ∷ d) = k ∷ keys_of d

abbrev pub values_of : Dict Text → List Text
values_of [] = []
values_of ((k, v) ∷ d) = v ∷ values_of d

-- ROLE_NAMES
abbrev pub role_names : List Text
role_names =
    codes "id_key"
    ∷ codes "date_key"
    ∷ codes "type_key"
    ∷ codes "context_key"
    ∷ codes "account_key"
    ∷ codes "reviewed_key"
    ∷ codes "sources_key"
    ∷ codes "tags_key"
    ∷ codes "schema_version_key"
    ∷ []

-- `role` and `optional_role`, the latter for the two roles of OPTIONAL_ROLES with the key shipped
pub role_from : Text → Option Text → Attempt SchemaError Text
role_from name none = raises (no_role name)
role_from name (some key) = ok key

unfoldable pub role : FrontmatterSchema → Text → Attempt SchemaError Text
unfolding role_from
role s name = role_from name (lookup name s.roles)

abbrev or_shipped : Option Text → Text → Text
or_shipped none shipped = shipped
or_shipped (some key) shipped = key

unfoldable pub kind_key : FrontmatterSchema → Text
kind_key s = or_shipped (lookup (codes "kind_key") s.roles) (codes "kind")

unfoldable pub artifacts_key : FrontmatterSchema → Text
artifacts_key s = or_shipped (lookup (codes "artifacts_key") s.roles) (codes "artifacts")

-- The values that a kind key may hold: NOTE_KIND and ARTIFACT_KIND. `kind_problem` refuses a note
-- that says it is an artifact.
unfoldable pub says_artifact : Value → Bool
says_artifact (text s) = eqb s (codes "artifact")
says_artifact v = false

unfoldable pub kind_problem : FrontmatterSchema → Frontmatter → Bool
unfolding says_artifact get kind_key
kind_problem s fm = says_artifact (get (kind_key s) fm)

-- The loop of `defaults`.
abbrev with_default : KeyDefinition → Frontmatter → Frontmatter
with_default d out = if is_null d.default then out else insert d.name d.default out

pub defaults_onto : Frontmatter → List KeyDefinition → Frontmatter
defaults_onto out [] = out
defaults_onto out (d ∷ keys) = defaults_onto (with_default d out) keys

unfoldable pub defaults : FrontmatterSchema → Frontmatter
unfolding defaults_onto insert
defaults s = defaults_onto [] s.keys

-- KeyDefinition.validate_meanings
unfoldable pub meanings_known : KeyDefinition → Bool
meanings_known d = no_stray (keys_of d.vocabulary_meanings)
  where
    no_stray : List Text → Bool
    no_stray [] = true
    no_stray (v ∷ values) = has_text v d.vocabulary && no_stray values

-- TAG_PATTERN.fullmatch
abbrev is_tag_char : ℕ → Bool
is_tag_char c = not (is_space c) && not (c == b',')

unfoldable pub is_tag : Text → Bool
is_tag [] = false
is_tag (c ∷ s) = is_tag_char c && not (c == b'#') && all is_tag_char s

abbrev pub is_closed : TagMode → Bool
is_closed open_tags = false
is_closed closed_tags = true

-- The four tests that validate_tags makes of an alias.
unfoldable pub check_alias : FrontmatterSchema → Text → Text → Attempt SchemaError (Unit {0})
check_alias s alias canonical =
    if eqb alias canonical
    then raises alias_of_itself
    else if has_text alias (keys_of s.tags)
    then raises alias_is_listed
    else if has_text canonical (keys_of s.tag_aliases)
    then raises alias_of_alias
    else if is_closed s.tag_mode && not (has_text canonical (keys_of s.tags))
    then raises alias_is_refused
    else ok tt

pub check_aliases : FrontmatterSchema → Dict Text → Attempt SchemaError (Unit {0})
unfolding check_alias
check_aliases s [] = ok tt
check_aliases s ((alias, canonical) ∷ aliases) = do
  checked ← check_alias s alias canonical
  check_aliases s aliases

-- FrontmatterSchema.validate_tags
unfoldable pub validate_tags : FrontmatterSchema → Attempt SchemaError (Unit {0})
unfolding is_tag check_aliases
validate_tags s =
    if all is_tag (keys_of s.tags ++ keys_of s.tag_aliases) && all is_tag (values_of s.tag_aliases)
    then check_aliases s s.tag_aliases
    else raises bad_tags

abbrev pub names_of : List KeyDefinition → List Text
names_of [] = []
names_of (d ∷ keys) = d.name ∷ names_of keys

-- self.roles[role] in key_names
abbrev pub names_key : List Text → Option Text → Bool
names_key names none = false
names_key names (some key) = has_text key names

-- FrontmatterSchema.validate_roles
unfoldable pub validate_roles : FrontmatterSchema → Attempt SchemaError (Unit {0})
unfolding lookup
validate_roles s =
    if not (all (λ r. has_text r (keys_of s.roles)) role_names)
    then raises missing_roles
    else if not (all (λ r. names_key (names_of s.keys) (lookup r s.roles)) role_names)
    then raises undefined_roles
    else ok tt
