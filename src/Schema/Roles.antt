-- ===== src/Schema/Roles.antt =====
-- A schema of coppermind/schema.py whose roles are valid answers every question about a role.
use coppermind.Base.{
  ◌≡◌, refl, inl, inr, Bool, true, not, ◌||◌, Option, none, some, List, [], ◌∷◌, all, if◌then◌else◌,
  Bool-cases, arith,
}
use coppermind.Base.Texts.{Text, codes, eqb, eqb_iff}
use coppermind.Base.Dict.{lookup}
use coppermind.Base.Attempt.{Attempt, raises, ok}
use coppermind.Naming.{Date}
use coppermind.Schema.{
  Clock, Item, Value, Frontmatter, FrontmatterSchema, SchemaError, unhashable, get, role, role_from,
  role_names, has_text, keys_of, names_of, names_key, validate_roles, is_closed, missing_roles,
  undefined_roles,
}
use coppermind.Schema.Times.{
  Iso, time_key, DateProblem, note_date, note_start_time, date_field_problem,
}
use coppermind.Schema.Tags.{tag_problems}
use coppermind.Schema.Tags.Closed.{asks_unhashable, tag_problems_lem}
use coppermind.Schema.Checks.{Problem, roles_of, problems, required_keys}
use coppermind.Schema.Changes.{field_suggestion_changes, changes_by}

all-has_text :
    (p : Text → Bool) (l : List Text) (t : Text) → all p l ≡ true → has_text t l ≡ true → p t ≡ true
all-has_text p [] t h e = cc
all-has_text p (s ∷ l) t h e = ground (arith, eqb_iff t s, all-has_text p l t)

validate_roles-all :
    (named defined : Bool)
    → Path
        (Attempt SchemaError (Unit {0}))
        (if not named
          then raises missing_roles
          else if not defined
          then raises undefined_roles
          else ok tt)
        (ok tt)
    → defined ≡ true
validate_roles-all named defined h = ground arith

module _ (s : FrontmatterSchema) (valid : validate_roles s ≡ ok tt) where
  role_named :
      (r : Text) (o : Option Text)
      → names_key (names_of s.keys) o ≡ true
      → (key : Text) × (role_from r o ≡ ok key) × (has_text key (names_of s.keys) ≡ true)
  unfolding role_from
  role_named r none h = cc
  role_named r (some key) h = (key, refl, h)

  roles_defined : all (λ t. names_key (names_of s.keys) (lookup t s.roles)) role_names ≡ true
  unfolding validate_roles
  roles_defined = validate_roles-all (all (λ t. has_text t (keys_of s.roles)) role_names) _ valid

  -- Each of the nine roles is played by a key that the schema defines.
  pub role-ok :
      (r : Text)
      → has_text r role_names ≡ true
      → (key : Text) × (role s r ≡ ok key) × (has_text key (names_of s.keys) ≡ true)
  unfolding role
  role-ok r e = role_named r (lookup r s.roles) (
      all-has_text (λ t. names_key (names_of s.keys) (lookup t s.roles)) role_names r roles_defined
        e)

  -- The tags that a write is refused for are told, unless some entry of the two lists of tags has
  -- no hash.
  pub data Asked (fm current : Frontmatter) : Type 0 where
    answered : (l : List Item) → tag_problems s fm current ≡ ok l → Asked fm current
    no_hash :
        (key : Text)
        → role s (codes "tags_key") ≡ ok key
        → asks_unhashable (get key fm) (get key current) ≡ true
        → tag_problems s fm current ≡ raises unhashable
        → Asked fm current

  tag_problems-Asked : (fm current : Frontmatter) → Asked fm current
  unfolding tag_problems
  tag_problems-Asked fm current = elim (Bool-cases (is_closed s.tag_mode)) [
    | inr e ↦ answered [] (rw e refl)
    | inl e ↦
        let (key, r, _) = role-ok (codes "tags_key") refl in
        let (raised, told) = tag_problems_lem s key fm current in
        elim (Bool-cases (asks_unhashable (get key fm) (get key current))) [
          | inl f ↦ no_hash key r f (rw (e, r) (raised f))
          | inr f ↦ let (l, same, _, _) = told f in answered l (rw (e, r) same)
        ]
  ]

  changes_by-ok :
      (iso : Iso) (fm : Frontmatter) (field : Text) (v : Value) (date_key : Text)
      → (c : Frontmatter × List Text) × (changes_by iso s fm field v date_key ≡ ok c)
  unfolding changes_by
  changes_by-ok iso fm field v date_key =
      elim (Bool-cases (eqb field date_key || eqb field time_key)) [
        | inl e ↦ rw e (_, refl)
        | inr e ↦ let (key, r, _) = role-ok (codes "account_key") refl in rw (e, r) (_, refl)
      ]

  -- Under a schema whose roles are valid, no question about a note raises for a role: its problems,
  -- its required keys, its day, its start time, what is wrong with its date and what a suggestion
  -- changes are found for every frontmatter, and so are the tags it is refused for, unless an entry
  -- of its tags or of those it carries has no hash.
  pub questions-ok :
      (iso : Iso) (fm current : Frontmatter) (field : Text) (v : Value)
      → ((ps : List (Text × Problem)) × (problems iso s fm ≡ ok ps))
        × ((keys : List Text) × (required_keys iso s fm ≡ ok keys))
        × Asked fm current
        × ((d : Option Date) × (note_date iso fm s ≡ ok d))
        × ((c : Option Clock) × (note_start_time iso fm s ≡ ok c))
        × ((p : Option DateProblem) × (date_field_problem iso fm s ≡ ok p))
        × ((c : Frontmatter × List Text) × (field_suggestion_changes iso fm s field v ≡ ok c))
  unfolding problems required_keys note_date note_start_time date_field_problem
      field_suggestion_changes roles_of
  questions-ok iso fm current field v =
      let (date_key, d, _) = role-ok (codes "date_key") refl in
      let (account_key, a, _) = role-ok (codes "account_key") refl in
      (
        rw (d, a) (_, refl),
        rw d (_, refl),
        tag_problems-Asked fm current,
        rw d (_, refl),
        rw d (_, refl),
        rw d (_, refl),
        rw d (changes_by-ok iso fm field v date_key),
      )
