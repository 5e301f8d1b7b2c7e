-- ===== src/Schema/Edits.antt =====
-- coppermind/schema.py: what an edit of the schema may not save (`edit_problems`).
pub mod Sound
use coppermind.Base.{
  ℕ, zero, suc, ◌≡◌, Bool, true, false, not, ◌&&◌, Option, none, some, List, [], ◌∷◌, ◌++◌, ◌==◌,
  if◌then◌else◌,
}
use coppermind.Base.Texts.{Text, eqb}
use coppermind.Schema.{
  KeyKind, string_kind, int_kind, date_kind, bool_kind, enum_kind, list_kind, KeyDefinition,
  FrontmatterSchema, has_text, names_of,
}

-- What `edit_problems` finds.
pub data EditProblem : Type 0 where
  defined_twice enum_without_values values_not_applicable : EditProblem
  values_without_watch watches_itself watches_no_key watch_without_values : EditProblem

count_text : Text → List Text → ℕ
count_text s [] = zero
count_text s (t ∷ texts) = let rest = count_text s texts in if eqb s t then suc rest else rest

-- The names that stand more than once, each told once, at its last place but one.
unfoldable pub repeated : List Text → List (Text × EditProblem)
unfolding count_text
repeated [] = []
repeated (s ∷ names) =
    let rest = repeated names in if count_text s names == 1 then (s, defined_twice) ∷ rest else rest

pub is_enum : KeyKind → Bool
is_enum enum_kind = true
is_enum k = false

takes_values : KeyKind → Bool
takes_values enum_kind = true
takes_values string_kind = true
takes_values k = false

is_nil {ℓ} : {A : Type ℓ} → List A → Bool
is_nil [] = true
is_nil (a ∷ l) = false

problem_if : Bool → Text → EditProblem → List (Text × EditProblem)
problem_if true name p = (name, p) ∷ []
problem_if false name p = []

watch_problems : List Text → Text → Option Text → List Text → List (Text × EditProblem)
unfolding problem_if is_nil
watch_problems names name none values = problem_if (not (is_nil values)) name values_without_watch
watch_problems names name (some key) values =
    (if eqb key name
      then (name, watches_itself) ∷ []
      else problem_if (not (has_text key names)) name watches_no_key)
    ++ problem_if (is_nil values) name watch_without_values

key_edit_problems : List Text → KeyDefinition → List (Text × EditProblem)
unfolding watch_problems problem_if is_nil is_enum takes_values
key_edit_problems names d =
    problem_if (is_enum d.kind && is_nil d.vocabulary) d.name enum_without_values
    ++ problem_if (not (is_nil d.vocabulary) && not (takes_values d.kind)) d.name
        values_not_applicable
    ++ watch_problems names d.name d.required_when d.required_when_values

all_edit_problems : List Text → List KeyDefinition → List (Text × EditProblem)
unfolding key_edit_problems
all_edit_problems names [] = []
all_edit_problems names (d ∷ keys) = key_edit_problems names d ++ all_edit_problems names keys

unfoldable pub edit_problems : FrontmatterSchema → List (Text × EditProblem)
unfolding repeated all_edit_problems
edit_problems s = repeated (names_of s.keys) ++ all_edit_problems (names_of s.keys) s.keys
