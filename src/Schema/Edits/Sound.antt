-- ===== src/Schema/Edits/Sound.antt =====
-- A schema that coppermind/schema.py lets an edit save: what the absence of problems says of it.
use coppermind.Base.{
  ◌<◌, ◌≤◌, ◌⊎◌, inl, inr, none, ◌≡◌, ◌≢◌, refl, Bool, true, false, not, ◌&&◌, some, List, [], ◌∷◌,
  ◌++◌, All, ◌==◌, if◌then◌else◌, arith,
}
use coppermind.Base.Texts.{Text, eqb, eqb_iff}
use coppermind.Base.Distinct.{Distinct}
use coppermind.Schema.{
  KeyKind, string_kind, int_kind, date_kind, bool_kind, enum_kind, list_kind, KeyDefinition,
  FrontmatterSchema, has_text, names_of,
}
use coppermind.Schema.Edits.{
  EditProblem, edit_problems, repeated, count_text, all_edit_problems, key_edit_problems,
  watch_problems, problem_if, enum_without_values, values_not_applicable, takes_values,
  watches_itself, watches_no_key, watch_without_values, is_nil, is_enum,
}

append_nil : {A : Type 0} (l m : List A) → l ++ m ≡ [] → (l ≡ []) × (m ≡ [])
append_nil [] m e = (refl, e)
append_nil (a ∷ l) m e = cc

-- A name that is there is counted, and a repeated one is told.
has_text-count_text : (s : Text) (l : List Text) → has_text s l ≡ true → 0 < count_text s l
unfolding count_text
has_text-count_text s [] h = cc
has_text-count_text s (t ∷ l) h = ground (arith, has_text-count_text s l)

repeated_tail :
    (t : Text) (names : List Text)
    → repeated (t ∷ names) ≡ []
    → (repeated names ≡ []) × ((count_text t names == 1) ≡ false)
unfolding repeated
repeated_tail t names h = ground arith

-- Nothing stands twice.
repeated-count_text : (s : Text) (names : List Text) → repeated names ≡ [] → count_text s names ≤ 1
repeated-count_text s [] h = unfold count_text in omega arith
repeated-count_text s (t ∷ names) h =
    let (rest, once) = repeated_tail t names h in counted once (repeated-count_text s names rest)
  where
    counted :
        (count_text t names == 1) ≡ false → count_text s names ≤ 1 → count_text s (t ∷ names) ≤ 1
    counted once few = unfold count_text in ground (arith, eqb_iff s t)

repeated-Distinct : (names : List Text) → repeated names ≡ [] → Distinct eqb names
repeated-Distinct [] h = tt
repeated-Distinct (t ∷ names) h =
    let (rest, once) = repeated_tail t names h in
    (
      ground (arith, has_text-count_text t names, repeated-count_text t names rest),
      repeated-Distinct names rest,
    )

-- What an edit that is saved makes sure of for one key.
pub record IsSound (names : List Text) (d : KeyDefinition) : Type 0 where
  pub values_there : d.kind ≡ enum_kind → d.vocabulary ≢ []
  pub values_fit : d.vocabulary ≢ [] → (d.kind ≡ enum_kind) ⊎ (d.kind ≡ string_kind)
  pub unwatched : d.required_when ≡ none → d.required_when_values ≡ []
  pub watches :
      (key : Text)
      → d.required_when ≡ some key
      → (key ≢ d.name) × (has_text key names ≡ true) × (d.required_when_values ≢ [])

problem_if_none : (b : Bool) (name : Text) (p : EditProblem) → problem_if b name p ≡ [] → b ≡ false
unfolding problem_if
problem_if_none true name p h = cc
problem_if_none false name p h = refl

is_nil-false : {A : Type 0} (l : List A) → is_nil l ≡ false → l ≢ []
unfolding is_nil
is_nil-false [] h n = cc
is_nil-false (a ∷ l) h n = cc

-- The first of the two tests of a watched key.
watch_first : List Text → Text → Text → List (Text × EditProblem)
watch_first names name key =
    if eqb key name
    then (name, watches_itself) ∷ []
    else problem_if (not (has_text key names)) name watches_no_key

watch_problems-none :
    (names values : List Text) (name key : Text)
    → watch_problems names name (some key) values ≡ []
    → (key ≢ name) × (has_text key names ≡ true) × (values ≢ [])
unfolding watch_problems problem_if is_nil watch_first
watch_problems-none names [] name key h =
    let (first, second) =
      append_nil (watch_first names name key) ((name, watch_without_values) ∷ []) h in
    cc second
watch_problems-none names (v ∷ values) name key h =
    let (first, second) = append_nil (watch_first names name key) [] h in
    ground (arith, eqb_iff key name)

takes_values-kind : (k : KeyKind) → takes_values k ≡ true → (k ≡ enum_kind) ⊎ (k ≡ string_kind)
unfolding takes_values
takes_values-kind string_kind h = inr refl
takes_values-kind int_kind h = cc
takes_values-kind date_kind h = cc
takes_values-kind bool_kind h = cc
takes_values-kind enum_kind h = inl refl
takes_values-kind list_kind h = cc

values_taken :
    (values : List Text) (takes : Bool)
    → (not (is_nil values) && not takes) ≡ false
    → values ≢ []
    → takes ≡ true
unfolding is_nil
values_taken [] takes h ne = absurd (ne refl)
values_taken (v ∷ values) takes h ne = ground arith

-- Without a watched key no values are left to watch for.
watch_problems-unwatched :
    (names values : List Text) (name : Text)
    → watch_problems names name none values ≡ []
    → values ≡ []
unfolding watch_problems problem_if is_nil
watch_problems-unwatched names [] name h = refl
watch_problems-unwatched names (v ∷ values) name h = cc

key_edit_problems-none :
    (names : List Text) (d : KeyDefinition) → key_edit_problems names d ≡ [] → IsSound names d
unfolding key_edit_problems
key_edit_problems-none names d h =
    let enum = problem_if (is_enum d.kind && is_nil d.vocabulary) d.name enum_without_values in
    let values =
      problem_if (not (is_nil d.vocabulary) && not (takes_values d.kind)) d.name
        values_not_applicable in
    let watch = watch_problems names d.name d.required_when d.required_when_values in
    let (first, no_watch) = append_nil (enum ++ values) watch h in
    let (no_enum, no_values) = append_nil enum values first in
    record {
      values_there = enum_filled no_enum;
      values_fit = λ ne. takes_values-kind d.kind (
          values_taken d.vocabulary (takes_values d.kind)
            (problem_if_none _ d.name values_not_applicable no_values) ne);
      unwatched =
          λ e. watch_problems-unwatched names d.required_when_values d.name (rw e at no_watch);
      watches =
          λ key e. watch_problems-none names d.required_when_values d.name key (rw e at no_watch);
    }
  where
    enum_filled :
        problem_if (is_enum d.kind && is_nil d.vocabulary) d.name enum_without_values ≡ []
        → d.kind ≡ enum_kind
        → d.vocabulary ≢ []
    enum_filled h e = is_nil-false d.vocabulary (
        ground (
          arith,
          e,
          problem_if_none (is_enum d.kind && is_nil d.vocabulary) d.name enum_without_values h,
        ))

all_edit_problems-none :
    (names : List Text) (keys : List KeyDefinition)
    → all_edit_problems names keys ≡ []
    → All (IsSound names) keys
unfolding all_edit_problems
all_edit_problems-none names [] h = tt
all_edit_problems-none names (d ∷ keys) h =
    let (first, rest) = append_nil _ _ h in
    (key_edit_problems-none names d first, all_edit_problems-none names keys rest)

-- A schema in which an edit shows no problem: no two keys have one name, every enum key allows some
-- value, only keys of the enum and the string kind list values, and a key that is required because
-- of another one watches a key of the schema other than itself, for at least one value, while every
-- other key lists no values to watch for.
pub edit_problems-IsSound :
    (s : FrontmatterSchema)
    → edit_problems s ≡ []
    → Distinct eqb (names_of s.keys) × All (IsSound (names_of s.keys)) s.keys
unfolding edit_problems
edit_problems-IsSound s h =
    let (first, rest) = append_nil _ _ h in
    (
      repeated-Distinct (names_of s.keys) first,
      all_edit_problems-none (names_of s.keys) s.keys rest,
    )
