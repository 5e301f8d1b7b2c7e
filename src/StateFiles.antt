-- ===== src/StateFiles.antt =====
-- coppermind/statefiles.py: the control state files, each with a revision that a writer must name.
pub mod Revisions
pub mod Conflicts
mod Examples
use coppermind.Base.{
  ℕ, ◌+◌, ◌≡◌, Bool, true, false, ◌&&◌, ◌||◌, Option, none, some, List, [], ◌∷◌, ◌++◌, ◌==◌,
  if◌then◌else◌,
}
use coppermind.Base.Texts.{Text, codes, eqb}
use coppermind.Base.Dict.{Dict, IsDict, lookup}
use coppermind.Base.Integers.{ℤ, pos, negsuc, suc_int, int_eqb}
pub use coppermind.Base.Attempt.{raises, ok, ◌>>=◌, >>=-eq-ok}
use coppermind.Base.Attempt.{Attempt}

-- STATE_FILES: the extension of each state file.
abbrev pub state_files : Dict Text
state_files =
    (codes "settings", codes "yaml")
    ∷ (codes "schema", codes "yaml")
    ∷ (codes "rules", codes "yaml")
    ∷ (codes "keys", codes "json")
    ∷ (codes "admin", codes "json")
    ∷ (codes "reconciler_exclusions", codes "json")
    ∷ (codes "reconciler_notices", codes "json")
    ∷ []

-- The exceptions: RevisionConflict with the current revision, FileNotFoundError, and the ValueErrors
-- by what they say.
pub data Error : Type 0 where
  revision_conflict : ℤ → Error
  file_not_found unknown_state_file invalid_text not_a_mapping not_a_number : Error

-- state_dir / f"{name}.{extension}"
pub record FilePath : Type 0 where
  pub stem : Text
  pub extension : Text

abbrev pub same_path : FilePath → FilePath → Bool
same_path p q = eqb p.stem q.stem && eqb p.extension q.extension

pub record File : Type 0 where
  pub text : Text
  pub mode : ℕ

-- The state directory.
abbrev pub Files : Type 0
Files = FilePath → Option File

-- atomic_write_text, which replaces the file as a whole
abbrev pub atomic_write_text : FilePath → File → Files → Files
atomic_write_text path file files p = if same_path path p then some file else files p

-- A loaded document: a mapping, or something else.
pub data Document (V : Type 0) : Type 0 where
  mapping : Dict V → Document V
  other : Document V

-- What the module uses of json and of ruamel.yaml, on values that both can write; `none` stands for
-- the ValueError or the YAMLError of a text that cannot be loaded. `as_int` is int(value), where
-- `none` is its TypeError or ValueError.
pub record Codec : Type 1 where
  pub Value : Type 0
  pub load_json : Text → Option (Document Value)
  pub dump_json : Dict Value → Text
  pub load_yaml : Text → Option (Document Value)
  pub dump_yaml : Dict Value → Text
  pub as_int : Value → Option ℤ
  pub of_int : ℤ → Value

-- A dumped mapping loads as it was, in either format, and int gives an int back.
pub record Laws (c : Codec) : Type 0 where
  pub load-dump_json :
      (m : Dict (Codec.Value c))
      → IsDict m
      → Codec.load_json c (Codec.dump_json c m) ≡ some (mapping m)
  pub load-dump_yaml :
      (m : Dict (Codec.Value c))
      → IsDict m
      → Codec.load_yaml c (Codec.dump_yaml c m) ≡ some (mapping m)
  pub as_int-of_int : (n : ℤ) → Codec.as_int c (Codec.of_int c n) ≡ some n

path_from : Text → Option Text → Attempt Error FilePath
path_from name none = raises unknown_state_file
path_from name (some extension) = ok (record { stem = name; extension = extension })

unfoldable pub path_for : Text → Attempt Error FilePath
unfolding path_from
path_for name = path_from name (lookup name state_files)

-- `_mode_for`, 0o600 and 0o644
unfoldable pub mode_for : Text → ℕ
mode_for name = if eqb name (codes "keys") || eqb name (codes "admin") then 384 else 420

abbrev pub schema_version_key : Text
schema_version_key = codes "schema_version"

abbrev pub revision_key : Text
revision_key = codes "revision"

module _ (c : Codec) where
  open c use {Value, load_json, dump_json, load_yaml, dump_yaml, as_int, of_int}

  pub record StateFile : Type 0 where
    pub name : Text
    pub revision : ℤ
    pub body : Dict Value

  -- path.suffix == ".json"
  abbrev pub is_json : FilePath → Bool
  is_json path = eqb path.extension (codes "json")

  as_mapping : Option (Document Value) → Attempt Error (Dict Value)
  as_mapping none = raises invalid_text
  as_mapping (some other) = raises not_a_mapping
  as_mapping (some (mapping m)) = ok m

  -- `_load`
  unfoldable pub load : FilePath → Text → Attempt Error (Dict Value)
  unfolding as_mapping
  load path text = as_mapping (if is_json path then load_json text else load_yaml text)

  -- `_dump`
  unfoldable pub dump : FilePath → Dict Value → Text
  dump path body = if is_json path then dump_json body else dump_yaml body

  int_of : Option ℤ → Attempt Error ℤ
  int_of none = raises not_a_number
  int_of (some n) = ok n

  -- int(body.get(key, 1))
  pub get_int : Text → Dict Value → Attempt Error ℤ
  unfolding int_of
  get_int key body = elim (lookup key body) [ none ↦ ok (pos 1) | some v ↦ int_of (as_int v) ]

  text_of : Option File → Attempt Error Text
  text_of none = raises file_not_found
  text_of (some file) = ok file.text

  unfoldable pub read : Files → Text → Attempt Error StateFile
  unfolding path_for load text_of get_int
  read files name = do
    path ← path_for name
    text ← text_of (files path)
    loaded ← load path text
    revision ← get_int revision_key loaded
    ok (record { name = name; revision = revision; body = loaded })

  read_present : Option File → Attempt Error StateFile → Attempt Error (Option StateFile)
  read_present none there = ok none
  read_present (some file) there = do current ← there; ok (some current)

  -- self.read(name) if path.exists() else None
  unfoldable pub read_if_exists : Files → Text → Attempt Error (Option StateFile)
  unfolding path_for read_present read
  read_if_exists files name = do path ← path_for name; read_present (files path) (read files name)

  -- The two checks that raise RevisionConflict.
  pub check_revision : Option StateFile → Option ℤ → Attempt Error (Unit {0})
  check_revision none none = ok tt
  check_revision none (some r) = raises (revision_conflict (pos 0))
  check_revision (some current) none = raises (revision_conflict current.revision)
  check_revision (some current) (some r) =
      if int_eqb r current.revision then ok tt else raises (revision_conflict current.revision)

  abbrev pub next_revision : Option StateFile → ℤ
  next_revision none = pos 1
  next_revision (some current) = suc_int current.revision

  -- {k: v for k, v in body.items() if k not in {"schema_version", "revision"}}
  pub own_entries : Dict Value → Dict Value
  own_entries [] = []
  own_entries ((k, v) ∷ body) =
      let rest = own_entries body in
      if eqb k schema_version_key || eqb k revision_key then rest else (k, v) ∷ rest

  -- The record that is written. The keys that it is updated with are new to it.
  unfoldable pub record_of : ℤ → ℤ → Dict Value → Dict Value
  unfolding own_entries
  record_of version revision body =
      (schema_version_key, of_int version) ∷ (revision_key, of_int revision) ∷ own_entries body

  -- `write` takes a lock on the directory, so that `_write_locked` is one step.
  unfoldable pub write : Files → Text → Dict Value → Option ℤ → Attempt Error (Files × StateFile)
  unfolding path_for read_if_exists check_revision get_int record_of dump mode_for
  write files name body if_revision = do
    path ← path_for name
    current ← read_if_exists files name
    checked ← check_revision current if_revision
    version ← get_int schema_version_key body
    let written = record_of version (next_revision current) body
    ok (
      atomic_write_text path (record { text = dump path written; mode = mode_for name }) files,
      record { name = name; revision = next_revision current; body = written },
    )

  ensure_from :
      Files
      → Option File
      → Attempt Error StateFile
      → Attempt Error (Files × StateFile)
      → Attempt Error (Files × StateFile)
  ensure_from files none there written = written
  ensure_from files (some file) there written = do current ← there; ok (files, current)

  unfoldable pub ensure : Files → Text → Dict Value → Attempt Error (Files × StateFile)
  unfolding path_for ensure_from read write
  ensure files name body = do
    path ← path_for name
    ensure_from files (files path) (read files name) (write files name body none)
