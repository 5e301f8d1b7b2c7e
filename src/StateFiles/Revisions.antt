-- ===== src/StateFiles/Revisions.antt =====
-- What a write of coppermind/statefiles.py leaves in the directory.
use coppermind.Base.{
  ◌≡◌, refl, inl, inr, true, false, ◌||◌, Option, none, some, [], ◌∷◌, Bool-cases, arith,
}
use coppermind.Base.Texts.{Text, eqb, eqb_refl}
use coppermind.Base.Dict.{Dict, IsDict, lookup, has_key}
use coppermind.Base.Integers.{ℤ}
use coppermind.Base.Attempt.{through, >>=-Succeeds, >>=-agree}
use coppermind.StateFiles.{
  FilePath, same_path, Files, atomic_write_text, Codec, Laws, path_for, path_from, mode_for,
  schema_version_key, revision_key, state_files, StateFile, load, dump, is_json, as_mapping,
  get_int, int_of, text_of, read, read_if_exists, check_revision, next_revision, own_entries,
  record_of, write, ok,
}

path_from-stem :
    (name : Text) (o : Option Text) (path : FilePath)
    → path_from name o ≡ ok path
    → path.stem ≡ name
unfolding path_from
path_from-stem name none path e = cc
path_from-stem name (some x) path e = ground arith

pub path_for-stem : (name : Text) (path : FilePath) → path_for name ≡ ok path → path.stem ≡ name
unfolding path_for
path_for-stem name path h = path_from-stem name (lookup name state_files) path h

module _ (c : Codec) where
  open c use {Value, as_int, of_int}

  has_key-own_entries :
      (k : Text) (body : Dict Value)
      → has_key k body ≡ false
      → has_key k (own_entries c body) ≡ false
  unfolding has_key own_entries
  has_key-own_entries k [] h = refl
  has_key-own_entries k ((j, v) ∷ body) h = ground (arith, has_key-own_entries k body)

  own_entries_free :
      (body : Dict Value)
      → (has_key schema_version_key (own_entries c body) ≡ false)
        × (has_key revision_key (own_entries c body) ≡ false)
  unfolding has_key own_entries
  own_entries_free [] = (refl, refl)
  own_entries_free ((j, v) ∷ body) = let (s, r) = own_entries_free body in ground (arith, s, r)

  own_entries-IsDict : (body : Dict Value) → IsDict body → IsDict (own_entries c body)
  unfolding own_entries
  own_entries-IsDict [] d = tt
  own_entries-IsDict ((j, v) ∷ body) (fresh, d) =
      elim (Bool-cases (eqb j schema_version_key || eqb j revision_key)) [
        | inl e ↦ rw e (own_entries-IsDict body d)
        | inr e ↦ rw e (has_key-own_entries j body fresh, own_entries-IsDict body d)
      ]

  record_of-IsDict :
      (version revision : ℤ) (body : Dict Value)
      → IsDict body
      → IsDict (record_of c version revision body)
  unfolding record_of has_key
  record_of-IsDict version revision body d =
      let (s, r) = own_entries_free body in (s, (r, own_entries-IsDict body d))

  get_revision :
      (version revision : ℤ) (body : Dict Value)
      → Laws c
      → get_int c revision_key (record_of c version revision body) ≡ ok revision
  unfolding get_int int_of record_of lookup
  get_revision version revision body laws = rw (laws.as_int-of_int revision) refl

  load-dump :
      Laws c → (path : FilePath) (m : Dict Value) → IsDict m → load c path (dump c path m) ≡ ok m
  unfolding load dump as_mapping
  load-dump laws path m d = elim (Bool-cases (is_json c path)) [
    | inl e ↦ rw (e, laws.load-dump_json m d) refl
    | inr e ↦ rw (e, laws.load-dump_yaml m d) refl
  ]

  -- A write that was made: the file that it replaced, and what it left.
  pub record Written (files : Files) (name : Text) (body : Dict Value) (if_revision : Option ℤ)
      (files' : Files) (file : StateFile c) : Type 0 where
    pub path : FilePath
    pub path_found : path_for name ≡ ok path
    pub current : Option (StateFile c)
    pub current_read : read_if_exists c files name ≡ ok current
    pub checked : check_revision c current if_revision ≡ ok tt
    pub version : ℤ
    pub file_is : file ≡ record {
      name = name;
      revision = next_revision c current;
      body = record_of c version (next_revision c current) body;
    }
    pub files_are :
        files'
        ≡ atomic_write_text path
            (record { text = dump c path file.body; mode = mode_for name })
            files

  pub write-Written :
      (files : Files) (name : Text) (body : Dict Value) (if_revision : Option ℤ) (files' : Files)
      (file : StateFile c)
      → write c files name body if_revision ≡ ok (files', file)
      → Written files name body if_revision files' file
  unfolding write
  write-Written files name body if_revision files' file h =
      elim (>>=-Succeeds (path_for name) _ h) [
        | through path found h₁ ↦ elim (>>=-Succeeds (read_if_exists c files name) _ h₁) [
          | through current present h₂ ↦
              elim (>>=-Succeeds (check_revision c current if_revision) _ h₂) [
                | through u checks h₃ ↦
                    elim (>>=-Succeeds (get_int c schema_version_key body) _ h₃) [
                      | through version versioned h₄ ↦ record {
                        path = path;
                        path_found = found;
                        current = current;
                        current_read = present;
                        checked = checks;
                        version = version;
                        file_is = ground arith;
                        files_are = ground arith;
                      }
                    ]
              ]
        ]
      ]

  same_path_refl : (path : FilePath) → same_path path path ≡ true
  same_path_refl path = rw (eqb_refl path.stem, eqb_refl path.extension) refl

  other_path :
      (name other : Text) (path q : FilePath)
      → eqb name other ≡ false
      → path_for name ≡ ok path
      → path_for other ≡ ok q
      → same_path path q ≡ false
  other_path name other path q n e f =
      rw (path_for-stem name path e, path_for-stem other q f, n) refl

  module _ (laws : Laws c) where
    -- A write that succeeds is read back as the file that it returns, whatever the codec does with
    -- the text between; and every other state file reads as it did before.
    pub read-write :
        (files : Files) (name : Text) (body : Dict Value) (if_revision : Option ℤ) (files' : Files)
        (file : StateFile c)
        → IsDict body
        → write c files name body if_revision ≡ ok (files', file)
        → (read c files' name ≡ ok file)
          × ((other : Text) → eqb name other ≡ false → read c files' other ≡ read c files other)
    unfolding read text_of
    read-write files name body if_revision files' file d h =
        let w = write-Written files name body if_revision files' file h in
        let revision = next_revision c w.current in
        (
          rw
              (
                w.files_are,
                w.path_found,
                same_path_refl w.path,
                w.file_is,
                load-dump laws w.path (record_of c w.version revision body)
                    (record_of-IsDict w.version revision body d),
                get_revision w.version revision body laws,
              )
              refl,
          λ other n.
              >>=-agree (path_for other) _ _
                (λ q e. rw (w.files_are, other_path name other w.path q n w.path_found e) refl),
        )
