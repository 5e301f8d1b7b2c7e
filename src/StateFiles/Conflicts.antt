-- ===== src/StateFiles/Conflicts.antt =====
-- Two writers of one file of coppermind/statefiles.py: the revision that a write must name keeps the
-- later one from replacing what it has not read.
use coppermind.Base.{ℕ, suc, ◌≡◌, ◌≢◌, refl, ap, ◌∙◌, true, false, Option, none, some, arith}
use coppermind.Base.Texts.{Text, eqb}
use coppermind.Base.Dict.{Dict, IsDict}
use coppermind.Base.Integers.{ℤ, suc_int, int_eqb, int_eqb_iff, add_times, add_times_fixed}
use coppermind.Base.Attempt.{Attempt, through, >>=-Succeeds}
use coppermind.StateFiles.{
  Error, FilePath, File, Files, Codec, Laws, path_for, revision_conflict, schema_version_key,
  StateFile, get_int, read, text_of, read_present, read_if_exists, check_revision, write,
  atomic_write_text, mode_for, dump, record_of, ok, raises, ◌>>=◌,
}
use coppermind.StateFiles.Revisions.{write-Written, read-write}

module _ (c : Codec) where
  open c use {Value}

  -- What the writers of the directory do to it between two moments, `n` of the writes being to the
  -- file called `name`.
  pub data Writes (name : Text) (files : Files) : ℕ → Files → Type 0 where
    unwritten : Writes name files 0 files
    own_write :
        {n : ℕ} {before after : Files} (body : Dict Value) (if_revision : Option ℤ)
        (file : StateFile c)
        → Writes name files n before
        → IsDict body
        → write c before name body if_revision ≡ ok (after, file)
        → Writes name files (suc n) after
    other_write :
        {n : ℕ} {before after : Files} (other : Text) (body : Dict Value) (if_revision : Option ℤ)
        (file : StateFile c)
        → Writes name files n before
        → eqb other name ≡ false
        → IsDict body
        → write c before other body if_revision ≡ ok (after, file)
        → Writes name files n after

  present_of :
      (o : Option File) (rest : Text → Attempt Error (StateFile c)) (now : StateFile c)
      → (text_of c o >>= rest) ≡ ok now
      → read_present c o (text_of c o >>= rest) ≡ ok (some now)
  unfolding text_of read_present
  present_of none rest now h = cc
  present_of (some file) rest now h = rw h refl

  read_if_exists-read :
      (files : Files) (name : Text) (now : StateFile c)
      → read c files name ≡ ok now
      → read_if_exists c files name ≡ ok (some now)
  unfolding read read_if_exists
  read_if_exists-read files name now h = elim (>>=-Succeeds (path_for name) _ h) [
    | through path found rest ↦ rw found (present_of (files path) _ now rest)
  ]

  -- What a write finds where the file reads as `now`.
  record Replaced (now : StateFile c) (if_revision : Option ℤ) (file : StateFile c) : Type 0 where
    next : file.revision ≡ suc_int now.revision
    checked : check_revision c (some now) if_revision ≡ ok tt

  write-Replaced :
      (files : Files) (name : Text) (body : Dict Value) (if_revision : Option ℤ) (files' : Files)
      (now file : StateFile c)
      → read c files name ≡ ok now
      → write c files name body if_revision ≡ ok (files', file)
      → Replaced now if_revision file
  write-Replaced files name body if_revision files' now file r h =
      let w = write-Written c files name body if_revision files' file h in
      let same : w.current ≡ some now =
        ground (arith, w.current_read, read_if_exists-read files name now r) in
      record { next = rw (w.file_is, same) refl; checked = rw same at w.checked }

  module _ (laws : Laws c) (name : Text) (seen : StateFile c) where
    refused_write :
        (files' : Files) (body : Dict Value) (path : FilePath) (now : StateFile c)
        (if_revision : Option ℤ) (e : Error)
        → path_for name ≡ ok path
        → read c files' name ≡ ok now
        → check_revision c (some now) if_revision ≡ raises e
        → write c files' name body if_revision ≡ raises e
    unfolding write
    refused_write files' body path now if_revision e found r h =
        rw (read_if_exists-read files' name now r, found, h) refl

    made_write :
        (files' : Files) (body : Dict Value) (path : FilePath) (now : StateFile c)
        (if_revision : Option ℤ) (version : ℤ)
        → path_for name ≡ ok path
        → read c files' name ≡ ok now
        → check_revision c (some now) if_revision ≡ ok tt
        → get_int c schema_version_key body ≡ ok version
        → let revision = suc_int now.revision in
          let written = record_of c version revision body in
          write c files' name body if_revision
          ≡ ok (
            atomic_write_text path
                (record { text = dump c path written; mode = mode_for name })
                files',
            record { name = name; revision = revision; body = written },
          )
    unfolding write
    made_write files' body path now if_revision version found r h v =
        rw (read_if_exists-read files' name now r, found, h, v) refl

    -- The file that a reader finds `n` writes later.
    record Later (n : ℕ) (files' : Files) : Type 0 where
      now : StateFile c
      reads : read c files' name ≡ ok now
      revision : now.revision ≡ add_times n seen.revision
      unchanged : n ≡ 0 → now ≡ seen

    Writes-Later :
        {files : Files} {n : ℕ} {files' : Files}
        → read c files name ≡ ok seen
        → Writes name files n files'
        → Later n files'
    Writes-Later r unwritten = record {
      now = seen;
      reads = r;
      revision = refl;
      unchanged = λ e. refl;
    }
    Writes-Later r (own_write body if_revision file ws d h) =
        let l = Writes-Later r ws in
        let (reads, others) = read-write c laws _ name body if_revision _ file d h in
        let p = write-Replaced _ name body if_revision _ l.now file l.reads h in
        record {
          now = file;
          reads = reads;
          revision = p.next ∙ ap suc_int l.revision;
          unchanged = λ e. absurd (omega arith);
        }
    Writes-Later r (other_write other body if_revision file ws n d h) =
        let l = Writes-Later r ws in
        let (reads, others) = read-write c laws _ other body if_revision _ file d h in
        record {
          now = l.now;
          reads = others name n ∙ l.reads;
          revision = l.revision;
          unchanged = l.unchanged;
        }

    late_write :
        (n : ℕ) (files' : Files) (body : Dict Value) (path : FilePath) (l : Later n files')
        → path_for name ≡ ok path
        → n ≢ 0
        → write c files' name body (some seen.revision)
          ≡ raises (revision_conflict (add_times n seen.revision))
    late_write n files' body path l found ne =
        let differs : int_eqb seen.revision l.now.revision ≡ false = ground (
          arith,
          l.revision,
          int_eqb_iff seen.revision l.now.revision,
          add_times_fixed n seen.revision,
        ) in
        refused_write files' body path l.now (some seen.revision) (revision_conflict l.now.revision)
          found l.reads (unfold check_revision in rw differs refl)
        ∙ ap (λ r. raises (revision_conflict r)) l.revision

    timely_write :
        (files' : Files) (body : Dict Value) (version : ℤ) (path : FilePath)
        → path_for name ≡ ok path
        → read c files' name ≡ ok seen
        → get_int c schema_version_key body ≡ ok version
        → (after : Files) × (file : StateFile c) × (write c files' name body (some seen.revision)
            ≡ ok (after, file))
          × (file.revision ≡ suc_int seen.revision)
    timely_write files' body version path found r v =
        let matches : int_eqb seen.revision seen.revision ≡ true =
          ground (arith, int_eqb_iff seen.revision seen.revision) in
        (
          _,
          _,
          made_write files' body path seen (some seen.revision) version found r
              (unfold check_revision in rw matches refl) v,
          refl,
        )

    -- A caller reads a state file, and then any writes are made to the directory, `n` of them to that
    -- file. If there were any, the caller's write at the revision that it read raises the conflict,
    -- which names the revision that the file has by then, `n` more than it read. If there were none,
    -- the file still reads as the caller saw it, and the caller's write succeeds, at the next
    -- revision, unless the body has a schema version that is no number.
    pub write-Writes :
        {n : ℕ} {files files' : Files} (body : Dict Value)
        → read c files name ≡ ok seen
        → Writes name files n files'
        → (n ≢ 0
            → write c files' name body (some seen.revision)
              ≡ raises (revision_conflict (add_times n seen.revision)))
          × (n ≡ 0
              → (read c files' name ≡ ok seen)
                × ((version : ℤ)
                    → get_int c schema_version_key body ≡ ok version
                    → (after : Files) × (file : StateFile c) × (write c files' name body
                          (some seen.revision)
                        ≡ ok (after, file))
                      × (file.revision ≡ suc_int seen.revision)))
    unfolding read
    write-Writes {n} {files} {files'} body r ws =
        let l = Writes-Later r ws in
        elim (>>=-Succeeds (path_for name) _ r) [
          | through path found rest ↦ (
            late_write n files' body path l found,
            λ e.
                let still = l.reads ∙ ap ok (l.unchanged e) in
                (still, λ version v. timely_write files' body version path found still v),
          )
        ]
