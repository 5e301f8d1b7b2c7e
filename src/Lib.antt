-- ===== src/Lib.antt =====
-- Coppermind keeps a person's notes as Markdown files that Obsidian syncs between devices, and serves
-- and writes them through a store process. Modelled here are the parts of it on which a file's
-- content and name, the keys of a note, the filters of a query, the intake of dropped files, the
-- snapshots of the notes and the safety of a purge rest:
--
--   Frontmatter   coppermind/frontmatter.py: a note's YAML block and its body
--     .Yaml       what the module uses of ruamel.yaml, as an interface; _yaml_scalar, _indent_like
--     .Write      parse, compose, patch, fill_missing and their helpers
--   Naming        coppermind/naming.py: portable and unique file names
--   StateFiles    coppermind/statefiles.py: the control state files and their revisions
--   ApiKeys       coppermind/api_keys.py: the form of a credential and the record of a new key
--   GitHelper     services/git/coppermind_git/main.py: the process that commits the notes
--     .Settings   services/git/coppermind_git/settings.py: the settings that it accepts
--   Dropbox       services/store/coppermind_store/dropbox.py: the receipts of dropped files
--     .Sidecar    what a .kind sidecar declares, and the calendar handlers
--     .Process    the round that hands on what waits and follows its imports
--     .Dismiss    the dismissal of a receipt
--     .Scan       the walk over the folder that takes files once they are still
--     .Life       any sequence of these operations
--   CalendarArchive  services/store/coppermind_store/calendar_archive.py: the receipts of imports
--   FieldFilters  coppermind/field_filters.py: the filters on metadata that a query may carry
--   Schema        coppermind/schema.py: the keys of a note's frontmatter and what they may hold
--     .Times      the date and the time of day that a value says
--     .Tags       aliases of tags, closed tags, and the names of an account value
--     .Checks     the keys that a note must carry and the problems of its values
--     .Edits      what an edit of the schema must not save
--     .Changes    the patch of a suggestion; validate_review of services/store/coppermind_store/note_lifecycle.py
--     .Defaults   the schema of a fresh install
--   Maintenance   services/store/coppermind_store/maintenance.py: the gate between writers and purge
--     .Run        the tasks that use the gate, as interleaved steps
--   Base          texts, lines and dicts, and the lemmas that the components share
--
-- A definition has the name that the source gives it, without a leading underscore; where that is
-- taken or says too little here, the comment above it names the function. The store process writes a
-- note through the functions of Frontmatter into a file named by those of Naming, and takes the gate
-- of Maintenance around each such write. Schema says which frontmatter it accepts and FieldFilters
-- which queries on it; the schema is one of the files of StateFiles. Dropbox takes in the files that are
-- dropped beside the notes and hands calendars to CalendarArchive, which it knows by the interface
-- Services alone.
--
-- Texts and lines. A str is a list of code points, each a natural number. str.splitlines, str.strip,
-- str.split and the length in UTF-8 are written out in Base and at their use. A text here has no lone
-- surrogate, which Python cannot encode in UTF-8.
--
-- Frontmatter. An error is a value with the category that the source gives it; its message, line and
-- column are left out. ruamel.yaml is the record Yaml: loading, guessing an indentation, dumping and
-- the classes of a value. Its Laws are on the dump of a mapping whose values are stable, which are
-- those that a file can keep, in widths that the library can express, an offset having room for the
-- dash: it loads as what was dumped, it is not blank, no line of it is a document marker, and it ends
-- in a line feed and, without comments, does not begin with one. A loaded mapping has each key once,
-- the guess loads what the loader does, and a time stamp is stable. That the widths which the writers
-- use can be expressed is proved, by the guards of _indent_like. A mapping is a list of entries in order, with the
-- comments that the loader attached to it, which are opaque. `none` for an opening length or for the
-- two offsets stands for the source's -1.
--
-- Naming. Normalisation, upper case and case folding are the record Unicode; the laws in use say that
-- the last two map a text character by character and keep an ASCII character that is no letter. The
-- loop of unique_stem has no bound in the source: the model takes fuel, and the theorem gives the
-- fuel that is enough, one round more than there are taken names. It assumes fewer than 10^9 names,
-- so that a suffix fits the budget.
--
-- StateFiles. The directory is a function from a file's path to its text and mode, and a write
-- replaces a file as a whole; the lock that a writer holds makes its read, check and replacement one
-- step. JSON, YAML and int() are the record Codec, whose Laws say that a dumped mapping loads as it was
-- and that an int is its own int. A value that int() does not take is one error, be it a TypeError or a
-- ValueError. A revision is an integer, negative ones included. An error of the
-- file system other than a missing file is not modelled.
--
-- ApiKeys. argon2 is the record Hasher; that it accepts the secret a hash was made from is a hypothesis
-- of the one theorem that uses it. An id and a secret that the source draws at random are arguments.
-- Not modelled: load_keys, add_key and revoke_key.
--
-- GitHelper. A scan is the sequence of its statements, each of which may raise and leaves the helper
-- and the repository as they are there. The commands of coppermind_git/repo.py are the record
-- NotesRepo, and what loading the settings comes to is an argument of a tick. The settings file is
-- what YAML's safe loader, an argument, makes of it, two levels deep. Times are in milliseconds. The
-- log and the status file are left out.
--
-- Dropbox. The state is the records, the filed originals, what has been seen of the folder's files and
-- the state of the calendar archive. The archive and the artifact store are the record Services, of
-- whose calls only the outcome and the receipts count; its Laws say that an import has a receipt and
-- that no call loses one. hashlib, pathlib's suffix, JSON and str.lower are the record Python, without
-- laws. What the walk over the folder finds, and what reading a file comes to, is an argument. An
-- operation reads each clock once, in seconds, and is one step, since the caller holds the context's
-- lock around it; in a scan the step is one file. A file system error while an original is filed, the
-- log and snapshot are left out.
--
-- CalendarArchive. The receipt files are a list in the order of their paths, each under its receipt's
-- id. What parsing a file and the transaction of its events come to is an argument; the times of a
-- receipt, the event rows and their conflicts, and migrate are left out. CalendarArchive.services is the
-- instance of Services that the drop box runs with.
--
-- FieldFilters. The clauses that JSON and pydantic make of a text, without the limits on their number
-- and on the length of a field, the length of the quoted text and whether a text is a day are the
-- record Parser, without laws. filter_digest and canonical_filter are left out.
--
-- Schema. A value is one of the classes that the module asks for: null, a flag, a whole number, a
-- text, a list, a date, a datetime or something else. An entry of a list is a text, or the class of
-- the values that are equal to it, a list or mapping apart, since it has no hash and raises a TypeError
-- where a set or a dict is asked for it. A problem says what is wrong without its message. datetime's three
-- fromisoformat, isoformat and strftime, \d of re and str() are the record Iso, without laws. A key
-- that is null and a key that is missing are told apart nowhere in what is modelled. A set of keys is
-- a list in the order of the schema. Not modelled: descriptions, and shipped_key_upgrades.
--
-- Maintenance. Every block under the gate's condition is one step of one task, and a step that waits
-- is possible exactly where its condition holds. Tasks are numbers, and steps of different tasks
-- interleave in any order; a task leaves its blocks in the reverse order of entering them. A
-- cancelled wait for the exclusive block is a step of its own.
--
-- Not modelled: replace_value_in_place of frontmatter.py and the position that an error reports; of
-- note_lifecycle.py all but validate_review; the store's other modules, the two HTTP services, the
-- admin pages and the supervisor of Obsidian.
pub mod Base
pub mod Frontmatter
pub mod Naming
pub mod Maintenance
pub mod StateFiles
pub mod ApiKeys
pub mod GitHelper
pub mod Schema
pub mod Dropbox
pub mod CalendarArchive
pub mod FieldFilters
