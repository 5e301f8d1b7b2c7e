-- ===== src/GitHelper/Settings.antt =====
-- services/git/coppermind_git/settings.py: which settings the Git helper accepts.
mod Accepted
use coppermind.Base.{
  ℕ, ◌≡◌, Bool, true, false, not, ◌||◌, Option, none, some, List, [], ◌∷◌, any, ltb, ◌==◌,
  if◌then◌else◌,
}
use coppermind.Base.Texts.{Text, codes, eqb, elem, is_empty, is_space, strip}
use coppermind.Base.Dict.{Dict, lookup}
use coppermind.Base.Integers.{ℤ, pos, negsuc}
use coppermind.Base.Attempt.{Attempt, raises, ok, ◌>>=◌}
use coppermind.Naming.{split_slash}
use coppermind.GitHelper.{HelperSettings, shipped}

-- SettingsError, by what it says and the key that it names.
pub data SettingsError : Type 0 where
  unreadable invalid_yaml not_a_mapping : SettingsError
  not_a_section not_a_flag not_seconds not_a_line not_inside : Text → SettingsError

-- What the safe loader makes of a text, by the classes that the module asks for. A bool is not an int
-- here; a collection is `other` where a plain value is asked for.
pub data Scalar : Type 0 where
  null other : Scalar
  boolean : Bool → Scalar
  integer : ℤ → Scalar
  string : Text → Scalar

pub data Section : Type 0 where
  no_section other_section : Section
  section : Dict Scalar → Section

pub data Document : Type 0 where
  no_document other_document : Document
  document : Dict Section → Document

-- `_section`
section_of : Text → Option Section → Attempt SettingsError (Dict Scalar)
section_of name none = ok []
section_of name (some no_section) = ok []
section_of name (some other_section) = raises (not_a_section name)
section_of name (some (section entries)) = ok entries

-- `_value`
value_from : Option Scalar → Scalar → Scalar
value_from none default = default
value_from (some null) default = default
value_from (some v) default = v

-- `_flag`
flag_from : Text → Scalar → Attempt SettingsError Bool
flag_from key (boolean b) = ok b
flag_from key v = raises (not_a_flag key)

flag : Dict Scalar → Text → Bool → Attempt SettingsError Bool
unfolding flag_from value_from
flag entries key default = flag_from key (value_from (lookup key entries) (boolean default))

-- `_seconds`
pub seconds_from : Text → Scalar → Attempt SettingsError ℕ
seconds_from key (integer (pos n)) = if ltb n 1 then raises (not_seconds key) else ok n
seconds_from key v = raises (not_seconds key)

pub seconds : Dict Scalar → Text → ℕ → Attempt SettingsError ℕ
unfolding seconds_from value_from
seconds entries key default =
    seconds_from key (value_from (lookup key entries) (integer (pos default)))

-- `_line`
line_from : Text → Scalar → Attempt SettingsError Text
line_from key (string s) =
    if is_empty (strip is_space s) || elem 10 s || elem 13 s
    then raises (not_a_line key)
    else ok (strip is_space s)
line_from key v = raises (not_a_line key)

line : Dict Scalar → Text → Text → Attempt SettingsError Text
unfolding line_from value_from strip
line entries key default = line_from key (value_from (lookup key entries) (string default))

abbrev is_slash : ℕ → Bool
is_slash c = c == b'/'

-- part.strip() in {"", ".", ".."}
abbrev pub is_outside : Text → Bool
is_outside part =
    let name = strip is_space part in is_empty name || eqb name (codes ".") || eqb name (codes "..")

pub folder_from : Text → Text → Attempt SettingsError Text
unfolding split_slash strip
folder_from key value =
    let inner = strip is_slash value in
    if any is_outside (split_slash inner) then raises (not_inside key) else ok inner

-- `_folder`
pub folder : Dict Scalar → Text → Text → Attempt SettingsError Text
unfolding line folder_from
folder entries key default = do value ← line entries key default; folder_from key value

-- `load` on a mapping
pub load_sections : Dict Section → Attempt SettingsError HelperSettings
unfolding section_of flag seconds line folder
load_sections d = do
  git ← section_of (codes "git") (lookup (codes "git") d)
  notes ← section_of (codes "notes") (lookup (codes "notes") d)
  enabled ← flag git (codes "enabled") shipped.enabled
  debounce_s ← seconds git (codes "debounce_s") shipped.debounce_s
  poll_interval_s ← seconds git (codes "poll_interval_s") shipped.poll_interval_s
  identity_name ← line git (codes "identity_name") shipped.identity_name
  identity_email ← line git (codes "identity_email") shipped.identity_email
  gc_auto ← flag git (codes "gc_auto") shipped.gc_auto
  sources_folder ← folder notes (codes "sources_folder") shipped.sources_folder
  trash_folder ← folder notes (codes "trash_folder") shipped.trash_folder
  ok (record {
    enabled = enabled;
    debounce_s = debounce_s;
    poll_interval_s = poll_interval_s;
    identity_name = identity_name;
    identity_email = identity_email;
    gc_auto = gc_auto;
    sources_folder = sources_folder;
    trash_folder = trash_folder;
  })

-- The file as path.read_text gives it.
pub data Reading : Type 0 where
  missing not_read : Reading
  content : Text → Reading

pub load_document : Option Document → Attempt SettingsError HelperSettings
unfolding load_sections
load_document none = raises invalid_yaml
load_document (some no_document) = ok shipped
load_document (some other_document) = raises not_a_mapping
load_document (some (document d)) = load_sections d

-- `load`, over the loader, for which `none` is a YAMLError.
unfoldable pub load : (Text → Option Document) → Reading → Attempt SettingsError HelperSettings
unfolding load_document
load load_yaml missing = ok shipped
load load_yaml not_read = raises unreadable
load load_yaml (content text) = load_document (load_yaml text)
