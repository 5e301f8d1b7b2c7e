-- ===== src/Frontmatter/Yaml.antt =====
-- What coppermind/frontmatter.py uses of ruamel.yaml, as an interface, with the laws that its
-- writers rely on; and the values that the module hands to it (`_yaml_scalar`, `_indent_like`).
pub mod Stable
use coppermind.Base.{
  ◌≤◌, ℕ, ◌+◌, ◌-◌, ◌*◌, Bool, false, not, ◌&&◌, ◌||◌, Option, none, some, [], ◌∷◌, leb, ltb, ◌==◌,
  if◌then◌else◌, ◌≡◌, ◌≢◌, All,
}
use coppermind.Base.Texts.{Text, codes, eqb, is_empty, strip, is_space, starts_with}
use coppermind.Base.Lines.{splitlines, EndsLine}
use coppermind.Base.Dict.{Dict, IsDict}
use coppermind.Frontmatter.{is_delimiter}

-- YAML(): the three widths of `yaml.indent`.
pub record Style : Type 0 where
  pub mapping : ℕ
  pub sequence : ℕ
  pub offset : ℕ

-- `_yaml`
unfoldable pub house_style : Style
house_style = record { mapping = 2; sequence = 4; offset = 2 }

-- The year, month, day, hour, minute and second of a date and time without an offset.
pub record Moment : Type 0 where
  pub year : ℕ
  pub month : ℕ
  pub day : ℕ
  pub hour : ℕ
  pub minute : ℕ
  pub second : ℕ

-- A loaded document. A mapping's comments, quotes and positions are opaque here.
pub data Loaded (V C : Type 0) : Type 0 where
  null other : Loaded V C
  mapping : Dict V → C → Loaded V C

-- `load_yaml_guess_indent`: a document with the indentation and the sequence offset that the block
-- uses, or one of the two exceptions that it raises.
pub data Guess (V C : Type 0) : Type 0 where
  guessed : Loaded V C → Option ℕ → Option ℕ → Guess V C
  index_error yaml_error : Guess V C

pub record Yaml : Type 1 where
  pub Value : Type 0
  pub Comments : Type 0
  -- `none` is a YAMLError.
  pub load : Text → Option (Loaded Value Comments)
  pub guess_indent : Text → Guess Value Comments
  -- The comments are those of the loaded mapping; a plain dict has none.
  pub dump : Style → Option Comments → Dict Value → Text
  -- The values that a file keeps: the dump of such a value loads as the value. A text, a number or a
  -- list of them is one; a tuple, or a text with a control character, need not be.
  pub IsStable : Value → Type 0
  pub is_timestamp : Value → Bool
  -- A datetime whose tzinfo is None.
  pub naive_datetime : Value → Option Moment
  pub as_str : Value → Option Text
  -- TimeStamp(…), written with a T; `none` is its ValueError.
  pub timestamp : Moment → Option Value
  -- The value of a decimal digit, which the class \d and int() read.
  pub decimal : ℕ → Option ℕ

-- The widths that a dump can express: a mapping is indented by two columns at least, and a sequence
-- has room for its dash and the space behind it.
pub record IsExpressible (st : Style) : Type 0 where
  pub nests : 2 ≤ st.mapping
  pub lists : st.offset + 2 ≤ st.sequence

-- A dict whose values a file can keep.
abbrev pub AllStable : (y : Yaml) → Dict (Yaml.Value y) → Type 0
AllStable y m = All (λ e. Yaml.IsStable y e.1) m

-- What a dump is asked of: a dict with an entry, of stable values, in widths that can be expressed.
pub record IsWritable (y : Yaml) (st : Style) (m : Dict (Yaml.Value y)) : Type 0 where
  pub expressible : IsExpressible st
  pub dict : IsDict m
  pub stable : AllStable y m
  pub filled : m ≢ []

-- Dumping such a mapping and loading it gives the same entries; the dump is not blank, writes no
-- line that is a document marker, since its top level lines open with a key and all others are
-- indented, and ends in a line feed; where it has no comments, it does not begin with one. The
-- loader refuses a key that stands twice; the guess loads what the loader does; and a time stamp
-- is stable.
pub record Laws (y : Yaml) : Type 0 where
  pub load-dump :
      (st : Style) (c : Option (Yaml.Comments y)) (m : Dict (Yaml.Value y))
      → IsWritable y st m
      → (c' : Yaml.Comments y) × (Yaml.load y (Yaml.dump y st c m) ≡ some (mapping m c'))
  pub load_dict :
      (block : Text) (m : Dict (Yaml.Value y)) (c : Yaml.Comments y)
      → Yaml.load y block ≡ some (mapping m c)
      → IsDict m
  pub guess_load :
      (block : Text) (l : Loaded (Yaml.Value y) (Yaml.Comments y)) (i o : Option ℕ)
      → Yaml.guess_indent y block ≡ guessed l i o
      → Yaml.load y block ≡ some l
  pub timestamp_stable :
      (m : Moment) (v : Yaml.Value y) → Yaml.timestamp y m ≡ some v → Yaml.IsStable y v
  pub dump_no_delimiter :
      (st : Style) (c : Option (Yaml.Comments y)) (m : Dict (Yaml.Value y))
      → IsWritable y st m
      → All (λ line. is_delimiter line ≡ false) (splitlines (Yaml.dump y st c m))
  pub dump_not_blank :
      (st : Style) (c : Option (Yaml.Comments y)) (m : Dict (Yaml.Value y))
      → IsWritable y st m
      → is_empty (strip is_space (Yaml.dump y st c m)) ≡ false
  pub dump_ends :
      (st : Style) (c : Option (Yaml.Comments y)) (m : Dict (Yaml.Value y))
      → IsWritable y st m
      → EndsLine (Yaml.dump y st c m)
  pub dump_starts :
      (st : Style) (m : Dict (Yaml.Value y))
      → IsWritable y st m
      → starts_with (10 ∷ []) (Yaml.dump y st none m) ≡ false

-- `_indent_like`: what the guess cannot name, or a dump cannot express, keeps the style. The
-- library counts the offset in spaces, so its test against 0 always passes.
unfoldable pub indent_like : Style → Option ℕ → Option ℕ → Style
indent_like st none offset = st
indent_like st (some indent) none = if ltb indent 2 then st else record st { mapping = indent }
indent_like st (some indent) (some offset) =
    if ltb indent 2
    then st
    else if leb 0 offset && leb offset (indent - 2)
    then record st { sequence = indent; offset = offset }
    else st

module _ (y : Yaml) where
  open y use {Value, is_timestamp, naive_datetime, as_str, timestamp, decimal}

  infixl 5 ◌>>=◌
  abbrev ◌>>=◌ {ℓ κ} : {A : Type ℓ} {B : Type κ} → Option A → (A → Option B) → Option B
  none >>= f = none
  some a >>= f = f a

  -- (\d{2}) at the start of a text, read by int().
  abbrev two_digits : Text → Option (ℕ × Text)
  two_digits (c ∷ d ∷ s) = do a ← decimal c; b ← decimal d; some (a * 10 + b, s)
  two_digits s = none

  abbrev literal : ℕ → Text → Option Text
  literal c [] = none
  literal c (d ∷ s) = if d == c then some s else none

  abbrev seconds : Text → Option ℕ
  seconds [] = some 0
  seconds (c ∷ s) = do
    t ← literal b':' (c ∷ s)
    (n, rest) ← two_digits t
    if is_empty rest then some n else none

  -- _LOCAL_DATETIME, on a text with no white space at its ends.
  unfoldable pub local_datetime : Text → Option Moment
  local_datetime s = do
    (century, s₁) ← two_digits s
    (years, s₂) ← two_digits s₁
    s₃ ← literal b'-' s₂
    (month, s₄) ← two_digits s₃
    s₅ ← literal b'-' s₄
    (day, s₆) ← two_digits s₅
    s₇ ← literal b'T' s₆
    (hour, s₈) ← two_digits s₇
    s₉ ← literal b':' s₈
    (minute, s₁₀) ← two_digits s₉
    second ← seconds s₁₀
    some (record {
      year = century * 100 + years;
      month = month;
      day = day;
      hour = hour;
      minute = minute;
      second = second;
    })

  abbrev get_or {ℓ} : {A : Type ℓ} → Option A → A → A
  get_or none d = d
  get_or (some a) d = a

  scalar_str : Value → Option Text → Value
  scalar_str value none = value
  scalar_str value (some s) = elim (local_datetime (strip is_space s)) [
    | none ↦ value
    | some m ↦ get_or (timestamp m) value
  ]

  -- `_yaml_scalar`
  unfoldable pub yaml_scalar : Text → Value → Value
  unfolding local_datetime scalar_str
  yaml_scalar key value =
      if not (eqb key (codes "date") || eqb key (codes "time")) || is_timestamp value
      then value
      else elim (naive_datetime value) [
        | some m ↦ get_or (timestamp m) value
        | none ↦ scalar_str value (as_str value)
      ]

  -- `_yaml_mapping` on a plain dict
  unfoldable pub yaml_mapping : Dict Value → Dict Value
  yaml_mapping [] = []
  yaml_mapping ((k, v) ∷ d) = (k, yaml_scalar k v) ∷ yaml_mapping d
