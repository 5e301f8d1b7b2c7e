-- ===== src/Naming.antt =====
-- coppermind/naming.py: portable file and folder names.
pub mod Fit
pub mod Clean
pub mod Decimal
pub mod Unique
pub mod Reserved
mod Examples
use coppermind.Base.{
  ℕ, zero, suc, ◌+◌, ◌-◌, ◌*◌, ◌/◌, ◌%◌, ◌≡◌, Bool, true, false, not, ◌&&◌, ◌||◌, Option, none,
  some, List, [], ◌∷◌, ◌++◌, map, length, take, any, ltb, leb, ◌==◌, if◌then◌else◌,
}
use coppermind.Base.Texts.{
  Text, codes, eqb, elem, is_empty, is_space, lstrip, rstrip, strip, utf8_length,
}

-- The tables of Unicode that the module reads through str and unicodedata.
pub record Unicode : Type 0 where
  -- unicodedata.normalize("NFC", …)
  pub nfc : Text → Text
  pub upper : Text → Text
  pub casefold : Text → Text

-- str.upper and str.casefold map a text character by character, and an ASCII character that is no letter to itself.
pub record Laws (u : Unicode) : Type 0 where
  pub casefold-append :
      (s t : Text) → Unicode.casefold u (s ++ t) ≡ Unicode.casefold u s ++ Unicode.casefold u t
  pub upper-append :
      (s t : Text) → Unicode.upper u (s ++ t) ≡ Unicode.upper u s ++ Unicode.upper u t
  pub upper_same : (c : ℕ) → (leb 32 c && leb c 64) ≡ true → Unicode.upper u (c ∷ []) ≡ c ∷ []
  pub casefold_same : (c : ℕ) → (leb 32 c && leb c 64) ≡ true → Unicode.casefold u (c ∷ []) ≡ c ∷ []

-- _FORBIDDEN
unfoldable pub is_forbidden : ℕ → Bool
is_forbidden c = leb c 31 || elem c (codes "<>:\"/\\|?*")

abbrev pub max_stem_length : ℕ
max_stem_length = 120

abbrev pub max_component_bytes : ℕ
max_component_bytes = 255

abbrev pub max_stem_bytes : ℕ
max_stem_bytes = max_component_bytes - 3

-- stem[:-1]
abbrev pub drop_last : Text → Text
drop_last [] = []
drop_last (c ∷ []) = []
drop_last (c ∷ d ∷ s) = c ∷ drop_last (d ∷ s)

-- The `while` loop of `_fit`, with the length of the stem for its fuel.
unfoldable pub trim_bytes : ℕ → ℕ → Text → Text
unfolding utf8_length
trim_bytes zero max_bytes stem = stem
trim_bytes (suc fuel) max_bytes stem =
    let shorter = trim_bytes fuel max_bytes (drop_last stem) in
    if not (is_empty stem) && ltb max_bytes (utf8_length stem) then shorter else stem

-- The characters of strip(". ")
abbrev pub is_dot_space : ℕ → Bool
is_dot_space c = c == b'.' || c == b' '

abbrev pub cut_chars : ℕ → Text → Text
cut_chars max_chars stem = if ltb max_chars (length stem) then take max_chars stem else stem

-- `_fit`. A budget below zero comes here as 0, which is refused alike.
unfoldable pub fit : ℕ → ℕ → Text → Text
unfolding trim_bytes strip rstrip lstrip
fit max_chars max_bytes stem =
    let cut = cut_chars max_chars stem in
    let trimmed = trim_bytes (length cut) max_bytes cut in
    if leb max_chars 0 || leb max_bytes 0 then [] else strip is_space (rstrip is_dot_space trimmed)

-- _FORBIDDEN.sub(" ", …)
unfoldable pub blank_forbidden : Text → Text
unfolding is_forbidden
blank_forbidden [] = []
blank_forbidden (c ∷ s) = (if is_forbidden c then b' ' else c) ∷ blank_forbidden s

-- _WHITESPACE.sub(" ", …); `inside` tells that the run of white space has its space already.
collapse_from : Bool → Text → Text
collapse_from inside [] = []
collapse_from inside (c ∷ s) =
    let rest = collapse_from (is_space c) s in
    if is_space c then (if inside then rest else b' ' ∷ rest) else c ∷ rest

unfoldable pub collapse : Text → Text
unfolding collapse_from is_space
collapse s = collapse_from false s

-- stem.split(".")[0]
unfoldable pub before_dot : Text → Text
before_dot [] = []
before_dot (c ∷ s) = let rest = before_dot s in if c == b'.' then [] else c ∷ rest

-- _RESERVED
abbrev pub numbered : Text → ℕ → List Text
numbered name zero = []
numbered name (suc n) = (name ++ (b'0' + suc n) ∷ []) ∷ numbered name n

abbrev pub reserved : List Text
reserved =
    codes "CON" ∷ codes "PRN" ∷ codes "AUX" ∷ codes "NUL" ∷ numbered (codes "COM") 9
    ++ numbered (codes "LPT") 9

abbrev pub untitled : Text
untitled = codes "Untitled"

-- The part of `sanitize_stem` that does not ask Unicode's tables: blanks, runs and ends.
unfoldable pub clean_ends : Text → Text
unfolding blank_forbidden collapse strip rstrip lstrip
clean_ends s = strip is_space (strip is_dot_space (strip is_space (collapse (blank_forbidden s))))

-- stem or fallback
abbrev pub or_else : Text → Text → Text
or_else [] fallback = fallback
or_else (c ∷ s) fallback = c ∷ s

-- A date, and date.isoformat().
pub record Date : Type 0 where
  pub year : ℕ
  pub month : ℕ
  pub day : ℕ

abbrev pub digit : ℕ → ℕ
digit n = b'0' + n % 10

abbrev pub isoformat : Date → Text
isoformat d =
    digit (d.year / 1000)
    ∷ digit (d.year / 100)
    ∷ digit (d.year / 10)
    ∷ digit d.year
    ∷ b'-'
    ∷ digit (d.month / 10)
    ∷ digit d.month
    ∷ b'-'
    ∷ digit (d.day / 10)
    ∷ digit d.day
    ∷ []

-- str(n)
decimal_from : ℕ → ℕ → Text
decimal_from zero n = []
decimal_from (suc fuel) n =
    let front = decimal_from fuel (n / 10) in
    if ltb n 10 then digit n ∷ [] else front ++ digit n ∷ []

unfoldable pub decimal : ℕ → Text
unfolding decimal_from
decimal n = decimal_from (suc n) n

-- " (n)"
abbrev pub tail_of : ℕ → Text
tail_of n = b' ' ∷ b'(' ∷ (decimal n ++ b')' ∷ [])

-- part.replace("\\", "/") on one character
abbrev pub to_slash : ℕ → ℕ
to_slash c = if c == 0x5c then b'/' else c

-- value.split("/")
unfoldable pub split_from : Text → Text → List Text
split_from part [] = part ∷ []
split_from part (c ∷ s) =
    let closed = part ∷ split_from [] s in
    let longer = split_from (part ++ c ∷ []) s in if c == b'/' then closed else longer

unfoldable pub split_slash : Text → List Text
unfolding split_from
split_slash s = split_from [] s

-- "/".join(…)
unfoldable pub join_slash : List Text → Text
join_slash [] = []
join_slash (part ∷ []) = part
join_slash (part ∷ next ∷ parts) = part ++ b'/' ∷ join_slash (next ∷ parts)

module _ (u : Unicode) where
  open u use {nfc, upper, casefold}

  pub is_reserved : Text → Bool
  is_reserved stem = any (eqb (upper stem)) reserved || any (eqb (before_dot (upper stem))) reserved

  -- `if … in _RESERVED: stem = f"{stem} (name)"`
  unfoldable pub guard_reserved : Text → Text
  unfolding is_reserved before_dot
  guard_reserved stem = if is_reserved stem then stem ++ codes " (name)" else stem

  unfoldable pub sanitize_stem : Text → Text → Text
  unfolding clean_ends guard_reserved fit
  sanitize_stem fallback value =
      let stem = clean_ends (nfc value) in
      if is_empty stem
      then fallback
      else or_else (fit max_stem_length max_stem_bytes (guard_reserved stem)) fallback

  abbrev dated_stem : Text → Text → Text
  dated_stem prefix stem =
      prefix
      ++ or_else (fit (max_stem_length - length prefix) (max_stem_bytes - utf8_length prefix) stem)
          untitled

  unfoldable pub note_stem : Text → Option Date → Bool → Text
  unfolding sanitize_stem utf8_length
  note_stem title none dated = sanitize_stem untitled title
  note_stem title (some date) dated =
      if dated
      then dated_stem (isoformat date ++ b' ' ∷ []) (sanitize_stem untitled title)
      else sanitize_stem untitled title

  abbrev pub candidate : Text → ℕ → Text
  candidate stem suffix =
      let tail = tail_of suffix in
      fit (max_stem_length - length tail) (max_stem_bytes - utf8_length tail) stem ++ tail

  -- value.casefold() in lowered
  abbrev pub is_taken : List Text → Text → Bool
  is_taken lowered stem = any (eqb (casefold stem)) lowered

  -- The `while True` loop of `unique_stem`; `none` stands for a loop that goes on.
  search_from : ℕ → List Text → Text → ℕ → Option Text
  search_from zero lowered stem suffix = none
  search_from (suc fuel) lowered stem suffix =
      let later = search_from fuel lowered stem (suffix + 1) in
      if not (is_taken lowered (candidate stem suffix)) then some (candidate stem suffix) else later

  unfoldable pub unique_stem : ℕ → Text → List Text → Option Text
  unfolding search_from
  unique_stem fuel stem taken =
      let lowered = map casefold taken in
      if not (is_taken lowered stem) then some stem else search_from fuel lowered stem 2

  -- part and part not in {".", ".."}
  abbrev pub keeps_part : Text → Bool
  keeps_part part = not (is_empty part) && not (eqb part (codes ".") || eqb part (codes ".."))

  keep_parts : List Text → List Text
  keep_parts [] = []
  keep_parts (part ∷ parts) = if keeps_part part then part ∷ keep_parts parts else keep_parts parts

  unfoldable pub sanitize_folder : Text → Text
  unfolding keep_parts split_slash join_slash sanitize_stem
  sanitize_folder value =
      join_slash (keep_parts (map (sanitize_stem []) (split_slash (map to_slash value))))
