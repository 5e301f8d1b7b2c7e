-- ===== src/Frontmatter/Examples/Notation.antt =====
-- A small notation that meets the laws asked of YAML: one line that opens with x, and for each entry
-- its key with every character raised by 0x3000, the letter b and the value raised likewise.
use coppermind.Base.{
  ℕ, ◌+◌, ◌-◌, ◌≡◌, refl, sym, ap, ◌∙◌, inl, inr, Bool, true, false, ◌&&◌, not, Option, none, some,
  [], ◌∷◌, ◌++◌, All, All-append, ◌==◌, if◌then◌else◌, Bool-cases, append_assoc, append-nil, arith,
}
use coppermind.Base.Texts.{Text, is_empty, strip, is_space, starts_with}
use coppermind.Base.Lines.{splitlines, EndsLine, is_break, push}
use coppermind.Base.Dict.{Dict, IsDict, has_key}
use coppermind.Frontmatter.{is_delimiter}
use coppermind.Frontmatter.Yaml.{Yaml, Laws, Loaded, mapping, Guess, guessed, yaml_error}

abbrev base : ℕ
base = 0x3000

raise : Text → Text
raise [] = []
raise (c ∷ s) = (c + base) ∷ raise s

unfoldable pub show : Dict ℕ → Text
unfolding raise
show [] = 10 ∷ []
show ((k, v) ∷ m) = raise k ++ (b'b' ∷ (v + base) ∷ show m)

abbrev cons_entry : Text → ℕ → Option (Dict ℕ) → Option (Dict ℕ)
cons_entry k v none = none
cons_entry k v (some m) = some ((k, v) ∷ m)

-- `key` holds what has been read of the next key.
scan : Text → Text → Option (Dict ℕ)
scan key [] = none
scan key (c ∷ []) = if c == 10 && is_empty key then some [] else none
scan key (c ∷ v ∷ s) =
    let entry = cons_entry key (v - base) (scan [] s) in
    let more = scan (key ++ (c - base) ∷ []) (v ∷ s) in if c == b'b' then entry else more

is_dict : Dict ℕ → Bool
is_dict [] = true
is_dict ((k, v) ∷ m) = not (has_key k m) && is_dict m

checked : Option (Dict ℕ) → Option (Loaded ℕ Unit)
checked none = none
checked (some m) = if is_dict m then some (mapping m tt) else none

unfoldable pub load : Text → Option (Loaded ℕ Unit)
unfolding checked scan is_dict
load [] = none
load (c ∷ s) = if c == b'x' then checked (scan [] s) else none

abbrev guess : Option (Loaded ℕ Unit) → Guess ℕ Unit
guess none = yaml_error
guess (some l) = guessed l none none

abbrev pub notation : Yaml
notation = record {
  Value = ℕ;
  Comments = Unit;
  load = load;
  guess_indent = λ block. guess (load block);
  dump = λ st c m. b'x' ∷ show m;
  IsStable = λ v. Unit;
  is_timestamp = λ v. false;
  naive_datetime = λ v. none;
  as_str = λ v. none;
  timestamp = λ m. none;
  decimal = λ c. none;
}

is_dict-IsDict : (m : Dict ℕ) → is_dict m ≡ true → IsDict m
unfolding is_dict
is_dict-IsDict [] h = tt
is_dict-IsDict ((k, v) ∷ m) h = (ground arith, is_dict-IsDict m (ground arith))

IsDict-is_dict : (m : Dict ℕ) → IsDict m → is_dict m ≡ true
unfolding is_dict
IsDict-is_dict [] d = refl
IsDict-is_dict ((k, v) ∷ m) (fresh, d) = ground (arith, IsDict-is_dict m d)

show-cons : (m : Dict ℕ) → (c : ℕ) × (s : Text) × (show m ≡ c ∷ s)
unfolding show raise
show-cons [] = (10, [], refl)
show-cons (([], v) ∷ m) = (b'b', (v + base) ∷ show m, refl)
show-cons ((c ∷ k, v) ∷ m) = (c + base, raise k ++ (b'b' ∷ (v + base) ∷ show m), refl)

raised-ne : (c : ℕ) → (c + base == b'b') ≡ false
raised-ne c = ground arith

scan-step :
    (key : Text) (c d : ℕ) (s : Text) → scan key ((c + base) ∷ d ∷ s) ≡ scan (key ++ c ∷ []) (d ∷ s)
unfolding scan
scan-step key c d s = rw (raised-ne c) (ap (λ n. scan (key ++ n ∷ []) (d ∷ s)) (omega arith))

scan-raise :
    (key k : Text) (v : ℕ) (s : Text)
    → scan key (raise k ++ (b'b' ∷ (v + base) ∷ s)) ≡ cons_entry (key ++ k) v (scan [] s)
unfolding raise
scan-raise key [] v s =
    rw append-nil (unfold scan in ap (λ n. cons_entry key n (scan [] s)) (omega arith))
scan-raise key (c ∷ []) v s =
    scan-step key c b'b' ((v + base) ∷ s)
    ∙ scan-raise (key ++ c ∷ []) [] v s
    ∙ ap (λ u. cons_entry u v (scan [] s)) (append-nil (key ++ c ∷ []))
scan-raise key (c ∷ d ∷ k) v s =
    scan-step key c (d + base) (raise k ++ (b'b' ∷ (v + base) ∷ s))
    ∙ scan-raise (key ++ c ∷ []) (d ∷ k) v s
    ∙ ap (λ u. cons_entry u v (scan [] s)) (append_assoc key (c ∷ []) (d ∷ k))

scan-show : (m : Dict ℕ) → scan [] (show m) ≡ some m
unfolding show
scan-show [] = unfold scan in refl
scan-show ((k, v) ∷ m) = scan-raise [] k v (show m) ∙ ap (cons_entry k v) (scan-show m)

load-show : (m : Dict ℕ) → IsDict m → load (b'x' ∷ show m) ≡ some (mapping m tt)
unfolding load
load-show m d = rw (scan-show m, IsDict-is_dict m d) refl

checked-IsDict :
    (o : Option (Dict ℕ)) (m : Dict ℕ) (c : Unit) → checked o ≡ some (mapping m c) → IsDict m
unfolding checked
checked-IsDict none m c h = cc
checked-IsDict (some m') m c h = is_dict-IsDict m (ground arith)

load-IsDict : (block : Text) (m : Dict ℕ) (c : Unit) → load block ≡ some (mapping m c) → IsDict m
unfolding load
load-IsDict [] m c h = cc
load-IsDict (d ∷ s) m c h = elim (Bool-cases (d == b'x')) [
  | inl e ↦ checked-IsDict (scan [] s) m c (rw e at h)
  | inr e ↦ cc (rw e at h)
]

-- A text with no line end, and one line feed behind it, is one line.
abbrev Plain : Text → Type 0
Plain = All (λ c. is_break c ≡ false)

splitlines-Plain : (s : Text) → Plain s → splitlines (s ++ 10 ∷ []) ≡ (s ++ 10 ∷ []) ∷ []
unfolding splitlines
splitlines-Plain [] h = refl
splitlines-Plain (c ∷ s) (e, h) = rw e (ap (push c) (splitlines-Plain s h))

raised-Plain : (c : ℕ) → is_break (c + base) ≡ false
unfolding is_break
raised-Plain c = ground arith

raise-Plain : (k : Text) → Plain (raise k)
unfolding raise
raise-Plain [] = tt
raise-Plain (c ∷ k) = (raised-Plain c, raise-Plain k)

record Line (s : Text) : Type 0 where
  start : Text
  whole : s ≡ start ++ 10 ∷ []
  plain : Plain start

show-Line : (m : Dict ℕ) → Line (show m)
unfolding show
show-Line [] = record { start = []; whole = refl; plain = tt }
show-Line ((k, v) ∷ m) =
    let l = show-Line m in
    record {
      start = raise k ++ (b'b' ∷ (v + base) ∷ l.start);
      whole =
          ap (λ u. raise k ++ (b'b' ∷ (v + base) ∷ u)) l.whole
          ∙ sym (append_assoc (raise k) (b'b' ∷ (v + base) ∷ l.start) (10 ∷ []));
      plain =
          All-append _ (raise k) (b'b' ∷ (v + base) ∷ l.start) (raise-Plain k)
            (unfold is_break in refl, (raised-Plain v, l.plain));
    }

shown-lines : (m : Dict ℕ) → All (λ l. is_delimiter l ≡ false) (splitlines (b'x' ∷ show m))
shown-lines m =
    let l = show-Line m in
    rw
      (
        ap (λ u. b'x' ∷ u) l.whole,
        splitlines-Plain (b'x' ∷ l.start) (unfold is_break in refl, l.plain),
      )
      (x_line (l.start ++ 10 ∷ []), tt)
  where
    x_line : (s : Text) → is_delimiter (b'x' ∷ s) ≡ false
    x_line s = unfold is_delimiter in ground arith

EndsLine-cons : (c : ℕ) (s : Text) → EndsLine (c ∷ (s ++ 10 ∷ []))
EndsLine-cons c [] = refl
EndsLine-cons c (d ∷ s) = EndsLine-cons d s

x_not_blank : (s : Text) → is_empty (strip is_space (b'x' ∷ s)) ≡ false
unfolding strip is_space
x_not_blank s = ground arith

guess-load :
    (l : Option (Loaded ℕ Unit)) (l' : Loaded ℕ Unit) (i o : Option ℕ)
    → guess l ≡ guessed l' i o
    → l ≡ some l'
guess-load none l' i o h = cc
guess-load (some l) l' i o h = ground arith

pub notation-Laws : Laws notation
notation-Laws = record {
  load-dump = λ st c m w. (tt, load-show m w.dict);
  load_dict = load-IsDict;
  guess_load = λ block l i o h. guess-load (load block) l i o h;
  timestamp_stable = λ m v h. tt;
  dump_no_delimiter = λ st c m w. shown-lines m;
  dump_not_blank = λ st c m w. x_not_blank (show m);
  dump_ends = λ st c m w. rw ((show-Line m).whole) (EndsLine-cons b'x' (show-Line m).start);
  dump_starts = λ st m w. unfold starts_with in refl;
}
