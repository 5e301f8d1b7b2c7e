-- ===== src/Frontmatter/Append.antt =====
-- What `_appended` of coppermind/frontmatter.py leaves of a note that it adds keys to: it splices the new keys in before the closing delimiter.
use coppermind.Base.{
  not, ◌&&◌, ℕ, ◌+◌, ◌≡◌, ◌≢◌, refl, sym, ap, ◌∙◌, ◌⊎◌, inl, inr, true, false, none, some, [], ◌∷◌,
  ◌++◌, length, take, drop, All, All-append, Bool-cases, append_assoc, arith,
}
use coppermind.Base.Texts.{Text, starts_with}
use coppermind.Base.Lines.{
  is_break, joins, splitlines, EndsLine, EndsLine-Boundary, Boundary, splitlines-append,
}
use coppermind.Base.Dict.{Dict, IsDict, has_key}
use coppermind.Frontmatter.{delimiter, ok, is_delimiter, split, Readable, readable_block}
use coppermind.Frontmatter.Fence.{split-fenced}
use coppermind.Frontmatter.Splice.{Located, readable_block-Located, drop-append_at, take-append_at}
use coppermind.Frontmatter.Yaml.{Yaml, Laws, Style, AllStable, IsWritable, yaml_mapping}
use coppermind.Frontmatter.Write.{
  Front, plain, parse_block, dump_front, load_styled, missing_from, splice, appended, replace_feeds,
}
use coppermind.Frontmatter.Write.Styled.{load_styled-IsExpressible}
use coppermind.Frontmatter.Compose.{dump_front-Block, dump_front-starts}

replace_feeds-feed : (s : Text) → replace_feeds (10 ∷ []) s ≡ s
unfolding replace_feeds
replace_feeds-feed [] = refl
replace_feeds-feed (c ∷ s) = ground (arith, replace_feeds-feed s)

break_before :
    (c : ℕ) (u : Text)
    → is_break c ≡ true
    → starts_with (10 ∷ []) u ≡ false
    → (is_break c && not (joins c u)) ≡ true
unfolding starts_with
break_before c [] h n = rw h refl
break_before c (d ∷ u) h n = ground arith

-- The head of the following text alone decides whether a line ends.
Boundary-swap : (s t u : Text) → Boundary s t → starts_with (10 ∷ []) u ≡ false → Boundary s u
unfolding starts_with
Boundary-swap [] t u h n = h
Boundary-swap (c ∷ []) t u h n = break_before c u (ground arith) n
Boundary-swap (c ∷ d ∷ s) t u h n = Boundary-swap (d ∷ s) t u h n

EndsLine-append : (s t : Text) → EndsLine t → EndsLine (s ++ t)
EndsLine-append [] t h = h
EndsLine-append (c ∷ []) [] h = absurd h
EndsLine-append (c ∷ []) (d ∷ t) h = h
EndsLine-append (c ∷ d ∷ s) t h = EndsLine-append (d ∷ s) t h

starts_feed-append :
    (s t : Text)
    → EndsLine s
    → starts_with (10 ∷ []) s ≡ false
    → starts_with (10 ∷ []) (s ++ t) ≡ false
unfolding starts_with
starts_feed-append [] t e h = absurd e
starts_feed-append (c ∷ s) t e h = h

clean-append :
    (block fragment old : Text)
    → (block ≡ []) ⊎ Boundary block old
    → starts_with (10 ∷ []) fragment ≡ false
    → All (λ l. is_delimiter l ≡ false) (splitlines block)
    → All (λ l. is_delimiter l ≡ false) (splitlines fragment)
    → All (λ l. is_delimiter l ≡ false) (splitlines (block ++ fragment))
clean-append block fragment old (inl e) n c d = rw e d
clean-append block fragment old (inr b) n c d =
    rw (splitlines-append block fragment (Boundary-swap block old fragment b n))
      (All-append _ (splitlines block) (splitlines fragment) c d)

-- A note with a text spliced in before its closing delimiter: the block is longer by that text, and
-- the body is as it was.
split-spliced :
    (text fragment : Text) (found : Readable) (a b : ℕ)
    → Located text found a b
    → drop 3 (take a text) ≡ 10 ∷ []
    → EndsLine fragment
    → starts_with (10 ∷ []) fragment ≡ false
    → All (λ l. is_delimiter l ≡ false) (splitlines fragment)
    → split (take (a + b) text ++ (fragment ++ drop (a + b) text))
      ≡ ok (found.block ++ fragment, found.body)
split-spliced text fragment found a b at feed ends starts clean =
    let old = delimiter ++ at.tail in
    let longer = found.block ++ fragment in
    let opening : take a text ≡ delimiter ++ at.ending =
      take-append_at (delimiter ++ at.ending) (found.block ++ old) text a at.whole at.opens in
    let ending : at.ending ≡ 10 ∷ [] = sym (ap (drop 3) opening) ∙ feed in
    let whole : text ≡ (delimiter ++ (10 ∷ found.block)) ++ old =
      at.whole ∙ ap (λ u. (delimiter ++ u) ++ (found.block ++ old)) ending in
    let measured : length (delimiter ++ (10 ∷ found.block)) ≡ a + b =
      omega (arith, at.opens, at.closes, ap length ending) in
    let front : take (a + b) text ≡ delimiter ++ (10 ∷ found.block) =
      take-append_at (delimiter ++ (10 ∷ found.block)) old text (a + b) whole measured in
    let back : drop (a + b) text ≡ old =
      drop-append_at (delimiter ++ (10 ∷ found.block)) old text (a + b) whole measured in
    rw (front, back)
      (ap (λ u. split (delimiter ++ (10 ∷ u))) (sym (append_assoc found.block fragment old))
        ∙ split-fenced longer at.tail
            (inr (EndsLine-Boundary longer old (EndsLine-append found.block fragment ends)))
            (clean-append found.block fragment old at.ends starts at.clean clean) at.behind
        ∙ ap (λ u. ok (longer, u)) at.body)

module _ (y : Yaml) where
  open y use {Value}

  missing_from-has_key :
      (k : Text) (m changes : Dict Value)
      → has_key k changes ≡ false
      → has_key k (missing_from y m changes) ≡ false
  unfolding missing_from has_key
  missing_from-has_key k m [] h = refl
  missing_from-has_key k m ((j, v) ∷ cs) h = elim (Bool-cases (has_key j m)) [
    | inl e ↦ rw e (missing_from-has_key k m cs (ground arith))
    | inr e ↦ rw e (ground (arith, missing_from-has_key k m cs))
  ]

  missing_from-IsDict :
      (m changes : Dict Value) → IsDict changes → IsDict (missing_from y m changes)
  unfolding missing_from
  missing_from-IsDict m [] d = tt
  missing_from-IsDict m ((j, v) ∷ cs) (fresh, d) = elim (Bool-cases (has_key j m)) [
    | inl e ↦ rw e (missing_from-IsDict m cs d)
    | inr e ↦ rw e (missing_from-has_key j m cs fresh, missing_from-IsDict m cs d)
  ]

  missing_from-AllStable :
      (m changes : Dict Value) → AllStable y changes → AllStable y (missing_from y m changes)
  unfolding missing_from
  missing_from-AllStable m [] c = tt
  missing_from-AllStable m ((j, v) ∷ cs) (p, c) = elim (Bool-cases (has_key j m)) [
    | inl e ↦ rw e (missing_from-AllStable m cs c)
    | inr e ↦ rw e (p, missing_from-AllStable m cs c)
  ]

  -- The outcome of a splice: the new text, its added block, and how the two read.
  pub record Spliced (text : Text) (found : Readable) (a b : ℕ) (added : Dict Value) (new : Text)
      : Type 0 where
    pub fragment : Text
    pub new_text : new ≡ take (a + b) text ++ (fragment ++ drop (a + b) text)
    pub divided : split new ≡ ok (found.block ++ fragment, found.body)
    pub comments : Yaml.Comments y
    pub reads : parse_block y fragment ≡ ok (record { entries = added; comments = some comments })

  splice-Spliced :
      (laws : Laws y) (text : Text) (found : Readable) (a b : ℕ) (st : Style) (added : Dict Value)
      → Located text found a b
      → drop 3 (take a text) ≡ 10 ∷ []
      → IsWritable y st added
      → Spliced text found a b (yaml_mapping y added) (splice y text st a b added)
  unfolding splice
  splice-Spliced laws text found a b st [] at feed w = absurd (w.filled refl)
  splice-Spliced laws text found a b st (e ∷ es) at feed w =
      let block = dump_front-Block y laws st none (e ∷ es) w in
      let fragment = dump_front y st (plain y (e ∷ es)) in
      let same : replace_feeds (drop 3 (take a text)) fragment ≡ fragment =
        ap (λ u. replace_feeds u fragment) feed ∙ replace_feeds-feed fragment in
      record {
        fragment = fragment;
        new_text = ap (λ u. take (a + b) text ++ (u ++ drop (a + b) text)) same;
        divided =
            ap (λ u. split (take (a + b) text ++ (u ++ drop (a + b) text))) same
            ∙ split-spliced text fragment found a b at feed block.ends
                (dump_front-starts y laws st (e ∷ es) w) block.clean;
        comments = block.comments;
        reads = block.read;
      }

  -- Where a note can be read and its opening line ends in a line feed, the changes are stable and some
  -- key of them is missing from its block, `_appended` succeeds: it puts one text in before the closing delimiter and changes no
  -- other character; that text alone loads as the missing keys; and the result is divided into the
  -- old block followed by that text, and the old body.
  pub appended-Spliced :
      (laws : Laws y) (text : Text) (found : Readable) (a b : ℕ) (changes : Dict Value)
      (front : Front y) (st : Style)
      → readable_block text ≡ ok found
      → found.offsets ≡ some (a, b)
      → drop 3 (take a text) ≡ 10 ∷ []
      → load_styled y found.block ≡ ok (front, st)
      → IsDict changes
      → AllStable y changes
      → missing_from y front.entries changes ≢ []
      → (new : Text) × (appended y text changes found ≡ ok new)
        × Spliced text found a b (yaml_mapping y (missing_from y front.entries changes)) new
  unfolding appended
  appended-Spliced laws text found a b changes front st h o feed l d c n = (
    splice y text st a b (missing_from y front.entries changes),
    rw (o, appended, l) refl,
    splice-Spliced laws text found a b st (missing_from y front.entries changes)
        (readable_block-Located text found a b h o) feed
        (record {
          expressible = load_styled-IsExpressible y laws found.block front st l;
          dict = missing_from-IsDict front.entries changes d;
          stable = missing_from-AllStable front.entries changes c;
          filled = n;
        }),
  )
