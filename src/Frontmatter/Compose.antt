-- ===== src/Frontmatter/Compose.antt =====
-- What `compose` and `patch` of coppermind/frontmatter.py write is read back.
use coppermind.Base.{
  ◌≡◌, ◌≢◌, refl, inr, true, false, Option, none, some, List, [], ◌∷◌, All, arith,
}
use coppermind.Base.Texts.{Text, is_empty, starts_with}
use coppermind.Base.Lines.{splitlines, EndsLine, EndsLine-Boundary}
use coppermind.Base.Dict.{Dict, IsDict}
use coppermind.Frontmatter.{ok, is_delimiter, after_feed, split}
use coppermind.Frontmatter.Fence.{feed, split-fenced}
use coppermind.Frontmatter.Yaml.{
  Yaml, Laws, Style, house_style, AllStable, IsWritable, yaml_mapping,
}
use coppermind.Frontmatter.Yaml.Stable.{house_style-IsExpressible, yaml_mapping-AllStable}
use coppermind.Frontmatter.Write.Styled.{load_styled-IsDict, load_styled-IsExpressible}
use coppermind.Frontmatter.Write.Changes.{
  apply_changes-IsDict, yaml_mapping-IsDict, apply_changes-AllStable,
}
use coppermind.Frontmatter.Write.{
  Front, plain, as_mapping, parse_block, parse, dump_front, ends_with_feed, compose_styled, compose,
  apply_changes, load_styled, patched, patch,
}

ends_with_feed-EndsLine : (s : Text) → EndsLine s → ends_with_feed s ≡ true
unfolding ends_with_feed
ends_with_feed-EndsLine [] h = absurd h
ends_with_feed-EndsLine (c ∷ []) h = ground arith
ends_with_feed-EndsLine (c ∷ d ∷ s) h = ends_with_feed-EndsLine (d ∷ s) h

EndsLine-nonempty : (s : Text) → EndsLine s → is_empty s ≡ false
EndsLine-nonempty [] h = absurd h
EndsLine-nonempty (c ∷ s) h = refl

module _ (y : Yaml) (laws : Laws y) where
  open y use {Value, Comments, load, dump}

  -- The entries that a dump of a mapping shows: a plain dict's pass through `_yaml_scalar`.
  abbrev pub written_entries : Option Comments → Dict Value → Dict Value
  written_entries none m = yaml_mapping y m
  written_entries (some c) m = m

  abbrev pub written : Front y → Dict Value
  written front = written_entries front.comments front.entries

  -- What holds of the block that `_dump` makes of a mapping with entries.
  pub record Block (block : Text) (m : Dict Value) : Type 0 where
    pub ends : EndsLine block
    pub clean : All (λ l. is_delimiter l ≡ false) (splitlines block)
    pub comments : Comments
    pub read : parse_block y block ≡ ok (record { entries = m; comments = some comments })

  dump-Block :
      (st : Style) (c : Option Comments) (m : Dict Value)
      → IsWritable y st m
      → Block (dump st c m) m
  dump-Block st c m w =
      let (c', loads) = laws.load-dump st c m w in
      record {
        ends = laws.dump_ends st c m w;
        clean = laws.dump_no_delimiter st c m w;
        comments = c';
        read = unfold parse_block as_mapping in rw (laws.dump_not_blank st c m w, loads) refl;
      }

  -- What a plain dict is written as can be written.
  pub yaml_mapping-IsWritable :
      (st : Style) (m : Dict Value) → IsWritable y st m → IsWritable y st (yaml_mapping y m)
  unfolding yaml_mapping
  yaml_mapping-IsWritable st [] w = absurd (w.filled refl)
  yaml_mapping-IsWritable st ((k, v) ∷ m) w = record {
    expressible = w.expressible;
    dict = yaml_mapping-IsDict y ((k, v) ∷ m) w.dict;
    stable = yaml_mapping-AllStable y laws ((k, v) ∷ m) w.stable;
    filled = λ e. cc;
  }

  pub dump_front-Block :
      (st : Style) (c : Option Comments) (m : Dict Value)
      → IsWritable y st m
      → Block (dump_front y st (record { entries = m; comments = c })) (written_entries c m)
  unfolding dump_front
  dump_front-Block st c [] w = absurd (w.filled refl)
  dump_front-Block st none ((k, v) ∷ m) w =
      dump-Block st none (yaml_mapping y ((k, v) ∷ m)) (yaml_mapping-IsWritable st ((k, v) ∷ m) w)
  dump_front-Block st (some c) ((k, v) ∷ m) w = dump-Block st (some c) ((k, v) ∷ m) w

  -- Without comments, the block does not begin with a line feed.
  pub dump_front-starts :
      (st : Style) (m : Dict Value)
      → IsWritable y st m
      → starts_with (10 ∷ []) (dump_front y st (plain y m)) ≡ false
  unfolding dump_front
  dump_front-starts st [] w = absurd (w.filled refl)
  dump_front-starts st ((k, v) ∷ m) w =
      laws.dump_starts st (yaml_mapping y ((k, v) ∷ m)) (yaml_mapping-IsWritable st ((k, v) ∷ m) w)

  -- What a writer makes of a mapping with entries and a body reads back as the two.
  pub Reads : Text → Dict Value → Text → Type 0
  Reads text m body =
      (c : Comments) × (parse y text ≡ ok (record { entries = m; comments = some c }, body))

  compose_styled-Reads :
      (st : Style) (c : Option Comments) (m : Dict Value) (body : Text)
      → IsWritable y st m
      → Reads
          (compose_styled y st (record { entries = m; comments = c }) body)
          (written_entries c m)
          body
  unfolding compose_styled Reads parse after_feed
  compose_styled-Reads st c m body w =
      let b = dump_front-Block st c m w in
      let block = dump_front y st (record { entries = m; comments = c }) in
      (
        b.comments,
        rw (
          EndsLine-nonempty block b.ends,
          ends_with_feed-EndsLine block b.ends,
          split-fenced block (10 ∷ body) (inr (EndsLine-Boundary block _ b.ends)) b.clean
              (feed body),
          b.read,
        ),
      )

  -- A note composed of a mapping with entries, whose values are stable, and any body reads back as
  -- that body and that mapping, each value as `_yaml_scalar` writes it.
  pub parse-compose :
      (m : Dict Value) (body : Text)
      → IsDict m
      → AllStable y m
      → m ≢ []
      → Reads (compose y m body) (yaml_mapping y m) body
  unfolding compose
  parse-compose m body d stable n =
      compose_styled-Reads house_style none m body
        (record { expressible = house_style-IsExpressible; dict = d; stable = stable; filled = n })

  -- What a patch leaves of a mapping can be written in the style that it found.
  patched-IsWritable :
      (block : Text) (changes : Dict Value) (unset : List Text) (front : Front y) (st : Style)
      → load_styled y block ≡ ok (front, st)
      → AllStable y front.entries
      → AllStable y changes
      → apply_changes y changes unset front.entries ≢ []
      → IsWritable y st (apply_changes y changes unset front.entries)
  patched-IsWritable block changes unset front st h old new n = record {
    expressible = load_styled-IsExpressible y laws block front st h;
    dict =
        apply_changes-IsDict y changes unset front.entries
          (load_styled-IsDict y laws block front st h);
    stable = apply_changes-AllStable y laws changes unset front.entries new old;
    filled = n;
  }

  pub patched-Reads :
      (block body : Text) (changes : Dict Value) (unset : List Text) (front : Front y) (st : Style)
      → load_styled y block ≡ ok (front, st)
      → AllStable y front.entries
      → AllStable y changes
      → apply_changes y changes unset front.entries ≢ []
      → (t : Text) × (patched y block body changes unset ≡ ok t)
        × Reads t
            (written_entries front.comments (apply_changes y changes unset front.entries))
            body
  unfolding patched
  patched-Reads block body changes unset front st h old new n = (
    compose_styled y st (record front { entries = apply_changes y changes unset front.entries })
        body,
    rw h refl,
    compose_styled-Reads st front.comments (apply_changes y changes unset front.entries) body
        (patched-IsWritable block changes unset front st h old new n),
  )

  -- A patch of a note that can be read, whose values and changes are stable, succeeds, and unless no
  -- entry is left, what it writes reads back as the untouched body and the old mapping under the
  -- changes, in whatever indentation the note has.
  pub patch-Reads :
      (text block body : Text) (changes : Dict Value) (unset : List Text) (front : Front y)
      (st : Style)
      → split text ≡ ok (block, body)
      → load_styled y block ≡ ok (front, st)
      → AllStable y front.entries
      → AllStable y changes
      → apply_changes y changes unset front.entries ≢ []
      → (t : Text) × (patch y text changes unset ≡ ok t)
        × Reads t
            (written_entries front.comments (apply_changes y changes unset front.entries))
            body
  unfolding patch
  patch-Reads text block body changes unset front st s h old new n =
      let (t, e, r) = patched-Reads block body changes unset front st h old new n in
      (t, rw (s, e) refl, r)
