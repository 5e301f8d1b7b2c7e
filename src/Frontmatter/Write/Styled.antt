-- ===== src/Frontmatter/Write/Styled.antt =====
-- What `_patched` and `_appended` of coppermind/frontmatter.py load of a block: its mapping, which is the
-- one that a reader gets, and the style to write it back in, which a dump can express.
use coppermind.Base.{
  ℕ, ◌≡◌, refl, sym, ap, true, ◌∙◌, inl, inr, false, Option, some, [], Bool-cases, Option-cases,
  arith,
}
use coppermind.Base.Texts.{Text, is_empty, strip, is_space}
use coppermind.Base.Dict.{Dict, IsDict}
use coppermind.Frontmatter.{ok, >>=-eq-ok}
use coppermind.Frontmatter.Yaml.{
  Yaml, Laws, Style, Loaded, null, other, mapping, Guess, guessed, index_error, yaml_error,
  house_style, indent_like, IsExpressible,
}
use coppermind.Frontmatter.Yaml.Stable.{house_style-IsExpressible, indent_like-IsExpressible}
use coppermind.Frontmatter.Write.{
  Front, plain, parse_block, as_mapping, load_guessing_indent, load_styled,
}

module _ (y : Yaml) where
  open y use {Value, Comments, load, guess_indent}

  as_mapping-IsDict :
      (l : Loaded Value Comments) (front : Front y)
      → ((m : Dict Value) (c : Comments) → l ≡ mapping m c → IsDict m)
      → as_mapping y l ≡ ok front
      → IsDict front.entries
  unfolding as_mapping
  as_mapping-IsDict null front d h = let e : front.entries ≡ [] = ground arith in rw e tt
  as_mapping-IsDict other front d h = cc
  as_mapping-IsDict (mapping m c) front d h =
      let e : front.entries ≡ m = ground arith in rw e (d m c refl)

  load_guessing_indent-load :
      (laws : Laws y) (block : Text) (l : Loaded Value Comments) (i o : Option ℕ)
      → load_guessing_indent y block ≡ ok (l, i, o)
      → load block ≡ some l
  unfolding load_guessing_indent
  load_guessing_indent-load laws block l i o h = go (guess_indent block) refl
    where
      go : (g : Guess Value Comments) → guess_indent block ≡ g → load block ≡ some l
      go (guessed l' i' o') g = laws.guess_load block l i o (ground arith)
      go yaml_error g = ground arith
      go index_error g = elim (Option-cases (load block)) [
        | inl n ↦ ground arith
        | inr (l', n) ↦ ground arith
      ]

  -- How a mapping and its style are found: in a blank block there are no entries, and any other
  -- block is loaded, and its style is the guess that the house style takes over.
  data StyledBlock (block : Text) (front : Front y) (st : Style) : Type 0 where
    blank :
        is_empty (strip is_space block) ≡ true
        → front ≡ plain y []
        → st ≡ house_style
        → StyledBlock block front st
    loaded :
        (l : Loaded Value Comments) (i o : Option ℕ)
        → is_empty (strip is_space block) ≡ false
        → load block ≡ some l
        → as_mapping y l ≡ ok front
        → st ≡ indent_like house_style i o
        → StyledBlock block front st

  load_styled-StyledBlock :
      (laws : Laws y) (block : Text) (front : Front y) (st : Style)
      → load_styled y block ≡ ok (front, st)
      → StyledBlock block front st
  unfolding load_styled
  load_styled-StyledBlock laws block front st h =
      elim (Bool-cases (is_empty (strip is_space block))) [
        | inl e ↦ blank e (ground arith) (ground arith)
        | inr e ↦
            let ((l, i, o), guess, rest) = >>=-eq-ok _ _ (rw (e, load_styled) at h) in
            let (front', mapped, same) = >>=-eq-ok (as_mapping y l) _ rest in
            let found : front ≡ front' = ground arith in
            loaded l i o e (load_guessing_indent-load laws block l i o guess)
              (mapped ∙ ap ok (sym found)) (ground arith)
      ]

  pub load_styled-IsDict :
      (laws : Laws y) (block : Text) (front : Front y) (st : Style)
      → load_styled y block ≡ ok (front, st)
      → IsDict front.entries
  load_styled-IsDict laws block front st h = elim (load_styled-StyledBlock laws block front st h) [
    | blank e same style ↦ rw same tt
    | loaded l i o e found mapped style ↦
        as_mapping-IsDict l front (λ m c is. laws.load_dict block m c (found ∙ ap some is)) mapped
  ]

  -- The style to write back in is one that a dump can express.
  pub load_styled-IsExpressible :
      (laws : Laws y) (block : Text) (front : Front y) (st : Style)
      → load_styled y block ≡ ok (front, st)
      → IsExpressible st
  load_styled-IsExpressible laws block front st h =
      elim (load_styled-StyledBlock laws block front st h) [
        | blank e same style ↦ rw style house_style-IsExpressible
        | loaded l i o e found mapped style ↦
            rw style (indent_like-IsExpressible house_style i o house_style-IsExpressible)
      ]

  -- A patch works on the mapping that a reader of the block gets.
  pub load_styled-parse_block :
      (laws : Laws y) (block : Text) (front : Front y) (st : Style)
      → load_styled y block ≡ ok (front, st)
      → parse_block y block ≡ ok front
  unfolding parse_block
  load_styled-parse_block laws block front st h =
      elim (load_styled-StyledBlock laws block front st h) [
        | blank e same style ↦ rw e (ap ok (sym same))
        | loaded l i o e found mapped style ↦ rw (e, found) mapped
      ]
