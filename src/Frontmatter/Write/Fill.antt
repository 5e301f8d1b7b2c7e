-- ===== src/Frontmatter/Write/Fill.antt =====
-- What `fill_missing` of coppermind/frontmatter.py makes of a note with a block: it splices where every
-- key is new, and patches where one is there.
use coppermind.Base.{
  ℕ, ◌≡◌, ◌≢◌, refl, subst, ◌∙◌, inl, inr, true, false, some, [], ◌∷◌, take, drop, Bool-cases,
  arith,
}
use coppermind.Base.Texts.{Text, eqb, eqb_iff}
use coppermind.Base.Dict.{Dict, IsDict, has_key}
use coppermind.Frontmatter.{ok, Readable, readable_block}
use coppermind.Frontmatter.Yaml.{Yaml, Laws, Style, AllStable, yaml_mapping}
use coppermind.Frontmatter.Write.{
  Front, parse_block, load_styled, apply_changes, missing_from, has_any, any_present, patched,
  appended, fill_found, fill_missing,
}
use coppermind.Frontmatter.Write.Styled.{load_styled-parse_block}
use coppermind.Frontmatter.Write.Changes.{apply_changes-ne-nil}
use coppermind.Frontmatter.Compose.{written_entries, Reads, patched-Reads}
use coppermind.Frontmatter.Append.{Spliced, appended-Spliced}

module _ (y : Yaml) (laws : Laws y) where
  open y use {Value}

  -- Every key of some changes is new to a mapping.
  abbrev pub AreNew : Dict Value → Dict Value → Type 0
  AreNew m [] = Unit
  AreNew m ((k, v) ∷ changes) = (has_key k m ≡ false) × AreNew m changes

  has_any-AreNew : (m changes : Dict Value) → AreNew m changes → has_any y m changes ≡ false
  unfolding has_any
  has_any-AreNew m [] h = refl
  has_any-AreNew m ((k, v) ∷ changes) (e, h) = rw (e, has_any-AreNew m changes h) refl

  missing_from-AreNew :
      (m changes : Dict Value) → AreNew m changes → missing_from y m changes ≡ changes
  unfolding missing_from
  missing_from-AreNew m [] h = refl
  missing_from-AreNew m ((k, v) ∷ changes) (e, h) = rw (e, missing_from-AreNew m changes h) refl

  has_any-has_key :
      (k : Text) (m changes : Dict Value)
      → has_key k changes ≡ true
      → has_key k m ≡ true
      → has_any y m changes ≡ true
  unfolding has_any has_key
  has_any-has_key k m [] h e = cc
  has_any-has_key k m ((j, v) ∷ changes) h e = elim (Bool-cases (eqb j k)) [
    | inl f ↦ rw ((eqb_iff j k).0 f, e) refl
    | inr f ↦ ground (arith, has_any-has_key k m changes)
  ]

  any_present-has_any :
      (block : Text) (changes : Dict Value) (front : Front y)
      → parse_block y block ≡ ok front
      → any_present y block changes ≡ ok (has_any y front.entries changes)
  unfolding any_present has_any
  any_present-has_any block [] front h = refl
  any_present-has_any block (e ∷ changes) front h = rw h refl

  module _ (text : Text) (found : Readable) (a b : ℕ) (changes : Dict Value) (front : Front y)
      (st : Style) (h : readable_block text ≡ ok found) (at : found.offsets ≡ some (a, b))
      (l : load_styled y found.block ≡ ok (front, st)) where
    present : any_present y found.block changes ≡ ok (has_any y front.entries changes)
    present =
        any_present-has_any found.block changes front
          (load_styled-parse_block y laws found.block front st l)

    fill_missing-appended :
        has_any y front.entries changes ≡ false
        → fill_missing y text changes ≡ appended y text changes found
    unfolding fill_missing fill_found
    fill_missing-appended e = rw (h, at, present, e) refl

    fill_missing-patched :
        has_any y front.entries changes ≡ true
        → fill_missing y text changes ≡ patched y found.block found.body changes []
    unfolding fill_missing fill_found
    fill_missing-patched e = rw (h, at, present, e) refl

    filled :
        IsDict changes
        → AllStable y changes
        → changes ≢ []
        → AreNew front.entries changes
        → drop 3 (take a text) ≡ 10 ∷ []
        → (new : Text) × (fill_missing y text changes ≡ ok new)
          × Spliced y text found a b (yaml_mapping y changes) new
    filled d c n new feed =
        let all = missing_from-AreNew front.entries changes new in
        let (t, same, spliced) =
          appended-Spliced y laws text found a b changes front st h at feed l d c (rw all n) in
        (
          t,
          fill_missing-appended (has_any-AreNew front.entries changes new) ∙ same,
          subst (λ m. Spliced y text found a b (yaml_mapping y m) t) all spliced,
        )

    overwritten :
        (k : Text)
        → IsDict changes
        → AllStable y front.entries
        → AllStable y changes
        → has_key k changes ≡ true
        → has_key k front.entries ≡ true
        → (new : Text) × (fill_missing y text changes ≡ ok new)
          × Reads y laws new
              (written_entries y laws front.comments (apply_changes y changes [] front.entries))
              found.body
    overwritten k d old c there present_too =
        let (t, same, reads) =
          patched-Reads y laws found.block found.body changes [] front st l old c
            (apply_changes-ne-nil y k changes front.entries d there) in
        (
          t,
          fill_missing-patched (has_any-has_key k front.entries changes there present_too) ∙ same,
          reads,
        )

  -- What `fill_missing` does to a readable note with a block whose mapping can be loaded, with
  -- stable changes. If some key is to be added and all are new to the note, whose opening line ends
  -- in a line feed, it puts one text in before the closing delimiter and changes no other
  -- character; that text alone loads as the changes, and the result is divided into the old block
  -- followed by that text, and the old body. If some key is in the note already, and the note's
  -- values are stable, it writes a note that reads back as the old body and the old mapping under
  -- the changes.
  pub fill_missing-Fills :
      (text : Text) (found : Readable) (a b : ℕ) (changes : Dict Value) (front : Front y)
      (st : Style)
      → readable_block text ≡ ok found
      → found.offsets ≡ some (a, b)
      → load_styled y found.block ≡ ok (front, st)
      → IsDict changes
      → AllStable y changes
      → (changes ≢ []
          → AreNew front.entries changes
          → drop 3 (take a text) ≡ 10 ∷ []
          → (new : Text) × (fill_missing y text changes ≡ ok new)
            × Spliced y text found a b (yaml_mapping y changes) new)
        × ((k : Text)
            → AllStable y front.entries
            → has_key k changes ≡ true
            → has_key k front.entries ≡ true
            → (new : Text) × (fill_missing y text changes ≡ ok new)
              × Reads y laws new
                  (written_entries y laws front.comments (apply_changes y changes [] front.entries))
                  found.body)
  fill_missing-Fills text found a b changes front st h at l d c = (
    λ n new feed. filled text found a b changes front st h at l d c n new feed,
    λ k old there also. overwritten text found a b changes front st h at l k d old c there also,
  )
