-- ===== src/Frontmatter/Examples.antt =====
-- The theorems about notes, at concrete notes, and runs of the functions on them.
mod Notation
use coppermind.Base.{true, take, drop, ℕ, ◌≡◌, ◌≢◌, refl, Option, none, some, List, [], ◌∷◌, ◌++◌}
use coppermind.Base.Texts.{Text, codes, eqb, is_space}
use coppermind.Base.Dict.{Dict, IsDict, has_key, lookup, insert, remove}
use coppermind.Frontmatter.{
  delimiter, Outcome, ok, raises, Parts, split_parts, split, Readable, readable_block,
  readable_parts, unterminated_block, unsupported_line_endings,
}
use coppermind.Frontmatter.Yaml.{AllStable, house_style, indent_like, yaml_scalar, yaml_mapping}
use coppermind.Frontmatter.Write.{
  Front, as_mapping, load_styled, apply_changes, patch, parse, compose, fill_missing,
}
use coppermind.Frontmatter.Split.{Cut, split_parts-Cut}
use coppermind.Frontmatter.Splice.{Located, readable_block-Located}
use coppermind.Frontmatter.Compose.{Reads, parse-compose, patch-Reads}
use coppermind.Frontmatter.Write.Changes.{lookup-apply_changes}
use coppermind.Frontmatter.Append.{Spliced}
use coppermind.Frontmatter.Write.Fill.{AreNew, fill_missing-Fills}
use Notation.{notation, notation-Laws, show, load}

abbrev key : Text
key = codes "k"

abbrev body : Text
body = codes "Text"

abbrev entries : Dict ℕ
entries = (key, 5) ∷ []

abbrev changes : Dict ℕ
changes = (codes "n", 7) ∷ []

abbrev block : Text
block = b'x' ∷ 0x306b ∷ b'b' ∷ 0x3005 ∷ 10 ∷ []

abbrev note : Text
note = delimiter ++ (10 ∷ (block ++ (delimiter ++ (10 ∷ body))))

abbrev parts : Parts
parts = record { block = block; body = body; opening_length = some 4 }

abbrev found : Readable
found = record { block = block; body = body; offsets = some (4, 5) }

abbrev front : Front notation
front = record { entries = entries; comments = some tt }

entries-IsDict : IsDict entries
unfolding has_key
entries-IsDict = (refl, tt)

changes-IsDict : IsDict changes
unfolding has_key
changes-IsDict = (refl, tt)

note-parts : split_parts note ≡ ok parts
unfolding split_parts
note-parts = refl

note-split : split note ≡ ok (block, body)
unfolding split
note-split = refl

note-found : readable_block note ≡ ok found
unfolding readable_block
note-found = refl

block_loads : load_styled notation block ≡ ok (front, house_style)
unfolding load_styled load indent_like house_style as_mapping is_space has_key
block_loads = refl

-- A delimiter line that ends in a bare carriage return is refused, an open block is an error, and
-- a text without a block is all body.
bare_return :
    readable_block (delimiter ++ (13 ∷ (block ++ (delimiter ++ (10 ∷ body)))))
    ≡ raises unsupported_line_endings
unfolding readable_block
bare_return = refl

never_closed : split (delimiter ++ (10 ∷ block)) ≡ raises unterminated_block
unfolding split
never_closed = refl

all_body : split body ≡ ok ([], body)
unfolding split
all_body = refl

split_parts-Cut_example : Cut note parts 4
split_parts-Cut_example = split_parts-Cut note parts 4 note-parts refl

readable_block-Located_example : Located note found 4 5
readable_block-Located_example = readable_block-Located note found 4 5 note-found refl

parse-compose_example :
    Reads notation notation-Laws
      (compose notation entries body)
      (yaml_mapping notation entries)
      body
parse-compose_example =
    parse-compose notation notation-Laws entries body entries-IsDict (tt, tt) (λ e. cc)

abbrev changed : Dict ℕ
changed = (codes "n", 7) ∷ []

changed_entries : apply_changes notation changes (key ∷ []) entries ≡ changed
unfolding apply_changes remove insert yaml_scalar
changed_entries = refl

changed-ne-nil : apply_changes notation changes (key ∷ []) entries ≢ []
changed-ne-nil = rw changed_entries (λ e. cc)

patch-Reads_example :
    (t : Text) × (patch notation note changes (key ∷ []) ≡ ok t)
    × Reads notation notation-Laws t (apply_changes notation changes (key ∷ []) entries) body
patch-Reads_example =
    patch-Reads notation notation-Laws note block body changes (key ∷ []) front house_style
      note-split block_loads (tt, tt) (tt, tt) changed-ne-nil

lookup-apply_changes_example :
    lookup (codes "n") (apply_changes notation changes (key ∷ []) entries)
    ≡ some (yaml_scalar notation (codes "n") 7)
unfolding lookup
lookup-apply_changes_example =
    lookup-apply_changes notation changes (key ∷ []) entries (codes "n") changes-IsDict

changes_new : AreNew notation notation-Laws entries changes
unfolding has_key
changes_new = (refl, tt)

fill_missing-Fills_example :
    (changes ≢ []
      → AreNew notation notation-Laws entries changes
      → drop 3 (take 4 note) ≡ 10 ∷ []
      → (new : Text) × (fill_missing notation note changes ≡ ok new)
        × Spliced notation note found 4 5 (yaml_mapping notation changes) new)
    × ((k : Text)
        → AllStable notation entries
        → has_key k changes ≡ true
        → has_key k entries ≡ true
        → (new : Text) × (fill_missing notation note changes ≡ ok new)
          × Reads notation notation-Laws new (apply_changes notation changes [] entries) body)
fill_missing-Fills_example =
    fill_missing-Fills notation notation-Laws note found 4 5 changes front house_style note-found
      refl block_loads changes-IsDict (tt, tt)

-- The keys of the example are new to its note, so its text is spliced in.
note_filled :
    (new : Text) × (fill_missing notation note changes ≡ ok new)
    × Spliced notation note found 4 5 (yaml_mapping notation changes) new
note_filled =
    (fill_missing-Fills notation notation-Laws note found 4 5 changes front house_style note-found
        refl block_loads changes-IsDict (tt, tt)).0
      (λ e. cc) changes_new refl
