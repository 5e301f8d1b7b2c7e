-- ===== src/Schema/Tags.antt =====
-- coppermind/schema.py: tags, their aliases and closed tags (`normalize_tags`, `tag_problems`), and the
-- names that an account value carries (`account_list`).
pub mod Normal
pub mod Accounts
pub mod Hashes
pub mod Closed
use coppermind.Base.{
  ◌≡◌, Bool, true, false, not, ◌&&◌, ◌||◌, Option, none, some, List, [], ◌∷◌, ◌++◌, map, any, all,
  if◌then◌else◌,
}
use coppermind.Base.Texts.{Text, codes, eqb, is_empty, is_space, strip}
use coppermind.Base.Dict.{Dict, lookup}
use coppermind.Base.Distinct.{member, add_new, add_all}
use coppermind.Base.Attempt.{Attempt, raises, ok, ◌>>=◌}
use coppermind.Schema.{
  Item, word, thing, nested, Value, null, items, text, Frontmatter, get, same_item,
  FrontmatterSchema, is_closed, SchemaError, unhashable, role, has_text, keys_of,
}

abbrev or_itself : Option Text → Text → Text
or_itself none tag = tag
or_itself (some canonical) tag = canonical

unfoldable pub canonical_tag : FrontmatterSchema → Item → Item
canonical_tag s (word tag) = word (or_itself (lookup tag s.tag_aliases) tag)
canonical_tag s (thing n) = thing n
canonical_tag s (nested n) = nested n

unfoldable pub normalize_tags : FrontmatterSchema → List Item → List Item
unfolding canonical_tag add_all
normalize_tags s tags = add_all same_item [] (map (canonical_tag s) tags)

-- isinstance(value, list), with the entries
abbrev pub entries_of : Value → List Item
entries_of (items l) = l
entries_of v = []

abbrev pub is_hashable : Item → Bool
is_hashable (nested n) = false
is_hashable i = true

-- tag in self.tags, of a tag that has a hash
abbrev pub in_tags : FrontmatterSchema → Item → Bool
in_tags s (word tag) = has_text tag (keys_of s.tags)
in_tags s i = false

-- tag in self.tags, which hashes the tag
unfoldable pub is_listed : FrontmatterSchema → Item → Attempt SchemaError Bool
is_listed s tag = if is_hashable tag then ok (in_tags s tag) else raises unhashable

-- The set of the canonical tags that the note carries, which hashes each.
unfoldable pub carried_tags : FrontmatterSchema → Value → Attempt SchemaError (List Item)
unfolding canonical_tag
carried_tags s (items l) =
    if all is_hashable l then ok (map (canonical_tag s) l) else raises unhashable
carried_tags s v = ok []

-- The tags that a closed mode refuses, `already` being the canonical tags that the note carries.
unfoldable pub refused : FrontmatterSchema → List Item → List Item → Attempt SchemaError (List Item)
unfolding is_listed
refused s already [] = ok []
refused s already (tag ∷ tags) = do
  listed ← is_listed s tag
  rest ← refused s already tags
  ok (if not listed && not (member same_item tag already) then tag ∷ rest else rest)

unfoldable pub tag_problems_of : FrontmatterSchema → Value → Value → Attempt SchemaError (List Item)
unfolding normalize_tags refused carried_tags
tag_problems_of s (items tags) carried = do
  already ← carried_tags s carried
  refused s already (normalize_tags s tags)
tag_problems_of s v carried = ok []

-- `tag_problems`, as the tags that it complains of; a note that is new has no current mapping.
unfoldable pub tag_problems_by :
    FrontmatterSchema → Text → Frontmatter → Frontmatter → Attempt SchemaError (List Item)
unfolding tag_problems_of get
tag_problems_by s key fm current = tag_problems_of s (get key fm) (get key current)

unfoldable pub tag_problems :
    FrontmatterSchema → Frontmatter → Frontmatter → Attempt SchemaError (List Item)
unfolding tag_problems_by role
tag_problems s fm current =
    let told = role s (codes "tags_key") >>= λ key. tag_problems_by s key fm current in
    if is_closed s.tag_mode then told else ok []

-- `aliases_of`
unfoldable pub aliases_from : Text → Dict Text → List Text
aliases_from tag [] = []
aliases_from tag ((alias, canonical) ∷ aliases) =
    let rest = aliases_from tag aliases in if eqb canonical tag then alias ∷ rest else rest

-- The items of an account value, and the text of an entry, stripped; a blank entry has none.
abbrev account_items : Value → List Item
account_items (text s) = word s ∷ []
account_items (items l) = l
account_items v = []

names_in : List Item → List Text
unfolding strip
names_in [] = []
names_in (thing n ∷ l) = names_in l
names_in (nested n ∷ l) = names_in l
names_in (word s ∷ l) =
    let rest = names_in l in
    let name = strip is_space s in if is_empty name then rest else name ∷ rest

unfoldable pub account_list : Value → List Text
unfolding names_in add_all
account_list v = add_all eqb [] (names_in (account_items v))
