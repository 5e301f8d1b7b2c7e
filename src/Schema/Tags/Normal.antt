-- ===== src/Schema/Tags/Normal.antt =====
-- What coppermind/schema.py makes of a list of tags (`normalize_tags`).
use coppermind.Base.{
  ◌≡◌, refl, inl, inr, false, none, some, List, [], ◌∷◌, map, All, Bool-cases, Option-cases, arith,
}
use coppermind.Base.Texts.{Text, eqb, eqb_iff}
use coppermind.Base.Dict.{Dict, lookup}
use coppermind.Base.Distinct.{add_all, Distinct, All-add_all, Distinct-add_all, add_all_fixed}
use coppermind.Base.Attempt.{ok, through, >>=-Succeeds}
use coppermind.Schema.{
  Item, word, thing, nested, same_item, FrontmatterSchema, has_text, keys_of, check_alias,
  check_aliases, validate_tags,
}
use coppermind.Schema.Tags.{canonical_tag, normalize_tags}

pub eqb_comm : (s t : Text) → eqb s t ≡ eqb t s
eqb_comm s t = ground (arith, eqb_iff s t, eqb_iff t s)

pub same_item_comm : (a b : Item) → same_item a b ≡ same_item b a
same_item_comm (word s) (word t) = eqb_comm s t
same_item_comm (word s) (thing n) = refl
same_item_comm (thing m) (word t) = refl
same_item_comm (word s) (nested n) = refl
same_item_comm (thing m) (thing n) = ground arith
same_item_comm (thing m) (nested n) = refl
same_item_comm (nested m) (word t) = refl
same_item_comm (nested m) (thing n) = refl
same_item_comm (nested m) (nested n) = ground arith

lookup-has_text : (k : Text) (d : Dict Text) → has_text k (keys_of d) ≡ false → lookup k d ≡ none
unfolding lookup
lookup-has_text k [] h = refl
lookup-has_text k ((j, v) ∷ d) h = ground (arith, lookup-has_text k d, eqb_comm k j)

module _ (s : FrontmatterSchema) where
  -- An alias that is checked stands for a tag that is no alias.
  check_alias-ok :
      (alias canonical : Text)
      → check_alias s alias canonical ≡ ok tt
      → has_text canonical (keys_of s.tag_aliases) ≡ false
  unfolding check_alias
  check_alias-ok alias canonical h = ground arith

  check_aliases-ok :
      (aliases : Dict Text) (tag canonical : Text)
      → check_aliases s aliases ≡ ok tt
      → lookup tag aliases ≡ some canonical
      → has_text canonical (keys_of s.tag_aliases) ≡ false
  unfolding check_aliases lookup
  check_aliases-ok [] tag canonical h e = cc
  check_aliases-ok ((alias, c) ∷ aliases) tag canonical h e =
      elim (>>=-Succeeds (check_alias s alias c) _ h) [
        | through u first rest ↦ elim (Bool-cases (eqb alias tag)) [
          | inl f ↦
              let same : some c ≡ some canonical = rw f at e in
              ground (arith, check_alias-ok alias c first)
          | inr f ↦ check_aliases-ok aliases tag canonical rest (rw f at e)
        ]
      ]

  validate_tags-aliases : validate_tags s ≡ ok tt → check_aliases s s.tag_aliases ≡ ok tt
  unfolding validate_tags
  validate_tags-aliases h = ground arith

  module _ (valid : validate_tags s ≡ ok tt) where
    pub canonical_tag_twice : (i : Item) → canonical_tag s (canonical_tag s i) ≡ canonical_tag s i
    unfolding canonical_tag
    canonical_tag_twice (thing n) = refl
    canonical_tag_twice (nested n) = refl
    canonical_tag_twice (word tag) = elim (Option-cases (lookup tag s.tag_aliases)) [
      | inl e ↦ rw (e, e) refl
      | inr (c, e) ↦
          let free = check_aliases-ok s.tag_aliases tag c (validate_tags-aliases valid) e in
          rw (e, lookup-has_text c s.tag_aliases free) refl
    ]

    abbrev pub IsCanonical : Item → Type 0
    IsCanonical i = canonical_tag s i ≡ i

    map-IsCanonical : (l : List Item) → All IsCanonical (map (canonical_tag s) l)
    map-IsCanonical [] = tt
    map-IsCanonical (i ∷ l) = (canonical_tag_twice i, map-IsCanonical l)

    map_fixed : (l : List Item) → All IsCanonical l → map (canonical_tag s) l ≡ l
    map_fixed [] h = refl
    map_fixed (i ∷ l) (e, h) = rw (e, map_fixed l h) refl

    -- Under a schema whose tags are valid: a normalized list holds no alias and no repeat; a list
    -- without either comes back as it is; and so normalizing twice is normalizing once.
    pub normalize_tags_lem :
        (tags : List Item)
        → All IsCanonical (normalize_tags s tags)
          × Distinct same_item (normalize_tags s tags)
          × (All IsCanonical tags → Distinct same_item tags → normalize_tags s tags ≡ tags)
          × (normalize_tags s (normalize_tags s tags) ≡ normalize_tags s tags)
    unfolding normalize_tags
    normalize_tags_lem tags =
        let canonical =
          All-add_all same_item IsCanonical (map (canonical_tag s) tags) [] (map-IsCanonical tags)
            tt in
        let distinct =
          Distinct-add_all same_item same_item_comm [] (map (canonical_tag s) tags) tt in
        let fixed : (l : List Item)
            → All IsCanonical l
            → Distinct same_item l
            → add_all same_item [] (map (canonical_tag s) l) ≡ l =
          λ l c d. rw (map_fixed l c) (add_all_fixed same_item same_item_comm [] l d) in
        (canonical, distinct, fixed tags, fixed _ canonical distinct)
