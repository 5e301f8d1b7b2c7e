-- ===== src/Schema/Tags/Hashes.antt =====
-- The entries of a list of tags that have no hash, and what coppermind/schema.py's `normalize_tags` makes
-- of them.
use coppermind.Base.{
  ◌≡◌, refl, ap, sym, ◌∙◌, inl, inr, true, false, List, [], ◌∷◌, map, all, All, Bool-cases, ==_iff,
  arith,
}
use coppermind.Base.Texts.{eqb_iff}
use coppermind.Base.Distinct.{member, All-add_all, member-add_all}
use coppermind.Schema.{Item, word, thing, nested, same_item, FrontmatterSchema}
use coppermind.Schema.Tags.{canonical_tag, normalize_tags, is_hashable}

pub same_item_sound : (a b : Item) → same_item a b ≡ true → a ≡ b
same_item_sound (word s) (word t) e = ap word ((eqb_iff s t).0 e)
same_item_sound (word s) (thing n) e = cc
same_item_sound (word s) (nested n) e = cc
same_item_sound (thing m) (word t) e = cc
same_item_sound (thing m) (thing n) e = ap thing ((==_iff m n).0 e)
same_item_sound (thing m) (nested n) e = cc
same_item_sound (nested m) (word t) e = cc
same_item_sound (nested m) (thing n) e = cc
same_item_sound (nested m) (nested n) e = ap nested ((==_iff m n).0 e)

pub same_item_refl : (a : Item) → same_item a a ≡ true
same_item_refl (word u) = (eqb_iff u u).1 refl
same_item_refl (thing n) = (==_iff n n).1 refl
same_item_refl (nested n) = (==_iff n n).1 refl

-- An entry without a hash.
abbrev pub Unhashed : List Item → Type 0
Unhashed l = (i : Item) × (member same_item i l ≡ true) × (is_hashable i ≡ false)

abbrev pub AllHashable : List Item → Type 0
AllHashable l = All (λ i. is_hashable i ≡ true) l

pub all-AllHashable : (l : List Item) → all is_hashable l ≡ true → AllHashable l
all-AllHashable [] h = tt
all-AllHashable (i ∷ l) h = (ground arith, all-AllHashable l (ground arith))

pub all-Unhashed : (l : List Item) → all is_hashable l ≡ false → Unhashed l
all-Unhashed [] h = cc
all-Unhashed (i ∷ l) h = elim (Bool-cases (is_hashable i)) [
  | inr e ↦ (i, ground (arith, same_item_refl i), e)
  | inl e ↦ let (j, m, f) = all-Unhashed l (ground arith) in (j, ground (arith, m), f)
]

module _ (s : FrontmatterSchema) where
  hashable_canonical : (i : Item) → is_hashable (canonical_tag s i) ≡ is_hashable i
  unfolding canonical_tag
  hashable_canonical (word t) = refl
  hashable_canonical (thing n) = refl
  hashable_canonical (nested n) = refl

  unhashed_canonical : (i : Item) → is_hashable i ≡ false → canonical_tag s i ≡ i
  unfolding canonical_tag
  unhashed_canonical (word t) h = cc
  unhashed_canonical (thing n) h = cc
  unhashed_canonical (nested n) h = refl

  member-map :
      (i : Item) (l : List Item)
      → member same_item i l ≡ true
      → member same_item (canonical_tag s i) (map (canonical_tag s) l) ≡ true
  member-map i [] h = cc
  member-map i (j ∷ l) h = elim (Bool-cases (same_item i j)) [
    | inl e ↦ rw (same_item_sound i j e) (ground (arith, same_item_refl (canonical_tag s j)))
    | inr e ↦ ground (arith, member-map i l)
  ]

  pub member-normalize_tags :
      (tags : List Item) (i : Item)
      → member same_item i (normalize_tags s tags) ≡ member same_item i (map (canonical_tag s) tags)
  unfolding normalize_tags
  member-normalize_tags tags i =
      member-add_all same_item same_item_sound i [] (map (canonical_tag s) tags)

  map-AllHashable : (l : List Item) → AllHashable l → AllHashable (map (canonical_tag s) l)
  map-AllHashable [] h = tt
  map-AllHashable (i ∷ l) (e, h) = (hashable_canonical i ∙ e, map-AllHashable l h)

  pub normalize_tags-AllHashable :
      (l : List Item) → AllHashable l → AllHashable (normalize_tags s l)
  unfolding normalize_tags
  normalize_tags-AllHashable l h =
      All-add_all same_item (λ i. is_hashable i ≡ true) (map (canonical_tag s) l) []
        (map-AllHashable l h) tt

  pub normalize_tags-Unhashed : (l : List Item) → Unhashed l → Unhashed (normalize_tags s l)
  normalize_tags-Unhashed l (i, m, h) = (
    i,
    member-normalize_tags l i
        ∙ ap (λ j. member same_item j (map (canonical_tag s) l)) (sym (unhashed_canonical i h))
        ∙ member-map i l m,
    h,
  )
