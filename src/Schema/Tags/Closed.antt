-- ===== src/Schema/Tags/Closed.antt =====
-- Which tags of a write a closed mode of coppermind/schema.py refuses, and when it raises
-- (`tag_problems`).
use coppermind.Base.{
  ◌≡◌, refl, ap, ◌∙◌, inl, inr, Bool, true, false, not, ◌&&◌, List, [], ◌∷◌, map, all, Bool-cases,
  if◌then◌else◌, arith,
}
use coppermind.Base.Texts.{Text}
use coppermind.Base.Distinct.{member}
use coppermind.Base.Attempt.{Attempt, raises, ok}
use coppermind.Schema.{
  Item, Value, null, other, boolean, integer, text, items, day, moment, Frontmatter, get, same_item,
  FrontmatterSchema, SchemaError, unhashable,
}
use coppermind.Schema.Tags.{
  canonical_tag, normalize_tags, entries_of, is_hashable, in_tags, is_listed, carried_tags, refused,
  tag_problems_of, tag_problems_by,
}
use coppermind.Schema.Tags.Hashes.{
  Unhashed, AllHashable, same_item_sound, same_item_refl, all-AllHashable, all-Unhashed,
  member-normalize_tags, normalize_tags-AllHashable, normalize_tags-Unhashed,
}

empty_of_members : (l : List Item) → ((i : Item) → member same_item i l ≡ false) → l ≡ []
empty_of_members [] h = refl
empty_of_members (i ∷ l) h = absurd (ground (arith, h i, same_item_refl i))

module _ (s : FrontmatterSchema) where
  -- The tags that are refused of a list.
  Refuses : List Item → List Item → List Item → Type 0
  Refuses already tags l =
      (i : Item)
      → member same_item i l
        ≡ member same_item i tags && not (in_tags s i) && not (member same_item i already)

  member-if :
      (already tags l : List Item) (t i : Item)
      → member same_item i l
        ≡ member same_item i tags && not (in_tags s i) && not (member same_item i already)
      → member same_item i
          (if not (in_tags s t) && not (member same_item t already) then t ∷ l else l)
        ≡ member same_item i (t ∷ tags) && not (in_tags s i) && not (member same_item i already)
  member-if already tags l t i h = elim (Bool-cases (same_item i t)) [
    | inl e ↦
        let same = same_item_sound i t e in rw same (ground (arith, rw same at h, same_item_refl t))
    | inr e ↦ ground (arith, h)
  ]

  refused-Refuses :
      (already tags : List Item)
      → AllHashable tags
      → (l : List Item) × (refused s already tags ≡ ok l) × Refuses already tags l
  unfolding refused is_listed Refuses
  refused-Refuses already [] h = ([], refl, λ i. refl)
  refused-Refuses already (t ∷ tags) (e, h) =
      let (l, same, told) = refused-Refuses already tags h in
      (
        (if not (in_tags s t) && not (member same_item t already) then t ∷ l else l),
        rw (e, same) refl,
        λ i. member-if already tags l t i (told i),
      )

  refused-raises :
      (already tags : List Item) → Unhashed tags → refused s already tags ≡ raises unhashable
  unfolding refused is_listed
  refused-raises already [] (i, m, h) = cc
  refused-raises already (t ∷ tags) (i, m, h) = elim (Bool-cases (is_hashable t)) [
    | inr e ↦ rw e refl
    | inl e ↦ elim (Bool-cases (same_item i t)) [
      | inl f ↦ absurd (cc (ap is_hashable (same_item_sound i t f), e, h))
      | inr f ↦ rw (e, refused-raises already tags (i, ground (arith, m), h)) refl
    ]
  ]

  carried_tags-ok :
      (v : Value)
      → all is_hashable (entries_of v) ≡ true
      → carried_tags s v ≡ ok (map (canonical_tag s) (entries_of v))
  unfolding carried_tags
  carried_tags-ok (items l) h = rw h refl
  carried_tags-ok null h = refl
  carried_tags-ok other h = refl
  carried_tags-ok (boolean b) h = refl
  carried_tags-ok (integer n) h = refl
  carried_tags-ok (text t) h = refl
  carried_tags-ok (day d) h = refl
  carried_tags-ok (moment m) h = refl

  carried_tags-raises :
      (v : Value) → all is_hashable (entries_of v) ≡ false → carried_tags s v ≡ raises unhashable
  unfolding carried_tags
  carried_tags-raises (items l) h = rw h refl
  carried_tags-raises null h = cc
  carried_tags-raises other h = cc
  carried_tags-raises (boolean b) h = cc
  carried_tags-raises (integer n) h = cc
  carried_tags-raises (text t) h = cc
  carried_tags-raises (day d) h = cc
  carried_tags-raises (moment m) h = cc

  -- What is refused of the tags that a write brings, by the ones that the note carries.
  abbrev pub Told : Value → Value → Attempt SchemaError (List Item) → Type 0
  Told v carried told =
      (l : List Item) × (told ≡ ok l)
      × ((i : Item)
          → member same_item i l
            ≡ member same_item i (map (canonical_tag s) (entries_of v))
              && not (in_tags s i)
              && not (member same_item i (map (canonical_tag s) (entries_of carried))))
      × (v ≡ carried → l ≡ [])

  list-Told :
      (tags : List Item) (carried : Value)
      → all is_hashable tags ≡ true
      → all is_hashable (entries_of carried) ≡ true
      → Told (items tags) carried (tag_problems_of s (items tags) carried)
  unfolding tag_problems_of Refuses
  list-Told tags carried h k =
      let already = map (canonical_tag s) (entries_of carried) in
      let (l, same, refuses) =
        refused-Refuses already (normalize_tags s tags)
          (normalize_tags-AllHashable s tags (all-AllHashable tags h)) in
      let exact : (i : Item)
          → member same_item i l
            ≡ member same_item i (map (canonical_tag s) tags)
              && not (in_tags s i)
              && not (member same_item i already) =
        λ i.
          refuses i
          ∙ ap (λ b. b && not (in_tags s i) && not (member same_item i already))
              (member-normalize_tags s tags i) in
      (
        l,
        rw (carried_tags-ok carried k) same,
        exact,
        λ e. empty_of_members l (λ i. exact i ∙ refused_none i e),
      )
    where
      refused_none :
          (i : Item)
          → items tags ≡ carried
          → (member same_item i (map (canonical_tag s) tags)
              && not (in_tags s i)
              && not (member same_item i (map (canonical_tag s) (entries_of carried))))
            ≡ false
      refused_none i e = rw (← e) (ground arith)

  list-raises :
      (tags : List Item) (carried : Value)
      → (all is_hashable tags && all is_hashable (entries_of carried)) ≡ false
      → tag_problems_of s (items tags) carried ≡ raises unhashable
  unfolding tag_problems_of
  list-raises tags carried h = elim (Bool-cases (all is_hashable (entries_of carried))) [
    | inr e ↦ rw (carried_tags-raises carried e) refl
    | inl e ↦ rw (carried_tags-ok carried e) (
        refused-raises (map (canonical_tag s) (entries_of carried)) (normalize_tags s tags)
          (normalize_tags-Unhashed s tags (all-Unhashed tags (ground arith))))
  ]

-- A list of tags is asked for, and one of its entries, or of those that the note carries, has no
-- hash.
abbrev pub asks_unhashable : Value → Value → Bool
asks_unhashable (items tags) carried =
    not (all is_hashable tags && all is_hashable (entries_of carried))
asks_unhashable v carried = false

module _ (s : FrontmatterSchema) where
  tag_problems_of-Told :
      (v carried : Value)
      → asks_unhashable v carried ≡ false
      → Told s v carried (tag_problems_of s v carried)
  unfolding tag_problems_of
  tag_problems_of-Told (items tags) carried h =
      list-Told s tags carried (ground arith) (ground arith)
  tag_problems_of-Told null carried h = ([], refl, λ i. refl, λ e. refl)
  tag_problems_of-Told other carried h = ([], refl, λ i. refl, λ e. refl)
  tag_problems_of-Told (boolean b) carried h = ([], refl, λ i. refl, λ e. refl)
  tag_problems_of-Told (integer n) carried h = ([], refl, λ i. refl, λ e. refl)
  tag_problems_of-Told (text t) carried h = ([], refl, λ i. refl, λ e. refl)
  tag_problems_of-Told (day d) carried h = ([], refl, λ i. refl, λ e. refl)
  tag_problems_of-Told (moment m) carried h = ([], refl, λ i. refl, λ e. refl)

  tag_problems_of-raises :
      (v carried : Value)
      → asks_unhashable v carried ≡ true
      → tag_problems_of s v carried ≡ raises unhashable
  tag_problems_of-raises (items tags) carried h = list-raises s tags carried (ground arith)
  tag_problems_of-raises null carried h = cc
  tag_problems_of-raises other carried h = cc
  tag_problems_of-raises (boolean b) carried h = cc
  tag_problems_of-raises (integer n) carried h = cc
  tag_problems_of-raises (text t) carried h = cc
  tag_problems_of-raises (day d) carried h = cc
  tag_problems_of-raises (moment m) carried h = cc

  pub tag_problems_lem :
      (key : Text) (fm current : Frontmatter)
      → (asks_unhashable (get key fm) (get key current) ≡ true
          → tag_problems_by s key fm current ≡ raises unhashable)
        × (asks_unhashable (get key fm) (get key current) ≡ false
            → Told s (get key fm) (get key current) (tag_problems_by s key fm current))
  unfolding tag_problems_by
  tag_problems_lem key fm current = (
    tag_problems_of-raises (get key fm) (get key current),
    tag_problems_of-Told (get key fm) (get key current),
  )
