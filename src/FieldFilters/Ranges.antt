-- ===== src/FieldFilters/Ranges.antt =====
-- The bounds that coppermind/field_filters.py records of the date fields, and how a clause tightens them.
use coppermind.Base.{
  ◌≡◌, refl, sym, ◌∙◌, ap, subst, inl, inr, true, false, Option, some, Bool-cases,
}
use coppermind.Base.Texts.{Text, eqb, eqb_sound, eqb_refl}
use coppermind.Base.Dict.{Dict, lookup, insert, lookup-insert}
use coppermind.Schema.{text}
use coppermind.FieldFilters.{
  Op, equals, contains, at_least, at_most, FieldClause, Bounds, or_text, bounds_or, later, earlier,
  Parser, narrowed,
}
use coppermind.FieldFilters.Order.{AtMost, AtMost-refl, AtMost-trans, AtMost-later, AtMost-earlier}

-- The two bounds that are recorded for a field.
abbrev pub lower : Text → Dict Bounds → Option Text
lower field ranges = (bounds_or (lookup field ranges)).gte

abbrev pub upper : Text → Dict Bounds → Option Text
upper field ranges = (bounds_or (lookup field ranges)).lte

-- A bound that is there is still there, and as tight.
pub record Narrows (before after : Dict Bounds) : Type 0 where
  pub lower_up :
      (f g : Text) → lower f before ≡ some g → (h : Text) × (lower f after ≡ some h) × AtMost g h
  pub upper_down :
      (f g : Text) → upper f before ≡ some g → (h : Text) × (upper f after ≡ some h) × AtMost h g

pub Narrows-refl : (ranges : Dict Bounds) → Narrows ranges ranges
Narrows-refl ranges = record {
  lower_up = λ f g e. (g, e, AtMost-refl g);
  upper_down = λ f g e. (g, e, AtMost-refl g);
}

-- The recorded bounds are as tight as a clause asks for.
pub record Covers (ranges : Dict Bounds) (c : FieldClause) : Type 0 where
  pub low :
      (s : Text)
      → c.op ≡ at_least
      → c.value ≡ text s
      → (g : Text) × (lower c.field ranges ≡ some g) × AtMost s g
  pub high :
      (s : Text)
      → c.op ≡ at_most
      → c.value ≡ text s
      → (g : Text) × (upper c.field ranges ≡ some g) × AtMost g s

pub Covers-narrow :
    (before after : Dict Bounds) (c : FieldClause)
    → Narrows before after
    → Covers before c
    → Covers after c
Covers-narrow before after c n k = record {
  low = λ s o v.
      let (g, e, m) = k.low s o v in
      let (h, f, l) = n.lower_up c.field g e in (h, f, AtMost-trans s g h m l);
  high = λ s o v.
      let (g, e, m) = k.high s o v in
      let (h, f, l) = n.upper_down c.field g e in (h, f, AtMost-trans h g s l m);
}

module _ (parser : Parser) where
  narrowed-lower :
      (op : Op) (s g : Text) (b : Bounds)
      → b.gte ≡ some g
      → (h : Text) × ((narrowed parser op s b).gte ≡ some h) × AtMost g h
  unfolding narrowed
  narrowed-lower at_least s g b e = (later g s, rw e refl, (AtMost-later g s).0)
  narrowed-lower at_most s g b e = (g, e, AtMost-refl g)
  narrowed-lower equals s g b e = (g, e, AtMost-refl g)
  narrowed-lower contains s g b e = (g, e, AtMost-refl g)

  narrowed-upper :
      (op : Op) (s g : Text) (b : Bounds)
      → b.lte ≡ some g
      → (h : Text) × ((narrowed parser op s b).lte ≡ some h) × AtMost h g
  unfolding narrowed
  narrowed-upper at_most s g b e = (earlier g s, rw e refl, (AtMost-earlier g s).0)
  narrowed-upper at_least s g b e = (g, e, AtMost-refl g)
  narrowed-upper equals s g b e = (g, e, AtMost-refl g)
  narrowed-upper contains s g b e = (g, e, AtMost-refl g)

  -- A clause that is taken into the ranges.
  unfoldable pub narrowed_at : FieldClause → Text → Dict Bounds → Dict Bounds
  narrowed_at c s ranges =
      insert c.field (narrowed parser c.op s (bounds_or (lookup c.field ranges))) ranges

  lookup-narrowed_at :
      (c : FieldClause) (s f : Text) (ranges : Dict Bounds)
      → eqb c.field f ≡ true
      → lookup f (narrowed_at c s ranges)
        ≡ some (narrowed parser c.op s (bounds_or (lookup f ranges)))
  unfolding narrowed_at
  lookup-narrowed_at c s f ranges e =
      lookup-insert c.field f _ ranges
      ∙ rw e (
          ap (λ x. some (narrowed parser c.op s (bounds_or (lookup x ranges))))
            (eqb_sound c.field f e))

  lookup-other :
      (c : FieldClause) (s f : Text) (ranges : Dict Bounds)
      → eqb c.field f ≡ false
      → lookup f (narrowed_at c s ranges) ≡ lookup f ranges
  unfolding narrowed_at
  lookup-other c s f ranges n = lookup-insert c.field f _ ranges ∙ rw n refl

  pub narrowed_at-Narrows :
      (c : FieldClause) (s : Text) (ranges : Dict Bounds) → Narrows ranges (narrowed_at c s ranges)
  narrowed_at-Narrows c s ranges = record {
    lower_up = λ f g e. elim (Bool-cases (eqb c.field f)) [
      | inl n ↦
          let (h, k, m) = narrowed-lower c.op s g (bounds_or (lookup f ranges)) e in
          (h, ap (λ o. (bounds_or o).gte) (lookup-narrowed_at c s f ranges n) ∙ k, m)
      | inr n ↦ (g, ap (λ o. (bounds_or o).gte) (lookup-other c s f ranges n) ∙ e, AtMost-refl g)
    ];
    upper_down = λ f g e. elim (Bool-cases (eqb c.field f)) [
      | inl n ↦
          let (h, k, m) = narrowed-upper c.op s g (bounds_or (lookup f ranges)) e in
          (h, ap (λ o. (bounds_or o).lte) (lookup-narrowed_at c s f ranges n) ∙ k, m)
      | inr n ↦ (g, ap (λ o. (bounds_or o).lte) (lookup-other c s f ranges n) ∙ e, AtMost-refl g)
    ];
  }

  narrowed-low :
      (op : Op) (s : Text) (b : Bounds)
      → op ≡ at_least
      → (g : Text) × ((narrowed parser op s b).gte ≡ some g) × AtMost s g
  unfolding narrowed
  narrowed-low at_least s b e =
      (later (or_text b.gte s) s, refl, (AtMost-later (or_text b.gte s) s).1)
  narrowed-low at_most s b e = cc e
  narrowed-low equals s b e = cc e
  narrowed-low contains s b e = cc e

  narrowed-high :
      (op : Op) (s : Text) (b : Bounds)
      → op ≡ at_most
      → (g : Text) × ((narrowed parser op s b).lte ≡ some g) × AtMost g s
  unfolding narrowed
  narrowed-high at_most s b e =
      (earlier (or_text b.lte s) s, refl, (AtMost-earlier (or_text b.lte s) s).1)
  narrowed-high at_least s b e = cc e
  narrowed-high equals s b e = cc e
  narrowed-high contains s b e = cc e

  text-injective : (s t : Text) → text s ≡ text t → s ≡ t
  text-injective s t e = cc e

  pub narrowed_at-Covers :
      (c : FieldClause) (s : Text) (ranges : Dict Bounds)
      → c.value ≡ text s
      → Covers (narrowed_at c s ranges) c
  narrowed_at-Covers c s ranges v = record {
    low = λ t o w.
        let (g, e, m) = narrowed-low c.op s (bounds_or (lookup c.field ranges)) o in
        (
          g,
          ap (λ b. (bounds_or b).gte) (lookup-narrowed_at c s c.field ranges (eqb_refl c.field))
              ∙ e,
          subst (λ x. AtMost x g) (text-injective s t (sym v ∙ w)) m,
        );
    high = λ t o w.
        let (g, e, m) = narrowed-high c.op s (bounds_or (lookup c.field ranges)) o in
        (
          g,
          ap (λ b. (bounds_or b).lte) (lookup-narrowed_at c s c.field ranges (eqb_refl c.field))
              ∙ e,
          subst (λ x. AtMost g x) (text-injective s t (sym v ∙ w)) m,
        );
  }
