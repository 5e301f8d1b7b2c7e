-- ===== src/FieldFilters/Accepted.antt =====
-- What a filter that coppermind/field_filters.py accepts is like.
use coppermind.Base.{
  ◌≡◌, ◌≢◌, refl, sym, ◌∙◌, subst, inl, inr, true, false, ◌&&◌, Option, none, some, List, [], ◌∷◌,
  All, Bool-cases, arith,
}
use coppermind.Base.Texts.{Text, eqb}
use coppermind.Base.Dict.{Dict, lookup}
use coppermind.Base.Attempt.{ok, >>=-Succeeds, through, ok-injective}
use coppermind.Schema.{
  Value, null, other, boolean, integer, text, items, day, moment, KeyKind, KeyDefinition,
  FrontmatterSchema,
}
use coppermind.FieldFilters.{
  Op, at_least, at_most, FieldClause, Bounds, definition_of, is_operator, is_valid, is_date_kind,
  is_bound, bounds_or, Parser, parse_filter, add_bound, check_clause, check_declared, check_clauses,
  is_crossed, check_ranges, validate_filter,
}
use coppermind.FieldFilters.Order.{AtMost, AtMost-trans}
use coppermind.FieldFilters.Ranges.{
  upper, Narrows, Narrows-refl, Covers, Covers-narrow, narrowed_at, narrowed_at-Narrows,
  narrowed_at-Covers,
}

module _ (parser : Parser) where
  -- A clause that is accepted: its field is declared, its operator is one of the field's kind, and its
  -- value is of the kind.
  pub record IsAccepted (keys : List KeyDefinition) (c : FieldClause) : Type 0 where
    pub declared : KeyDefinition
    pub found : definition_of c.field keys ≡ some declared
    pub operator : is_operator declared.kind c.op ≡ true
    pub typed : is_valid parser declared declared.kind c.value ≡ true

  -- What an accepted clause does to the ranges.
  record Taken (c : FieldClause) (before after : Dict Bounds) : Type 0 where
    narrows : Narrows before after
    covers : Covers after c

  unbound : (c : FieldClause) (ranges : Dict Bounds) → is_bound c.op ≡ false → Taken c ranges ranges
  unbound c ranges h = record {
    narrows = Narrows-refl ranges;
    covers = record { low = λ s o v. cc (rw o at h); high = λ s o v. cc (rw o at h) };
  }

  no_text :
      (c : FieldClause) (ranges : Dict Bounds)
      → ((s : Text) → c.value ≢ text s)
      → Taken c ranges ranges
  no_text c ranges h = record {
    narrows = Narrows-refl ranges;
    covers = record { low = λ s o v. absurd (h s v); high = λ s o v. absurd (h s v) };
  }

  add_bound-Taken :
      (c : FieldClause) (v : Value) (ranges : Dict Bounds)
      → c.value ≡ v
      → Taken c ranges (add_bound parser c v ranges)
  unfolding add_bound narrowed_at
  add_bound-Taken c (text s) ranges e = record {
    narrows = narrowed_at-Narrows parser c s ranges;
    covers = narrowed_at-Covers parser c s ranges e;
  }
  add_bound-Taken c null ranges e = no_text c ranges λ s n. cc (sym e ∙ n)
  add_bound-Taken c other ranges e = no_text c ranges λ s n. cc (sym e ∙ n)
  add_bound-Taken c (boolean b) ranges e = no_text c ranges λ s n. cc (sym e ∙ n)
  add_bound-Taken c (integer k) ranges e = no_text c ranges λ s n. cc (sym e ∙ n)
  add_bound-Taken c (items l) ranges e = no_text c ranges λ s n. cc (sym e ∙ n)
  add_bound-Taken c (day d) ranges e = no_text c ranges λ s n. cc (sym e ∙ n)
  add_bound-Taken c (moment m) ranges e = no_text c ranges λ s n. cc (sym e ∙ n)

  unbound_kind :
      (k : KeyKind) (op : Op)
      → is_operator k op ≡ true
      → is_date_kind k && is_bound op ≡ false
      → is_bound op ≡ false
  unfolding is_operator
  unbound_kind k op h n = grind arith

  check_clause-Taken :
      (d : KeyDefinition) (c : FieldClause) (before after : Dict Bounds)
      → check_clause parser d c before ≡ ok after
      → (is_operator d.kind c.op ≡ true)
        × (is_valid parser d d.kind c.value ≡ true)
        × Taken c before after
  unfolding check_clause
  check_clause-Taken d c before after h = elim (Bool-cases (is_operator d.kind c.op)) [
    | inr n ↦ cc (rw n at h)
    | inl o ↦ elim (Bool-cases (is_valid parser d d.kind c.value)) [
      | inr n ↦ cc (rw (o, n) at h)
      | inl v ↦ elim (Bool-cases (is_date_kind d.kind && is_bound c.op)) [
        | inl b ↦ (
          o,
          v,
          subst (Taken c before) (ok-injective (rw (o, v, b) at h))
              (add_bound-Taken c c.value before refl),
        )
        | inr b ↦ (
          o,
          v,
          subst (Taken c before) (ok-injective (rw (o, v, b) at h))
              (unbound c before (unbound_kind d.kind c.op o b)),
        )
      ]
    ]
  ]

  check_declared-Taken :
      (keys : List KeyDefinition) (c : FieldClause) (o : Option KeyDefinition)
      (before after : Dict Bounds)
      → definition_of c.field keys ≡ o
      → check_declared parser o c before ≡ ok after
      → IsAccepted keys c × Taken c before after
  unfolding check_declared
  check_declared-Taken keys c none before after e h = cc h
  check_declared-Taken keys c (some d) before after e h =
      let (o, v, t) = check_clause-Taken d c before after h in
      (record { declared = d; found = e; operator = o; typed = v }, t)

  Narrows-trans : (a b c : Dict Bounds) → Narrows a b → Narrows b c → Narrows a c
  Narrows-trans a b c m n = record {
    lower_up = λ f g e.
        let (h, k, l) = m.lower_up f g e in
        let (i, j, o) = n.lower_up f h k in (i, j, AtMost-trans g h i l o);
    upper_down = λ f g e.
        let (h, k, l) = m.upper_down f g e in
        let (i, j, o) = n.upper_down f h k in (i, j, AtMost-trans i h g o l);
  }

  check_clauses-Taken :
      (keys : List KeyDefinition) (clauses : List FieldClause) (before after : Dict Bounds)
      → check_clauses parser keys clauses before ≡ ok after
      → All (IsAccepted keys) clauses × Narrows before after × All (Covers after) clauses
  unfolding check_clauses
  check_clauses-Taken keys [] before after h =
      (tt, subst (Narrows before) (ok-injective h) (Narrows-refl before), tt)
  check_clauses-Taken keys (c ∷ clauses) before after h =
      elim (>>=-Succeeds (check_declared parser (definition_of c.field keys) c before) _ h) [
        | through middle e f ↦
            let (accepted, t) = check_declared-Taken keys c _ before middle refl e in
            let (rest, n, covers) = check_clauses-Taken keys clauses middle after f in
            (
              (accepted, rest),
              Narrows-trans before middle after t.narrows n,
              (Covers-narrow middle after c n t.covers, covers),
            )
      ]

  -- No range is crossed.
  check_ranges-lookup :
      (f : Text) (ranges : Dict Bounds) (b : Bounds)
      → check_ranges parser ranges ≡ ok tt
      → lookup f ranges ≡ some b
      → is_crossed parser b ≡ false
  unfolding check_ranges lookup
  check_ranges-lookup f [] b h e = cc e
  check_ranges-lookup f ((j, a) ∷ ranges) b h e = elim (Bool-cases (is_crossed parser a)) [
    | inl n ↦ cc (rw n at h)
    | inr n ↦ elim (Bool-cases (eqb j f)) [
      | inl m ↦ subst (λ x. is_crossed parser x ≡ false) (some-injective (rw m at e)) n
      | inr m ↦ check_ranges-lookup f ranges b (rw n at h) (rw m at e)
    ]
  ]
    where
      some-injective : some a ≡ some b → a ≡ b
      some-injective k = cc k

  uncrossed :
      (o : Option Bounds) (g l : Text)
      → (bounds_or o).gte ≡ some g
      → (bounds_or o).lte ≡ some l
      → ((b : Bounds) → o ≡ some b → is_crossed parser b ≡ false)
      → AtMost g l
  unfolding is_crossed AtMost
  uncrossed none g l e f h = cc e
  uncrossed (some b) g l e f h =
      let whole : is_crossed parser b ≡ false = h b refl in rw (e, f) at whole

  -- Two clauses that bound one field do not exclude each other.
  pub Agree : FieldClause → FieldClause → Type 0
  Agree c d =
      (s t : Text)
      → c.field ≡ d.field
      → c.op ≡ at_least
      → d.op ≡ at_most
      → c.value ≡ text s
      → d.value ≡ text t
      → AtMost s t

  Covers-Agree :
      (ranges : Dict Bounds) (c d : FieldClause)
      → check_ranges parser ranges ≡ ok tt
      → Covers ranges c
      → Covers ranges d
      → Agree c d
  unfolding Agree
  Covers-Agree ranges c d h k m s t f o p v w =
      let (g, e, a) = k.low s o v in
      let (l, n, b) = m.high t p w in
      AtMost-trans s g t a (
        AtMost-trans g l t
          (uncrossed (lookup c.field ranges) g l e (subst (λ x. upper x ranges ≡ some l) (sym f) n)
            (λ x q. check_ranges-lookup c.field ranges x h q))
          b)

  all-Agree :
      (ranges : Dict Bounds) (c : FieldClause) (clauses : List FieldClause)
      → check_ranges parser ranges ≡ ok tt
      → Covers ranges c
      → All (Covers ranges) clauses
      → All (Agree c) clauses
  all-Agree ranges c [] h k m = tt
  all-Agree ranges c (d ∷ clauses) h k (l, m) =
      (Covers-Agree ranges c d h k l, all-Agree ranges c clauses h k m)

  each-Agree :
      (ranges : Dict Bounds) (some_clauses clauses : List FieldClause)
      → check_ranges parser ranges ≡ ok tt
      → All (Covers ranges) some_clauses
      → All (Covers ranges) clauses
      → All (λ c. All (Agree c) clauses) some_clauses
  each-Agree ranges [] clauses h k m = tt
  each-Agree ranges (c ∷ cs) clauses h (k, ks) m =
      (all-Agree ranges c clauses h k m, each-Agree ranges cs clauses h ks m)

  -- A filter that is accepted: every clause names a key of the schema, with an operator of the key's
  -- kind and a value of that kind; and no clause that bounds a field from below excludes, as texts are
  -- ordered, one that bounds the same field from above.
  pub validate_filter-IsAccepted :
      (raw : Text) (s : FrontmatterSchema) (clauses : List FieldClause)
      → validate_filter parser raw s ≡ ok clauses
      → All (IsAccepted s.keys) clauses × All (λ c. All (Agree c) clauses) clauses
  unfolding validate_filter
  validate_filter-IsAccepted raw s clauses h = elim (>>=-Succeeds (parse_filter parser raw) _ h) [
    | through found e f ↦ elim (>>=-Succeeds (check_clauses parser s.keys found []) _ f) [
      | through ranges g k ↦ elim (>>=-Succeeds (check_ranges parser ranges) _ k) [
        | through u m n ↦
            let (accepted, narrows, covers) = check_clauses-Taken s.keys found [] ranges g in
            subst (λ l. All (IsAccepted s.keys) l × All (λ c. All (Agree c) l) l) (ok-injective n)
              (accepted, each-Agree ranges found found m covers covers)
      ]
    ]
  ]
