-- ===== src/Projection/Canonical.antt =====
-- The timeline depends on the content of `segments` alone, not on the order of arrival
-- (protocol/projection.py, `ordered_segments` and `compactable_segments`).
use realtime_meeting_transla.Prelude.{
  ◌≡◌, refl, sym, ap, ◌∙◌, ◌⊎◌, inl, inr, Bool, true, false, not, some, List, [], ◌∷◌, Text, arith,
  Bool-cases, text_eq, text_eq_iff, All, ◌↔◌, filterb, filterb_hit, filterb_miss,
}
use mathlib.Core.Path.{subst, ap₂}
use realtime_meeting_transla.Prelude.Dict.{Dict, lookup, IsDistinct, AllEntries}
use realtime_meeting_transla.Enums.{is_rejected}
use realtime_meeting_transla.Projection.State.{SegmentProjection, SessionProjection}
use realtime_meeting_transla.Projection.Views.{
  values, before, insert_sorted, sorted, ordered_segments, compactable_segments,
}
use realtime_meeting_transla.Projection.Invariant.{IsEntry, IsValid}
use realtime_meeting_transla.Projection.Order.{
  before_irrefl, before_trans, IsStrict, ordered_segments-IsStrict,
}

-- Membership by recursion.
abbrev pub In : SegmentProjection → List SegmentProjection → Type 0
In g [] = ⊥
In g (a ∷ l) = (g ≡ a) ⊎ In g l

All-In :
    (P : SegmentProjection → Type 0) (l : List SegmentProjection) (g : SegmentProjection)
    → All P l
    → In g l
    → P g
All-In P [] g h i = absurd i
All-In P (a ∷ l) g h (inl e) = subst P (sym e) h.0
All-In P (a ∷ l) g h (inr i) = All-In P l g h.1 i

before-asym : (a b : SegmentProjection) → before a b ≡ true → before b a ≡ true → ⊥
before-asym a b h k = ground (arith, before_trans a b a, before_irrefl a)

-- Two strictly ordered lists with the same members are equal.
strict_unique :
    (l m : List SegmentProjection)
    → IsStrict l
    → IsStrict m
    → ((g : SegmentProjection) → In g l → In g m)
    → ((g : SegmentProjection) → In g m → In g l)
    → l ≡ m
strict_unique [] [] p q f g = refl
strict_unique [] (b ∷ m) p q f g = absurd (g b (inl refl))
strict_unique (a ∷ l) [] p q f g = absurd (f a (inl refl))
strict_unique (a ∷ l) (b ∷ m) p q f g = ap₂ (◌∷◌) same (strict_unique l m p.1 q.1 there back)
  where
    heads : In a (b ∷ m) → In b (a ∷ l) → a ≡ b
    heads (inl e) i = e
    heads (inr i) (inl e) = sym e
    heads (inr i) (inr j) = absurd (
        before-asym a b (All-In (λ c. before a c ≡ true) l b p.0 j)
          (All-In (λ c. before b c ≡ true) m a q.0 i))

    same : a ≡ b
    same = heads (f a (inl refl)) (g b (inl refl))

    outside :
        (x y : SegmentProjection) (k : List SegmentProjection)
        → x ≡ y
        → All (λ c. before x c ≡ true) k
        → (c : SegmentProjection) → In c k
        → c ≡ y
        → ⊥
    outside x y k e h c i e' =
        let after = All-In (λ d. before x d ≡ true) k c h i in ground (arith, before_irrefl x)

    there : (c : SegmentProjection) → In c l → In c m
    there c i = elim (f c (inr i)) [ inl e ↦ absurd (outside a b l same p.0 c i e) | inr j ↦ j ]

    back : (c : SegmentProjection) → In c m → In c l
    back c i = elim (g c (inr i)) [
      | inl e ↦ absurd (outside b a m (sym same) q.0 c i e)
      | inr j ↦ j
    ]

In-insert_sorted :
    (g a : SegmentProjection) (l : List SegmentProjection) → In g (insert_sorted a l) ↔ In g (a ∷ l)
unfolding insert_sorted
In-insert_sorted g a [] = (λ i. i, λ i. i)
In-insert_sorted g a (b ∷ l) = elim (Bool-cases (before b a)) [
  | inl later ↦
      let rest = In-insert_sorted g a l in
      rw later (
        λ i. elim i [
          | inl e ↦ inr (inl e)
          | inr j ↦ elim (rest.0 j) [ inl e ↦ inl e | inr k ↦ inr (inr k) ]
        ],
        λ i. elim i [
          | inl e ↦ inr (rest.1 (inl e))
          | inr j ↦ elim j [ inl e ↦ inl e | inr k ↦ inr (rest.1 (inr k)) ]
        ],
      )
  | inr here ↦ rw here (λ i. i, λ i. i)
]

In-sorted : (g : SegmentProjection) (l : List SegmentProjection) → In g (sorted l) ↔ In g l
unfolding sorted
In-sorted g [] = (λ i. i, λ i. i)
In-sorted g (a ∷ l) =
    let now = In-insert_sorted g a (sorted l) in
    let rest = In-sorted g l in
    (
      λ i. elim (now.0 i) [ inl e ↦ inl e | inr j ↦ inr (rest.0 j) ],
      λ i. now.1 (elim i [ inl e ↦ inl e | inr j ↦ inr (rest.1 j) ]),
    )

-- A value is found under its own id.
In-values :
    (g : SegmentProjection) (d : Dict SegmentProjection)
    → AllEntries IsEntry d
    → IsDistinct d
    → In g (values d) ↔ (lookup g.segment_id d ≡ some g)
unfolding values lookup
In-values g [] h n = (λ i. absurd i, λ e. absurd (ground arith))
In-values g ((k, a) ∷ d) h n =
    let rest = In-values g d h.1 n.1 in
    let id = h.0.0 in
    (
      λ i. elim i [
        | inl e ↦ ground (arith, text_eq_iff k g.segment_id)
        | inr j ↦ let found = rest.0 j in ground (arith, text_eq_iff k g.segment_id)
      ],
      λ e. elim (Bool-cases (text_eq k g.segment_id)) [
        | inl hit ↦ inl (ground arith)
        | inr miss ↦ inr (rest.1 (rw miss at e))
      ],
    )

In-ordered_segments :
    (g : SegmentProjection) (s : SessionProjection)
    → IsValid s
    → In g (ordered_segments s) ↔ (lookup g.segment_id s.segments ≡ some g)
unfolding ordered_segments
In-ordered_segments g s v =
    let inside = In-sorted g (values s.segments) in
    let found = In-values g s.segments v.entries v.distinct in
    (λ i. found.0 (inside.0 i), λ e. inside.1 (found.1 e))

-- Two valid sessions that hold the same segment at each id have the same timeline, whatever the
-- order of their dicts.
pub ordered_segments-canonical :
    (s t : SessionProjection)
    → IsValid s
    → IsValid t
    → ((k : Text) → lookup k s.segments ≡ lookup k t.segments)
    → ordered_segments s ≡ ordered_segments t
ordered_segments-canonical s t v w same =
    strict_unique (ordered_segments s) (ordered_segments t) (ordered_segments-IsStrict s v).0
      (ordered_segments-IsStrict t w).0
      (λ g i.
        (In-ordered_segments g t w).1 (sym (same g.segment_id) ∙ (In-ordered_segments g s v).0 i))
      (λ g i. (In-ordered_segments g s v).1 (same g.segment_id ∙ (In-ordered_segments g t w).0 i))

In-filterb :
    (p : SegmentProjection → Bool) (g : SegmentProjection) (l : List SegmentProjection)
    → In g (filterb p l) ↔ (In g l × (p g ≡ true))
In-filterb p g [] = (λ i. absurd i, λ h. absurd h.0)
In-filterb p g (a ∷ l) =
    let rest = In-filterb p g l in
    elim (Bool-cases (p a)) [
      | inl hit ↦ rw (filterb_hit p a l hit) (
        λ i. elim i [ inl e ↦ (inl e, ap p e ∙ hit) | inr j ↦ (inr (rest.0 j).0, (rest.0 j).1) ],
        λ h. elim h.0 [ inl e ↦ inl e | inr j ↦ inr (rest.1 (j, h.1)) ],
      )
      | inr miss ↦ rw (filterb_miss p a l miss) (
        λ i. (inr (rest.0 i).0, (rest.0 i).1),
        λ h. elim h.0 [ inl e ↦ absurd (ground (arith, ap p e)) | inr j ↦ rest.1 (j, h.1) ],
      )
    ]

-- In a valid session, `compactable_segments` holds exactly the segments of the session that are
-- not rejected.
pub In-compactable_segments :
    (g : SegmentProjection) (s : SessionProjection)
    → IsValid s
    → In g (compactable_segments s)
      ↔ ((lookup g.segment_id s.segments ≡ some g) × (is_rejected g.status ≡ false))
unfolding compactable_segments
In-compactable_segments g s v =
    let kept = In-filterb (λ x. not (is_rejected x.status)) g (ordered_segments s) in
    let held = In-ordered_segments g s v in
    (
      λ i. (held.0 (kept.0 i).0, let open_status = (kept.0 i).1 in ground arith),
      λ h. kept.1 (held.1 h.0, rw h.1),
    )
