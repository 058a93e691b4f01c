-- ===== src/Projection/Order.antt =====
-- `ordered_segments` and `compactable_segments` (protocol/projection.py): order, content, and
-- independence from the order of arrival.
use realtime_meeting_transla.Prelude.{
  ◌≡◌, ◌≢◌, inl, inr, true, false, none, List, [], ◌∷◌, Text, arith, Bool-cases, text_eq_iff,
  text_ltb_irrefl, text_ltb_trans, text_ltb-total, All,
}
use mathlib.Core.List.{Perm}
use mathlib.Core.List.Perm
use realtime_meeting_transla.Prelude.Dict.{Dict, lookup, IsDistinct, AllEntries}
use realtime_meeting_transla.Projection.State.{SegmentProjection, SessionProjection}
use realtime_meeting_transla.Projection.Views.{
  values, before, insert_sorted, sorted, ordered_segments,
}
use realtime_meeting_transla.Projection.Invariant.{IsEntry, IsValid}

pub before_irrefl : (a : SegmentProjection) → before a a ≡ false
unfolding before
before_irrefl a = ground (arith, text_ltb_irrefl a.segment_id)

pub before_trans :
    (a b c : SegmentProjection) → before a b ≡ true → before b c ≡ true → before a c ≡ true
unfolding before
before_trans a b c h k = ground (arith, text_ltb_trans a.segment_id b.segment_id c.segment_id)

before-total :
    (a b : SegmentProjection) → a.segment_id ≢ b.segment_id → before a b ≡ false → before b a ≡ true
unfolding before
before-total a b ne h = ground (arith, text_ltb-total a.segment_id b.segment_id)

-- Each element is before all that follow it.
abbrev pub IsStrict : List SegmentProjection → Type 0
IsStrict [] = Unit
IsStrict (a ∷ l) = All (λ b. before a b ≡ true) l × IsStrict l

module _ (P : SegmentProjection → Type 0) where
  All-insert_sorted :
      (a : SegmentProjection) (l : List SegmentProjection)
      → P a
      → All P l
      → All P (insert_sorted a l)
  unfolding insert_sorted
  All-insert_sorted a [] p h = (p, tt)
  All-insert_sorted a (b ∷ l) p h = elim (Bool-cases (before b a)) [
    | inl later ↦ rw later (h.0, All-insert_sorted a l p h.1)
    | inr here ↦ rw here (p, h)
  ]

  All-sorted : (l : List SegmentProjection) → All P l → All P (sorted l)
  unfolding sorted
  All-sorted [] h = tt
  All-sorted (a ∷ l) h = All-insert_sorted a (sorted l) h.0 (All-sorted l h.1)

  All-map :
      (Q : SegmentProjection → Type 0) (l : List SegmentProjection)
      → ((b : SegmentProjection) → P b → Q b)
      → All P l
      → All Q l
  All-map Q [] f h = tt
  All-map Q (b ∷ l) f h = (f b h.0, All-map Q l f h.1)

insert_sorted-IsStrict :
    (a : SegmentProjection) (l : List SegmentProjection)
    → All (λ b. b.segment_id ≢ a.segment_id) l
    → IsStrict l
    → IsStrict (insert_sorted a l)
unfolding insert_sorted
insert_sorted-IsStrict a [] ne h = (tt, tt)
insert_sorted-IsStrict a (b ∷ l) ne h = elim (Bool-cases (before b a)) [
  | inl later ↦ rw later (
    All-insert_sorted (λ c. before b c ≡ true) a l later h.0,
    insert_sorted-IsStrict a l ne.1 h.1,
  )
  | inr here ↦
      let first = before-total b a ne.0 here in
      rw here (
        (
          first,
          All-map (λ c. before b c ≡ true) (λ c. before a c ≡ true) l
              (λ c. before_trans a b c first) h.0,
        ),
        h,
      )
]

-- The ids of the values are the keys, which are distinct.
values-apart :
    (k : Text) (d : Dict SegmentProjection)
    → AllEntries IsEntry d
    → lookup k d ≡ none
    → All (λ b. b.segment_id ≢ k) (values d)
unfolding values lookup
values-apart k [] h n = tt
values-apart k ((j, g) ∷ d) h n =
    let id = h.0.0 in
    (λ e. ground (arith, text_eq_iff j k), values-apart k d h.1 (ground (arith, text_eq_iff j k)))

sorted-values-IsStrict :
    (d : Dict SegmentProjection)
    → AllEntries IsEntry d
    → IsDistinct d
    → IsStrict (sorted (values d))
unfolding sorted values
sorted-values-IsStrict [] h n = tt
sorted-values-IsStrict ((k, g) ∷ d) h n =
    insert_sorted-IsStrict g (sorted (values d))
      (All-sorted (λ b. b.segment_id ≢ g.segment_id) (values d)
        (rw h.0.0 (values-apart k d h.1 n.0)))
      (sorted-values-IsStrict d h.1 n.1)

insert_sorted-perm :
    (a : SegmentProjection) (l : List SegmentProjection) → Perm (insert_sorted a l) (a ∷ l)
unfolding insert_sorted
insert_sorted-perm a [] = Perm.refl (a ∷ [])
insert_sorted-perm a (b ∷ l) = elim (Bool-cases (before b a)) [
  | inl later ↦ rw later (Perm.trans (Perm.cons b (insert_sorted-perm a l)) (Perm.swap a b l))
  | inr here ↦ rw here (Perm.refl (a ∷ b ∷ l))
]

sorted-perm : (l : List SegmentProjection) → Perm (sorted l) l
unfolding sorted
sorted-perm [] = Perm.refl []
sorted-perm (a ∷ l) = Perm.trans (insert_sorted-perm a (sorted l)) (Perm.cons a (sorted-perm l))

-- In a valid session, `ordered_segments` holds every segment once, each strictly before the next
-- by start sample and id.
pub ordered_segments-IsStrict :
    (s : SessionProjection)
    → IsValid s
    → IsStrict (ordered_segments s) × Perm (ordered_segments s) (values s.segments)
unfolding ordered_segments
ordered_segments-IsStrict s v =
    (sorted-values-IsStrict s.segments v.entries v.distinct, sorted-perm (values s.segments))
