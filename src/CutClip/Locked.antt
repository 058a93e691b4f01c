-- ===== src/CutClip/Locked.antt =====
-- The guard on the locked evaluation set (tools/cut_clip.py).
use realtime_meeting_transla.Prelude.{
  ◌≡◌, ◌⊎◌, refl, sym, ◌∙◌, Bool, true, false, some, List, [], ◌∷◌, Text, text_eq, text_eq_iff,
  filterb, filterb_hit, filterb_miss, arith, Bool-cases, inl, inr,
}
use realtime_meeting_transla.Prelude.Int.{ℤ, ◌≤ℤ◌, ◌<ℤ◌}
use realtime_meeting_transla.CutClip.{
  SplitRange, range_intersects, touches, check_locked_set, permit, locked_split,
}

abbrev pub InRanges : SplitRange → List SplitRange → Type 0
InRanges span [] = ⊥
InRanges span (a ∷ l) = (span ≡ a) ⊎ InRanges span l

filterb_nil :
    (p : SplitRange → Bool) (l : List SplitRange) (span : SplitRange)
    → filterb p l ≡ []
    → InRanges span l
    → p span ≡ false
filterb_nil p [] span e i = absurd i
filterb_nil p (a ∷ l) span e i = elim (Bool-cases (p a)) [
  | inl hit ↦ absurd (let k = sym (filterb_hit p a l hit) ∙ e in ground arith)
  | inr miss ↦ elim i [
    | inl here ↦ rw here miss
    | inr later ↦ filterb_nil p l span (sym (filterb_miss p a l miss) ∙ e) later
  ]
]

permit-nil : (purpose : Text) (l t : List SplitRange) → permit false purpose l ≡ some t → l ≡ []
unfolding permit
permit-nil purpose [] t h = refl
permit-nil purpose (span ∷ l) t h = absurd (ground arith)

-- Without an evaluation run, a range that the guard lets pass shares no sample with a locked
-- range of the split: a sample of it that is not before the locked range is at or behind its end.
pub check_locked_set-kept :
    (splits : List SplitRange) (span : SplitRange) (s e x : ℤ) (purpose : Text)
    (t : List SplitRange)
    → check_locked_set splits s e false purpose ≡ some t
    → InRanges span splits
    → span.split ≡ locked_split
    → s ≤ℤ x
    → x <ℤ e
    → span.start_sample ≤ℤ x
    → span.end_sample ≤ℤ x
unfolding check_locked_set touches range_intersects
check_locked_set-kept splits span s e x purpose t h i l a b c =
    let none_touched = permit-nil purpose (filterb (touches s e) splits) t h in
    let apart = filterb_nil (touches s e) splits span none_touched i in
    let named : text_eq span.split locked_split ≡ true =
      (text_eq_iff span.split locked_split).1 l in
    ground (arith, apart, named)
