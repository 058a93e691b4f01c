-- ===== src/Timeline/Spans.antt =====
-- Spans and gaps (protocol/timeline.py).
use realtime_meeting_transla.Prelude.{
  ◌≡◌, refl, ◌↔◌, inl, inr, true, false, none, some, arith, Bool-cases,
}
use realtime_meeting_transla.Prelude.Int.{
  ℤ, pos, ◌+ℤ◌, ◌-ℤ◌, ◌<ℤ◌, ltb_ℤ, eqb_ℤ, -ℤ_parts, eq_of_parts,
}
use realtime_meeting_transla.Errors.{ErrorCode, Result, ok, err}
use realtime_meeting_transla.Timeline.{
  SampleSpan, make_span, sample_count, intersects, contains_sample, GapMeasurement, measure_gap,
}

-- The three outcomes of `measure_gap`, and what each means.
pub data Gap (p c n : ℤ) : Result GapMeasurement → Type 0 where
  overlap : n <ℤ p +ℤ c → Gap p c n (err ErrorCode.prot_sample_overlap)
  contiguous : n ≡ p +ℤ c → Gap p c n (ok (record { gap_samples = pos 0; span = none }))
  missing :
      (span : SampleSpan)
      → p +ℤ c <ℤ n
      → span.start_sample ≡ p +ℤ c
      → span.end_sample ≡ n
      → pos 0 <ℤ sample_count span
      → Gap p c n (ok (record { gap_samples = sample_count span; span = some span }))

not_before : (p c n : ℤ) → ltb_ℤ (n -ℤ (p +ℤ c)) (pos 0) ≡ false → ltb_ℤ n (p +ℤ c) ≡ false
not_before p c n h = ground (arith, -ℤ_parts n (p +ℤ c))

-- `measure_gap` raises PROT_SAMPLE_OVERLAP exactly if the next frame starts before the previous
-- one ends, measures nothing if it starts there, and otherwise measures the samples between, as a
-- span that is not empty.
pub measure_gap-Gap : (p c n : ℤ) → Gap p c n (measure_gap p c n)
unfolding measure_gap make_span sample_count
measure_gap-Gap p c n = elim (Bool-cases (ltb_ℤ (n -ℤ (p +ℤ c)) (pos 0))) [
  | inl h ↦ rw h (overlap (ground (arith, -ℤ_parts n (p +ℤ c))))
  | inr h ↦ elim (Bool-cases (eqb_ℤ (n -ℤ (p +ℤ c)) (pos 0))) [
    | inl z ↦ rw (h, z) (contiguous (eq_of_parts n (p +ℤ c) (ground (arith, -ℤ_parts n (p +ℤ c)))))
    | inr z ↦
        rw (h, z, not_before p c n h)
          (missing (record { start_sample = p +ℤ c; end_sample = n })
            (ground (arith, -ℤ_parts n (p +ℤ c))) refl refl (ground (arith, -ℤ_parts n (p +ℤ c))))
  ]
]

-- Two spans that are not empty intersect exactly if they share a sample.
pub intersects_iff :
    (a b : SampleSpan)
    → a.start_sample <ℤ a.end_sample
    → b.start_sample <ℤ b.end_sample
    → (intersects a b ≡ true)
      ↔ ((x : ℤ) × (contains_sample a x ≡ true) × (contains_sample b x ≡ true))
unfolding intersects contains_sample
intersects_iff a b ha hb = (
  λ h. elim (Bool-cases (ltb_ℤ a.start_sample b.start_sample)) [
    | inl l ↦ (b.start_sample, ground arith, ground arith)
    | inr l ↦ (a.start_sample, ground arith, ground arith)
  ],
  λ h. let (x, p, q) = h in ground arith,
)
