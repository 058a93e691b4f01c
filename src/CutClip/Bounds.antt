-- ===== src/CutClip/Bounds.antt =====
-- The range that `resolve_bounds` accepts (tools/cut_clip.py).
use realtime_meeting_transla.Prelude.{◌≡◌, ◌↔◌, some, arith, Option-cases, inl, inr}
use realtime_meeting_transla.Prelude.Int.{ℤ, pos, ◌≤ℤ◌, ◌<ℤ◌}
use realtime_meeting_transla.CutClip.{
  Arguments, Recording, resolve_bound, check_range, resolve_bounds,
}

check_range-some :
    (s e s' e' : ℤ) (r : Recording)
    → check_range s e r ≡ some (s', e')
    → (s ≡ s') × (e ≡ e') × (pos 0 ≤ℤ s) × (s <ℤ e) × (e ≤ℤ r.frames)
unfolding check_range
check_range-some s e s' e' r h = ground arith

check_range-ok :
    (s e : ℤ) (r : Recording)
    → pos 0 ≤ℤ s
    → s <ℤ e
    → e ≤ℤ r.frames
    → check_range s e r ≡ some (s, e)
unfolding check_range
check_range-ok s e r a b c = ground arith

-- `resolve_bounds` returns a range exactly if each bound is given, in samples or in milliseconds
-- and not in both, and the range is not empty and lies within the recording.
pub resolve_bounds_iff :
    (args : Arguments) (r : Recording) (s e : ℤ)
    → (resolve_bounds args r ≡ some (s, e)) ↔ (
        (resolve_bound args.start_sample args.start_ms ≡ some s)
        × (resolve_bound args.end_sample args.end_ms ≡ some e)
        × (pos 0 ≤ℤ s)
        × (s <ℤ e)
        × (e ≤ℤ r.frames))
unfolding resolve_bounds
resolve_bounds_iff args r s e = (
  λ h. elim (Option-cases (resolve_bound args.start_sample args.start_ms)) [
    | inl missing ↦ absurd (let k = rw missing at h in ground arith)
    | inr (s', at_s) ↦ elim (Option-cases (resolve_bound args.end_sample args.end_ms)) [
      | inl missing ↦ absurd (let k = rw (at_s, missing) at h in ground arith)
      | inr (e', at_e) ↦
          let (ps, pe, a, b, c) = check_range-some s' e' s e r (rw (at_s, at_e) at h) in
          rw (← ps, ← pe) (at_s, at_e, a, b, c)
    ]
  ],
  λ h. rw (h.0, h.1) (check_range-ok s e r h.2 h.3 h.4),
)
