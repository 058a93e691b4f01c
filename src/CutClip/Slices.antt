-- ===== src/CutClip/Slices.antt =====
-- A clip is a slice of its source, exact to the sample (tools/cut_clip.py).
use realtime_meeting_transla.Prelude.{
  ℕ, ◌-◌, ◌≤◌, ◌≡◌, refl, ap, sym, ◌∙◌, true, ◌||◌, some, List, ◌++◌, arith, Bool-cases, inl, inr,
  length, take, drop, length-take, length-drop, drop-drop, take-take-drop,
}
use mathlib.Core.Option.{some-injective}
use realtime_meeting_transla.Prelude.Int.{ℤ, pos, negsuc, pos_part, ◌-ℤ◌, ◌≤ℤ◌, ◌<ℤ◌, ltb_ℤ, eqb_ℤ}
use realtime_meeting_transla.CutClip.{Recording}
use realtime_meeting_transla.CutClip.Audio.{
  Wav, Platform, Disk, source_content, read_range, slice, cut_samples,
}

-- Both the rate and the channels of a file are those of the manifest.
abbrev pub IsFormat : Recording → Wav → Type 0
IsFormat recording source =
    (pos source.frame_rate ≡ recording.sample_rate_hz) × (pos source.channels ≡ recording.channels)

eqb_ℤ_refl : (a b : ℤ) → a ≡ b → eqb_ℤ a b ≡ true
eqb_ℤ_refl a b h = ground (arith, h)

-- The frames from one sample offset to another.
abbrev pub between : ℕ → ℕ → Wav → Wav
between start end source = record source { frames = take (end - start) (drop start source.frames) }

range_some :
    (start end : ℕ) (source : Wav)
    → start ≤ end
    → start ≤ length source.frames
    → read_range source (pos start) (pos end) ≡ some (take (end - start) (drop start source.frames))
unfolding read_range
range_some start end source h k =
    let count : pos_part (pos end -ℤ pos start) ≡ end - start = unfold ◌-ℤ◌ in ground arith in
    rw count (ground arith)

-- The frames of whatever clip is cut.
pub slice-frames :
    (recording : Recording) (start end : ℤ) (source clip : Wav)
    → slice recording start end source ≡ some clip
    → clip.frames ≡ take (pos_part (end -ℤ start)) (drop (pos_part start) source.frames)
unfolding slice read_range
slice-frames recording start end source clip h =
    elim (Bool-cases (eqb_ℤ (pos source.frame_rate) recording.sample_rate_hz)) [
      | inr bad ↦ absurd (let k = rw (slice, bad) at h in ground arith)
      | inl rate ↦ elim (Bool-cases (eqb_ℤ (pos source.channels) recording.channels)) [
        | inr bad ↦ absurd (let k = rw (slice, rate, bad) at h in ground arith)
        | inl channels ↦
            elim (Bool-cases (ltb_ℤ start (pos 0) || ltb_ℤ (pos (length source.frames)) start)) [
              | inl bad ↦ absurd (let k = rw (slice, rate, channels, bad) at h in ground arith)
              | inr inside ↦
                  let e = some-injective _ _ (rw (slice, rate, channels, inside) at h) in
                  sym (ap (λ c. c.frames) e)
            ]
      ]
    ]

-- A clip of a range within its source has as many frames as the range.
pub slice-count :
    (recording : Recording) (start end : ℤ) (source clip : Wav)
    → slice recording start end source ≡ some clip
    → pos 0 ≤ℤ start
    → start <ℤ end
    → end ≤ℤ pos (length source.frames)
    → pos (length clip.frames) ≡ end -ℤ start
slice-count recording (negsuc n) end source clip h a b c = absurd (ground arith)
slice-count recording (pos n) (negsuc m) source clip h a b c = absurd (ground arith)
slice-count recording (pos n) (pos m) source clip h a b c =
    let count : pos_part (pos m -ℤ pos n) ≡ m - n = unfold ◌-ℤ◌ in ground arith in
    let difference : pos m -ℤ pos n ≡ pos (m - n) = unfold ◌-ℤ◌ in ground arith in
    ap (λ l. pos (length l)) (slice-frames recording (pos n) (pos m) source clip h)
    ∙ ap (λ k. pos (length (take k (drop n source.frames)))) count
    ∙ ap pos (
        length-take (m - n) (drop n source.frames)
          (omega (arith, length-drop n source.frames, a, b, c)))
    ∙ sym difference

slice-some :
    (recording : Recording) (start end : ℕ) (source : Wav)
    → IsFormat recording source
    → start ≤ end
    → start ≤ length source.frames
    → slice recording (pos start) (pos end) source ≡ some (between start end source)
unfolding slice
slice-some recording start end source (rate, channels) h k =
    rw
      (
        slice,
        eqb_ℤ_refl (pos source.frame_rate) recording.sample_rate_hz rate,
        eqb_ℤ_refl (pos source.channels) recording.channels channels,
        range_some start end source h k,
      )
      refl

module _ (platform : Platform) (disk : Disk) (recording : Recording) (content : List ℕ)
    (source : Wav) (there : source_content platform disk recording ≡ some content)
    (opened : platform.open_wav content ≡ some source) (format : IsFormat recording source) where
  cut_samples-some :
      (start end : ℕ)
      → start ≤ end
      → start ≤ length source.frames
      → cut_samples platform disk recording (pos start) (pos end) ≡ some (between start end source)
  unfolding cut_samples
  cut_samples-some start end h k =
      rw (cut_samples, there, opened) (slice-some recording start end source format h k)

  length-between :
      (start end : ℕ)
      → start ≤ end
      → end ≤ length source.frames
      → length (between start end source).frames ≡ end - start
  length-between start end h k =
      length-take (end - start) (drop start source.frames)
        (omega (arith, length-drop start source.frames))

  between-between :
      (a b c : ℕ)
      → a ≤ b
      → b ≤ c
      → (between a b source).frames ++ (between b c source).frames ≡ (between a c source).frames
  between-between a b c h k =
      let offset : drop b source.frames ≡ drop (b - a) (drop a source.frames) =
        ap (λ n. drop n source.frames) (omega (arith, h))
        ∙ sym (drop-drop (b - a) a source.frames) in
      ap (λ l. take (b - a) (drop a source.frames) ++ take (c - b) l) offset
      ∙ take-take-drop (b - a) (c - b) (drop a source.frames)
      ∙ ap (λ n. take n (drop a source.frames)) (omega (arith, h, k))

  -- Where the source has the format that the manifest says, two ranges that meet are both cut; the
  -- clip of the first has as many samples as its range; and the clips joined are, sample by
  -- sample, the clip of the whole range.
  pub cut_samples-adjacent :
      (a b c : ℕ)
      → a ≤ b
      → b ≤ c
      → c ≤ length source.frames
      → (x y z : Wav) × (cut_samples platform disk recording (pos a) (pos b) ≡ some x)
        × (cut_samples platform disk recording (pos b) (pos c) ≡ some y)
        × (cut_samples platform disk recording (pos a) (pos c) ≡ some z)
        × (x.frames ++ y.frames ≡ z.frames)
        × (length x.frames ≡ b - a)
  cut_samples-adjacent a b c h k l = (
    between a b source,
    between b c source,
    between a c source,
    cut_samples-some a b h (omega (arith, h, k, l)),
    cut_samples-some b c k (omega (arith, h, k, l)),
    cut_samples-some a c (omega (arith, h, k, l)) (omega (arith, h, k, l)),
    between-between a b c h k,
    length-between a b h (omega (arith, h, k, l)),
  )
