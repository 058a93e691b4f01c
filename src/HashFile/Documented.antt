-- ===== src/HashFile/Documented.antt =====
-- What `inspect` records of a file, and when `main` succeeds (tools/hash_file.py).
use realtime_meeting_transla.Prelude.{
  ℕ, ◌≡◌, ◌⊎◌, ◌↔◌, refl, ap, sym, subst, ◌∙◌, Bool, false, none, some, List, [], ◌∷◌, ◌++◌, Text,
  codes, arith, Option-cases, Bool-cases, inl, inr, text_eq, text_eq_iff, ◌==◌, length,
  if◌then◌else◌,
}
use mathlib.Core.Option.{some-injective}
use realtime_meeting_transla.CutClip.{lower}
use realtime_meeting_transla.Traceability.Cells.{is_empty}
use realtime_meeting_transla.HashFile.{
  Floats, WavHeader, header, unreadable, eof_error, Source, AudioProvenance, Inspected, missing,
  cut_short, inspected, new_provenance, wav_encoding, container_of, with_wav, with_format, inspect,
  exit_code, report, report_of, main,
}

module _ (floats : Floats) where
  -- All fields of the format are there and no note is needed, or none is there and a note says why.
  abbrev pub IsDocumented : AudioProvenance floats → Type 0
  IsDocumented p =
      ((codec : Text) × (rate : ℕ) × (channels : ℕ) × (width : ℕ) × (frames : ℕ) × (p.codec
          ≡ some codec)
        × (p.sample_rate_hz ≡ some rate)
        × (p.channels ≡ some channels)
        × (p.sample_width_bytes ≡ some width)
        × (p.frames ≡ some frames)
        × ((p.duration_seconds ≡ none) ↔ (rate ≡ 0))
        × (p.note ≡ none))
      ⊎ ((why : Text) × (p.note ≡ some why)
          × (p.codec ≡ none)
          × (p.sample_rate_hz ≡ none)
          × (p.channels ≡ none)
          × (p.sample_width_bytes ≡ none)
          × (p.frames ≡ none)
          × (p.duration_seconds ≡ none))

  -- A provenance of which no format field is set.
  abbrev IsBare : AudioProvenance floats → Type 0
  IsBare p =
      (p.codec ≡ none)
      × (p.sample_rate_hz ≡ none)
      × (p.channels ≡ none)
      × (p.sample_width_bytes ≡ none)
      × (p.frames ≡ none)
      × (p.duration_seconds ≡ none)
      × (p.note ≡ none)

  duration_iff :
      (frames rate : ℕ)
      → ((if rate == 0 then none else some (floats.quotient frames rate)) ≡ none) ↔ (rate ≡ 0)
  duration_iff frames rate = ground arith

  -- The file is a WAV file by its suffix, and `wave` raises its `EOFError` on it.
  abbrev pub IsCutShort : Source → Type 0
  IsCutShort source = (container_of source.suffix ≡ codes "wav") × (source.wav ≡ eof_error)

  -- The provenance of a header that is read, or not, for a reason that is noted.
  with_wav-IsDocumented :
      (wav : WavHeader) (p : AudioProvenance floats)
      → IsBare p
      → ((with_wav floats wav p ≡ none) × (wav ≡ eof_error))
        ⊎ ((q : AudioProvenance floats) × (with_wav floats wav p ≡ some q)
            × (q.sha256 ≡ p.sha256)
            × (q.size_bytes ≡ p.size_bytes)
            × IsDocumented q
            × ¬ wav ≡ eof_error)
  unfolding with_wav
  with_wav-IsDocumented eof_error p bare = inl (refl, refl)
  with_wav-IsDocumented (unreadable error) p (a, b, c, d, e, f, g) = inr (
    record p { note = some (codes "not a readable PCM WAV: " ++ error) },
    refl,
    refl,
    refl,
    inr (codes "not a readable PCM WAV: " ++ error, refl, a, b, c, d, e, f),
    λ h. ground arith,
  )
  with_wav-IsDocumented (header channels width rate frames) p (a, b, c, d, e, f, g) = inr (
    _,
    refl,
    refl,
    refl,
    inl (
      wav_encoding width,
      rate,
      channels,
      width,
      frames,
      refl,
      refl,
      refl,
      refl,
      refl,
      duration_iff frames rate,
      g,
    ),
    λ h. ground arith,
  )

  abbrev unread_note : AudioProvenance floats → Text
  unread_note p =
      p.container
      ++ codes
          " is not readable by the standard library; format fields must be filled in by hand or by a Phase 1 tool"

  with_format-IsDocumented :
      (wav : WavHeader) (p : AudioProvenance floats)
      → IsBare p
      → ((with_format floats wav p ≡ none) × (p.container ≡ codes "wav") × (wav ≡ eof_error))
        ⊎ ((q : AudioProvenance floats) × (with_format floats wav p ≡ some q)
            × (q.sha256 ≡ p.sha256)
            × (q.size_bytes ≡ p.size_bytes)
            × IsDocumented q
            × ¬ ((p.container ≡ codes "wav") × (wav ≡ eof_error)))
  unfolding with_format
  with_format-IsDocumented wav p bare = elim (Bool-cases (text_eq p.container (codes "wav"))) [
    | inl readable ↦
        let is_wav = (text_eq_iff p.container (codes "wav")).0 readable in
        elim (with_wav-IsDocumented wav p bare) [
          | inl (ended, short) ↦ inl (rw (with_format, readable) ended, is_wav, short)
          | inr (q, read, sha, size, documented, whole) ↦
              inr (
                q,
                rw (with_format, readable) read,
                sha,
                size,
                documented,
                λ (w, short). whole short,
              )
        ]
    | inr other ↦ inr (
      record p { note = some (unread_note p) },
      rw (with_format, other) refl,
      refl,
      refl,
      inr (unread_note p, refl, bare.0, bare.1, bare.2, bare.3, bare.4, bare.5),
      λ (w, short). absurd (let k = (text_eq_iff p.container (codes "wav")).1 w in ground arith),
    )
  ]

  module _ (digest : List ℕ → Text) (source : Source) where
    -- How `inspect` ends, by the file.
    abbrev pub IsInspection : Inspected floats → Type 0
    IsInspection missing = source.content ≡ none
    IsInspection cut_short =
        (content : List ℕ) × (source.content ≡ some content) × IsCutShort source
    IsInspection (inspected p) =
        (content : List ℕ) × (source.content ≡ some content)
        × (p.sha256 ≡ digest content)
        × (p.size_bytes ≡ length content)
        × IsDocumented p
        × ¬ IsCutShort source

    pub inspect-IsDocumented : IsInspection (inspect floats digest source)
    unfolding inspect
    inspect-IsDocumented = elim (Option-cases source.content) [
      | inl bad ↦
          let end : inspect floats digest source ≡ missing = simp (inspect, bad) in
          subst IsInspection (sym end) bad
      | inr (content, there) ↦
          elim (with_format-IsDocumented source.wav (new_provenance floats digest source content)
            (refl, refl, refl, refl, refl, refl, refl)) [
              | inl (ended, suffix, short) ↦
                  let end : inspect floats digest source ≡ cut_short =
                    simp (inspect, there, ended) in
                  subst IsInspection (sym end) (content, there, (suffix, short))
              | inr (q, read, sha, size, documented, whole) ↦
                  let end : inspect floats digest source ≡ inspected q =
                    simp (inspect, there, read) in
                  subst IsInspection (sym end) (content, there, sha, size, documented, whole)
            ]
    ]

    clash :
        (sha : Text) (c : ℕ) (expected : Text)
        → text_eq (lower sha) (lower (c ∷ expected)) ≡ false
        → ((c ∷ expected ≡ []) ⊎ (lower sha ≡ lower (c ∷ expected)))
        → ⊥
    clash sha c expected h (inl e) = ground arith
    clash sha c expected h (inr e) = ground (arith, text_eq_iff (lower sha) (lower (c ∷ expected)))

    report_iff :
        (yaml : Bool) (expected : Text) (p : AudioProvenance floats)
        → (exit_code floats (report floats yaml expected p) ≡ 0)
          ↔ ((expected ≡ []) ⊎ (lower p.sha256 ≡ lower expected))
    unfolding report exit_code is_empty
    report_iff yaml [] p = (λ h. inl refl, λ h. refl)
    report_iff yaml (c ∷ expected) p =
        elim (Bool-cases (text_eq (lower p.sha256) (lower (c ∷ expected)))) [
          | inl same ↦
              rw (report, same)
                (
                  (λ h. inr ((text_eq_iff (lower p.sha256) (lower (c ∷ expected))).0 same)),
                  (λ h. refl),
                )
          | inr differ ↦
              rw (report, differ)
                ((λ h. absurd (ground arith)), (λ h. absurd (clash p.sha256 c expected differ h)))
        ]

    -- The file is there and can be inspected, and no hash was expected, or this one was.
    abbrev pub Passes : Text → Type 0
    Passes expected =
        (content : List ℕ) × (source.content ≡ some content)
        × ¬ IsCutShort source
        × ((expected ≡ []) ⊎ (lower (digest content) ≡ lower expected))

    exit_iff :
        (yaml : Bool) (expected : Text) (end : Inspected floats)
        → IsInspection end
        → (exit_code floats (report_of floats yaml expected end) ≡ 0) ↔ Passes expected
    unfolding report_of exit_code
    exit_iff yaml expected missing gone = (
      λ h. absurd (ground arith),
      λ (content, there, whole, ok). absurd (let k = sym gone ∙ there in ground arith),
    )
    exit_iff yaml expected cut_short (content, there, short) =
        (λ h. absurd (ground arith), λ (other, here, whole, ok). absurd (whole short))
    exit_iff yaml expected (inspected p) (content, there, sha, size, documented, whole) =
        let (to, from) = report_iff yaml expected p in
        let Asked : Text → Type 0 = λ hash. (expected ≡ []) ⊎ (lower hash ≡ lower expected) in
        (
          λ h. (content, there, whole, subst Asked sha (to h)),
          λ (other, here, apart, ok). from (
              subst Asked (ap digest (some-injective other content (sym here ∙ there)) ∙ sym sha)
                ok),
        )

    pub main_exit_iff :
        (yaml : Bool) (expected : Text)
        → (exit_code floats (main floats digest yaml expected source) ≡ 0) ↔ Passes expected
    unfolding main
    main_exit_iff yaml expected =
        exit_iff yaml expected (inspect floats digest source) inspect-IsDocumented
