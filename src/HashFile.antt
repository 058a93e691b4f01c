-- ===== src/HashFile.antt =====
-- tools/hash_file.py: the provenance of a source file, printed, and its hash checked.
mod Tests
pub mod Commas
pub mod Documented
pub mod Clips
use realtime_meeting_transla.Prelude.{
  ℕ, suc, ◌+◌, ◌%◌, ◌*◌, Bool, true, false, not, ◌&&◌, Option, none, some, List, [], ◌∷◌, ◌++◌,
  Text, codes, show, text_eq, if◌then◌else◌, length, ◌==◌,
}
use realtime_meeting_transla.CutClip.{lower}
use realtime_meeting_transla.Hashing.{sha256_of}
use realtime_meeting_transla.Traceability.Cells.{is_empty, join}

-- What the tool does with floating-point numbers: a quotient, its text with three digits behind the
-- point, `int(seconds * 16000)`, and the parts of `divmod(seconds, 60)`, the first as a number and
-- the second with two digits.
pub record Floats : Type 1 where
  pub Float : Type 0
  pub quotient : ℕ → ℕ → Float
  pub three_digits : Float → Text
  pub times_16000 : Float → ℕ
  pub minutes : Float → ℕ
  pub remainder : Float → Text

-- The format fields of a WAV file as `wave` reads them, or the text of its `wave.Error`, or the
-- `EOFError` that it raises on a file that is empty or cut short.
pub data WavHeader : Type 0 where
  header : ℕ → ℕ → ℕ → ℕ → WavHeader
  unreadable : Text → WavHeader
  eof_error : WavHeader

-- A path, the file there, and what `wave` makes of it.
pub record Source : Type 0 where
  pub path : Text
  pub name : Text
  pub suffix : Text
  pub content : Option (List ℕ)
  pub wav : WavHeader

-- `WAV_ENCODING_BY_WIDTH.get(width, …)`
unfoldable pub wav_encoding : ℕ → Text
wav_encoding width =
    if width == 1
    then codes "pcm_u8"
    else if width == 2
    then codes "pcm_s16le"
    else if width == 3
    then codes "pcm_s24le"
    else if width == 4
    then codes "pcm_s32le"
    else codes "pcm_" ++ show (width * 8) ++ codes "bit"

-- `suffix.lstrip(".")`
unfoldable pub lstrip_dots : Text → Text
lstrip_dots [] = []
lstrip_dots (c ∷ s) = let rest = lstrip_dots s in if c == b'.' then rest else c ∷ s

unfoldable pub container_of : Text → Text
unfolding lower lstrip_dots is_empty
container_of suffix =
    let container = lower (lstrip_dots suffix) in
    if is_empty container then codes "unknown" else container

-- `f"{n:,}"`: a comma before each three digits from the end.
unfoldable pub commas : Text → Text
commas [] = []
commas (c ∷ s) =
    let rest = commas s in
    if length s % 3 == 0 && not (length s == 0) then c ∷ b',' ∷ rest else c ∷ rest

unfoldable pub show_commas : ℕ → Text
unfolding commas
show_commas n = commas (show n)

module _ (floats : Floats) where
  pub record AudioProvenance : Type 0 where
    pub path : Text
    pub name : Text
    pub sha256 : Text
    pub size_bytes : ℕ
    pub container : Text
    pub codec : Option Text
    pub sample_rate_hz : Option ℕ
    pub channels : Option ℕ
    pub sample_width_bytes : Option ℕ
    pub frames : Option ℕ
    pub duration_seconds : Option floats.Float
    pub note : Option Text

  abbrev pub canonical_samples : AudioProvenance → Option ℕ
  canonical_samples provenance = elim provenance.duration_seconds [
    | none ↦ none
    | some seconds ↦ some (floats.times_16000 seconds)
  ]

  -- `read_wav_properties`, set on the provenance by `inspect`; `none` is the `EOFError`, which
  -- nothing catches.
  unfoldable pub with_wav : WavHeader → AudioProvenance → Option AudioProvenance
  unfolding wav_encoding
  with_wav eof_error provenance = none
  with_wav (unreadable error) provenance =
      some (record provenance { note = some (codes "not a readable PCM WAV: " ++ error) })
  with_wav (header channels width rate frames) provenance = some (record provenance {
    codec = some (wav_encoding width);
    sample_rate_hz = some rate;
    channels = some channels;
    sample_width_bytes = some width;
    frames = some frames;
    duration_seconds = if rate == 0 then none else some (floats.quotient frames rate);
  })

  unfoldable pub with_format : WavHeader → AudioProvenance → Option AudioProvenance
  unfolding with_wav
  with_format wav provenance =
      if text_eq provenance.container (codes "wav")
      then with_wav wav provenance
      else some (record provenance {
        note = some (
            provenance.container
            ++ codes
                " is not readable by the standard library; format fields must be filled in by hand or by a Phase 1 tool");
      })

  -- How a call of `inspect` ends: with the `SystemExit` of a path that is no file, with the
  -- `EOFError` of `wave`, or with a provenance.
  pub data Inspected : Type 0 where
    missing : Inspected
    cut_short : Inspected
    inspected : AudioProvenance → Inspected

  abbrev pub new_provenance : (List ℕ → Text) → Source → List ℕ → AudioProvenance
  new_provenance digest source content = record {
    path = source.path;
    name = source.name;
    sha256 = digest content;
    size_bytes = length content;
    container = container_of source.suffix;
    codec = none;
    sample_rate_hz = none;
    channels = none;
    sample_width_bytes = none;
    frames = none;
    duration_seconds = none;
    note = none;
  }

  unfoldable pub inspect : (List ℕ → Text) → Source → Inspected
  unfolding with_format container_of
  inspect digest source = elim source.content [
    | none ↦ missing
    | some content ↦ elim (with_format source.wav (new_provenance digest source content)) [
      | none ↦ cut_short
      | some provenance ↦ inspected provenance
    ]
  ]

  -- A line of a field that may be absent.
  unfoldable pub field_line : {A : Type 0} → Text → (A → Text) → Option A → List Text
  field_line key text none = []
  field_line key text (some value) = (key ++ text value) ∷ []

  unfoldable pub format_duration : floats.Float → Text
  format_duration seconds =
      show (floats.minutes seconds) ++ codes "m " ++ floats.remainder seconds ++ codes "s"

  abbrev pub same_text : Text → Text
  same_text s = s

  unfoldable pub human_lines : AudioProvenance → List Text
  unfolding field_line show_commas format_duration
  human_lines provenance =
      (codes "path                 " ++ provenance.path)
        ∷ (codes "sha256               " ++ provenance.sha256)
        ∷ (codes "size_bytes           " ++ show_commas provenance.size_bytes)
        ∷ (codes "container            " ++ provenance.container)
        ∷ field_line (codes "codec                ") same_text provenance.codec
      ++ field_line (codes "sample_rate_hz       ") show_commas provenance.sample_rate_hz
      ++ field_line (codes "channels             ") show provenance.channels
      ++ field_line (codes "sample_width_bytes   ") show provenance.sample_width_bytes
      ++ field_line (codes "frames               ") show_commas provenance.frames
      ++ field_line (codes "duration_seconds     ")
          (λ seconds.
            floats.three_digits seconds ++ codes "  (" ++ format_duration seconds ++ codes ")")
          provenance.duration_seconds
      ++ field_line (codes "canonical_16k_samples ") show_commas (canonical_samples provenance)
      ++ field_line (codes "note                 ") same_text provenance.note

  unfoldable pub render_human : AudioProvenance → Text
  unfolding join human_lines
  render_human provenance = join (10 ∷ []) (human_lines provenance)

  unfoldable pub yaml_lines : AudioProvenance → List Text
  unfolding field_line
  yaml_lines provenance =
      (codes "- filename: " ++ provenance.name)
        ∷ (codes "  sha256: " ++ provenance.sha256)
        ∷ (codes "  size_bytes: " ++ show provenance.size_bytes)
        ∷ (codes "  container: " ++ provenance.container)
        ∷ field_line (codes "  codec: ") same_text provenance.codec
      ++ field_line (codes "  sample_rate_hz: ") show provenance.sample_rate_hz
      ++ field_line (codes "  channels: ") show provenance.channels
      ++ field_line (codes "  sample_width_bytes: ") show provenance.sample_width_bytes
      ++ field_line (codes "  frames: ") show provenance.frames
      ++ field_line (codes "  duration_seconds: ") floats.three_digits provenance.duration_seconds
      ++ field_line (codes "  canonical_16k_samples: ") show (canonical_samples provenance)
      ++ field_line (codes "  note: ") same_text provenance.note

  unfoldable pub render_yaml : AudioProvenance → Text
  unfolding join yaml_lines
  render_yaml provenance = join (10 ∷ []) (yaml_lines provenance)

  -- What `main` prints, and its exit code, which is 1 for a traceback too.
  pub data Report : Type 0 where
    not_a_file : Report
    eof_traceback : Report
    hash_mismatch : Text → Text → Report
    printed : Text → Report

  unfoldable pub exit_code : Report → ℕ
  exit_code not_a_file = 1
  exit_code eof_traceback = 1
  exit_code (hash_mismatch expected actual) = 1
  exit_code (printed text) = 0

  -- No `--expect-sha256` is an empty text here, which the code treats alike.
  unfoldable pub report : Bool → Text → AudioProvenance → Report
  unfolding render_yaml render_human lower is_empty
  report yaml expected provenance =
      if not (is_empty expected) && not (text_eq (lower provenance.sha256) (lower expected))
      then hash_mismatch (lower expected) provenance.sha256
      else printed (if yaml then render_yaml provenance else render_human provenance)

  unfoldable pub report_of : Bool → Text → Inspected → Report
  unfolding report
  report_of yaml expected missing = not_a_file
  report_of yaml expected cut_short = eof_traceback
  report_of yaml expected (inspected provenance) = report yaml expected provenance

  unfoldable pub main : (List ℕ → Text) → Bool → Text → Source → Report
  unfolding inspect report_of
  main digest yaml expected source = report_of yaml expected (inspect digest source)
