-- ===== src/HashFile/Tests.antt =====
-- The properties of tools/hash_file.py at one WAV file.
use realtime_meeting_transla.Prelude.{
  ℕ, ◌≡◌, refl, none, some, List, [], ◌∷◌, ◌++◌, Text, codes, text_eq,
}
use realtime_meeting_transla.CutClip.{lower}
use realtime_meeting_transla.Traceability.Cells.{is_empty}
use realtime_meeting_transla.HashFile.{
  Floats, header, eof_error, Source, AudioProvenance, lstrip_dots, container_of, inspect, inspected,
  cut_short, with_format, with_wav, wav_encoding,
}

-- Quotients of natural numbers for those of floating-point numbers.
abbrev floats : Floats
floats = record {
  Float = ℕ;
  quotient = λ a b. a;
  three_digits = λ x. [];
  times_16000 = λ x. x;
  minutes = λ x. x;
  remainder = λ x. [];
}

abbrev digest : List ℕ → Text
digest content = codes "ab"

-- A WAV file of two frames.
abbrev wav_file : List ℕ
wav_file =
    codes "RIFF"
    ++ 40 ∷ 0 ∷ 0 ∷ 0 ∷ []
    ++ codes "WAVEfmt "
    ++ 16 ∷ 0 ∷ 0 ∷ 0 ∷ 1 ∷ 0 ∷ 1 ∷ 0 ∷ 128 ∷ 62 ∷ 0 ∷ 0 ∷ 0 ∷ 125 ∷ 0 ∷ 0 ∷ 2 ∷ 0 ∷ 16 ∷ 0 ∷ []
    ++ codes "data"
    ++ 4 ∷ 0 ∷ 0 ∷ 0 ∷ 5 ∷ 0 ∷ 6 ∷ 0 ∷ []

abbrev source : Source
source = record {
  path = codes "d/m.wav";
  name = codes "m.wav";
  suffix = codes ".WAV";
  content = some wav_file;
  wav = header 1 2 16000 2;
}

abbrev provenance : AudioProvenance floats
provenance = record {
  path = codes "d/m.wav";
  name = codes "m.wav";
  sha256 = codes "ab";
  size_bytes = 48;
  container = codes "wav";
  codec = some (codes "pcm_s16le");
  sample_rate_hz = some 16000;
  channels = some 1;
  sample_width_bytes = some 2;
  frames = some 2;
  duration_seconds = some 2;
  note = none;
}

as_inspected : inspect floats digest source ≡ inspected provenance
unfolding inspect container_of lstrip_dots lower is_empty with_format with_wav wav_encoding text_eq
as_inspected = refl

-- The first bytes of a file whose rest is not there.
abbrev short_source : Source
short_source = record source { content = some (82 ∷ 73 ∷ []); wav = eof_error }

short_ends : inspect floats digest short_source ≡ cut_short
unfolding inspect container_of lstrip_dots lower is_empty with_format with_wav text_eq
short_ends = refl
