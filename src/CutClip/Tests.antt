-- ===== src/CutClip/Tests.antt =====
-- The properties of tools/cut_clip.py at one recording with a locked range.
use realtime_meeting_transla.Prelude.{
  ℕ, ◌≡◌, ◌⊎◌, refl, arith, true, false, none, some, List, [], ◌∷◌, ◌++◌, Text, codes, text_eq, inl,
  inr, Option, length, take, drop, ap, sym, ◌∙◌, All, Bool-cases, if◌then◌else◌,
}
use mathlib.Core.Option.{some-injective}
use realtime_meeting_transla.Prelude.Int.{pos, ◌-ℤ◌, ◌≤ℤ◌}
use realtime_meeting_transla.Prelude.Dict.{lookup, insert}
use realtime_meeting_transla.Prelude.Sorting.{In}
use realtime_meeting_transla.CutClip.{
  Recording, SplitRange, ManifestEntry, Manifest, Arguments, lower, load_splits, all_ranges,
  split_ranges, resolve_bound, resolve_bounds, check_range, check_locked_set, permit, touches,
  range_intersects, find_recording,
}
use realtime_meeting_transla.CutClip.Locked.{check_locked_set-kept}
use realtime_meeting_transla.CutClip.Audio.{
  Wav, Platform, source_content, verify_source, read_range, slice, cut_samples, write_wav,
}
use realtime_meeting_transla.CutClip.Slices.{between, cut_samples-adjacent}
use realtime_meeting_transla.CutClip.Provenance.{
  IsCited, IsLocating, IsTruthful, IsOverwritten, main-IsCited,
}
use realtime_meeting_transla.CutClip.Ledger.{
  ClipEntry, World, prepare, write_clip, append_clip_entry, manifest_location, main, has_clip,
  has_label, clip_name,
}
use realtime_meeting_transla.HashFile.{Floats}
use realtime_meeting_transla.HashFile.Clips.{Verifies, main-Verifies}

abbrev source_bytes : List ℕ
source_bytes = 0 ∷ 1 ∷ 2 ∷ 3 ∷ 4 ∷ 5 ∷ 6 ∷ 7 ∷ []

-- The hash is the content itself.
abbrev meeting : Recording
meeting = record {
  recording_id = codes "m";
  path = codes "m.wav";
  sha256 = source_bytes;
  sample_rate_hz = pos 16000;
  channels = pos 1;
  frames = pos 4;
}

abbrev meeting_entry : ManifestEntry
meeting_entry = record {
  id = codes "m";
  location = codes "m.wav";
  sha256 = source_bytes;
  sample_rate_hz = pos 16000;
  channels = pos 1;
  frames = pos 4;
}

abbrev locked_range : SplitRange
locked_range = record { split = codes "locked"; start_sample = pos 2; end_sample = pos 3 }

abbrev splits : List SplitRange
splits = locked_range ∷ []

abbrev loaded : Option Manifest
loaded = some (record {
  recordings = meeting_entry ∷ [];
  splits = some ((codes "locked", some ((pos 2, pos 3) ∷ [])) ∷ (codes "tuning", none) ∷ []);
})

abbrev early : Arguments
early = record {
  source = codes "m";
  start_sample = some (pos 0);
  end_sample = some (pos 2);
  start_ms = none;
  end_ms = none;
  labels = codes "noise" ∷ [];
  reviewed_by = codes "r";
  name = codes "d";
  note = [];
  out_dir = codes "clips";
  evaluation_run = false;
  purpose = [];
  dry_run = false;
}

-- An evaluation run into the locked range.
abbrev evaluation : Arguments
evaluation = record early {
  start_sample = some (pos 1);
  end_sample = some (pos 3);
  evaluation_run = true;
  purpose = codes "wer";
}

apart : check_locked_set splits (pos 3) (pos 9) false [] ≡ some []
unfolding check_locked_set permit touches range_intersects text_eq
apart = refl

-- The range begins where the locked one ends.
check_locked_set-kept_example : pos 3 ≤ℤ pos 5
check_locked_set-kept_example =
    check_locked_set-kept splits locked_range (pos 3) (pos 9) (pos 5) [] [] apart (inl refl) refl
      (omega arith) (omega arith) (omega arith)

abbrev source : Wav
source = record {
  frame_rate = 16000;
  channels = 1;
  sample_width = 2;
  frames = (0 ∷ 1 ∷ []) ∷ (2 ∷ 3 ∷ []) ∷ (4 ∷ 5 ∷ []) ∷ (6 ∷ 7 ∷ []) ∷ [];
}

unfoldable frame_bytes : List (List ℕ) → List ℕ
frame_bytes [] = []
frame_bytes (frame ∷ frames) = frame ++ frame_bytes frames

-- A WAV file is its frames, and only that of the source is read. Two paths that differ are two
-- files, and the tool runs at the root of the repository.
abbrev platform : Platform
platform = record {
  sha256 = λ bytes. bytes;
  open_wav = λ content. if text_eq content source_bytes then some source else none;
  wav_bytes = λ wav. frame_bytes wav.frames;
  file_of = λ path. path;
  stem = λ path. take 1 (drop 6 path);
  join_path = λ directory name. directory ++ b'/' ∷ name;
  in_repository = λ path. path;
  relative_to_root = λ path. some path;
  as_posix = λ path. path;
}

abbrev old_clip : Wav
old_clip = between 0 2 source

abbrev old_entry : ClipEntry
old_entry = record {
  clip_id = codes "c";
  source_recording_id = codes "m";
  source_file_sha256 = source_bytes;
  start_sample = pos 0;
  end_sample = pos 2;
  start_ms = pos 0;
  end_ms = pos 0;
  sample_count = pos 2;
  clip_sha256 = 0 ∷ 1 ∷ 2 ∷ 3 ∷ [];
  location = codes "clips/c.wav";
  labels = codes "noise" ∷ [];
  reviewed_by = codes "r";
  note = [];
}

abbrev world : World
world = record {
  disk = (codes "m.wav", source_bytes) ∷ (codes "clips/c.wav", 0 ∷ 1 ∷ 2 ∷ 3 ∷ []) ∷ [];
  clips = old_entry ∷ [];
  accesses = [];
}

-- A run whose clip has the id, and so the file, of the old entry.
abbrev reusing : Arguments
reusing = record evaluation { name = codes "c" }

-- The old clip is gone, its entry is as it was, and no line of the access log tells of the run.
overwritten : main platform loaded reusing world ≡ (
  record world {
    disk = (codes "m.wav", source_bytes) ∷ (codes "clips/c.wav", 2 ∷ 3 ∷ 4 ∷ 5 ∷ []) ∷ [];
  },
  1,
)
unfolding main prepare has_label find_recording lower load_splits all_ranges split_ranges
    resolve_bounds resolve_bound check_range check_locked_set permit touches range_intersects
    text_eq clip_name verify_source lookup insert write_clip cut_samples write_wav slice read_range
    ◌-ℤ◌ append_clip_entry has_clip frame_bytes
overwritten = refl

frames_of :
    (id : Text) (recording : Recording)
    → find_recording (meeting_entry ∷ []) id ≡ some recording
    → recording.frames ≡ pos 4
unfolding find_recording
frames_of id recording h = elim (Bool-cases (text_eq (codes "m") id)) [
  | inl hit ↦ sym (ap (λ r. r.frames) (some-injective _ recording (rw hit at h)))
  | inr miss ↦ absurd (let k = rw miss at h in ground arith)
]

loaded-IsTruthful : IsTruthful platform loaded
loaded-IsTruthful recording content wav (manifest, id, e, known) hash opened =
    let same = some-injective _ _ e in
    let own : find_recording (meeting_entry ∷ []) id ≡ some recording =
      ap (λ m. find_recording m.recordings id) same ∙ known in
    elim (Bool-cases (text_eq content source_bytes)) [
      | inl whole ↦
          let wav_same = some-injective source wav (rw whole at opened) in
          sym (ap (λ w. pos (length w.frames)) wav_same) ∙ sym (frames_of id recording own)
      | inr other ↦ absurd (let k = rw other at opened in ground arith)
    ]

locating : IsLocating platform
unfolding manifest_location
locating path = refl

world-IsCited : All (IsCited platform world.disk) world.clips
unfolding lookup text_eq frame_bytes
world-IsCited = ((old_clip, refl, refl, refl), tt)

old_entry_kept : In old_entry (main platform loaded evaluation world).0.clips
unfolding main prepare has_label find_recording lower load_splits all_ranges split_ranges
    resolve_bounds resolve_bound check_range check_locked_set permit touches range_intersects
    text_eq clip_name verify_source lookup insert write_clip cut_samples write_wav slice read_range
    append_clip_entry has_clip
old_entry_kept = inl refl

main-IsCited_example :
    IsCited platform (main platform loaded evaluation world).0.disk old_entry
    ⊎ IsOverwritten platform loaded evaluation world old_entry
main-IsCited_example =
    main-IsCited platform loaded evaluation world locating loaded-IsTruthful world-IsCited old_entry
      old_entry_kept

source_there : source_content platform world.disk meeting ≡ some source_bytes
unfolding lookup text_eq
source_there = refl

source_opens : platform.open_wav source_bytes ≡ some source
unfolding text_eq
source_opens = refl

cut_samples-adjacent_example :
    (x y z : Wav) × (cut_samples platform world.disk meeting (pos 0) (pos 1) ≡ some x)
    × (cut_samples platform world.disk meeting (pos 1) (pos 3) ≡ some y)
    × (cut_samples platform world.disk meeting (pos 0) (pos 3) ≡ some z)
    × (x.frames ++ y.frames ≡ z.frames)
    × (length x.frames ≡ 1)
cut_samples-adjacent_example =
    cut_samples-adjacent platform world.disk meeting source_bytes source source_there source_opens
      (refl, refl) 0 1 3 (omega arith) (omega arith) (omega arith)

-- Float texts are not looked at.
abbrev floats : Floats
floats = record {
  Float = ℕ;
  quotient = λ a b. a;
  three_digits = λ x. [];
  times_16000 = λ x. x;
  minutes = λ x. x;
  remainder = λ x. [];
}

main-Verifies_example :
    Verifies floats platform (main platform loaded evaluation world).0.disk old_entry
    ⊎ IsOverwritten platform loaded evaluation world old_entry
main-Verifies_example =
    main-Verifies floats platform loaded evaluation world locating loaded-IsTruthful world-IsCited
      old_entry old_entry_kept
