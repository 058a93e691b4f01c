-- ===== src/CutClip/Ledger.antt =====
-- tools/cut_clip.py: `main`, with the clip manifest and the access log of the locked set as state.
use realtime_meeting_transla.Prelude.{
  ℕ, Bool, true, false, ◌||◌, Option, none, some, List, [], ◌∷◌, ◌++◌, Text, codes, show, text_eq,
  text_ltb, if◌then◌else◌,
}
use realtime_meeting_transla.Prelude.Sorting.{sort_by}
use realtime_meeting_transla.Prelude.Int.{ℤ, pos_part, ◌-ℤ◌}
use realtime_meeting_transla.Timeline.{samples_to_ms}
use realtime_meeting_transla.CutClip.{
  Recording, SplitRange, Manifest, Arguments, find_recording, load_splits, resolve_bounds,
  check_locked_set, ◌>>=◌, raise_unless,
}
use realtime_meeting_transla.CutClip.Audio.{
  Wav, Platform, Disk, verify_source, cut_samples, write_wav,
}

-- An entry of the clip manifest, less its time and the constant `labels_reviewed`. An empty `note`
-- is one that is left out.
pub record ClipEntry : Type 0 where
  pub clip_id : Text
  pub source_recording_id : Text
  pub source_file_sha256 : Text
  pub start_sample : ℤ
  pub end_sample : ℤ
  pub start_ms : ℤ
  pub end_ms : ℤ
  pub sample_count : ℤ
  pub clip_sha256 : Text
  pub location : Text
  pub labels : List Text
  pub reviewed_by : Text
  pub note : Text

-- `sorted(labels)`
abbrev pub sorted_labels : List Text → List Text
sorted_labels labels = sort_by text_ltb labels

unfoldable pub manifest_location : Platform → Text → Text
manifest_location platform path = elim (platform.relative_to_root path) [
  | some relative ↦ platform.as_posix relative
  | none ↦ platform.as_posix path
]

-- `clip_sha256` is the hash of the file that was just written.
abbrev pub build_entry :
    Platform → Recording → Text → Text → ℤ → ℤ → List Text → Text → Text → ClipEntry
build_entry platform recording destination clip_sha256 start end labels reviewed_by note = record {
  clip_id = platform.stem destination;
  source_recording_id = recording.recording_id;
  source_file_sha256 = recording.sha256;
  start_sample = start;
  end_sample = end;
  start_ms = samples_to_ms start;
  end_ms = samples_to_ms end;
  sample_count = end -ℤ start;
  clip_sha256 = clip_sha256;
  location = manifest_location platform destination;
  labels = sorted_labels labels;
  reviewed_by = reviewed_by;
  note = note;
}

-- `clip_id in existing_ids`
unfoldable pub has_clip : Text → List ClipEntry → Bool
has_clip id [] = false
has_clip id (clip ∷ clips) = text_eq clip.clip_id id || has_clip id clips

unfoldable pub append_clip_entry : ClipEntry → List ClipEntry → Option (List ClipEntry)
append_clip_entry entry clips =
    if has_clip entry.clip_id clips then none else some (clips ++ entry ∷ [])

-- A line of the access log, less its date.
pub record Access : Type 0 where
  pub touched : List SplitRange
  pub start_sample : ℤ
  pub end_sample : ℤ
  pub purpose : Text

-- The files, the entries of the clip manifest, and the lines of the access log.
pub record World : Type 0 where
  pub disk : Disk
  pub clips : List ClipEntry
  pub accesses : List Access

-- `if touched: record_locked_access(…)`
unfoldable pub record_access : List SplitRange → ℤ → ℤ → Text → List Access → List Access
record_access [] start end purpose log = log
record_access (span ∷ spans) start end purpose log =
    log
    ++ record { touched = span ∷ spans; start_sample = start; end_sample = end; purpose = purpose }
      ∷ []

-- What `main` has decided before it writes.
pub record Cut : Type 0 where
  pub recording : Recording
  pub start : ℤ
  pub end : ℤ
  pub touched : List SplitRange
  pub destination : Text

unfoldable pub clip_name : Text → Recording → ℤ → ℤ → Text
clip_name [] recording start end =
    recording.recording_id ++ b'-' ∷ show (pos_part start) ++ b'-' ∷ show (pos_part end)
clip_name (c ∷ name) recording start end = c ∷ name

unfoldable pub has_label : List Text → Bool
has_label [] = false
has_label (label ∷ labels) = true

-- `f"{clip_id}.wav"`
abbrev pub file_name : Arguments → Recording → ℤ → ℤ → Text
file_name args recording start end = clip_name args.name recording start end ++ codes ".wav"

module _ (platform : Platform) where
  -- `none` is a source manifest that is missing or no mapping.
  unfoldable pub prepare : Option Manifest → Arguments → Disk → Option Cut
  unfolding verify_source load_splits
  prepare loaded args disk = do
    labelled ← raise_unless (has_label args.labels)
    manifest ← loaded
    recording ← find_recording manifest.recordings args.source
    (start, end) ← resolve_bounds args recording
    touched ← check_locked_set (load_splits manifest) start end args.evaluation_run args.purpose
    verified ← raise_unless (verify_source platform disk recording)
    some (record {
      recording = recording;
      start = start;
      end = end;
      touched = touched;
      destination = platform.join_path args.out_dir (file_name args recording start end);
    })

  abbrev pub entry_of : Arguments → Cut → Wav → ClipEntry
  entry_of args cut clip =
      build_entry platform cut.recording cut.destination (platform.sha256 (platform.wav_bytes clip))
        cut.start cut.end args.labels args.reviewed_by args.note

  -- The last lines that are printed: a destination outside the repository raises a `ValueError`,
  -- which nothing catches.
  unfoldable pub print_written : Text → ℕ
  print_written destination = elim (platform.relative_to_root destination) [
    | none ↦ 1
    | some relative ↦ 0
  ]

  -- From `cut_samples` to the end: the audio, the manifest entry, the access log.
  unfoldable pub write_clip : Arguments → Cut → World → World × ℕ
  unfolding cut_samples write_wav print_written
  write_clip args cut world =
      elim (cut_samples platform world.disk cut.recording cut.start cut.end) [
        | none ↦ (world, 1)
        | some clip ↦
            let disk = write_wav platform cut.destination clip world.disk in
            elim (append_clip_entry (entry_of args cut clip) world.clips) [
              | none ↦ (record world { disk = disk }, 1)
              | some clips ↦ (
                record {
                  disk = disk;
                  clips = clips;
                  accesses =
                      record_access cut.touched cut.start cut.end args.purpose world.accesses;
                },
                print_written cut.destination,
              )
            ]
      ]

  -- The world afterwards and the exit code, which is 1 for an exception that is not caught, too.
  unfoldable pub main : Option Manifest → Arguments → World → World × ℕ
  unfolding prepare write_clip
  main loaded args world = elim (prepare loaded args world.disk) [
    | none ↦ (world, 1)
    | some cut ↦ if args.dry_run then (world, 0) else write_clip args cut world
  ]
