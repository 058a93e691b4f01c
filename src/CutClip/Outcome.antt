-- ===== src/CutClip/Outcome.antt =====
-- What one run of `main` does to the files, the manifest and the access log (tools/cut_clip.py).
use realtime_meeting_transla.Prelude.{
  sym, text_ltb, text_ltb_trans, text_ltb_irrefl, ℕ, ◌≡◌, refl, ◌∙◌, Bool, true, false, Option,
  none, some, List, [], ◌∷◌, ◌++◌, Text, text_eq, text_eq_iff, arith, Bool-cases, Option-cases, inl,
  inr, if◌then◌else◌,
}
use mathlib.Core.List.{Perm}
use realtime_meeting_transla.Prelude.Sorting.{IsSorted, sort_by-perm, sort_by-IsSorted}
use realtime_meeting_transla.Prelude.Int.{◌-ℤ◌}
use realtime_meeting_transla.Timeline.{samples_to_ms}
use realtime_meeting_transla.CutClip.Preparation.{
  IsPrepared, prepare-IsPrepared, IsPrepared-prepare,
}
use realtime_meeting_transla.Prelude.Dict.{lookup, lookup-insert, lookup-insert_self}
use realtime_meeting_transla.CutClip.{Manifest, Arguments, SplitRange}
use realtime_meeting_transla.CutClip.Audio.{Wav, Platform, Disk, content_of, cut_samples, write_wav}
use realtime_meeting_transla.CutClip.Ledger.{
  ClipEntry, Access, World, Cut, append_clip_entry, has_clip, record_access, manifest_location,
  prepare, entry_of, print_written, write_clip, main,
}
use realtime_meeting_transla.CutClip.Entries.{
  IsTaken, has_clip-IsTaken, IsTaken-has_clip, IsLedger, append-IsLedger,
}

-- The exit code behind the entry: the destination has to be within the repository.
abbrev pub IsEnd : Option Text → ℕ → Type 0
IsEnd none code = code ≡ 1
IsEnd (some relative) code = code ≡ 0

text_ltb-asym : (a b : Text) → text_ltb a b ≡ true → text_ltb b a ≡ false
text_ltb-asym a b h = ground (arith, text_ltb_trans a b a, text_ltb_irrefl a)

module _ (platform : Platform) (loaded : Option Manifest) (args : Arguments) (world : World) where
  abbrev pub Prepares : Cut → Type 0
  Prepares = IsPrepared platform loaded args world.disk

  -- The destination has the bytes of the clip, and every other file is as it was.
  abbrev pub IsWritten : Text → Wav → Disk → Type 0
  IsWritten destination clip disk =
      (content_of platform disk destination ≡ some (platform.wav_bytes clip))
      × ((file : Text)
          → ¬ platform.file_of destination ≡ file
          → lookup file disk ≡ lookup file world.disk)

  -- A run that is prepared, no dry run, and has cut and written its clip.
  abbrev pub Writes : Cut → Wav → Disk → Type 0
  Writes cut clip disk =
      Prepares cut
      × (args.dry_run ≡ false)
      × (cut_samples platform world.disk cut.recording cut.start cut.end ≡ some clip)
      × IsWritten cut.destination clip disk

  -- What the new entry says of the clip.
  pub record IsEntry (cut : Cut) (clip : Wav) (entry : ClipEntry) : Type 0 where
    pub clip_id : entry.clip_id ≡ platform.stem cut.destination
    pub source_recording_id : entry.source_recording_id ≡ cut.recording.recording_id
    pub source_file_sha256 : entry.source_file_sha256 ≡ cut.recording.sha256
    pub start_sample : entry.start_sample ≡ cut.start
    pub end_sample : entry.end_sample ≡ cut.end
    pub start_ms : entry.start_ms ≡ samples_to_ms cut.start
    pub end_ms : entry.end_ms ≡ samples_to_ms cut.end
    pub sample_count : entry.sample_count ≡ cut.end -ℤ cut.start
    pub clip_sha256 : entry.clip_sha256 ≡ platform.sha256 (platform.wav_bytes clip)
    pub location :
        entry.location
        ≡ platform.as_posix (elim (platform.relative_to_root cut.destination) [
          | none ↦ cut.destination
          | some relative ↦ relative
        ])
    pub labels : Perm entry.labels args.labels
    pub in_order : IsSorted text_ltb entry.labels
    pub reviewed_by : entry.reviewed_by ≡ args.reviewed_by
    pub note : entry.note ≡ args.note

  -- One line is added to the access log if a locked range was touched, and none else.
  abbrev pub IsLogged : Cut → List SplitRange → List Access → Type 0
  IsLogged cut [] accesses = accesses ≡ world.accesses
  IsLogged cut (span ∷ spans) accesses =
      accesses
      ≡ world.accesses
        ++ record {
          touched = span ∷ spans;
          start_sample = cut.start;
          end_sample = cut.end;
          purpose = args.purpose;
        }
          ∷ []

  -- The runs of `main`.
  pub data Run : World × ℕ → Type 0 where
    refused : ((cut : Cut) → ¬ Prepares cut) → Run (world, 1)
    dry : (cut : Cut) → Prepares cut → args.dry_run ≡ true → Run (world, 0)
    uncut :
        (cut : Cut)
        → Prepares cut
        → args.dry_run ≡ false
        → cut_samples platform world.disk cut.recording cut.start cut.end ≡ none
        → Run (world, 1)
    taken :
        (cut : Cut) (clip : Wav) (disk : Disk)
        → Writes cut clip disk
        → IsTaken (platform.stem cut.destination) world.clips
        → Run (record world { disk = disk }, 1)
    recorded :
        (cut : Cut) (clip : Wav) (disk : Disk) (entry : ClipEntry) (accesses : List Access)
        (code : ℕ)
        → Writes cut clip disk
        → ¬ IsTaken (platform.stem cut.destination) world.clips
        → IsEntry cut clip entry
        → IsLogged cut cut.touched accesses
        → IsEnd (platform.relative_to_root cut.destination) code
        → Run (record { disk = disk; clips = world.clips ++ entry ∷ []; accesses = accesses }, code)

  write_wav-IsWritten :
      (destination : Text) (clip : Wav)
      → IsWritten destination clip (write_wav platform destination clip world.disk)
  unfolding write_wav
  write_wav-IsWritten destination clip =
      let file = platform.file_of destination in
      let bytes = platform.wav_bytes clip in
      (
        lookup-insert_self file bytes world.disk,
        λ other apart. elim (Bool-cases (text_eq file other)) [
          | inl same ↦ absurd (apart ((text_eq_iff file other).0 same))
          | inr differ ↦ lookup-insert file other bytes world.disk ∙ rw differ refl
        ],
      )

  record_access-IsLogged :
      (cut : Cut) (touched : List SplitRange)
      → IsLogged cut touched (record_access touched cut.start cut.end args.purpose world.accesses)
  unfolding record_access
  record_access-IsLogged cut [] = refl
  record_access-IsLogged cut (span ∷ spans) = refl

  print_written-IsEnd :
      (destination : Text)
      → IsEnd (platform.relative_to_root destination) (print_written platform destination)
  unfolding print_written
  print_written-IsEnd destination = elim (Option-cases (platform.relative_to_root destination)) [
    | inl outside ↦ rw (print_written, outside) refl
    | inr (relative, inside) ↦ rw (print_written, inside) refl
  ]

  pub manifest_location_lem :
      (path : Text)
      → manifest_location platform path
        ≡ platform.as_posix
            (elim (platform.relative_to_root path) [ none ↦ path | some relative ↦ relative ])
  unfolding manifest_location
  manifest_location_lem path = elim (Option-cases (platform.relative_to_root path)) [
    | inl outside ↦ rw (manifest_location, outside) refl
    | inr (relative, inside) ↦ rw (manifest_location, inside) refl
  ]

  entry_of-IsEntry : (cut : Cut) (clip : Wav) → IsEntry cut clip (entry_of platform args cut clip)
  entry_of-IsEntry cut clip = record {
    clip_id = refl;
    source_recording_id = refl;
    source_file_sha256 = refl;
    start_sample = refl;
    end_sample = refl;
    start_ms = refl;
    end_ms = refl;
    sample_count = refl;
    clip_sha256 = refl;
    location = manifest_location_lem cut.destination;
    labels = sort_by-perm text_ltb args.labels;
    in_order = sort_by-IsSorted text_ltb text_ltb-asym args.labels;
    reviewed_by = refl;
    note = refl;
  }

  write_clip-Run :
      (cut : Cut) → Prepares cut → args.dry_run ≡ false → Run (write_clip platform args cut world)
  unfolding write_clip append_clip_entry
  write_clip-Run cut planned wet =
      elim (Option-cases (cut_samples platform world.disk cut.recording cut.start cut.end)) [
        | inl bad ↦ rw (write_clip, bad) (uncut cut planned wet bad)
        | inr (clip, good) ↦
            let id = platform.stem cut.destination in
            let disk = write_wav platform cut.destination clip world.disk in
            let writes : Writes cut clip disk =
              (planned, wet, good, write_wav-IsWritten cut.destination clip) in
            elim (Bool-cases (has_clip id world.clips)) [
              | inl old ↦
                  rw (write_clip, good, old)
                    (taken cut clip disk writes (has_clip-IsTaken id world.clips old))
              | inr new ↦
                  rw (write_clip, good, new)
                    (recorded cut clip disk (entry_of platform args cut clip)
                      (record_access cut.touched cut.start cut.end args.purpose world.accesses)
                      (print_written platform cut.destination) writes
                      (λ h. absurd (let k = IsTaken-has_clip id world.clips h in ground arith))
                      (entry_of-IsEntry cut clip) (record_access-IsLogged cut cut.touched)
                      (print_written-IsEnd cut.destination))
            ]
      ]

  planned-Run :
      (cut : Cut)
      → Prepares cut
      → (b : Bool) → args.dry_run ≡ b
      → Run (if b then (world, 0) else write_clip platform args cut world)
  planned-Run cut planned true h = dry cut planned h
  planned-Run cut planned false h = write_clip-Run cut planned h

  pub main-Run : Run (main platform loaded args world)
  unfolding main
  main-Run = elim (Option-cases (prepare platform loaded args world.disk)) [
    | inl bad ↦
        let none_passes : (cut : Cut) → ¬ Prepares cut = λ cut p.
          let (other, h) = IsPrepared-prepare platform loaded args world.disk cut p in
          absurd (let k = sym bad ∙ h in ground arith) in
        rw (bad, main) (refused none_passes)
    | inr (cut, planned) ↦
        rw (planned, main)
          (planned-Run cut (prepare-IsPrepared platform loaded args world.disk cut planned)
            args.dry_run refl)
  ]

  Run-IsLedger : (m : World × ℕ) → Run m → IsLedger world.clips → IsLedger m.0.clips
  Run-IsLedger m (refused h) l = l
  Run-IsLedger m (dry cut p h) l = l
  Run-IsLedger m (uncut cut p h bad) l = l
  Run-IsLedger m (taken cut clip disk h old) l = l
  Run-IsLedger m (recorded cut clip disk entry accesses code h new said logged end) l =
      append-IsLedger world.clips entry l (elim (Bool-cases (has_clip entry.clip_id world.clips)) [
        | inl old ↦
            let (other, i, e) = has_clip-IsTaken entry.clip_id world.clips old in
            absurd (new (other, i, e ∙ said.clip_id))
        | inr fresh ↦ fresh
      ])

  -- A run of `main` on a manifest in which no clip id stands twice leaves one in which none does.
  main-IsLedger : IsLedger world.clips → IsLedger (main platform loaded args world).0.clips
  main-IsLedger = Run-IsLedger _ main-Run
