-- ===== src/CutClip/Provenance.antt =====
-- The entries of the clip manifest and the audio that they cite (tools/cut_clip.py).
use realtime_meeting_transla.Prelude.{
  ℕ, ◌≡◌, ◌⊎◌, ap, sym, subst, ◌∙◌, false, Option, some, List, [], ◌∷◌, Text, text_eq, text_eq_iff,
  arith, Bool-cases, inl, inr, length, All,
}
use mathlib.Core.Option.{some-injective}
use realtime_meeting_transla.Prelude.Dict.{lookup}
use realtime_meeting_transla.Prelude.Sorting.{In, In-append, All-In}
use realtime_meeting_transla.Prelude.Int.{pos, ◌-ℤ◌, ◌≤ℤ◌}
use realtime_meeting_transla.CutClip.{Recording, Manifest, Arguments, find_recording}
use realtime_meeting_transla.CutClip.Audio.{
  Wav, Platform, Disk, content_of, source_content, cut_samples,
}
use realtime_meeting_transla.CutClip.Bounds.{resolve_bounds_iff}
use realtime_meeting_transla.CutClip.Slices.{slice-count}
use realtime_meeting_transla.CutClip.Ledger.{ClipEntry, World, Cut, manifest_location, main}
use realtime_meeting_transla.CutClip.Preparation.{bind-some, IsPrepared}
use realtime_meeting_transla.CutClip.Outcome.{
  Run, refused, dry, uncut, taken, recorded, Writes, IsEntry, manifest_location_lem, main-Run,
}

module _ (platform : Platform) where
  -- The path from the root of the repository leads to the audio that the entry tells of: a clip
  -- with the hash and the length that it says.
  abbrev pub IsCited : Disk → ClipEntry → Type 0
  IsCited disk entry =
      (clip : Wav) × (content_of platform disk (platform.in_repository entry.location)
        ≡ some (platform.wav_bytes clip))
      × (entry.clip_sha256 ≡ platform.sha256 (platform.wav_bytes clip))
      × (pos (length clip.frames) ≡ entry.sample_count)

  -- The location that is written for a path names the file of the path, from the root of the
  -- repository: the path is absolute, or the tool runs there.
  abbrev pub IsLocating : Type 0
  IsLocating =
      (path : Text)
      → platform.file_of (platform.in_repository (manifest_location platform path))
        ≡ platform.file_of path

  -- A recording of the source manifest.
  abbrev IsListed : Option Manifest → Recording → Type 0
  IsListed loaded recording =
      (manifest : Manifest) × (id : Text) × (loaded ≡ some manifest)
      × (find_recording manifest.recordings id ≡ some recording)

  -- A content with the hash that the source manifest gives has the frames that it gives.
  abbrev pub IsTruthful : Option Manifest → Type 0
  IsTruthful loaded =
      (recording : Recording) (content : List ℕ) (source : Wav)
      → IsListed loaded recording
      → platform.sha256 content ≡ recording.sha256
      → platform.open_wav content ≡ some source
      → pos (length source.frames) ≡ recording.frames

  cut-count :
      (loaded : Option Manifest)
      → IsTruthful loaded
      → (args : Arguments) (disk : Disk) (cut : Cut) (clip : Wav)
      → IsPrepared platform loaded args disk cut
      → cut_samples platform disk cut.recording cut.start cut.end ≡ some clip
      → pos (length clip.frames) ≡ cut.end -ℤ cut.start
  unfolding cut_samples
  cut-count loaded truthful args disk cut clip p done =
      let (s, e, a, b, c) = (resolve_bounds_iff args cut.recording cut.start cut.end).0 p.bounds in
      let (content, there, h₁) =
        bind-some (source_content platform disk cut.recording) _ clip done in
      let (source, opened, sliced) = bind-some (platform.open_wav content) _ clip h₁ in
      let same : p.content ≡ content = some-injective _ _ (sym p.there ∙ there) in
      let hash : platform.sha256 content ≡ cut.recording.sha256 =
        ap platform.sha256 (sym same) ∙ p.hash in
      let frames =
        truthful cut.recording content source (p.manifest, args.source, p.read, p.known) hash
          opened in
      slice-count cut.recording cut.start cut.end source clip sliced a b
        (subst (λ z. cut.end ≤ℤ z) (sym frames) c)

  module _ (loaded : Option Manifest) (args : Arguments) (world : World) where
    -- The run has written its clip to the very file that an entry told of before it.
    abbrev pub IsOverwritten : ClipEntry → Type 0
    IsOverwritten entry =
        (cut : Cut) × In entry world.clips
        × IsPrepared platform loaded args world.disk cut
        × (args.dry_run ≡ false)
        × (platform.file_of cut.destination
            ≡ platform.file_of (platform.in_repository entry.location))

    module _ (locating : IsLocating) (truthful : IsTruthful loaded)
        (cited : All (IsCited world.disk) world.clips) where
      old-IsCited :
          (cut : Cut) (clip : Wav) (disk : Disk) (entry : ClipEntry)
          → Writes platform loaded args world cut clip disk
          → In entry world.clips
          → IsCited disk entry ⊎ IsOverwritten entry
      old-IsCited cut clip disk entry (planned, wet, done, (here, others)) i =
          let (old, there, hash, count) = All-In (IsCited world.disk) world.clips entry cited i in
          let file = platform.file_of (platform.in_repository entry.location) in
          elim (Bool-cases (text_eq (platform.file_of cut.destination) file)) [
            | inl same ↦
                inr (
                  cut,
                  i,
                  planned,
                  wet,
                  (text_eq_iff (platform.file_of cut.destination) file).0 same,
                )
            | inr differ ↦
                let apart : ¬ platform.file_of cut.destination ≡ file = λ e. absurd (
                  let k = (text_eq_iff (platform.file_of cut.destination) file).1 e in
                  ground arith) in
                inl (old, others file apart ∙ there, hash, count)
          ]

      new-IsCited :
          (cut : Cut) (clip : Wav) (disk : Disk) (entry : ClipEntry)
          → Writes platform loaded args world cut clip disk
          → IsEntry platform loaded args world cut clip entry
          → IsCited disk entry
      new-IsCited cut clip disk entry (planned, wet, done, (here, others)) said = (
        clip,
        ap (λ l. content_of platform disk (platform.in_repository l))
              (said.location
                ∙ sym (manifest_location_lem platform loaded args world cut.destination))
            ∙ ap (λ file. lookup file disk) (locating cut.destination)
            ∙ here,
        said.clip_sha256,
        cut-count loaded truthful args world.disk cut clip planned done ∙ sym said.sample_count,
      )

      Run-IsCited :
          (m : World × ℕ)
          → Run platform loaded args world m
          → (entry : ClipEntry) → In entry m.0.clips
          → IsCited m.0.disk entry ⊎ IsOverwritten entry
      Run-IsCited m (refused h) entry i =
          inl (All-In (IsCited world.disk) world.clips entry cited i)
      Run-IsCited m (dry cut p h) entry i =
          inl (All-In (IsCited world.disk) world.clips entry cited i)
      Run-IsCited m (uncut cut p h bad) entry i =
          inl (All-In (IsCited world.disk) world.clips entry cited i)
      Run-IsCited m (taken cut clip disk writes old) entry i =
          old-IsCited cut clip disk entry writes i
      Run-IsCited m (recorded cut clip disk new accesses code writes fresh said logged end) entry
            i =
          elim (In-append world.clips (new ∷ []) entry i) [
            | inl old ↦ old-IsCited cut clip disk entry writes old
            | inr (inl here) ↦
                inl (subst (IsCited disk) (sym here) (new-IsCited cut clip disk new writes said))
            | inr (inr nothing) ↦ absurd nothing
          ]

      -- Where locations lead from the root of the repository to their files, a content with a hash
      -- of the source manifest has its frames, and every entry of the clip manifest leads to a
      -- clip with the hash and the number of samples that it says: after any run of `main`,
      -- successful or not, so does every entry, the new one included, unless it is an older one
      -- to whose very file the run has written.
      pub main-IsCited :
          (entry : ClipEntry)
          → In entry (main platform loaded args world).0.clips
          → IsCited (main platform loaded args world).0.disk entry ⊎ IsOverwritten entry
      main-IsCited =
          Run-IsCited (main platform loaded args world) (main-Run platform loaded args world)
