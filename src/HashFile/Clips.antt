-- ===== src/HashFile/Clips.antt =====
-- Clips of tools/cut_clip.py, verified with tools/hash_file.py as the clip manifest says.
use realtime_meeting_transla.Prelude.{◌≡◌, ◌⊎◌, ap, sym, ◌∙◌, Bool, Option, inl, inr, All}
use realtime_meeting_transla.Prelude.Sorting.{In}
use realtime_meeting_transla.CutClip.{Manifest, Arguments, lower}
use realtime_meeting_transla.CutClip.Audio.{Platform, Disk, content_of}
use realtime_meeting_transla.CutClip.Ledger.{ClipEntry, World, main}
use realtime_meeting_transla.CutClip.Provenance.{
  IsCited, IsLocating, IsTruthful, IsOverwritten, main-IsCited,
}
use realtime_meeting_transla.HashFile
use realtime_meeting_transla.HashFile.{Floats, Source, eof_error}
use realtime_meeting_transla.HashFile.Documented.{main_exit_iff}

module _ (floats : Floats) (platform : Platform) where
  -- At the location of an entry, from the root of the repository, the check of its hash succeeds;
  -- `wave` reads the file there as one that is whole.
  abbrev pub Verifies : Disk → ClipEntry → Type 0
  Verifies disk entry =
      (source : Source) (yaml : Bool)
      → source.content ≡ content_of platform disk (platform.in_repository entry.location)
      → ¬ source.wav ≡ eof_error
      → HashFile.exit_code floats
          (HashFile.main floats platform.sha256 yaml entry.clip_sha256 source)
        ≡ 0

  cited-Verifies :
      (disk : Disk) (entry : ClipEntry) → IsCited platform disk entry → Verifies disk entry
  cited-Verifies disk entry (clip, there, hash, count) source yaml content whole =
      (main_exit_iff floats platform.sha256 source yaml entry.clip_sha256).1 (
        platform.wav_bytes clip,
        content ∙ there,
        λ (suffix, short). whole short,
        inr (ap lower (sym hash)),
      )

  -- Where locations lead from the root of the repository to their files, a content with a hash
  -- of the source manifest has its frames, and every entry of the clip manifest leads to a clip
  -- with the hash and the number of samples that it says: after any run of `cut_clip.py`, for each
  -- entry of the manifest, `hash_file.py`, given the location and told to expect the hash of the
  -- entry, exits with 0 if `wave` does not find the file cut short; unless it is an older entry to
  -- whose very file the run has written.
  pub main-Verifies :
      (loaded : Option Manifest) (args : Arguments) (world : World)
      → IsLocating platform
      → IsTruthful platform loaded
      → All (IsCited platform world.disk) world.clips
      → (entry : ClipEntry) → In entry (main platform loaded args world).0.clips
      → Verifies (main platform loaded args world).0.disk entry
        ⊎ IsOverwritten platform loaded args world entry
  main-Verifies loaded args world locating truthful cited entry i =
      elim (main-IsCited platform loaded args world locating truthful cited entry i) [
        | inl still ↦ inl (cited-Verifies (main platform loaded args world).0.disk entry still)
        | inr over ↦ inr over
      ]
