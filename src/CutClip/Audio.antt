-- ===== src/CutClip/Audio.antt =====
-- tools/cut_clip.py: the source file and the clip that is cut from it. A WAV file is what `wave`
-- makes of it: its format, and its frames, each of so many bytes.
use realtime_meeting_transla.Prelude.{
  ℕ, Bool, false, not, ◌||◌, Option, none, some, List, Text, text_eq, if◌then◌else◌, length, take,
  drop,
}
use realtime_meeting_transla.Prelude.Int.{ℤ, pos, pos_part, ◌-ℤ◌, ltb_ℤ, eqb_ℤ}
use realtime_meeting_transla.Prelude.Dict.{Dict, lookup, insert}
use realtime_meeting_transla.CutClip.{Recording, ◌>>=◌}

pub record Wav : Type 0 where
  pub frame_rate : ℕ
  pub channels : ℕ
  pub sample_width : ℕ
  pub frames : List (List ℕ)

-- What the tool uses of the machine: the hash of some bytes; what `wave` reads of the bytes of a
-- file, with `none` for any error, and what it writes; and of a path, which is a text, the file that
-- it names (`file_of`), its stem, `/`, `REPO_ROOT / path`, `path.relative_to(REPO_ROOT)` with `none`
-- for its `ValueError`, and `as_posix()`.
pub record Platform : Type 0 where
  pub sha256 : List ℕ → Text
  pub open_wav : List ℕ → Option Wav
  pub wav_bytes : Wav → List ℕ
  pub file_of : Text → Text
  pub stem : Text → Text
  pub join_path : Text → Text → Text
  pub in_repository : Text → Text
  pub relative_to_root : Text → Option Text
  pub as_posix : Text → Text

-- The bytes of each file that is there.
abbrev pub Disk : Type 0
Disk = Dict (List ℕ)

-- The content of the file that a path names.
abbrev pub content_of : Platform → Disk → Text → Option (List ℕ)
content_of platform disk path = lookup (platform.file_of path) disk

abbrev pub source_content : Platform → Disk → Recording → Option (List ℕ)
source_content platform disk recording =
    content_of platform disk (platform.in_repository recording.path)

-- `false` is the `ClipError`.
unfoldable pub verify_source : Platform → Disk → Recording → Bool
verify_source platform disk recording = elim (source_content platform disk recording) [
  | none ↦ false
  | some content ↦ text_eq (platform.sha256 content) recording.sha256
]

-- `setpos(start)` and `readframes(end - start)`: a start outside the file is `wave`'s error, and
-- no more frames are read than there are.
unfoldable pub read_range : Wav → ℤ → ℤ → Option (List (List ℕ))
read_range source start end =
    if ltb_ℤ start (pos 0) || ltb_ℤ (pos (length source.frames)) start
    then none
    else some (take (pos_part (end -ℤ start)) (drop (pos_part start) source.frames))

-- The clip that is written; `none` is the `ClipError`, or `wave`'s error.
unfoldable pub slice : Recording → ℤ → ℤ → Wav → Option Wav
unfolding read_range
slice recording start end source =
    if not (eqb_ℤ (pos source.frame_rate) recording.sample_rate_hz)
    then none
    else if not (eqb_ℤ (pos source.channels) recording.channels)
    then none
    else elim (read_range source start end) [
      | none ↦ none
      | some payload ↦ some (record source { frames = payload })
    ]

-- The payload is read before the destination is opened.
unfoldable pub cut_samples : Platform → Disk → Recording → ℤ → ℤ → Option Wav
unfolding slice
cut_samples platform disk recording start end = do
  content ← source_content platform disk recording
  source ← platform.open_wav content
  slice recording start end source

-- `wave.open(destination, "wb")` and the frames: what was in the file is gone.
unfoldable pub write_wav : Platform → Text → Wav → Disk → Disk
write_wav platform destination clip disk =
    insert (platform.file_of destination) (platform.wav_bytes clip) disk
