-- ===== src/CutClip.antt =====
-- tools/cut_clip.py: cutting a clip from a source recording. `none` is a `ClipError`, whose message
-- is left out. The files are a part of `World`; the hash, the audio library and pathlib are
-- parameters.
mod Tests
pub mod Audio
pub mod Slices
pub mod Bounds
pub mod Locked
pub mod Ledger
pub mod Preparation
pub mod Entries
pub mod Outcome
pub mod Provenance
use realtime_meeting_transla.Prelude.{
  ℕ, ◌+◌, leb, Bool, true, false, not, ◌&&◌, ◌||◌, Option, none, some, List, [], ◌∷◌, ◌++◌, Text,
  codes, show, text_eq, text_ltb, filterb, if◌then◌else◌,
}
use realtime_meeting_transla.Prelude.Int.{ℤ, pos, negsuc, ◌-ℤ◌, ◌*ℤ◌, leb_ℤ, ltb_ℤ, floor_div}
use realtime_meeting_transla.Limits.{canonical_sample_rate_hz}
use realtime_meeting_transla.Timeline.{samples_to_ms}

infixl 5 ◌>>=◌
abbrev pub ◌>>=◌ {ℓ κ} : {A : Type ℓ} {B : Type κ} → Option A → (A → Option B) → Option B
m >>= f = elim m [ none ↦ none | some a ↦ f a ]

-- `if not condition: raise ClipError(…)`
abbrev pub raise_unless : Bool → Option (Unit {0})
raise_unless condition = elim condition [ true ↦ some tt | false ↦ none ]

abbrev pub locked_split : Text
locked_split = codes "locked"

-- `path` is the location in the manifest, which is from the root of the repository.
pub record Recording : Type 0 where
  pub recording_id : Text
  pub path : Text
  pub sha256 : Text
  pub sample_rate_hz : ℤ
  pub channels : ℤ
  pub frames : ℤ

pub record SplitRange : Type 0 where
  pub split : Text
  pub start_sample : ℤ
  pub end_sample : ℤ

unfoldable pub range_intersects : SplitRange → ℤ → ℤ → Bool
range_intersects span start end = ltb_ℤ span.start_sample end && ltb_ℤ start span.end_sample

-- An entry of `recordings` in the source manifest. A key that is not there raises in the code and is
-- left out.
pub record ManifestEntry : Type 0 where
  pub id : Text
  pub location : Text
  pub sha256 : Text
  pub sample_rate_hz : ℤ
  pub channels : ℤ
  pub frames : ℤ

-- The source manifest; a split may have no entries, and there may be no splits.
pub record Manifest : Type 0 where
  pub recordings : List ManifestEntry
  pub splits : Option (List (Text × Option (List (ℤ × ℤ))))

-- The arguments of the command.
pub record Arguments : Type 0 where
  pub source : Text
  pub start_sample : Option ℤ
  pub end_sample : Option ℤ
  pub start_ms : Option ℤ
  pub end_ms : Option ℤ
  pub labels : List Text
  pub reviewed_by : Text
  pub name : Text
  pub note : Text
  pub out_dir : Text
  pub evaluation_run : Bool
  pub purpose : Text
  pub dry_run : Bool

-- `text.lower()` of a hash, which is of ASCII
unfoldable pub lower : Text → Text
lower [] = []
lower (c ∷ s) = (if leb b'A' c && leb c b'Z' then c + 32 else c) ∷ lower s

unfoldable pub find_recording : List ManifestEntry → Text → Option Recording
unfolding lower
find_recording [] id = none
find_recording (entry ∷ entries) id =
    let rest = find_recording entries id in
    if text_eq entry.id id
    then some (record {
      recording_id = id;
      path = entry.location;
      sha256 = lower entry.sha256;
      sample_rate_hz = entry.sample_rate_hz;
      channels = entry.channels;
      frames = entry.frames;
    })
    else rest

-- The ranges of one split.
unfoldable pub split_ranges : Text → List (ℤ × ℤ) → List SplitRange
split_ranges name [] = []
split_ranges name ((start, end) ∷ entries) =
    record { split = name; start_sample = start; end_sample = end } ∷ split_ranges name entries

unfoldable pub all_ranges : List (Text × Option (List (ℤ × ℤ))) → List SplitRange
unfolding split_ranges
all_ranges [] = []
all_ranges ((name, none) ∷ splits) = all_ranges splits
all_ranges ((name, some entries) ∷ splits) = split_ranges name entries ++ all_ranges splits

unfoldable pub load_splits : Manifest → List SplitRange
unfolding all_ranges
load_splits manifest = elim manifest.splits [ none ↦ [] | some splits ↦ all_ranges splits ]

-- A bound from samples or from milliseconds, not from both; then it is required.
unfoldable pub resolve_bound : Option ℤ → Option ℤ → Option ℤ
unfolding floor_div ◌*ℤ◌
resolve_bound (some sample) (some ms) = none
resolve_bound (some sample) none = some sample
resolve_bound none (some ms) = some (floor_div (ms *ℤ pos canonical_sample_rate_hz) 1000)
resolve_bound none none = none

unfoldable pub check_range : ℤ → ℤ → Recording → Option (ℤ × ℤ)
check_range start end recording =
    if ltb_ℤ start (pos 0)
    then none
    else if leb_ℤ end start
    then none
    else if ltb_ℤ recording.frames end
    then none
    else some (start, end)

unfoldable pub resolve_bounds : Arguments → Recording → Option (ℤ × ℤ)
unfolding resolve_bound check_range
resolve_bounds args recording = do
  start ← resolve_bound args.start_sample args.start_ms
  end ← resolve_bound args.end_sample args.end_ms
  check_range start end recording

unfoldable pub touches : ℤ → ℤ → SplitRange → Bool
touches start end span = text_eq span.split locked_split && range_intersects span start end

-- `check_locked_set` behind the list of the ranges that are touched.
unfoldable pub permit : Bool → Text → List SplitRange → Option (List SplitRange)
permit evaluation_run purpose [] = some []
permit evaluation_run purpose (span ∷ spans) =
    if not evaluation_run then none else elim purpose [ [] ↦ none | c ∷ cs ↦ some (span ∷ spans) ]

unfoldable pub check_locked_set : List SplitRange → ℤ → ℤ → Bool → Text → Option (List SplitRange)
check_locked_set splits start end evaluation_run purpose =
    permit evaluation_run purpose (filterb (touches start end) splits)
