-- ===== src/CutClip/Entries.antt =====
-- The clip ids of the clip manifest (tools/cut_clip.py).
use realtime_meeting_transla.Prelude.{
  ◌≡◌, refl, ap, sym, ◌∙◌, true, false, ◌||◌, List, [], ◌∷◌, ◌++◌, Text, text_eq, text_eq_iff,
  arith, Bool-cases, inl, inr,
}
use realtime_meeting_transla.Prelude.Sorting.{In}
use realtime_meeting_transla.CutClip.Ledger.{ClipEntry, has_clip}

-- An entry of the manifest has the id.
abbrev pub IsTaken : Text → List ClipEntry → Type 0
IsTaken id clips = (entry : ClipEntry) × In entry clips × (entry.clip_id ≡ id)

pub has_clip-IsTaken :
    (id : Text) (clips : List ClipEntry) → has_clip id clips ≡ true → IsTaken id clips
unfolding has_clip
has_clip-IsTaken id [] h = absurd (ground arith)
has_clip-IsTaken id (clip ∷ clips) h = elim (Bool-cases (text_eq clip.clip_id id)) [
  | inl same ↦ (clip, inl refl, (text_eq_iff clip.clip_id id).0 same)
  | inr other ↦ let (entry, i, e) = has_clip-IsTaken id clips (rw other at h) in (entry, inr i, e)
]

pub IsTaken-has_clip :
    (id : Text) (clips : List ClipEntry) → IsTaken id clips → has_clip id clips ≡ true
unfolding has_clip
IsTaken-has_clip id [] (entry, i, e) = absurd i
IsTaken-has_clip id (clip ∷ clips) (entry, inl here, e) =
    rw ((text_eq_iff clip.clip_id id).1 (ap (λ c. c.clip_id) (sym here) ∙ e)) refl
IsTaken-has_clip id (clip ∷ clips) (entry, inr later, e) =
    ground (arith, IsTaken-has_clip id clips (entry, later, e))

-- The clip ids of a manifest, each once.
abbrev pub IsLedger : List ClipEntry → Type 0
IsLedger [] = Unit
IsLedger (clip ∷ clips) = (has_clip clip.clip_id clips ≡ false) × IsLedger clips

has_clip-append :
    (id : Text) (clips : List ClipEntry) (entry : ClipEntry)
    → has_clip id (clips ++ entry ∷ []) ≡ (has_clip id clips || text_eq entry.clip_id id)
unfolding has_clip
has_clip-append id [] entry = ground arith
has_clip-append id (clip ∷ clips) entry = ground (arith, has_clip-append id clips entry)

pub append-IsLedger :
    (clips : List ClipEntry) (entry : ClipEntry)
    → IsLedger clips
    → has_clip entry.clip_id clips ≡ false
    → IsLedger (clips ++ entry ∷ [])
unfolding has_clip
append-IsLedger [] entry l new = (refl, tt)
append-IsLedger (clip ∷ clips) entry (fresh, l) new = (
  ground (
    arith,
    has_clip-append clip.clip_id clips entry,
    text_eq_iff clip.clip_id entry.clip_id,
    text_eq_iff entry.clip_id clip.clip_id,
  ),
  append-IsLedger clips entry l (ground arith),
)
