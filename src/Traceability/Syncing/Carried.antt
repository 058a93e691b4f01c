-- ===== src/Traceability/Syncing/Carried.antt =====
-- Rows and ids that the old matrix has already (tools/traceability_sync.py, `sync`).
use realtime_meeting_transla.Prelude.{
  ◌≡◌, ◌≢◌, refl, ap, sym, ◌∙◌, true, false, Option, none, some, List, [], ◌∷◌, Text, Option-cases,
  inl, inr, All,
}
use mathlib.Core.Bool.{true≢false}
use realtime_meeting_transla.Prelude.Dict.{Dict, lookup, has_key}
use realtime_meeting_transla.Traceability.Rows.{Row}
use realtime_meeting_transla.Traceability.Syncing.{synced_row, added_ids}

pub has_key_of :
    {V : Type 0} (k : Text) (v : V) (d : Dict V) → lookup k d ≡ some v → has_key k d ≡ true
has_key_of k v d h = rw (has_key, h) refl

-- An entry that has the requirement's text already is kept as it is.
pub synced_row_known :
    (d : Dict Row) (req_id text : Text) (row : Row)
    → lookup req_id d ≡ some row
    → row.requirement ≡ text
    → synced_row d req_id text ≡ row
unfolding synced_row
synced_row_known d req_id text row h e =
    rw (synced_row, h) (ap (λ t. record row { requirement = t }) (sym e))

pub requirement-synced_row :
    (d : Dict Row) (req_id text : Text) → (synced_row d req_id text).requirement ≡ text
unfolding synced_row
requirement-synced_row d req_id text = elim (Option-cases (lookup req_id d)) [
  | inl new ↦ rw (synced_row, new) refl
  | inr (row, old) ↦ rw (synced_row, old) refl
]

pub added_ids_known :
    (d : Dict Row) (req_id text : Text) (entries : Dict Text)
    → has_key req_id d ≡ true
    → added_ids d ((req_id, text) ∷ entries) ≡ added_ids d entries
unfolding added_ids
added_ids_known d req_id text entries h = rw h refl

pub lookup-nil : (id : Text) → ◌≡◌ {A = Option Row} (lookup id []) none
unfolding lookup
lookup-nil id = refl

-- An id outside the catalogue is not among rows of the catalogue.
pub absent :
    (catalogue : Dict Text) (id : Text) (rows : List Row)
    → has_key id catalogue ≡ false
    → All (λ r. has_key r.req_id catalogue ≡ true) rows
    → All (λ r. r.req_id ≢ id) rows
absent catalogue id [] h k = tt
absent catalogue id (r ∷ rows) h k = (
  λ e. true≢false (sym k.0 ∙ ap (λ i. has_key i catalogue) e ∙ h),
  absent catalogue id rows h k.1,
)
