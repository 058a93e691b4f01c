-- ===== src/Traceability/Syncing.antt =====
-- tools/traceability_sync.py: `sync`. The rows that it changes in place belong to ids of the
-- catalogue, and nothing reads the old matrix afterwards, so the changed rows are new ones here.
pub mod Result
pub mod Entering
pub mod Printed
pub mod Carried
pub mod Fixpoint
pub mod Again
pub mod Contract
use realtime_meeting_transla.Prelude.{
  ℕ, Bool, true, false, ◌&&◌, ◌||◌, Option, none, some, List, [], ◌∷◌, ◌++◌, Text, text_eq,
  text_ltb, if◌then◌else◌, ltb, ◌==◌, suc,
}
use realtime_meeting_transla.Prelude.Sorting.{sort_by}
use realtime_meeting_transla.Prelude.Dict.{Dict, lookup, has_key}
use realtime_meeting_transla.Traceability.Rows.{Row, new_row, domain, domain_order, number}

pub record SyncResult : Type 0 where
  pub rows : List Row
  pub added : List Text
  pub orphaned : List Row

-- The row that stands for an id of the catalogue.
unfoldable pub synced_row : Dict Row → Text → Text → Row
synced_row existing req_id requirement = elim (lookup req_id existing) [
  | none ↦ new_row req_id requirement
  | some previous ↦ record previous { requirement = requirement }
]

unfoldable pub synced_rows : Dict Row → Dict Text → List Row
unfolding synced_row
synced_rows existing [] = []
synced_rows existing ((req_id, requirement) ∷ catalogue) =
    synced_row existing req_id requirement ∷ synced_rows existing catalogue

unfoldable pub added_ids : Dict Row → Dict Text → List Text
added_ids existing [] = []
added_ids existing ((req_id, requirement) ∷ catalogue) =
    let rest = added_ids existing catalogue in
    if has_key req_id existing then rest else req_id ∷ rest

unfoldable pub orphaned_rows : Dict Text → Dict Row → List Row
orphaned_rows catalogue [] = []
orphaned_rows catalogue ((req_id, row) ∷ existing) =
    let rest = orphaned_rows catalogue existing in
    if has_key req_id catalogue then rest else row ∷ rest

-- `order.index(name)`; `none` is the `ValueError`.
unfoldable pub index : List Text → Text → Option ℕ
index [] name = none
index (d ∷ order) name = elim (text_eq d name) [
  | true ↦ some 0
  | false ↦ elim (index order name) [ none ↦ none | some n ↦ some (suc n) ]
]

module _ (decimal : ℕ → Option ℕ) where
  -- `(DOMAIN_ORDER.index(r.domain), r.number)`
  unfoldable pub row_key : Row → Option (ℕ × ℕ)
  unfolding index
  row_key row = elim (index domain_order (domain row)) [
    | none ↦ none
    | some d ↦ elim (number decimal row) [ none ↦ none | some n ↦ some (d, n) ]
  ]

  -- `(r.domain, r.number)`
  unfoldable pub orphan_key : Row → Option (Text × ℕ)
  orphan_key row = elim (number decimal row) [ none ↦ none | some n ↦ some (domain row, n) ]

  -- Whether the key of every row can be computed; if not, `sort` raises.
  unfoldable pub all_keyed : {K : Type 0} → (Row → Option K) → List Row → Bool
  all_keyed key [] = true
  all_keyed key (row ∷ rows) = elim (key row) [ none ↦ false | some k ↦ all_keyed key rows ]

  unfoldable pub row_before : Row → Row → Bool
  unfolding row_key
  row_before a b = elim (row_key a) [
    | none ↦ false
    | some (d, n) ↦ elim (row_key b) [ none ↦ false | some (e, m) ↦ ltb d e || (d == e && ltb n m) ]
  ]

  unfoldable pub orphan_before : Row → Row → Bool
  unfolding orphan_key
  orphan_before a b = elim (orphan_key a) [
    | none ↦ false
    | some (d, n) ↦ elim (orphan_key b) [
      | none ↦ false
      | some (e, m) ↦ text_ltb d e || (text_eq d e && ltb n m)
    ]
  ]

  -- `none` is the exception of a sort key.
  unfoldable pub sync : Dict Text → Dict Row → Option SyncResult
  unfolding synced_rows added_ids orphaned_rows all_keyed row_before orphan_before
  sync catalogue existing =
      let rows = synced_rows existing catalogue in
      let orphaned = orphaned_rows catalogue existing in
      if all_keyed row_key rows && all_keyed orphan_key orphaned
      then some (record {
        rows = sort_by row_before rows;
        added = added_ids existing catalogue;
        orphaned = sort_by orphan_before orphaned;
      })
      else none
