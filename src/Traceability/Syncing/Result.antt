-- ===== src/Traceability/Syncing/Result.antt =====
-- What `sync` gives back on a catalogue and a matrix as they are read
-- (tools/traceability_sync.py).
use realtime_meeting_transla.Prelude.{
  ℕ, ◌≡◌, ◌≢◌, refl, sym, true, false, Option, none, some, List, [], ◌∷◌, Text, arith, Option-cases,
  Bool-cases, inl, inr, All, text_eq_iff,
}
use realtime_meeting_transla.Prelude.Sorting.{Pairwise, sort_by, All-sort_by, Pairwise-sort_by}
use realtime_meeting_transla.Prelude.Dict.{
  Dict, lookup, has_key, IsDistinct, AllEntries, lookup-AllEntries,
}
use realtime_meeting_transla.Traceability.Cells.{is_space}
use realtime_meeting_transla.Traceability.Cells.Edges.{starts_blank, ends_blank}
use realtime_meeting_transla.Traceability.Rows.{Row, match_id, empty, planned}
use realtime_meeting_transla.Traceability.Rows.Keys.{match_id-row_key, match_id-orphan_key}
use realtime_meeting_transla.Traceability.Reading.{is_break}
use realtime_meeting_transla.Traceability.Reading.RowLines.{IsCell, IsRow}
use realtime_meeting_transla.Traceability.Reading.Parsed.{
  IsCatalogue, IsMatrix, IsRequirement, IsEntry,
}
use realtime_meeting_transla.Traceability.Syncing.{
  SyncResult, synced_row, synced_rows, added_ids, orphaned_rows, row_key, orphan_key, all_keyed,
  row_before, orphan_before, sync,
}

-- The row of an id has that id.
pub req_id-synced_row :
    (decimal : ℕ → Option ℕ) (existing : Dict Row) (req_id text : Text)
    → IsMatrix decimal existing
    → (synced_row existing req_id text).req_id ≡ req_id
unfolding synced_row
req_id-synced_row decimal existing req_id text m = elim (Option-cases (lookup req_id existing)) [
  | inl new ↦ rw (synced_row, new) refl
  | inr (row, old) ↦
      rw (synced_row, old) (lookup-AllEntries (IsEntry decimal) req_id row existing m.1 old).0
]

-- Two rows of different ids.
abbrev pub Apart : Row → Row → Type 0
Apart a b = a.req_id ≢ b.req_id

module _ (decimal : ℕ → Option ℕ) (catalogue : Dict Text) (existing : Dict Row)
    (m : IsMatrix decimal existing) where
  synced_row-IsRow :
      (req_id text : Text)
      → IsRequirement decimal req_id text
      → IsRow decimal (synced_row existing req_id text)
  unfolding synced_row starts_blank ends_blank is_space is_break
  synced_row-IsRow req_id text h = elim (Option-cases (lookup req_id existing)) [
    | inl new ↦
        let dash : IsCell empty = ((refl, refl), (refl, tt)) in
        let word : IsCell planned =
          ((refl, refl), (refl, (refl, (refl, (refl, (refl, (refl, (refl, tt)))))))) in
        rw (synced_row, new)
          (h.0, (h.1, (h.2, (dash, (dash, (dash, (dash, (dash, (word, (dash, tt))))))))))
    | inr (row, old) ↦
        let (id, (match, cells)) =
          lookup-AllEntries (IsEntry decimal) req_id row existing m.1 old in
        rw (synced_row, old) (match, (cells.0, (h.2, cells.1.1)))
  ]

  synced_rows-IsRow :
      (entries : Dict Text)
      → AllEntries (IsRequirement decimal) entries
      → All (IsRow decimal) (synced_rows existing entries)
  unfolding synced_rows
  synced_rows-IsRow [] h = tt
  synced_rows-IsRow ((req_id, text) ∷ entries) h =
      (synced_row-IsRow req_id text h.0, synced_rows-IsRow entries h.1)

  orphaned_rows-IsRow :
      (entries : Dict Row)
      → AllEntries (IsEntry decimal) entries
      → All (IsRow decimal) (orphaned_rows catalogue entries)
  unfolding orphaned_rows
  orphaned_rows-IsRow [] h = tt
  orphaned_rows-IsRow ((req_id, row) ∷ entries) h = elim (Bool-cases (has_key req_id catalogue)) [
    | inl kept ↦ rw kept (orphaned_rows-IsRow entries h.1)
    | inr gone ↦ rw gone (h.0.1, orphaned_rows-IsRow entries h.1)
  ]

  -- No orphaned row has an id of the catalogue.
  orphaned_rows-gone :
      (entries : Dict Row)
      → AllEntries (IsEntry decimal) entries
      → All (λ r. has_key r.req_id catalogue ≡ false) (orphaned_rows catalogue entries)
  unfolding orphaned_rows
  orphaned_rows-gone [] h = tt
  orphaned_rows-gone ((req_id, row) ∷ entries) h = elim (Bool-cases (has_key req_id catalogue)) [
    | inl kept ↦ rw kept (orphaned_rows-gone entries h.1)
    | inr gone ↦ rw gone (rw (h.0.0) gone, orphaned_rows-gone entries h.1)
  ]

  orphaned_rows-fresh :
      (id : Text) (entries : Dict Row)
      → AllEntries (IsEntry decimal) entries
      → lookup id entries ≡ none
      → All (λ r. id ≢ r.req_id) (orphaned_rows catalogue entries)
  unfolding orphaned_rows lookup
  orphaned_rows-fresh id [] h n = tt
  orphaned_rows-fresh id ((req_id, row) ∷ entries) h n =
      let own = h.0.0 in
      let rest = orphaned_rows-fresh id entries h.1 (ground (arith, text_eq_iff req_id id)) in
      elim (Bool-cases (has_key req_id catalogue)) [
        | inl kept ↦ rw kept rest
        | inr gone ↦ rw gone (λ e. ground (arith, text_eq_iff req_id id), rest)
      ]

  orphaned_rows-Apart :
      (entries : Dict Row)
      → AllEntries (IsEntry decimal) entries
      → IsDistinct entries
      → Pairwise Apart (orphaned_rows catalogue entries)
  unfolding orphaned_rows
  orphaned_rows-Apart [] h n = tt
  orphaned_rows-Apart ((req_id, row) ∷ entries) h n = elim (Bool-cases (has_key req_id catalogue)) [
    | inl kept ↦ rw kept (orphaned_rows-Apart entries h.1 n.1)
    | inr gone ↦ rw gone (
      rw (h.0.0) (orphaned_rows-fresh req_id entries h.1 n.0),
      orphaned_rows-Apart entries h.1 n.1,
    )
  ]

all_keyed_lem :
    (decimal : ℕ → Option ℕ) {K : Type 0} (key : Row → Option K)
    → ((row : Row) → match_id decimal row.req_id ≡ true → (k : K) × (key row ≡ some k))
    → (rows : List Row) → All (IsRow decimal) rows
    → all_keyed decimal key rows ≡ true
unfolding all_keyed
all_keyed_lem decimal key keyed [] h = refl
all_keyed_lem decimal key keyed (row ∷ rows) h =
    let (k, e) = keyed row h.0.0 in rw (all_keyed, e) (all_keyed_lem decimal key keyed rows h.1)

-- `sync` of what the parsers read.
module _ (decimal : ℕ → Option ℕ) (catalogue : Dict Text) (existing : Dict Row)
    (c : IsCatalogue decimal catalogue) (m : IsMatrix decimal existing) where
  abbrev pub the_result : SyncResult
  the_result = record {
    rows = sort_by (row_before decimal) (synced_rows existing catalogue);
    added = added_ids existing catalogue;
    orphaned = sort_by (orphan_before decimal) (orphaned_rows catalogue existing);
  }

  -- It never fails: every row has its sort keys.
  pub sync_total : sync decimal catalogue existing ≡ some the_result
  unfolding sync
  sync_total =
      rw
        (
          sync,
          all_keyed_lem decimal (row_key decimal) (match_id-row_key decimal)
              (synced_rows existing catalogue)
              (synced_rows-IsRow decimal catalogue existing m catalogue c.1),
          all_keyed_lem decimal (orphan_key decimal) (match_id-orphan_key decimal)
              (orphaned_rows catalogue existing)
              (orphaned_rows-IsRow decimal catalogue existing m existing m.1),
        )
        refl

  pub rows-IsRow : All (IsRow decimal) the_result.rows
  rows-IsRow =
      All-sort_by (row_before decimal) (IsRow decimal) (synced_rows existing catalogue)
        (synced_rows-IsRow decimal catalogue existing m catalogue c.1)

  pub orphaned-IsRow : All (IsRow decimal) the_result.orphaned
  orphaned-IsRow =
      All-sort_by (orphan_before decimal) (IsRow decimal) (orphaned_rows catalogue existing)
        (orphaned_rows-IsRow decimal catalogue existing m existing m.1)

  pub orphaned-gone : All (λ r. has_key r.req_id catalogue ≡ false) the_result.orphaned
  orphaned-gone =
      All-sort_by (orphan_before decimal) _ (orphaned_rows catalogue existing)
        (orphaned_rows-gone decimal catalogue existing m existing m.1)

  pub orphaned-Apart : Pairwise Apart the_result.orphaned
  orphaned-Apart =
      Pairwise-sort_by (orphan_before decimal) Apart (λ a b ne e. ne (sym e))
        (orphaned_rows catalogue existing)
        (orphaned_rows-Apart decimal catalogue existing m existing m.1 m.0)
