-- ===== src/Traceability/Syncing/Contract.antt =====
-- What `sync` promises (tools/traceability_sync.py).
use realtime_meeting_transla.Prelude.{
  ℕ, ◌≡◌, ◌⊎◌, refl, ap, sym, subst, ◌∙◌, true, false, Option, none, some, List, [], ◌∷◌, map, Text,
  arith, Option-cases, Bool-cases, inl, inr, All, text_eq, text_eq_iff,
}
use mathlib.Core.List.{Perm}
use mathlib.Core.List.Perm
use mathlib.Core.Path.{ap₂}
use mathlib.Core.Option.{some-injective}
use realtime_meeting_transla.Prelude.Sorting.{
  In, IsSorted, sort_by-perm, sort_by-IsSorted, All-sort_by, In-sort_by,
}
use realtime_meeting_transla.Prelude.Dict.{
  Dict, lookup, has_key, AllEntries, lookup-AllEntries, AllEntries-of_lookup,
}
use realtime_meeting_transla.Traceability.Rows.{Row, new_row}
use realtime_meeting_transla.Traceability.Reading.Parsed.{IsCatalogue, IsMatrix, IsEntry}
use realtime_meeting_transla.Traceability.Syncing.{
  SyncResult, synced_row, synced_rows, orphaned_rows, row_key, row_before, orphan_before, sync,
}
use realtime_meeting_transla.Traceability.Syncing.Result.{req_id-synced_row, the_result, sync_total}
use realtime_meeting_transla.Traceability.Syncing.Again.{orphan_before-asym}
use realtime_meeting_transla.Traceability.Syncing.Carried.{requirement-synced_row}
use realtime_meeting_transla.Traceability.Syncing.Fixpoint.{Agrees, rows-Agrees}

-- The ids of a catalogue.
abbrev ids : Dict Text → List Text
ids [] = []
ids ((req_id, text) ∷ catalogue) = req_id ∷ ids catalogue

-- A row of the catalogue: the text is from there, and all else is as it was, or as for a new id.
abbrev IsCarried : Dict Text → Dict Row → Row → Type 0
IsCarried catalogue existing row =
    (lookup row.req_id catalogue ≡ some row.requirement)
    × (((lookup row.req_id existing ≡ none) × (row ≡ new_row row.req_id row.requirement))
        ⊎ ((old : Row) × (lookup row.req_id existing ≡ some old)
            × (row ≡ record old { requirement = row.requirement })))

-- An old row whose id has left the catalogue.
abbrev IsGone : Dict Text → Dict Row → Row → Type 0
IsGone catalogue existing row =
    (lookup row.req_id existing ≡ some row) × (lookup row.req_id catalogue ≡ none)

-- A result as it should be: one row for each id of the catalogue, each carried over; every old row
-- whose id is gone, and no other, among the orphans; and both in the order of their keys.
pub record IsSynced (decimal : ℕ → Option ℕ) (catalogue : Dict Text) (existing : Dict Row)
    (result : SyncResult) : Type 0 where
  pub one_each : Perm (map (λ row. row.req_id) result.rows) (ids catalogue)
  pub carried : All (IsCarried catalogue existing) result.rows
  pub gone : All (IsGone catalogue existing) result.orphaned
  pub kept : (row : Row) → IsGone catalogue existing row → In row result.orphaned
  pub in_order : IsSorted (row_before decimal) result.rows
  pub orphans_in_order : IsSorted (orphan_before decimal) result.orphaned

synced_row-carried :
    (existing : Dict Row) (row : Row) (req_id text : Text)
    → row ≡ synced_row existing req_id text
    → ((lookup req_id existing ≡ none) × (row ≡ new_row req_id text))
      ⊎ ((old : Row) × (lookup req_id existing ≡ some old)
          × (row ≡ record old { requirement = text }))
unfolding synced_row
synced_row-carried existing row req_id text e = elim (Option-cases (lookup req_id existing)) [
  | inl new ↦ inl (new, rw (synced_row, new) at e)
  | inr (old, known) ↦ inr (old, known, rw (synced_row, known) at e)
]

lookup_absent : (d : Dict Text) (k : Text) → has_key k d ≡ false → lookup k d ≡ none
lookup_absent d k h = elim (Option-cases (lookup k d)) [
  | inl absent ↦ absent
  | inr (text, known) ↦ absurd (let e = rw (has_key, known) at h in ground arith)
]

absent_lookup : (d : Dict Text) (k : Text) → lookup k d ≡ none → has_key k d ≡ false
absent_lookup d k h = rw (has_key, h) refl

module _ (decimal : ℕ → Option ℕ) (catalogue : Dict Text) (existing : Dict Row)
    (c : IsCatalogue decimal catalogue) (m : IsMatrix decimal existing) where
  Agrees-IsCarried :
      (row : Row) → Agrees decimal catalogue existing c m row → IsCarried catalogue existing row
  Agrees-IsCarried row (text, listed, e) =
      let same : row.requirement ≡ text =
        ap (λ r. r.requirement) e ∙ requirement-synced_row existing row.req_id text in
      subst
        (λ t.
          (lookup row.req_id catalogue ≡ some t)
          × (((lookup row.req_id existing ≡ none) × (row ≡ new_row row.req_id t))
              ⊎ ((old : Row) × (lookup row.req_id existing ≡ some old)
                  × (row ≡ record old { requirement = t }))))
        (sym same) (listed, synced_row-carried existing row row.req_id text e)

  all-IsCarried :
      (rows : List Row)
      → All (Agrees decimal catalogue existing c m) rows
      → All (IsCarried catalogue existing) rows
  all-IsCarried [] h = tt
  all-IsCarried (row ∷ rows) h = (Agrees-IsCarried row h.0, all-IsCarried rows h.1)

  synced_rows-ids :
      (entries : Dict Text) → map (λ row. row.req_id) (synced_rows existing entries) ≡ ids entries
  unfolding synced_rows
  synced_rows-ids [] = refl
  synced_rows-ids ((req_id, text) ∷ entries) =
      ap₂ (◌∷◌) (req_id-synced_row decimal existing req_id text m) (synced_rows-ids entries)

  -- Below, the orphans among some entries of the old matrix.
  all-IsGone :
      (entries : Dict Row)
      → AllEntries (λ k r. (lookup k existing ≡ some r) × (r.req_id ≡ k)) entries
      → All (IsGone catalogue existing) (orphaned_rows catalogue entries)
  unfolding orphaned_rows
  all-IsGone [] h = tt
  all-IsGone ((k, r) ∷ entries) h = elim (Bool-cases (has_key k catalogue)) [
    | inl known ↦ rw known (all-IsGone entries h.1)
    | inr absent ↦ rw absent (
      (
        ap (λ i. lookup i existing) h.0.1 ∙ h.0.0,
        ap (λ i. lookup i catalogue) h.0.1 ∙ lookup_absent catalogue k absent,
      ),
      all-IsGone entries h.1,
    )
  ]

  In-orphaned_rows :
      (row : Row) (entries : Dict Row)
      → lookup row.req_id entries ≡ some row
      → lookup row.req_id catalogue ≡ none
      → In row (orphaned_rows catalogue entries)
  unfolding orphaned_rows lookup
  In-orphaned_rows row [] h n = absurd (ground arith)
  In-orphaned_rows row ((k, r) ∷ entries) h n = elim (Bool-cases (text_eq k row.req_id)) [
    | inl same ↦
        let absent : has_key k catalogue ≡ false =
          rw ((text_eq_iff k row.req_id).0 same) (absent_lookup catalogue row.req_id n) in
        let own : r ≡ row = some-injective r row (rw same at h) in rw absent (inl (sym own))
    | inr other ↦
        let rest = In-orphaned_rows row entries (rw other at h) n in
        elim (Bool-cases (has_key k catalogue)) [
          | inl known ↦ rw known rest
          | inr absent ↦ rw absent (inr rest)
        ]
  ]

  row_before-asym : (a b : Row) → row_before decimal a b ≡ true → row_before decimal b a ≡ false
  unfolding row_before
  row_before-asym a b h = elim (Option-cases (row_key decimal a)) [
    | inl bad ↦ absurd (let k = rw (row_before, bad) at h in ground arith)
    | inr ((d, n), at_a) ↦ elim (Option-cases (row_key decimal b)) [
      | inl bad ↦ absurd (let k = rw (row_before, at_a, bad) at h in ground arith)
      | inr ((e, l), at_b) ↦
          let first = rw (row_before, at_a, at_b) at h in
          rw (row_before, at_b, at_a) (let k = first in ground arith)
    ]
  ]

  -- `sync` of a catalogue and a matrix as they are read succeeds, with one row for each id of the
  -- catalogue, whose text is the catalogue's and whose other cells are those of the old matrix, or
  -- those of a new row if it has none; with the old rows of all other ids, and no other rows, as
  -- orphans; and with both in the order of their sort keys.
  pub sync-IsSynced :
      (result : SyncResult) × (sync decimal catalogue existing ≡ some result)
      × IsSynced decimal catalogue existing result
  sync-IsSynced =
      let rows = synced_rows existing catalogue in
      let orphans = orphaned_rows catalogue existing in
      let entries =
        AllEntries-of_lookup (λ k r. (lookup k existing ≡ some r) × (r.req_id ≡ k)) existing m.0
          (λ k r e. (e, (lookup-AllEntries (IsEntry decimal) k r existing m.1 e).0)) in
      (
        the_result decimal catalogue existing c m,
        sync_total decimal catalogue existing c m,
        record {
          one_each =
              Perm.trans (Perm.map (λ row. row.req_id) (sort_by-perm (row_before decimal) rows)) (
                subst (λ l. Perm l (ids catalogue)) (sym (synced_rows-ids catalogue))
                  (Perm.refl (ids catalogue)));
          carried =
              all-IsCarried (the_result decimal catalogue existing c m).rows
                (rows-Agrees decimal catalogue existing c m);
          gone =
              All-sort_by (orphan_before decimal) (IsGone catalogue existing) orphans
                (all-IsGone existing entries);
          kept = λ row h.
              In-sort_by (orphan_before decimal) row orphans
                (In-orphaned_rows row existing h.0 h.1);
          in_order = sort_by-IsSorted (row_before decimal) row_before-asym rows;
          orphans_in_order =
              sort_by-IsSorted (orphan_before decimal) (orphan_before-asym decimal) orphans;
        },
      )
