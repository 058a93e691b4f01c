-- ===== src/Traceability/Syncing/Fixpoint.antt =====
-- A second sync, of the matrix that the first one printed (tools/traceability_sync.py).
use realtime_meeting_transla.Prelude.{
  ℕ, ◌≡◌, refl, ap, sym, ◌∙◌, true, false, Option, none, some, List, [], ◌∷◌, ◌++◌, Text, arith,
  Bool-cases, inl, inr, All, All-append, All-filterb, text_eq, text_eq_iff,
}
use mathlib.Core.Path.{ap₂}
use mathlib.Core.Option.{some-injective}
use realtime_meeting_transla.Prelude.Sorting.{In, All-sort_by, In-sort_by, All-In, In-append_left}
use realtime_meeting_transla.Prelude.Dict.{Dict, lookup, has_key, AllEntries, AllEntries-of_lookup}
use realtime_meeting_transla.Traceability.Rows.{Row, domain_order}
use realtime_meeting_transla.Traceability.Rows.Keys.{match_id-domain}
use realtime_meeting_transla.Traceability.Reading.RowLines.{IsRow}
use realtime_meeting_transla.Traceability.Reading.Parsed.{IsCatalogue, IsMatrix, insert_rows}
use realtime_meeting_transla.Traceability.Syncing.{
  SyncResult, synced_row, synced_rows, added_ids, orphaned_rows, row_before,
}
use realtime_meeting_transla.Traceability.Syncing.Result.{
  req_id-synced_row, the_result, rows-IsRow, orphaned-gone, orphaned-Apart,
}
use realtime_meeting_transla.Traceability.Syncing.Carried.{
  has_key_of, synced_row_known, requirement-synced_row, added_ids_known, lookup-nil, absent,
}
use realtime_meeting_transla.Traceability.Syncing.Entering.{
  insert_rows-append, lookup-insert_rows, lookup-insert_rows_other, orphaned_rows-insert_rows_known,
  orphaned_rows-insert_rows_new,
}
use realtime_meeting_transla.Traceability.Syncing.Printed.{In-printed_rows, All-printed_rows}
use realtime_meeting_transla.Traceability.Rendering.{accepted_rows}
use realtime_meeting_transla.Traceability.Rendering.Sections.{printed_rows, all_printed}

module _ (decimal : ℕ → Option ℕ) (catalogue : Dict Text) (existing : Dict Row)
    (c : IsCatalogue decimal catalogue) (m : IsMatrix decimal existing) where
  -- The row that the catalogue and the old matrix give to the id of a row.
  abbrev pub Agrees : Row → Type 0
  Agrees r =
      (text : Text) × (lookup r.req_id catalogue ≡ some text)
      × (r ≡ synced_row existing r.req_id text)

  abbrev Listed : Text → Text → Type 0
  Listed req_id text = lookup req_id catalogue ≡ some text

  all-Listed : AllEntries Listed catalogue
  all-Listed = AllEntries-of_lookup Listed catalogue c.0 (λ k v e. e)

  synced_row-Agrees :
      (req_id text : Text) → Listed req_id text → Agrees (synced_row existing req_id text)
  synced_row-Agrees req_id text h =
      let id = req_id-synced_row decimal existing req_id text m in
      (text, ap (λ k. lookup k catalogue) id ∙ h, sym (ap (λ k. synced_row existing k text) id))

  synced_rows-Agrees :
      (entries : Dict Text) → AllEntries Listed entries → All Agrees (synced_rows existing entries)
  unfolding synced_rows
  synced_rows-Agrees [] h = tt
  synced_rows-Agrees ((req_id, text) ∷ entries) h =
      (synced_row-Agrees req_id text h.0, synced_rows-Agrees entries h.1)

  In-synced_rows :
      (req_id text : Text) (entries : Dict Text)
      → lookup req_id entries ≡ some text
      → In (synced_row existing req_id text) (synced_rows existing entries)
  unfolding synced_rows lookup
  In-synced_rows req_id text [] h = absurd (ground arith)
  In-synced_rows req_id text ((k, v) ∷ entries) h = elim (Bool-cases (text_eq k req_id)) [
    | inl same ↦
        let kept : v ≡ text = ground arith in
        inl (ap₂ (synced_row existing) (sym ((text_eq_iff k req_id).0 same)) (sym kept))
    | inr other ↦ inr (In-synced_rows req_id text entries (rw other at h))
  ]

  abbrev result : SyncResult
  result = the_result decimal catalogue existing c m

  abbrev printed : List Row
  printed = printed_rows domain_order result.rows

  pub rows-Agrees : All Agrees result.rows
  rows-Agrees =
      All-sort_by (row_before decimal) Agrees (synced_rows existing catalogue)
        (synced_rows-Agrees catalogue all-Listed)

  known : (rows : List Row) → All Agrees rows → All (λ r. has_key r.req_id catalogue ≡ true) rows
  known [] h = tt
  known (r ∷ rows) h = (has_key_of r.req_id h.0.0 catalogue h.0.1, known rows h.1)

  -- The printed rows of one id of the catalogue are the same row.
  module _ (req_id text : Text) (h : Listed req_id text) where
    abbrev row : Row
    row = synced_row existing req_id text

    own_id : row.req_id ≡ req_id
    own_id = req_id-synced_row decimal existing req_id text m

    agree-same : (r : Row) → Agrees r → r.req_id ≡ row.req_id → r ≡ row
    agree-same r a e =
        let id : r.req_id ≡ req_id = e ∙ own_id in
        let same : a.0 ≡ text =
          some-injective _ _ (sym a.1 ∙ ap (λ k. lookup k catalogue) id ∙ h) in
        a.2 ∙ ap₂ (synced_row existing) id same

    Agrees-same :
        (rows : List Row) → All Agrees rows → All (λ r. r.req_id ≡ row.req_id → r ≡ row) rows
    Agrees-same [] a = tt
    Agrees-same (r ∷ rows) a = (agree-same r a.0, Agrees-same rows a.1)

    gone_same :
        (rows : List Row)
        → All (λ r. has_key r.req_id catalogue ≡ false) rows
        → All (λ r. r.req_id ≡ row.req_id → r ≡ row) rows
    gone_same [] g = tt
    gone_same (r ∷ rows) g = (λ e. absurd (clash e), gone_same rows g.1)
      where
        clash : r.req_id ≡ row.req_id → ⊥
        clash e =
            let there = rw (e ∙ own_id) at g.0 in
            let here = has_key_of req_id text catalogue h in ground arith

    row-printed : In row printed
    row-printed =
        let i =
          In-sort_by (row_before decimal) row (synced_rows existing catalogue)
            (In-synced_rows req_id text catalogue h) in
        let proper =
          All-In (IsRow decimal) result.rows row (rows-IsRow decimal catalogue existing c m) i in
        In-printed_rows row domain_order result.rows (match_id-domain decimal row proper.0) i

    pub lookup-again :
        lookup req_id (insert_rows decimal (all_printed decimal result) []) ≡ some row
    unfolding accepted_rows
    lookup-again =
        let listed =
          All-append _ (printed ++ result.orphaned) (accepted_rows result.rows)
            (All-append _ printed result.orphaned
              (Agrees-same printed (All-printed_rows Agrees domain_order result.rows rows-Agrees))
              (gone_same result.orphaned (orphaned-gone decimal catalogue existing c m)))
            (Agrees-same (accepted_rows result.rows)
              (All-filterb Agrees _ result.rows rows-Agrees)) in
        ap (λ k. lookup k (insert_rows decimal (all_printed decimal result) [])) (sym own_id)
        ∙ (lookup-insert_rows decimal row (all_printed decimal result) [] listed (
            inr (
              In-append_left row (printed ++ result.orphaned) (accepted_rows result.rows)
                (In-append_left row printed result.orphaned row-printed))))

  -- The matrix that is read back.
  abbrev pub again : Dict Row
  again = insert_rows decimal (all_printed decimal result) []

  synced_row-again :
      (req_id text : Text)
      → Listed req_id text
      → synced_row again req_id text ≡ synced_row existing req_id text
  synced_row-again req_id text h =
      synced_row_known again req_id text (synced_row existing req_id text)
        (lookup-again req_id text h) (requirement-synced_row existing req_id text)

  synced_rows-again :
      (entries : Dict Text)
      → AllEntries Listed entries
      → synced_rows again entries ≡ synced_rows existing entries
  unfolding synced_rows
  synced_rows-again [] h = refl
  synced_rows-again ((req_id, text) ∷ entries) h =
      ap₂ (◌∷◌) (synced_row-again req_id text h.0) (synced_rows-again entries h.1)

  added_ids-again : (entries : Dict Text) → AllEntries Listed entries → added_ids again entries ≡ []
  unfolding added_ids
  added_ids-again [] h = refl
  added_ids-again ((req_id, text) ∷ entries) h =
      added_ids_known again req_id text entries
        (has_key_of req_id (synced_row existing req_id text) again (lookup-again req_id text h.0))
      ∙ added_ids-again entries h.1

  all_new :
      (rows : List Row)
      → All (λ r. has_key r.req_id catalogue ≡ false) rows
      → All (λ r. lookup r.req_id (insert_rows decimal printed []) ≡ none) rows
  all_new [] g = tt
  all_new (r ∷ rows) g =
      let both_known =
        known printed (All-printed_rows Agrees domain_order result.rows rows-Agrees) in
      (
        lookup-insert_rows_other decimal r.req_id printed []
              (absent catalogue r.req_id printed g.0 both_known)
            ∙ lookup-nil r.req_id,
        all_new rows g.1,
      )

  pub orphaned_again : orphaned_rows catalogue again ≡ result.orphaned
  unfolding accepted_rows orphaned_rows
  orphaned_again =
      let accepted = accepted_rows result.rows in
      let before = insert_rows decimal printed [] in
      let middle = insert_rows decimal result.orphaned before in
      let both_known =
        known printed (All-printed_rows Agrees domain_order result.rows rows-Agrees) in
      ap (orphaned_rows catalogue) (
        insert_rows-append decimal (printed ++ result.orphaned) accepted []
        ∙ ap (insert_rows decimal accepted) (insert_rows-append decimal printed result.orphaned []))
      ∙ orphaned_rows-insert_rows_known decimal catalogue accepted middle
          (known accepted (All-filterb Agrees _ result.rows rows-Agrees))
      ∙ orphaned_rows-insert_rows_new decimal catalogue result.orphaned before
          (orphaned-gone decimal catalogue existing c m)
          (all_new result.orphaned (orphaned-gone decimal catalogue existing c m))
          (orphaned-Apart decimal catalogue existing c m)
      ∙ ap (λ l. l ++ result.orphaned)
          (orphaned_rows-insert_rows_known decimal catalogue printed [] both_known)

  pub rows_again : synced_rows again catalogue ≡ synced_rows existing catalogue
  rows_again = synced_rows-again catalogue all-Listed

  pub added_again : added_ids again catalogue ≡ []
  added_again = added_ids-again catalogue all-Listed
