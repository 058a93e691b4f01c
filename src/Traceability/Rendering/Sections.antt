-- ===== src/Traceability/Rendering/Sections.antt =====
-- The rows that the parser reads off the whole rendered matrix (tools/traceability_sync.py).
use realtime_meeting_transla.Prelude.{
  ℕ, ◌<◌, ◌≡◌, refl, ap, sym, ◌∙◌, true, Option, none, List, [], ◌∷◌, ◌++◌, map, append_assoc,
  append-nil, Text, codes, show, arith, All, All-append, length, text_eq, filterb, All-filterb,
}
use mathlib.Core.Path.{ap₂}
use realtime_meeting_transla.Prelude.Dict.{Dict}
use realtime_meeting_transla.Identifiers.Digits.{IsDigit, show-IsDigit, show-nonempty}
use realtime_meeting_transla.Traceability.Cells.{is_space}
use realtime_meeting_transla.Traceability.Rows.{
  Row, domain, domain_order, allowed_statuses, planned,
}
use realtime_meeting_transla.Traceability.Reading.{row_of_line}
use realtime_meeting_transla.Traceability.Reading.RowLines.{IsRow}
use realtime_meeting_transla.Traceability.Reading.Parsed.{read_rows, add_row, read_rows-append}
use realtime_meeting_transla.Traceability.Syncing.{SyncResult}
use realtime_meeting_transla.Traceability.Rendering.{
  render_table, section, sections, domain_title, orphan_section, orphan_note, accepted_table,
  accepted_rows, render_lines, count_of, count_line, count_statuses, total_line, unmapped_line,
  summary, preamble,
}
use realtime_meeting_transla.Traceability.Rendering.Prose.{
  row_of_line_ink, row_of_line_pair, blank_none, all_quiet, quiet, all_quiet-read_rows, IsInk,
  show-IsInk, all_ink, all_ink-IsInk, preamble-read_rows,
}
use realtime_meeting_transla.Traceability.Rendering.Tables.{render_table-read_rows}

-- The summary.
module _ (decimal : ℕ → Option ℕ) where
  count_lines-read_rows :
      (counts : Dict ℕ) (statuses : List Text)
      → All (λ s. all_ink s ≡ true) statuses
      → read_rows decimal (map (count_line counts) statuses) ≡ []
  unfolding count_line
  count_lines-read_rows counts [] h = refl
  count_lines-read_rows counts (s ∷ statuses) h =
      rw
        (
          add_row,
          row_of_line_pair decimal s (show (count_of s counts)) (all_ink-IsInk s h.0)
              (show-IsInk (count_of s counts)),
        )
        (count_lines-read_rows counts statuses h.1)

  total_none : (rows : List Row) → row_of_line decimal (total_line rows) ≡ none
  unfolding total_line all_ink is_space
  total_none rows =
      let n = show (length rows) in
      let ink : All IsInk (codes "**" ++ n ++ codes "**") =
        All-append _ (codes "**" ++ n) (codes "**")
          (All-append _ (codes "**") n (all_ink-IsInk (codes "**") refl) (show-IsInk (length rows)))
          (all_ink-IsInk (codes "**") refl) in
      ap (λ s. row_of_line decimal (codes "| **total** | **" ++ s))
        (sym (append_assoc n (codes "**") (codes " |")))
      ∙ row_of_line_pair decimal (codes "**total**") (codes "**" ++ n ++ codes "**")
          (all_ink-IsInk (codes "**total**") refl) ink

  number_none :
      (n u v : Text)
      → All IsDigit n
      → 0 < length n
      → row_of_line decimal (n ++ codes " of " ++ u ++ v) ≡ none
  unfolding is_space
  number_none [] u v h k = absurd (ground arith)
  number_none (c ∷ n) u v h k =
      row_of_line_ink decimal c (n ++ codes " of " ++ u ++ v) (let d = h.0 in ground arith)
        (let d = h.0 in ground arith)

  unmapped_none : (rows : List Row) → row_of_line decimal (unmapped_line rows) ≡ none
  unfolding unmapped_line
  unmapped_none rows =
      let n = length (filterb (λ row. text_eq row.status planned) rows) in
      number_none (show n) (show (length rows)) _ (show-IsDigit n) (show-nonempty n)

  statuses_ink : All (λ s. all_ink s ≡ true) allowed_statuses
  unfolding all_ink is_space
  statuses_ink = (refl, (refl, (refl, (refl, (refl, (refl, (refl, (refl, tt))))))))

  summary-read_rows : (rows : List Row) → read_rows decimal (summary rows) ≡ []
  unfolding summary
  summary-read_rows rows =
      read_rows-append decimal (map (count_line (count_statuses rows [])) allowed_statuses)
        (total_line rows ∷ [] ∷ unmapped_line rows ∷ [] ∷ [])
      ∙ ap₂ (◌++◌) (count_lines-read_rows (count_statuses rows []) allowed_statuses statuses_ink)
          (rw (add_row, total_none rows, unmapped_none rows, blank_none decimal) refl)

  section-read_rows :
      (name : Text) (rows : List Row)
      → All (IsRow decimal) rows
      → read_rows decimal (section name rows) ≡ rows
  unfolding section is_space
  section-read_rows name [] h = refl
  section-read_rows name (row ∷ rows) h =
      let table = render_table (row ∷ rows) in
      rw
        (
          add_row,
          row_of_line_ink decimal b'#' (codes "# " ++ domain_title name) refl refl,
          blank_none decimal,
        )
        (read_rows-append decimal table ([] ∷ [])
          ∙ ap₂ (◌++◌) (render_table-read_rows decimal (row ∷ rows) h)
              (rw (add_row, blank_none decimal) refl)
          ∙ append-nil (row ∷ rows))

-- The rows in the order in which the sections of the domains print them.
abbrev pub printed_rows : List Text → List Row → List Row
printed_rows [] rows = []
printed_rows (name ∷ names) rows =
    filterb (λ row. text_eq (domain row) name) rows ++ printed_rows names rows

module _ (decimal : ℕ → Option ℕ) where
  sections-read_rows :
      (names : List Text) (rows : List Row)
      → All (IsRow decimal) rows
      → read_rows decimal (sections names rows) ≡ printed_rows names rows
  unfolding sections
  sections-read_rows [] rows h = refl
  sections-read_rows (name ∷ names) rows h =
      let mine = filterb (λ row. text_eq (domain row) name) rows in
      read_rows-append decimal (section name mine) (sections names rows)
      ∙ ap₂ (◌++◌) (section-read_rows decimal name mine (All-filterb (IsRow decimal) _ rows h))
          (sections-read_rows names rows h)

  orphan_section-read_rows :
      (rows : List Row) → All (IsRow decimal) rows → read_rows decimal (orphan_section rows) ≡ rows
  unfolding orphan_section all_quiet quiet is_space text_eq
  orphan_section-read_rows [] h = refl
  orphan_section-read_rows (row ∷ rows) h =
      let head = codes "## Orphaned rows" ∷ [] ∷ orphan_note ∷ [] ∷ [] in
      let table = render_table (row ∷ rows) in
      read_rows-append decimal head (table ++ [] ∷ [])
      ∙ ap₂ (◌++◌) (all_quiet-read_rows decimal head refl) (
          read_rows-append decimal table ([] ∷ [])
          ∙ ap₂ (◌++◌) (render_table-read_rows decimal (row ∷ rows) h)
              (rw (add_row, blank_none decimal) refl)
          ∙ append-nil (row ∷ rows))

  accepted_table-read_rows :
      (rows : List Row) → All (IsRow decimal) rows → read_rows decimal (accepted_table rows) ≡ rows
  unfolding accepted_table all_quiet quiet is_space text_eq
  accepted_table-read_rows [] h = all_quiet-read_rows decimal (codes "None." ∷ []) refl
  accepted_table-read_rows (row ∷ rows) h = render_table-read_rows decimal (row ∷ rows) h

  -- All rows of the matrix as it is printed: by domain, then the orphaned, then the accepted
  -- exceptions once more.
  abbrev pub all_printed : SyncResult → List Row
  all_printed result =
      printed_rows domain_order result.rows ++ result.orphaned ++ accepted_rows result.rows

  pub render_lines-read_rows :
      (result : SyncResult)
      → All (IsRow decimal) result.rows
      → All (IsRow decimal) result.orphaned
      → read_rows decimal (render_lines result) ≡ all_printed result
  unfolding render_lines accepted_rows all_quiet quiet is_space text_eq
  render_lines-read_rows result h k =
      let rows = result.rows in
      let first = preamble ++ summary rows in
      let second = first ++ sections domain_order rows in
      let third = second ++ orphan_section result.orphaned in
      let title = codes "## Accepted exceptions" ∷ [] ∷ [] in
      let accepted = accepted_table (accepted_rows rows) in
      let kept = All-filterb (IsRow decimal) _ rows h in
      let end : read_rows decimal (title ++ accepted) ≡ accepted_rows rows =
        read_rows-append decimal title accepted
        ∙ ap₂ (◌++◌) (all_quiet-read_rows decimal title refl)
            (accepted_table-read_rows (accepted_rows rows) kept) in
      read_rows-append decimal third (title ++ accepted)
      ∙ ap₂ (◌++◌)
          (read_rows-append decimal second (orphan_section result.orphaned)
            ∙ ap₂ (◌++◌)
                (read_rows-append decimal first (sections domain_order rows)
                  ∙ ap₂ (◌++◌)
                      (read_rows-append decimal preamble (summary rows)
                        ∙ ap₂ (◌++◌) (preamble-read_rows decimal) (summary-read_rows decimal rows))
                      (sections-read_rows domain_order rows h))
                (orphan_section-read_rows result.orphaned k))
          end
