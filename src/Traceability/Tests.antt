-- ===== src/Traceability/Tests.antt =====
-- The properties of tools/traceability_sync.py at concrete files.
use realtime_meeting_transla.Prelude.{
  ℕ, ◌-◌, ap, ◌≡◌, ◌≢◌, ◌↔◌, refl, true, false, Option, none, some, List, [], ◌∷◌, ◌++◌, map, Text,
  codes, text_eq, text_ltb, longer, leb, if◌then◌else◌, All,
}
use realtime_meeting_transla.Prelude.Dict.{Dict, lookup, insert, member, IsDistinct}
use realtime_meeting_transla.Prelude.Sorting.{sort_by, insert_by}
use realtime_meeting_transla.Identifiers.{
  strip_prefix, match_dash, at_end, read_digits, match_ordinal,
}
use realtime_meeting_transla.Traceability.Cells.{
  is_space, lstrip, rstrip, is_empty, strip, starts_with, ends_with, but_last, split_pipes,
  drop_edge_pipe, split_body, split_stripped, split_markdown_row, is_rule, all_rules,
  is_separator_row, escape_cell, unescape_cell, row_text,
}
use realtime_meeting_transla.Traceability.Cells.Edges.{starts_blank, ends_blank, IsStripped}
use realtime_meeting_transla.Traceability.Cells.RoundTrip.{split_markdown_row-row_text}
use realtime_meeting_transla.Traceability.Rows.{
  Row, new_row, allowed_statuses, before_dash, after_dash, match_digits, match_number, match_behind,
  match_domains, match_id, number,
}
use realtime_meeting_transla.Traceability.Reading.{
  found, is_break, read_text, splitlines, requirement_cells, read_ids, parse_requirement_ids,
  row_of_line, read_lines, parse_existing_matrix, parse_existing_matrix_from_text,
}
use realtime_meeting_transla.Traceability.Syncing.{
  SyncResult, synced_row, synced_rows, added_ids, orphaned_rows, index, row_key, orphan_key,
  all_keyed, row_before, orphan_before, sync,
}
use realtime_meeting_transla.Traceability.Command.{
  Files, Outcome, wrote, current, check_rows, finish, run_sync, run_catalogue, main,
}
use realtime_meeting_transla.Traceability.Command.Runs.{Verdict, main-Verdict}
use realtime_meeting_transla.Traceability.Command.Again.{main-main}
use realtime_meeting_transla.Traceability.Reading.Parsed.{
  IsMatrix, parse_requirement_ids-IsCatalogue, parse_existing_matrix-IsMatrix,
}
use realtime_meeting_transla.Traceability.Reading.Catalogues.{
  requirements, parse_requirement_ids_iff,
}
use realtime_meeting_transla.Traceability.Syncing.Contract.{IsSynced, sync-IsSynced}
use realtime_meeting_transla.Traceability.Rendering.{count_statuses}
use realtime_meeting_transla.Traceability.Rendering.Counts.{sum_counts, sum_counts-count_statuses}

-- The ten digits of ASCII, and no others.
abbrev ascii_table : ℕ → Option ℕ
ascii_table c = if leb b'0' c then (if leb c b'9' then some (c - b'0') else none) else none

abbrev ids_file : Text
ids_file =
    codes "# IDs" ++ 10 ∷ codes "| UI-020 | Show |" ++ 10 ∷ codes "| AUD-010 | a \\| b |" ++ 10 ∷ []

abbrev matrix_file : Text
matrix_file =
    codes "| UI-020 | Old | A | m | t | f | e | tested | n |"
    ++ 10 ∷ codes "| SEC-007 | Gone | - | - | - | - | - | planned | - |"
    ++ 10 ∷ []

abbrev files : Files
files = record { ids = some ids_file; matrix = some matrix_file }

pair_eta : (p : Outcome × Files) (o : Outcome) → p.0 ≡ o → p ≡ (o, p.1)
pair_eta p o e = ap (λ x. (x, p.1)) e

says : (main ascii_table false files).0 ≡ wrote 2 (codes "AUD-010" ∷ []) (codes "SEC-007" ∷ [])
unfolding main run_catalogue run_sync finish check_rows member sync synced_rows synced_row added_ids
    orphaned_rows all_keyed row_key orphan_key row_before orphan_before index sort_by insert_by
    lookup insert text_eq text_ltb parse_requirement_ids read_ids requirement_cells
    parse_existing_matrix parse_existing_matrix_from_text read_lines row_of_line read_text
    splitlines is_break longer starts_with split_markdown_row split_stripped split_body
    drop_edge_pipe ends_with but_last split_pipes unescape_cell strip lstrip rstrip is_space
    is_empty is_separator_row all_rules is_rule match_id match_domains match_behind strip_prefix
    match_dash match_number match_digits at_end number after_dash before_dash match_ordinal
    read_digits
says = refl

main-main_example :
    let after = (main ascii_table false files).1 in
    (main ascii_table true after ≡ (current 2, after))
    × (main ascii_table false after ≡ (wrote 2 [] (codes "SEC-007" ∷ []), after))
main-main_example =
    main-main ascii_table files (main ascii_table false files).1 2 (codes "AUD-010" ∷ [])
      (codes "SEC-007" ∷ []) (pair_eta (main ascii_table false files) _ says)

main-Verdict_example : Verdict ascii_table true files (main ascii_table true files)
main-Verdict_example = main-Verdict ascii_table true files

abbrev catalogue : Dict Text
catalogue = (codes "UI-020", codes "Show") ∷ (codes "AUD-010", codes "a | b") ∷ []

catalogue_read : parse_requirement_ids ascii_table (some ids_file) ≡ found catalogue
unfolding lookup insert text_eq parse_requirement_ids read_ids requirement_cells read_text
    splitlines is_break longer starts_with split_markdown_row split_stripped split_body
    drop_edge_pipe ends_with but_last split_pipes unescape_cell strip lstrip rstrip is_space
    is_empty is_separator_row all_rules is_rule match_id match_domains match_behind strip_prefix
    match_dash match_number match_digits at_end
catalogue_read = refl

parse_requirement_ids_iff_example :
    (parse_requirement_ids ascii_table (some ids_file) ≡ found catalogue) ↔ (
      (requirements ascii_table (splitlines (read_text ids_file)) ≡ catalogue)
      × IsDistinct catalogue
      × (catalogue ≢ []))
parse_requirement_ids_iff_example = parse_requirement_ids_iff ascii_table ids_file catalogue

abbrev matrix : Dict Row
matrix = parse_existing_matrix ascii_table (some matrix_file)

sync-IsSynced_example :
    (result : SyncResult) × (sync ascii_table catalogue matrix ≡ some result)
    × IsSynced ascii_table catalogue matrix result
sync-IsSynced_example =
    sync-IsSynced ascii_table catalogue matrix
      (parse_requirement_ids-IsCatalogue ascii_table (some ids_file) catalogue catalogue_read)
      (parse_existing_matrix-IsMatrix ascii_table (some matrix_file))

-- A pipe, a backslash before a pipe, a backslash at the end, and an empty cell.
abbrev cells : List Text
cells = codes "a | b" ∷ codes "a \\| b" ∷ codes "a\\" ∷ [] ∷ []

cells-IsStripped : All IsStripped cells
unfolding starts_blank ends_blank is_space
cells-IsStripped = ((refl, refl), ((refl, refl), ((refl, refl), ((refl, refl), tt))))

split_markdown_row-row_text_example : split_markdown_row (row_text (map escape_cell cells)) ≡ cells
split_markdown_row-row_text_example =
    split_markdown_row-row_text (codes "a | b") (codes "a \\| b" ∷ codes "a\\" ∷ [] ∷ [])
      cells-IsStripped

abbrev rows : List Row
rows =
    new_row (codes "UI-020") (codes "Show")
    ∷ record (new_row (codes "AUD-010") (codes "a")) { status = codes "failed" }
    ∷ []

rows_allowed : All (λ row. member row.status allowed_statuses ≡ true) rows
unfolding member text_eq
rows_allowed = (refl, (refl, tt))

sum_counts-count_statuses_example : sum_counts allowed_statuses (count_statuses rows []) ≡ 2
sum_counts-count_statuses_example = sum_counts-count_statuses rows rows_allowed

parse_existing_matrix-IsMatrix_example :
    IsMatrix ascii_table (parse_existing_matrix ascii_table (some matrix_file))
parse_existing_matrix-IsMatrix_example =
    parse_existing_matrix-IsMatrix ascii_table (some matrix_file)
