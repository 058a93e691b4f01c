-- ===== src/Traceability/Reading.antt =====
-- tools/traceability_sync.py: reading the catalogue of requirement ids and the matrix. A file is
-- the text that its bytes decode to.
pub mod Lines
pub mod RowLines
pub mod Parsed
pub mod Catalogues
use realtime_meeting_transla.Prelude.{
  ℕ, suc, zero, Bool, true, false, not, ◌&&◌, ◌||◌, Option, none, some, List, [], ◌∷◌, Text, longer,
  if◌then◌else◌, leb, ltb, ◌==◌, length,
}
use realtime_meeting_transla.Prelude.Dict.{Dict, lookup, insert}
use realtime_meeting_transla.Traceability.Cells.{starts_with, split_markdown_row, is_separator_row}
use realtime_meeting_transla.Traceability.Rows.{Row, columns, match_id}

-- `read_text` turns each end of a line into a newline.
unfoldable pub read_text : Text → Text
unfolding starts_with
read_text [] = []
read_text (c ∷ s) =
    let rest = read_text s in
    if c == 13 then (if starts_with 10 s then rest else 10 ∷ rest) else c ∷ rest

-- The ends of lines of `str.splitlines`, `\r\n` apart.
unfoldable pub is_break : ℕ → Bool
is_break c = (leb 10 c && leb c 13) || (leb 28 c && leb c 30) || c == 133 || c == 8232 || c == 8233

unfoldable pub splitlines : Text → List Text
unfolding is_break longer starts_with
splitlines [] = []
splitlines (c ∷ s) =
    let lines = splitlines s in
    if c == 13 && starts_with 10 s then lines else if is_break c then [] ∷ lines else longer c lines

-- `cells[n]`, which the code reads only where there is such a cell
abbrev pub cell_at : ℕ → List Text → Text
cell_at n [] = []
cell_at zero (cell ∷ cells) = cell
cell_at (suc n) (cell ∷ cells) = cell_at n cells

-- What the parser of the catalogue gives back, or the message of its `SystemExit`.
pub data Catalogue : Type 0 where
  found : Dict Text → Catalogue
  missing : Catalogue
  duplicate : Text → Catalogue
  no_ids : Catalogue

module _ (decimal : ℕ → Option ℕ) where
  -- The cells of a line that `parse_requirement_ids` does not skip.
  unfoldable pub requirement_cells : Text → Option (Text × Text)
  unfolding split_markdown_row is_separator_row
  requirement_cells line =
      let cells = split_markdown_row line in
      if ltb (length cells) 2 || is_separator_row cells
      then none
      else if match_id decimal (cell_at 0 cells)
      then some (cell_at 0 cells, cell_at 1 cells)
      else none

  unfoldable pub read_ids : List Text → Dict Text → Catalogue
  unfolding requirement_cells
  read_ids [] [] = no_ids
  read_ids [] (entry ∷ entries) = found (entry ∷ entries)
  read_ids (line ∷ lines) ids = elim (requirement_cells line) [
    | none ↦ read_ids lines ids
    | some (req_id, text) ↦ elim (lookup req_id ids) [
      | some old ↦ duplicate req_id
      | none ↦ read_ids lines (insert req_id text ids)
    ]
  ]

  -- `none` is a file that is not there.
  unfoldable pub parse_requirement_ids : Option Text → Catalogue
  parse_requirement_ids none = missing
  parse_requirement_ids (some file) = read_ids (splitlines (read_text file)) []

  -- The row of a line that `parse_existing_matrix_from_text` does not skip.
  unfoldable pub row_of_line : Text → Option Row
  row_of_line line =
      let cells = split_markdown_row line in
      if not (length cells == length columns) || is_separator_row cells
      then none
      else if match_id decimal (cell_at 0 cells)
      then some (record {
        req_id = cell_at 0 cells;
        requirement = cell_at 1 cells;
        adr = cell_at 2 cells;
        module_name = cell_at 3 cells;
        test = cell_at 4 cells;
        fixture = cell_at 5 cells;
        evidence = cell_at 6 cells;
        status = cell_at 7 cells;
        notes = cell_at 8 cells;
      })
      else none

  unfoldable pub read_lines : List Text → Dict Row → Dict Row
  unfolding row_of_line
  read_lines [] existing = existing
  read_lines (line ∷ lines) existing = elim (row_of_line line) [
    | none ↦ read_lines lines existing
    | some row ↦ read_lines lines (insert row.req_id row existing)
  ]

  unfoldable pub parse_existing_matrix_from_text : Text → Dict Row
  unfolding read_lines splitlines
  parse_existing_matrix_from_text text = read_lines (splitlines text) []

  unfoldable pub parse_existing_matrix : Option Text → Dict Row
  unfolding parse_existing_matrix_from_text read_text
  parse_existing_matrix none = []
  parse_existing_matrix (some file) = parse_existing_matrix_from_text (read_text file)
