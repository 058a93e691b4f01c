-- ===== src/Traceability/Reading/Parsed.antt =====
-- What the two parsers give back (tools/traceability_sync.py).
use realtime_meeting_transla.Prelude.{
  ℕ, ◌≡◌, refl, subst, true, ◌||◌, Option, none, some, List, [], ◌∷◌, ◌++◌, Text, arith, Bool-cases,
  Option-cases, inl, inr, ltb, length, All,
}
use mathlib.Core.Option.{some-injective}
use realtime_meeting_transla.Prelude.Dict.{
  Dict, lookup, insert, IsDistinct, AllEntries, insert-IsDistinct, insert-AllEntries,
}
use realtime_meeting_transla.Traceability.Cells.{split_markdown_row, is_separator_row}
use realtime_meeting_transla.Traceability.Rows.{Row, match_id}
use realtime_meeting_transla.Traceability.Reading.{
  found, cell_at, read_text, splitlines, requirement_cells, read_ids, parse_requirement_ids,
  row_of_line, read_lines, parse_existing_matrix_from_text, parse_existing_matrix,
}
use realtime_meeting_transla.Traceability.Reading.Lines.{NoBreak, splitlines-NoBreak}
use realtime_meeting_transla.Traceability.Reading.RowLines.{
  IsCell, IsRow, row_of_line-IsRow, cell_at-IsCell, split_markdown_row-IsCell,
}

module _ (decimal : ℕ → Option ℕ) where
  abbrev pub IsRequirement : Text → Text → Type 0
  IsRequirement req_id text = (match_id decimal req_id ≡ true) × IsCell req_id × IsCell text

  -- A catalogue as it is read: ids that match, each once, and texts that are cells.
  abbrev pub IsCatalogue : Dict Text → Type 0
  IsCatalogue catalogue = IsDistinct catalogue × AllEntries IsRequirement catalogue

  abbrev pub IsEntry : Text → Row → Type 0
  IsEntry req_id row = (row.req_id ≡ req_id) × IsRow decimal row

  -- A matrix as it is read: proper rows under their own ids, each once.
  abbrev pub IsMatrix : Dict Row → Type 0
  IsMatrix existing = IsDistinct existing × AllEntries IsEntry existing

  requirement_cells-IsRequirement :
      (line req_id text : Text)
      → NoBreak line
      → requirement_cells decimal line ≡ some (req_id, text)
      → IsRequirement req_id text
  unfolding requirement_cells
  requirement_cells-IsRequirement line req_id text h e =
      let cells = split_markdown_row line in
      let cell : (n : ℕ) → IsCell (cell_at n cells) =
        λ n. cell_at-IsCell n cells (split_markdown_row-IsCell line h) in
      elim (Bool-cases (ltb (length cells) 2 || is_separator_row cells)) [
        | inl skipped ↦ absurd (let k = rw (requirement_cells, skipped) at e in ground arith)
        | inr kept ↦ elim (Bool-cases (match_id decimal (cell_at 0 cells))) [
          | inr other ↦ absurd (let k = rw (requirement_cells, kept, other) at e in ground arith)
          | inl id ↦
              let both = some-injective _ _ (rw (requirement_cells, kept, id) at e) in
              subst (λ (p : Text × Text). IsRequirement p.0 p.1) both (id, cell 0, cell 1)
        ]
      ]

  read_ids-IsCatalogue :
      (lines : List Text) (ids catalogue : Dict Text)
      → All NoBreak lines
      → IsCatalogue ids
      → read_ids decimal lines ids ≡ found catalogue
      → IsCatalogue catalogue
  unfolding read_ids
  read_ids-IsCatalogue [] [] catalogue h k e = absurd (ground arith)
  read_ids-IsCatalogue [] (entry ∷ ids) catalogue h k e =
      let same : entry ∷ ids ≡ catalogue = ground arith in rw (← same) k
  read_ids-IsCatalogue (line ∷ lines) ids catalogue h k e =
      elim (Option-cases (requirement_cells decimal line)) [
        | inl skipped ↦ read_ids-IsCatalogue lines ids catalogue h.1 k (rw (read_ids, skipped) at e)
        | inr ((req_id, text), kept) ↦ elim (Option-cases (lookup req_id ids)) [
          | inr (old, known) ↦ absurd (let m = rw (read_ids, kept, known) at e in ground arith)
          | inl fresh ↦
              read_ids-IsCatalogue lines (insert req_id text ids) catalogue h.1
                (
                  insert-IsDistinct req_id text ids k.0,
                  insert-AllEntries IsRequirement req_id text ids
                      (requirement_cells-IsRequirement line req_id text h.0 kept) k.1,
                )
                (rw (read_ids, kept, fresh) at e)
        ]
      ]

  pub parse_requirement_ids-IsCatalogue :
      (file : Option Text) (catalogue : Dict Text)
      → parse_requirement_ids decimal file ≡ found catalogue
      → IsCatalogue catalogue
  unfolding parse_requirement_ids
  parse_requirement_ids-IsCatalogue none catalogue e = absurd (ground arith)
  parse_requirement_ids-IsCatalogue (some file) catalogue e =
      read_ids-IsCatalogue (splitlines (read_text file)) [] catalogue
        (splitlines-NoBreak (read_text file)) (tt, tt) e

  read_lines-IsMatrix :
      (lines : List Text) (existing : Dict Row)
      → All NoBreak lines
      → IsMatrix existing
      → IsMatrix (read_lines decimal lines existing)
  unfolding read_lines
  read_lines-IsMatrix [] existing h k = k
  read_lines-IsMatrix (line ∷ lines) existing h k = elim (Option-cases (row_of_line decimal line)) [
    | inl skipped ↦ rw (read_lines, skipped) (read_lines-IsMatrix lines existing h.1 k)
    | inr (row, kept) ↦
        rw (read_lines, kept)
          (read_lines-IsMatrix lines (insert row.req_id row existing) h.1 (
            insert-IsDistinct row.req_id row existing k.0,
            insert-AllEntries IsEntry row.req_id row existing
                (refl, row_of_line-IsRow decimal line row h.0 kept) k.1,
          ))
  ]

  -- Whatever the matrix file holds, and if it is not there, what is read of it is a matrix: rows
  -- under their own ids, no id twice, each id of the pattern, and every cell on one line with no
  -- blank at either end.
  pub parse_existing_matrix-IsMatrix :
      (file : Option Text) → IsMatrix (parse_existing_matrix decimal file)
  unfolding parse_existing_matrix parse_existing_matrix_from_text
  parse_existing_matrix-IsMatrix none = (tt, tt)
  parse_existing_matrix-IsMatrix (some file) =
      read_lines-IsMatrix (splitlines (read_text file)) [] (splitlines-NoBreak (read_text file))
        (tt, tt)

  abbrev pub add_row : Option Row → List Row → List Row
  add_row none rows = rows
  add_row (some row) rows = row ∷ rows

  -- The rows of some lines, and a matrix that they are entered into.
  abbrev pub read_rows : List Text → List Row
  read_rows [] = []
  read_rows (line ∷ lines) = add_row (row_of_line decimal line) (read_rows lines)

  abbrev pub insert_rows : List Row → Dict Row → Dict Row
  insert_rows [] existing = existing
  insert_rows (row ∷ rows) existing = insert_rows rows (insert row.req_id row existing)

  pub read_lines-insert_rows :
      (lines : List Text) (existing : Dict Row)
      → read_lines decimal lines existing ≡ insert_rows (read_rows lines) existing
  unfolding read_lines
  read_lines-insert_rows [] existing = refl
  read_lines-insert_rows (line ∷ lines) existing = elim (Option-cases (row_of_line decimal line)) [
    | inl skipped ↦ rw (read_lines, add_row, skipped) (read_lines-insert_rows lines existing)
    | inr (row, kept) ↦
        rw (read_lines, add_row, kept)
          (read_lines-insert_rows lines (insert row.req_id row existing))
  ]

  pub read_rows-append : (a b : List Text) → read_rows (a ++ b) ≡ read_rows a ++ read_rows b
  read_rows-append [] b = refl
  read_rows-append (line ∷ a) b = ground (arith, read_rows-append a b)
