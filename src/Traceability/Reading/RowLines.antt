-- ===== src/Traceability/Reading/RowLines.antt =====
-- The line of a row is read back as that row; and what is read off lines has proper cells
-- (tools/traceability_sync.py).
use realtime_meeting_transla.Prelude.{
  ℕ, suc, zero, ◌≡◌, refl, true, not, ◌&&◌, ◌||◌, Option, some, List, [], ◌∷◌, map, Text, arith,
  Bool-cases, inl, inr, ◌==◌, All, longer, length, subst,
}
use mathlib.Core.Option.{some-injective}
use realtime_meeting_transla.Traceability.Cells.{
  ends_with, but_last, drop_edge_pipe, strip, unescape_cell, split_pipes, split_body,
  split_stripped, split_markdown_row, is_separator_row, all_rules,
}
use realtime_meeting_transla.Traceability.Cells.Edges.{
  IsStripped, strip-IsStripped, unescape_cell-IsStripped, All-strip, All-unescape_cell,
  starts_blank, ends_blank,
}
use realtime_meeting_transla.Traceability.Cells.RoundTrip.{split_markdown_row-row_text}
use realtime_meeting_transla.Traceability.Rows.{Row, row_cells, columns, match_id}
use realtime_meeting_transla.Traceability.Rows.Keys.{match_id-is_rule}
use realtime_meeting_transla.Traceability.Reading.{cell_at, row_of_line}
use realtime_meeting_transla.Traceability.Reading.Lines.{NoBreak}
use realtime_meeting_transla.Traceability.Rendering.{row_line}

module _ (P : ℕ → Type 0) where
  All-but_last : (s : Text) → All P s → All P (but_last s)
  unfolding but_last
  All-but_last [] h = tt
  All-but_last (c ∷ []) h = tt
  All-but_last (c ∷ d ∷ s) h = (h.0, All-but_last (d ∷ s) h.1)

  All-drop_edge_pipe : (s : Text) → All P s → All P (drop_edge_pipe s)
  unfolding drop_edge_pipe
  All-drop_edge_pipe s h =
      elim (Bool-cases (ends_with (b'|' ∷ []) s && not (ends_with (b'\\' ∷ b'|' ∷ []) s))) [
        | inl edge ↦ rw edge (All-but_last s h)
        | inr other ↦ rw other h
      ]

  All-longer : (c : ℕ) (parts : List Text) → P c → All (All P) parts → All (All P) (longer c parts)
  unfolding longer
  All-longer c [] p h = ((p, tt), tt)
  All-longer c (part ∷ parts) p h = ((p, h.0), h.1)

  All-split_pipes : (p : ℕ) (s : Text) → All P s → All (All P) (split_pipes p s)
  unfolding split_pipes
  All-split_pipes p [] h = (tt, tt)
  All-split_pipes p (c ∷ s) h = elim (Bool-cases (c == b'|' && not (p == b'\\'))) [
    | inl pipe ↦ rw pipe (tt, All-split_pipes c s h.1)
    | inr other ↦ rw other (All-longer c (split_pipes c s) h.0 (All-split_pipes c s h.1))
  ]

-- What a cell is once it is read: no blank at either end, and on one line.
abbrev pub IsCell : Text → Type 0
IsCell s = IsStripped s × NoBreak s

cells-IsCell :
    (parts : List Text) → All NoBreak parts → All IsCell (map (λ c. unescape_cell (strip c)) parts)
cells-IsCell [] h = tt
cells-IsCell (part ∷ parts) h = (
  (
    unescape_cell-IsStripped (strip part) (strip-IsStripped part),
    All-unescape_cell _ (strip part) (All-strip _ part h.0),
  ),
  cells-IsCell parts h.1,
)

split_stripped-IsCell : (s : Text) → NoBreak s → All IsCell (split_stripped s)
unfolding split_stripped split_body
split_stripped-IsCell [] h = tt
split_stripped-IsCell (c ∷ s) h = elim (Bool-cases (c == b'|')) [
  | inl pipe ↦ rw pipe (
      cells-IsCell (split_pipes 0 (drop_edge_pipe s))
        (All-split_pipes _ 0 (drop_edge_pipe s) (All-drop_edge_pipe _ s h.1)))
  | inr other ↦ rw other tt
]

pub split_markdown_row-IsCell : (line : Text) → NoBreak line → All IsCell (split_markdown_row line)
unfolding split_markdown_row
split_markdown_row-IsCell line h = split_stripped-IsCell (strip line) (All-strip _ line h)

pub cell_at-IsCell : (n : ℕ) (cells : List Text) → All IsCell cells → IsCell (cell_at n cells)
unfolding starts_blank ends_blank
cell_at-IsCell n [] h = ((refl, refl), tt)
cell_at-IsCell zero (cell ∷ cells) h = h.0
cell_at-IsCell (suc n) (cell ∷ cells) h = cell_at-IsCell n cells h.1

IsStripped-cells : (cells : List Text) → All IsCell cells → All IsStripped cells
IsStripped-cells [] h = tt
IsStripped-cells (cell ∷ cells) h = (h.0.0, IsStripped-cells cells h.1)

abbrev tail_cells : Row → List Text
tail_cells row =
    row.requirement ∷ row.adr ∷ row.module_name ∷ row.test ∷ row.fixture ∷ row.evidence ∷ row.status
    ∷ row.notes ∷ []

module _ (decimal : ℕ → Option ℕ) where
  -- A row whose id matches, all of whose cells are proper.
  abbrev pub IsRow : Row → Type 0
  IsRow row = (match_id decimal row.req_id ≡ true) × All IsCell (row_cells row)

  pub row_of_line-IsRow :
      (line : Text) (row : Row) → NoBreak line → row_of_line decimal line ≡ some row → IsRow row
  unfolding row_of_line
  row_of_line-IsRow line row h e =
      let cells = split_markdown_row line in
      let cell : (n : ℕ) → IsCell (cell_at n cells) =
        λ n. cell_at-IsCell n cells (split_markdown_row-IsCell line h) in
      elim (Bool-cases (not (length cells == length columns) || is_separator_row cells)) [
        | inl skipped ↦ absurd (let k = rw (row_of_line, skipped) at e in ground arith)
        | inr kept ↦ elim (Bool-cases (match_id decimal (cell_at 0 cells))) [
          | inr other ↦ absurd (let k = rw (row_of_line, kept, other) at e in ground arith)
          | inl id ↦ subst IsRow (some-injective _ _ (rw (row_of_line, kept, id) at e)) (
            id,
            (
              cell 0,
              (cell 1, (cell 2, (cell 3, (cell 4, (cell 5, (cell 6, (cell 7, (cell 8, tt)))))))),
            ),
          )
        ]
      ]

  pub row_of_line-row_line : (row : Row) → IsRow row → row_of_line decimal (row_line row) ≡ some row
  unfolding row_of_line row_line is_separator_row all_rules
  row_of_line-row_line row h =
      rw
        (
          split_markdown_row-row_text row.req_id (tail_cells row)
              (IsStripped-cells (row_cells row) h.1),
          match_id-is_rule decimal row.req_id h.0,
          h.0,
        )
        refl
