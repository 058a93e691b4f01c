-- ===== src/Traceability/Rendering/Tables.antt =====
-- The rows that the parser reads off the blocks of the rendered matrix
-- (tools/traceability_sync.py).
use realtime_meeting_transla.Prelude.{
  ℕ, ◌≡◌, refl, ap, Option, none, List, [], ◌∷◌, ◌++◌, map, Text, codes, All, All-append, text_eq,
  longer,
}
use realtime_meeting_transla.Identifiers.{strip_prefix}
use realtime_meeting_transla.Traceability.Cells.{
  is_space, lstrip, rstrip, is_empty, strip, starts_with, ends_with, but_last, drop_edge_pipe,
  escape_cell, unescape_cell, split_pipes, split_body, split_stripped, split_markdown_row,
  is_separator_row, all_rules, is_rule, row_text, join,
}
use realtime_meeting_transla.Traceability.Cells.Edges.{starts_blank, ends_blank, All-escape_cell}
use realtime_meeting_transla.Traceability.Cells.RoundTrip.{split_markdown_row-row_text}
use realtime_meeting_transla.Traceability.Rows.{
  Row, columns, row_cells, match_id, match_domains, match_behind,
}
use realtime_meeting_transla.Traceability.Reading.{is_break, row_of_line}
use realtime_meeting_transla.Traceability.Reading.Lines.{NoBreak}
use realtime_meeting_transla.Traceability.Reading.RowLines.{IsCell, IsRow, row_of_line-row_line}
use realtime_meeting_transla.Traceability.Reading.Parsed.{read_rows, add_row}
use realtime_meeting_transla.Traceability.Rendering.{row_line, rule_line, render_table}
use realtime_meeting_transla.Traceability.Rendering.Prose.{
  inline, all_inline, inline-NoBreak, all_inline-NoBreak,
}

join-NoBreak :
    (separator : Text) (parts : List Text)
    → NoBreak separator
    → All NoBreak parts
    → NoBreak (join separator parts)
unfolding join
join-NoBreak separator [] h k = tt
join-NoBreak separator (part ∷ []) h k = k.0
join-NoBreak separator (part ∷ next ∷ parts) h k =
    All-append _ (part ++ separator) (join separator (next ∷ parts))
      (All-append _ part separator k.0 h) (join-NoBreak separator (next ∷ parts) h k.1)

row_text-NoBreak : (cells : List Text) → All NoBreak cells → NoBreak (row_text cells)
unfolding row_text inline is_break
row_text-NoBreak cells h =
    All-append _ (codes "| " ++ join (codes " | ") cells) (codes " |")
      (All-append _ (codes "| ") (join (codes " | ") cells) (inline-NoBreak (codes "| ") refl)
        (join-NoBreak (codes " | ") cells (inline-NoBreak (codes " | ") refl) h))
      (inline-NoBreak (codes " |") refl)

cells-NoBreak : (cells : List Text) → All IsCell cells → All NoBreak (map escape_cell cells)
unfolding is_break
cells-NoBreak [] h = tt
cells-NoBreak (cell ∷ cells) h = (All-escape_cell _ refl refl cell h.0.1, cells-NoBreak cells h.1)

columns-NoBreak : All NoBreak columns
unfolding all_inline inline is_break
columns-NoBreak = all_inline-NoBreak columns refl

rule_line-NoBreak : NoBreak rule_line
unfolding rule_line join inline is_break
rule_line-NoBreak = inline-NoBreak rule_line refl

module _ (decimal : ℕ → Option ℕ) where
  header_none : row_of_line decimal (row_text columns) ≡ none
  unfolding row_of_line escape_cell starts_blank ends_blank is_space is_separator_row all_rules
      is_rule is_empty match_id match_domains match_behind strip_prefix
  header_none =
      let read = split_markdown_row-row_text (codes "ID") (tail columns) (
        (refl, refl),
        (
          (refl, refl),
          (
            (refl, refl),
            (
              (refl, refl),
              ((refl, refl), ((refl, refl), ((refl, refl), ((refl, refl), ((refl, refl), tt))))),
            ),
          ),
        ),
      ) in
      rw (row_of_line, read) refl
    where
      tail : List Text → List Text
      tail [] = []
      tail (c ∷ cs) = cs

  rule_none : row_of_line decimal rule_line ≡ none
  unfolding rule_line join row_of_line split_markdown_row split_stripped strip rstrip lstrip
      is_space is_empty split_body drop_edge_pipe ends_with but_last starts_with split_pipes
      unescape_cell text_eq longer is_separator_row all_rules is_rule
  rule_none = refl

  rows-read_rows :
      (rows : List Row) → All (IsRow decimal) rows → read_rows decimal (map row_line rows) ≡ rows
  rows-read_rows [] h = refl
  rows-read_rows (row ∷ rows) h =
      rw (add_row, row_of_line-row_line decimal row h.0) (ap (◌∷◌ row) (rows-read_rows rows h.1))

  -- A table is read back as its rows.
  pub render_table-read_rows :
      (rows : List Row) → All (IsRow decimal) rows → read_rows decimal (render_table rows) ≡ rows
  unfolding render_table
  render_table-read_rows rows h = rw (add_row, header_none, rule_none) (rows-read_rows rows h)

  rows-NoBreak : (rows : List Row) → All (IsRow decimal) rows → All NoBreak (map row_line rows)
  unfolding row_line
  rows-NoBreak [] h = tt
  rows-NoBreak (row ∷ rows) h = (
    row_text-NoBreak (map escape_cell (row_cells row)) (cells-NoBreak (row_cells row) h.0.1),
    rows-NoBreak rows h.1,
  )

  pub render_table-NoBreak :
      (rows : List Row) → All (IsRow decimal) rows → All NoBreak (render_table rows)
  unfolding render_table
  render_table-NoBreak rows h =
      (row_text-NoBreak columns columns-NoBreak, (rule_line-NoBreak, rows-NoBreak rows h))
