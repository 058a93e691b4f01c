-- ===== src/Traceability/Cells/RoundTrip.antt =====
-- A table row read back from its own text (tools/traceability_sync.py, `_split_markdown_row`).
use realtime_meeting_transla.Prelude.{
  ℕ, ◌≡◌, refl, ap, sym, ◌∙◌, true, false, List, [], ◌∷◌, ◌++◌, map, append_assoc, Text, codes,
  arith, Bool-cases, inl, inr, ◌==◌, All, longer, text_eq,
}
use mathlib.Core.Path.{ap₂}
use realtime_meeting_transla.Traceability.Cells.{
  strip, ends_with, but_last, join, escape_cell, unescape_cell, split_pipes, drop_edge_pipe,
  split_body, split_stripped, split_markdown_row, row_text,
}
use realtime_meeting_transla.Traceability.Cells.Edges.{
  IsStripped, starts_blank, ends_blank, strip_id, strip_between, escape_cell-IsStripped,
  unescape_cell-escape_cell, pipe_is_space,
}

-- The characters of a text join the first of some parts.
abbrev prepend : Text → List Text → List Text
prepend [] parts = parts
prepend (c ∷ s) parts = longer c (prepend s parts)

-- An escaped cell is not split: each of its pipes has a backslash before it.
split_pipes-escape_cell :
    (p : ℕ) (s t : Text)
    → split_pipes p (escape_cell s ++ b' ' ∷ t)
      ≡ prepend (escape_cell s) (longer b' ' (split_pipes b' ' t))
unfolding split_pipes escape_cell
split_pipes-escape_cell p [] t = refl
split_pipes-escape_cell p (c ∷ s) t = elim (Bool-cases (c == b'|')) [
  | inl pipe ↦ rw pipe (ap (λ x. longer b'\\' (longer b'|' x)) (split_pipes-escape_cell b'|' s t))
  | inr other ↦ rw (other, other) (ap (longer c) (split_pipes-escape_cell c s t))
]

prepend-longer :
    (s : Text) (c : ℕ) (part : Text) (parts : List Text)
    → prepend s (longer c (part ∷ parts)) ≡ (s ++ c ∷ part) ∷ parts
unfolding longer
prepend-longer [] c part parts = refl
prepend-longer (d ∷ s) c part parts = rw (prepend-longer s c part parts) refl

-- A cell as it stands between two pipes.
abbrev spaced : Text → Text
spaced s = b' ' ∷ escape_cell s ++ b' ' ∷ []

separated :
    (a b : Text) → a ++ codes " | " ++ b ++ b' ' ∷ [] ≡ a ++ b' ' ∷ b'|' ∷ b' ' ∷ (b ++ b' ' ∷ [])
separated a b =
    append_assoc (a ++ codes " | ") b (b' ' ∷ []) ∙ append_assoc a (codes " | ") (b ++ b' ' ∷ [])

split_pipes-join :
    (cell : Text) (cells : List Text)
    → longer b' '
        (split_pipes b' ' (join (codes " | ") (map escape_cell (cell ∷ cells)) ++ b' ' ∷ []))
      ≡ map spaced (cell ∷ cells)
unfolding join split_pipes longer
split_pipes-join cell [] =
    ap (longer b' ')
      (split_pipes-escape_cell b' ' cell [] ∙ prepend-longer (escape_cell cell) b' ' [] [])
split_pipes-join cell (next ∷ cells) =
    let rest = join (codes " | ") (map escape_cell (next ∷ cells)) in
    ap (longer b' ') (
      ap (split_pipes b' ') (separated (escape_cell cell) rest)
      ∙ split_pipes-escape_cell b' ' cell (b'|' ∷ b' ' ∷ (rest ++ b' ' ∷ []))
      ∙ prepend-longer (escape_cell cell) b' ' [] (split_pipes b'|' (b' ' ∷ (rest ++ b' ' ∷ []))))
    ∙ ap (◌∷◌ (spaced cell)) (split_pipes-join next cells)

-- The closing pipe has a blank before it, so it is dropped.
ends_with_pipe : (s : Text) → ends_with (b'|' ∷ []) (s ++ b' ' ∷ b'|' ∷ []) ≡ true
unfolding ends_with text_eq
ends_with_pipe [] = refl
ends_with_pipe (c ∷ s) = ground (arith, ends_with_pipe s)

ends_with_escape : (s : Text) → ends_with (b'\\' ∷ b'|' ∷ []) (s ++ b' ' ∷ b'|' ∷ []) ≡ false
unfolding ends_with text_eq
ends_with_escape [] = refl
ends_with_escape (c ∷ []) = ground arith
ends_with_escape (c ∷ d ∷ []) = ground arith
ends_with_escape (c ∷ d ∷ e ∷ s) = ground (arith, ends_with_escape (d ∷ e ∷ s))

but_last-append : (s : Text) (c : ℕ) → but_last (s ++ c ∷ []) ≡ s
unfolding but_last
but_last-append [] c = refl
but_last-append (a ∷ []) c = refl
but_last-append (a ∷ b ∷ s) c = ap (◌∷◌ a) (but_last-append (b ∷ s) c)

drop_edge_pipe-append : (s : Text) → drop_edge_pipe (s ++ b' ' ∷ b'|' ∷ []) ≡ s ++ b' ' ∷ []
unfolding drop_edge_pipe
drop_edge_pipe-append s =
    rw (ends_with_pipe s, ends_with_escape s)
      (ap but_last (sym (append_assoc s (b' ' ∷ []) (b'|' ∷ [])))
        ∙ but_last-append (s ++ b' ' ∷ []) b'|')

read_cell : (s : Text) → IsStripped s → unescape_cell (strip (spaced s)) ≡ s
read_cell s h =
    ap unescape_cell (strip_between (escape_cell s) (escape_cell-IsStripped s h))
    ∙ unescape_cell-escape_cell s

read_cells :
    (cells : List Text)
    → All IsStripped cells
    → map (λ cell. unescape_cell (strip cell)) (map spaced cells) ≡ cells
read_cells [] h = refl
read_cells (cell ∷ cells) h = ap₂ (◌∷◌) (read_cell cell h.0) (read_cells cells h.1)

ends_blank-append : (s : Text) → ends_blank (s ++ codes " |") ≡ false
unfolding ends_blank
ends_blank-append [] = pipe_is_space
ends_blank-append (c ∷ []) = pipe_is_space
ends_blank-append (c ∷ d ∷ s) = ends_blank-append (d ∷ s)

pub row_text-IsStripped : (cells : List Text) → IsStripped (row_text cells)
unfolding row_text starts_blank
row_text-IsStripped cells =
    (pipe_is_space, ends_blank-append (codes "| " ++ join (codes " | ") cells))

-- A row of at least one cell, its cells escaped and joined, is read back cell by cell: whatever
-- the cells hold, pipes and backslashes included, as long as no cell begins or ends with a blank.
pub split_markdown_row-row_text :
    (cell : Text) (cells : List Text)
    → All IsStripped (cell ∷ cells)
    → split_markdown_row (row_text (map escape_cell (cell ∷ cells))) ≡ cell ∷ cells
unfolding split_markdown_row split_stripped split_body row_text split_pipes
split_markdown_row-row_text cell cells h =
    let line = map escape_cell (cell ∷ cells) in
    ap split_stripped (strip_id (row_text line) (row_text-IsStripped line))
    ∙ ap (λ body. map (λ c. unescape_cell (strip c)) (split_pipes 0 body))
        (drop_edge_pipe-append (b' ' ∷ join (codes " | ") line))
    ∙ ap (map (λ c. unescape_cell (strip c))) (split_pipes-join cell cells)
    ∙ read_cells (cell ∷ cells) h
