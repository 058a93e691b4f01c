-- ===== src/Traceability/Rendering/Prose.antt =====
-- The lines of the matrix that are no rows are skipped by its parser (tools/traceability_sync.py).
use realtime_meeting_transla.Prelude.{
  ℕ, ◌≡◌, refl, ap, sym, ◌∙◌, Bool, true, false, not, ◌&&◌, ◌||◌, text_eq, text_eq_iff, longer,
  Option, none, List, [], ◌∷◌, ◌++◌, map, Text, codes, show, arith, Bool-cases, inl, inr, ◌==◌, All,
  length,
}
use realtime_meeting_transla.Identifiers.Digits.{IsDigit, show-IsDigit}
use realtime_meeting_transla.Traceability.Cells.{
  is_space, lstrip, rstrip, is_empty, strip, starts_with, ends_with, but_last, drop_edge_pipe,
  escape_cell, unescape_cell, split_pipes, split_body, split_stripped, split_markdown_row, row_text,
  join,
}
use realtime_meeting_transla.Traceability.Cells.Edges.{IsStripped, starts_blank, ends_blank}
use realtime_meeting_transla.Traceability.Cells.RoundTrip.{split_markdown_row-row_text}
use realtime_meeting_transla.Traceability.Reading.{is_break, row_of_line}
use realtime_meeting_transla.Traceability.Reading.Lines.{NoBreak}
use realtime_meeting_transla.Traceability.Reading.Parsed.{read_rows, add_row}
use realtime_meeting_transla.Traceability.Rendering.{preamble}

-- Characters that are neither blank nor a pipe, as in numbers and words.
abbrev pub IsInk : ℕ → Type 0
IsInk c = (is_space c ≡ false) × ((c == b'|') ≡ false)

ink-ends_blank : (s : Text) → All IsInk s → ends_blank s ≡ false
unfolding ends_blank
ink-ends_blank [] h = refl
ink-ends_blank (c ∷ []) h = h.0.0
ink-ends_blank (c ∷ d ∷ s) h = ink-ends_blank (d ∷ s) h.1

ink-IsStripped : (s : Text) → All IsInk s → IsStripped s
unfolding starts_blank
ink-IsStripped [] h = (refl, ink-ends_blank [] h)
ink-IsStripped (c ∷ s) h = (h.0.0, ink-ends_blank (c ∷ s) h)

ink-escape_cell : (s : Text) → All IsInk s → escape_cell s ≡ s
unfolding escape_cell
ink-escape_cell [] h = refl
ink-escape_cell (c ∷ s) h = rw (h.0.1) (ap (◌∷◌ c) (ink-escape_cell s h.1))

digit-IsInk : (c : ℕ) → IsDigit c → IsInk c
unfolding is_space
digit-IsInk c h = (ground arith, ground arith)

digits-IsInk : (s : Text) → All IsDigit s → All IsInk s
digits-IsInk [] h = tt
digits-IsInk (c ∷ s) h = (digit-IsInk c h.0, digits-IsInk s h.1)

digit-inline : (c : ℕ) → IsDigit c → is_break c ≡ false
unfolding is_break
digit-inline c h = ground arith

digits-NoBreak : (s : Text) → All IsDigit s → NoBreak s
digits-NoBreak [] h = tt
digits-NoBreak (c ∷ s) h = (digit-inline c h.0, digits-NoBreak s h.1)

pub show-NoBreak : (n : ℕ) → NoBreak (show n)
show-NoBreak n = digits-NoBreak (show n) (show-IsDigit n)

pub show-IsInk : (n : ℕ) → All IsInk (show n)
show-IsInk n = digits-IsInk (show n) (show-IsDigit n)

-- Whether a constant is of ink, or of one line, is computed.
unfoldable pub all_ink : Text → Bool
all_ink [] = true
all_ink (c ∷ s) = not (is_space c) && not (c == b'|') && all_ink s

pub all_ink-IsInk : (s : Text) → all_ink s ≡ true → All IsInk s
unfolding all_ink
all_ink-IsInk [] h = tt
all_ink-IsInk (c ∷ s) h = ((ground arith, ground arith), all_ink-IsInk s (ground arith))

unfoldable pub inline : Text → Bool
inline [] = true
inline (c ∷ s) = not (is_break c) && inline s

unfoldable pub all_inline : List Text → Bool
unfolding inline
all_inline [] = true
all_inline (s ∷ lines) = inline s && all_inline lines

pub inline-NoBreak : (s : Text) → inline s ≡ true → NoBreak s
unfolding inline
inline-NoBreak [] h = tt
inline-NoBreak (c ∷ s) h = (ground arith, inline-NoBreak s (ground arith))

pub all_inline-NoBreak : (lines : List Text) → all_inline lines ≡ true → All NoBreak lines
unfolding all_inline
all_inline-NoBreak [] h = tt
all_inline-NoBreak (s ∷ lines) h =
    (inline-NoBreak s (ground arith), all_inline-NoBreak lines (ground arith))

ink-split_markdown_row :
    (c : ℕ) (s : Text) → is_space c ≡ false → (c == b'|') ≡ false → split_markdown_row (c ∷ s) ≡ []
unfolding split_markdown_row split_stripped strip rstrip lstrip
ink-split_markdown_row c s h k =
    let kept : strip (c ∷ s) ≡ c ∷ rstrip s = rw (h, rstrip, h) refl in
    ap split_stripped kept ∙ rw (k, split_stripped) refl

pair_text : (a b : Text) → codes "| " ++ a ++ codes " | " ++ b ++ codes " |" ≡ row_text (a ∷ b ∷ [])
unfolding row_text join
pair_text a b = refl

-- The lines of prose, and the first lines of the summary.
unfoldable pub quiet : Text → Bool
quiet [] = true
quiet (c ∷ s) =
    text_eq (c ∷ s) (codes "| Status | Count |")
    || text_eq (c ∷ s) (codes "|---|---|")
    || (not (is_space c) && not (c == b'|'))

unfoldable pub all_quiet : List Text → Bool
unfolding quiet
all_quiet [] = true
all_quiet (line ∷ lines) = quiet line && all_quiet lines

module _ (decimal : ℕ → Option ℕ) where
  row_of_line_short :
      (line : Text) (cells : List Text)
      → split_markdown_row line ≡ cells
      → (length cells == 9) ≡ false
      → row_of_line decimal line ≡ none
  unfolding row_of_line
  row_of_line_short line cells h k = rw (row_of_line, h, k) refl

  -- A line that begins with ink is no row.
  pub row_of_line_ink :
      (c : ℕ) (s : Text)
      → is_space c ≡ false
      → (c == b'|') ≡ false
      → row_of_line decimal (c ∷ s) ≡ none
  row_of_line_ink c s h k = row_of_line_short (c ∷ s) [] (ink-split_markdown_row c s h k) refl

  -- Two cells are too few.
  pub row_of_line_pair :
      (a b : Text)
      → All IsInk a
      → All IsInk b
      → row_of_line decimal (codes "| " ++ a ++ codes " | " ++ b ++ codes " |") ≡ none
  row_of_line_pair a b ha hb =
      let cells = a ∷ b ∷ [] in
      let escaped : row_text (map escape_cell cells) ≡ row_text cells =
        rw (ink-escape_cell a ha, ink-escape_cell b hb) refl in
      row_of_line_short _ cells
        (ap split_markdown_row (pair_text a b ∙ sym escaped)
          ∙ split_markdown_row-row_text a (b ∷ []) (ink-IsStripped a ha, (ink-IsStripped b hb, tt)))
        refl

  head_none : row_of_line decimal (codes "| Status | Count |") ≡ none
  unfolding row_of_line split_markdown_row split_stripped strip rstrip lstrip is_space is_empty
      split_body drop_edge_pipe ends_with but_last starts_with split_pipes unescape_cell text_eq
      longer
  head_none = refl

  rule_none : row_of_line decimal (codes "|---|---|") ≡ none
  unfolding row_of_line split_markdown_row split_stripped strip rstrip lstrip is_space is_empty
      split_body drop_edge_pipe ends_with but_last starts_with split_pipes unescape_cell text_eq
      longer
  rule_none = refl

  pub blank_none : row_of_line decimal [] ≡ none
  unfolding row_of_line split_markdown_row split_stripped strip rstrip lstrip
  blank_none = refl

  quiet-none : (line : Text) → quiet line ≡ true → row_of_line decimal line ≡ none
  unfolding quiet
  quiet-none [] h = blank_none
  quiet-none (c ∷ s) h = elim (Bool-cases (text_eq (c ∷ s) (codes "| Status | Count |"))) [
    | inl same ↦ rw ((text_eq_iff (c ∷ s) (codes "| Status | Count |")).0 same) head_none
    | inr other ↦ elim (Bool-cases (text_eq (c ∷ s) (codes "|---|---|"))) [
      | inl same ↦ rw ((text_eq_iff (c ∷ s) (codes "|---|---|")).0 same) rule_none
      | inr third ↦ row_of_line_ink c s (ground arith) (ground arith)
    ]
  ]

  pub all_quiet-read_rows :
      (lines : List Text) → all_quiet lines ≡ true → read_rows decimal lines ≡ []
  unfolding all_quiet
  all_quiet-read_rows [] h = refl
  all_quiet-read_rows (line ∷ lines) h =
      rw (add_row, quiet-none line (ground arith)) (all_quiet-read_rows lines (ground arith))

  pub preamble-read_rows : read_rows decimal preamble ≡ []
  unfolding preamble all_quiet quiet is_space text_eq
  preamble-read_rows = all_quiet-read_rows preamble refl

pub preamble-NoBreak : All NoBreak preamble
unfolding preamble all_inline inline is_break
preamble-NoBreak = all_inline-NoBreak preamble refl
