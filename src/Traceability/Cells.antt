-- ===== src/Traceability/Cells.antt =====
-- tools/traceability_sync.py: the cells of a Markdown table row, and the `str` methods they use.
pub mod Edges
pub mod RoundTrip
use realtime_meeting_transla.Prelude.{
  ℕ, Bool, true, false, not, ◌&&◌, ◌||◌, List, [], ◌∷◌, ◌++◌, map, Text, codes, longer, text_eq,
  if◌then◌else◌, leb, ◌==◌,
}

-- `c.isspace()` of one character
unfoldable pub is_space : ℕ → Bool
is_space c =
    (leb 9 c && leb c 13)
    || (leb 28 c && leb c 32)
    || c == 133
    || c == 160
    || c == 5760
    || (leb 8192 c && leb c 8202)
    || (leb 8232 c && leb c 8233)
    || c == 8239
    || c == 8287
    || c == 12288

unfoldable pub lstrip : Text → Text
lstrip [] = []
lstrip (c ∷ s) = let rest = lstrip s in if is_space c then rest else c ∷ s

unfoldable pub is_empty : Text → Bool
is_empty [] = true
is_empty (c ∷ s) = false

unfoldable pub rstrip : Text → Text
unfolding is_empty
rstrip [] = []
rstrip (c ∷ s) = let rest = rstrip s in if is_space c && is_empty rest then [] else c ∷ rest

-- `value.strip()`
unfoldable pub strip : Text → Text
strip s = rstrip (lstrip s)

-- `value.startswith("|")`, for one character
unfoldable pub starts_with : ℕ → Text → Bool
starts_with d [] = false
starts_with d (c ∷ s) = c == d

-- `value.endswith(suffix)`
unfoldable pub ends_with : Text → Text → Bool
ends_with suffix [] = text_eq suffix []
ends_with suffix (c ∷ s) = text_eq suffix (c ∷ s) || ends_with suffix s

-- `value[:-1]`
unfoldable pub but_last : Text → Text
but_last [] = []
but_last (c ∷ []) = []
but_last (c ∷ d ∷ s) = c ∷ but_last (d ∷ s)

-- `separator.join(parts)`
unfoldable pub join : Text → List Text → Text
join separator [] = []
join separator (part ∷ []) = part
join separator (part ∷ next ∷ parts) = part ++ separator ++ join separator (next ∷ parts)

unfoldable pub escape_cell : Text → Text
escape_cell [] = []
escape_cell (c ∷ s) =
    let rest = escape_cell s in if c == b'|' then b'\\' ∷ b'|' ∷ rest else c ∷ rest

-- Replacing `\|` by `|` drops each backslash that stands before a pipe.
unfoldable pub unescape_cell : Text → Text
unfolding starts_with
unescape_cell [] = []
unescape_cell (c ∷ s) =
    let rest = unescape_cell s in if c == b'\\' && starts_with b'|' s then rest else c ∷ rest

-- `CELL_SEPARATOR.split`: a pipe separates unless a backslash stands before it, `previous`.
unfoldable pub split_pipes : ℕ → Text → List Text
unfolding longer
split_pipes previous [] = [] ∷ []
split_pipes previous (c ∷ s) =
    let parts = split_pipes c s in
    if c == b'|' && not (previous == b'\\') then [] ∷ parts else longer c parts

unfoldable pub drop_edge_pipe : Text → Text
unfolding ends_with but_last
drop_edge_pipe body =
    if ends_with (b'|' ∷ []) body && not (ends_with (b'\\' ∷ b'|' ∷ []) body)
    then but_last body
    else body

unfoldable pub split_body : Text → List Text
unfolding split_pipes drop_edge_pipe strip unescape_cell
split_body body = map (λ cell. unescape_cell (strip cell)) (split_pipes 0 (drop_edge_pipe body))

unfoldable pub split_stripped : Text → List Text
unfolding split_body
split_stripped [] = []
split_stripped (c ∷ body) = if c == b'|' then split_body body else []

-- `_split_markdown_row`
unfoldable pub split_markdown_row : Text → List Text
unfolding split_stripped strip
split_markdown_row line = split_stripped (strip line)

-- `set(cell) <= set("-: ")`
unfoldable pub is_rule : Text → Bool
is_rule [] = true
is_rule (c ∷ s) = (c == b'-' || c == b':' || c == b' ') && is_rule s

unfoldable pub all_rules : List Text → Bool
unfolding is_rule is_empty
all_rules [] = true
all_rules (cell ∷ cells) = is_rule cell && not (is_empty cell) && all_rules cells

unfoldable pub is_separator_row : List Text → Bool
unfolding all_rules
is_separator_row [] = false
is_separator_row (cell ∷ cells) = all_rules (cell ∷ cells)

-- `"| " + " | ".join(cells) + " |"`
unfoldable pub row_text : List Text → Text
unfolding join
row_text cells = codes "| " ++ join (codes " | ") cells ++ codes " |"
