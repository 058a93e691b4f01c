-- ===== src/Traceability/Cells/Edges.antt =====
-- Stripping, escaping and the edges of a cell (tools/traceability_sync.py).
use realtime_meeting_transla.Prelude.{
  ℕ, ◌≡◌, refl, ap, ◌∙◌, Bool, true, false, ◌&&◌, [], ◌∷◌, ◌++◌, Text, arith, Bool-cases, inl, inr,
  ◌==◌, All,
}
use realtime_meeting_transla.Traceability.Cells.{
  is_space, lstrip, rstrip, is_empty, strip, starts_with, escape_cell, unescape_cell,
}

pub space_is_space : is_space 32 ≡ true
unfolding is_space
space_is_space = refl

pub pipe_is_space : is_space 124 ≡ false
unfolding is_space
pipe_is_space = refl

pub backslash_is_space : is_space 92 ≡ false
unfolding is_space
backslash_is_space = refl

unfoldable pub starts_blank : Text → Bool
starts_blank [] = false
starts_blank (c ∷ s) = is_space c

unfoldable pub ends_blank : Text → Bool
ends_blank [] = false
ends_blank (c ∷ []) = is_space c
ends_blank (c ∷ d ∷ s) = ends_blank (d ∷ s)

-- A text with no blank at either end.
abbrev pub IsStripped : Text → Type 0
IsStripped s = (starts_blank s ≡ false) × (ends_blank s ≡ false)

lstrip-starts_blank : (s : Text) → starts_blank (lstrip s) ≡ false
unfolding lstrip starts_blank
lstrip-starts_blank [] = refl
lstrip-starts_blank (c ∷ s) = ground (arith, lstrip-starts_blank s)

rstrip-ends_blank : (s : Text) → ends_blank (rstrip s) ≡ false
unfolding rstrip is_empty ends_blank
rstrip-ends_blank [] = refl
rstrip-ends_blank (c ∷ s) = ground (arith, rstrip-ends_blank s)

rstrip-starts_blank : (s : Text) → starts_blank s ≡ false → starts_blank (rstrip s) ≡ false
unfolding rstrip is_empty starts_blank
rstrip-starts_blank [] h = refl
rstrip-starts_blank (c ∷ s) h = ground arith

pub strip-IsStripped : (s : Text) → IsStripped (strip s)
unfolding strip
strip-IsStripped s =
    (rstrip-starts_blank (lstrip s) (lstrip-starts_blank s), rstrip-ends_blank (lstrip s))

lstrip_id : (s : Text) → starts_blank s ≡ false → lstrip s ≡ s
unfolding lstrip starts_blank
lstrip_id [] h = refl
lstrip_id (c ∷ s) h = ground arith

rstrip_id : (s : Text) → ends_blank s ≡ false → rstrip s ≡ s
unfolding rstrip is_empty ends_blank
rstrip_id [] h = refl
rstrip_id (c ∷ []) h = ground arith
rstrip_id (c ∷ d ∷ s) h = ground (arith, rstrip_id (d ∷ s) h)

pub strip_id : (s : Text) → IsStripped s → strip s ≡ s
unfolding strip
strip_id s h = ap rstrip (lstrip_id s h.0) ∙ rstrip_id s h.1

rstrip-blank_append : (s : Text) → rstrip (s ++ b' ' ∷ []) ≡ rstrip s
unfolding rstrip is_empty
rstrip-blank_append [] = ground (arith, space_is_space)
rstrip-blank_append (c ∷ s) = ground (arith, rstrip-blank_append s)

lstrip-append : (s : Text) → starts_blank s ≡ false → rstrip (lstrip (s ++ b' ' ∷ [])) ≡ rstrip s
unfolding lstrip starts_blank
lstrip-append [] h = ground (arith, space_is_space)
lstrip-append (c ∷ s) h = ground (arith, rstrip-blank_append (c ∷ s))

-- The blanks that a table puts around a cell are stripped off again.
pub strip_between : (s : Text) → IsStripped s → strip (b' ' ∷ s ++ b' ' ∷ []) ≡ s
unfolding strip lstrip
strip_between s h = rw (space_is_space, lstrip) (lstrip-append s h.0 ∙ rstrip_id s h.1)

escape_cell-starts : (s : Text) → starts_blank s ≡ false → starts_blank (escape_cell s) ≡ false
unfolding escape_cell starts_blank
escape_cell-starts [] h = refl
escape_cell-starts (c ∷ s) h = ground (arith, backslash_is_space)

escape_cell-ends : (s : Text) → ends_blank s ≡ false → ends_blank (escape_cell s) ≡ false
unfolding escape_cell ends_blank
escape_cell-ends [] h = refl
escape_cell-ends (c ∷ []) h = ground (arith, pipe_is_space)
escape_cell-ends (c ∷ d ∷ s) h = ground (arith, escape_cell-ends (d ∷ s) h)

pub escape_cell-IsStripped : (s : Text) → IsStripped s → IsStripped (escape_cell s)
escape_cell-IsStripped s h = (escape_cell-starts s h.0, escape_cell-ends s h.1)

unescape_cell-starts : (s : Text) → starts_blank s ≡ false → starts_blank (unescape_cell s) ≡ false
unfolding unescape_cell starts_blank starts_with
unescape_cell-starts [] h = refl
unescape_cell-starts (c ∷ []) h = ground arith
unescape_cell-starts (c ∷ d ∷ s) h = ground (arith, pipe_is_space)

unescape_cell-ends : (s : Text) → ends_blank s ≡ false → ends_blank (unescape_cell s) ≡ false
unfolding unescape_cell ends_blank starts_with
unescape_cell-ends [] h = refl
unescape_cell-ends (c ∷ []) h = ground arith
unescape_cell-ends (c ∷ d ∷ s) h = ground (arith, unescape_cell-ends (d ∷ s) h)

pub unescape_cell-IsStripped : (s : Text) → IsStripped s → IsStripped (unescape_cell s)
unescape_cell-IsStripped s h = (unescape_cell-starts s h.0, unescape_cell-ends s h.1)

escape_cell-starts_with : (s : Text) → starts_with b'|' (escape_cell s) ≡ false
unfolding escape_cell starts_with
escape_cell-starts_with [] = refl
escape_cell-starts_with (c ∷ s) = ground arith

-- What `_escape_cell` puts in, `_unescape_cell` takes out, whatever stands in the cell.
pub unescape_cell-escape_cell : (s : Text) → unescape_cell (escape_cell s) ≡ s
unfolding unescape_cell escape_cell starts_with
unescape_cell-escape_cell [] = refl
unescape_cell-escape_cell (c ∷ s) =
    ground (arith, unescape_cell-escape_cell s, escape_cell-starts_with s)

-- What holds of every character of a line holds of every character of its cells.
module _ (P : ℕ → Type 0) where
  All-lstrip : (s : Text) → All P s → All P (lstrip s)
  unfolding lstrip
  All-lstrip [] h = tt
  All-lstrip (c ∷ s) h = elim (Bool-cases (is_space c)) [
    | inl blank ↦ rw blank (All-lstrip s h.1)
    | inr other ↦ rw other h
  ]

  All-rstrip : (s : Text) → All P s → All P (rstrip s)
  unfolding rstrip
  All-rstrip [] h = tt
  All-rstrip (c ∷ s) h = elim (Bool-cases (is_space c && is_empty (rstrip s))) [
    | inl blank ↦ rw blank tt
    | inr other ↦ rw other (h.0, All-rstrip s h.1)
  ]

  pub All-strip : (s : Text) → All P s → All P (strip s)
  unfolding strip
  All-strip s h = All-rstrip (lstrip s) (All-lstrip s h)

  pub All-unescape_cell : (s : Text) → All P s → All P (unescape_cell s)
  unfolding unescape_cell
  All-unescape_cell [] h = tt
  All-unescape_cell (c ∷ s) h = elim (Bool-cases (c == b'\\' && starts_with b'|' s)) [
    | inl escaped ↦ rw escaped (All-unescape_cell s h.1)
    | inr other ↦ rw other (h.0, All-unescape_cell s h.1)
  ]

  pub All-escape_cell : P b'|' → P b'\\' → (s : Text) → All P s → All P (escape_cell s)
  unfolding escape_cell
  All-escape_cell pipe backslash [] h = tt
  All-escape_cell pipe backslash (c ∷ s) h = elim (Bool-cases (c == b'|')) [
    | inl same ↦ rw same (backslash, (pipe, All-escape_cell pipe backslash s h.1))
    | inr other ↦ rw other (h.0, All-escape_cell pipe backslash s h.1)
  ]
