-- ===== src/Traceability/Reading/Lines.antt =====
-- Lines joined by newlines are read back (tools/traceability_sync.py, `splitlines` and `read_text`).
use realtime_meeting_transla.Prelude.{
  ℕ, ◌≡◌, refl, ap, sym, ◌∙◌, false, ◌&&◌, List, [], ◌∷◌, ◌++◌, append_assoc, Text, arith,
  Bool-cases, inl, inr, ◌==◌, All, longer,
}
use realtime_meeting_transla.Traceability.Cells.{starts_with, join}
use realtime_meeting_transla.Traceability.Reading.{read_text, is_break, splitlines}

-- A text of one line.
abbrev pub NoBreak : Text → Type 0
NoBreak = All (λ c. is_break c ≡ false)

longer-NoBreak :
    (c : ℕ) (lines : List Text)
    → is_break c ≡ false
    → All NoBreak lines
    → All NoBreak (longer c lines)
unfolding longer
longer-NoBreak c [] h k = ((h, tt), tt)
longer-NoBreak c (line ∷ lines) h k = ((h, k.0), k.1)

pub splitlines-NoBreak : (s : Text) → All NoBreak (splitlines s)
unfolding splitlines
splitlines-NoBreak [] = tt
splitlines-NoBreak (c ∷ s) = elim (Bool-cases (c == 13 && starts_with 10 s)) [
  | inl pair ↦ rw pair (splitlines-NoBreak s)
  | inr apart ↦ elim (Bool-cases (is_break c)) [
    | inl end ↦ rw (apart, end) (tt, splitlines-NoBreak s)
    | inr inside ↦
        rw (apart, inside) (longer-NoBreak c (splitlines s) inside (splitlines-NoBreak s))
  ]
]

no_return : (c : ℕ) → is_break c ≡ false → (c == 13) ≡ false
unfolding is_break
no_return c h = ground arith

splitlines-append :
    (line s : Text) → NoBreak line → splitlines (line ++ 10 ∷ s) ≡ line ∷ splitlines s
unfolding splitlines longer
splitlines-append [] s h = unfold is_break in refl
splitlines-append (c ∷ line) s h =
    rw (no_return c h.0, h.0) (ap (longer c) (splitlines-append line s h.1))

abbrev joined : List Text → Text
joined lines = join (10 ∷ []) (lines ++ [] ∷ [])

joined_cons : (line : Text) (lines : List Text) → joined (line ∷ lines) ≡ line ++ 10 ∷ joined lines
unfolding join
joined_cons line [] = append_assoc line (10 ∷ []) []
joined_cons line (next ∷ lines) = append_assoc line (10 ∷ []) (joined (next ∷ lines))

-- Lines that are each ended by a newline are split into the same lines.
pub splitlines-join :
    (lines : List Text) → All NoBreak lines → splitlines (join (10 ∷ []) (lines ++ [] ∷ [])) ≡ lines
unfolding splitlines join
splitlines-join [] h = refl
splitlines-join (line ∷ lines) h =
    ap splitlines (joined_cons line lines)
    ∙ splitlines-append line (joined lines) h.0
    ∙ ap (◌∷◌ line) (splitlines-join lines h.1)

read_text-append :
    (line s : Text) → NoBreak line → read_text (line ++ 10 ∷ s) ≡ line ++ 10 ∷ read_text s
unfolding read_text
read_text-append [] s h = refl
read_text-append (c ∷ line) s h = rw (no_return c h.0) (ap (◌∷◌ c) (read_text-append line s h.1))

-- Text written with newlines only is read as it was written.
pub read_text-join :
    (lines : List Text)
    → All NoBreak lines
    → read_text (join (10 ∷ []) (lines ++ [] ∷ [])) ≡ join (10 ∷ []) (lines ++ [] ∷ [])
unfolding read_text join
read_text-join [] h = refl
read_text-join (line ∷ lines) h =
    ap read_text (joined_cons line lines)
    ∙ read_text-append line (joined lines) h.0
    ∙ ap (λ s. line ++ 10 ∷ s) (read_text-join lines h.1)
    ∙ sym (joined_cons line lines)
