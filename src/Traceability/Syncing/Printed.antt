-- ===== src/Traceability/Syncing/Printed.antt =====
-- Which rows the sections of the domains print (tools/traceability_sync.py, `render`).
use realtime_meeting_transla.Prelude.{
  ◌≡◌, Bool, true, List, [], ◌∷◌, Text, Bool-cases, inl, inr, All, All-append, All-filterb, filterb,
  text_eq, text_eq_iff,
}
use realtime_meeting_transla.Prelude.Sorting.{In, In-append_left, In-append_right}
use realtime_meeting_transla.Traceability.Rows.{Row, domain}
use realtime_meeting_transla.Traceability.Rendering.Sections.{printed_rows}

-- Members of filtered lists.
In-filterb : (p : Row → Bool) (x : Row) (l : List Row) → p x ≡ true → In x l → In x (filterb p l)
In-filterb p x [] h i = absurd i
In-filterb p x (y ∷ l) h (inl e) = let hit : p y ≡ true = rw (← e) h in rw hit (inl e)
In-filterb p x (y ∷ l) h (inr i) = elim (Bool-cases (p y)) [
  | inl kept ↦ rw kept (inr (In-filterb p x l h i))
  | inr dropped ↦ rw dropped (In-filterb p x l h i)
]

-- A row of a known domain is printed.
pub In-printed_rows :
    (x : Row) (names : List Text) (rows : List Row)
    → In (domain x) names
    → In x rows
    → In x (printed_rows names rows)
In-printed_rows x [] rows d i = absurd d
In-printed_rows x (name ∷ names) rows (inl e) i =
    In-append_left x (filterb (λ row. text_eq (domain row) name) rows) (printed_rows names rows)
      (In-filterb (λ row. text_eq (domain row) name) x rows ((text_eq_iff (domain x) name).1 e) i)
In-printed_rows x (name ∷ names) rows (inr d) i =
    In-append_right x (filterb (λ row. text_eq (domain row) name) rows) (printed_rows names rows)
      (In-printed_rows x names rows d i)

pub All-printed_rows :
    (P : Row → Type 0) (names : List Text) (rows : List Row)
    → All P rows
    → All P (printed_rows names rows)
All-printed_rows P [] rows h = tt
All-printed_rows P (name ∷ names) rows h =
    All-append P (filterb (λ row. text_eq (domain row) name) rows) (printed_rows names rows)
      (All-filterb P _ rows h) (All-printed_rows P names rows h)
