-- ===== src/Traceability/Rendering/Inline.antt =====
-- Every line that `render` writes is one line (tools/traceability_sync.py).
use realtime_meeting_transla.Prelude.{
  ℕ, ◌≡◌, refl, true, Option, List, [], ◌∷◌, ◌++◌, map, Text, codes, show, Option-cases, inl, inr,
  All, All-append, All-filterb, length, text_eq, filterb,
}
use realtime_meeting_transla.Prelude.Dict.{Dict, lookup, AllEntries, lookup-AllEntries}
use realtime_meeting_transla.Traceability.Rows.{
  Row, domain, domain_order, allowed_statuses, planned,
}
use realtime_meeting_transla.Traceability.Reading.{is_break}
use realtime_meeting_transla.Traceability.Reading.Lines.{NoBreak}
use realtime_meeting_transla.Traceability.Reading.RowLines.{IsRow}
use realtime_meeting_transla.Traceability.Syncing.{SyncResult}
use realtime_meeting_transla.Traceability.Rendering.{
  render_table, section, sections, domain_title, domain_titles, orphan_section, orphan_note,
  accepted_table, accepted_rows, render_lines, count_of, count_line, count_statuses, total_line,
  unmapped_line, summary, preamble,
}
use realtime_meeting_transla.Traceability.Rendering.Prose.{
  inline, all_inline, inline-NoBreak, all_inline-NoBreak, show-NoBreak, preamble-NoBreak,
}
use realtime_meeting_transla.Traceability.Rendering.Tables.{render_table-NoBreak}

count_lines-NoBreak :
    (counts : Dict ℕ) (statuses : List Text)
    → All NoBreak statuses
    → All NoBreak (map (count_line counts) statuses)
unfolding count_line inline is_break
count_lines-NoBreak counts [] h = tt
count_lines-NoBreak counts (s ∷ statuses) h = (
  All-append _ (codes "| " ++ s ++ codes " | " ++ show (count_of s counts)) (codes " |")
      (All-append _ (codes "| " ++ s ++ codes " | ") (show (count_of s counts))
        (All-append _ (codes "| " ++ s) (codes " | ")
          (All-append _ (codes "| ") s (inline-NoBreak (codes "| ") refl) h.0)
          (inline-NoBreak (codes " | ") refl))
        (show-NoBreak (count_of s counts)))
      (inline-NoBreak (codes " |") refl),
  count_lines-NoBreak counts statuses h.1,
)

total_line-NoBreak : (rows : List Row) → NoBreak (total_line rows)
unfolding total_line inline is_break
total_line-NoBreak rows =
    All-append _ (codes "| **total** | **" ++ show (length rows)) (codes "** |")
      (All-append _ (codes "| **total** | **") (show (length rows))
        (inline-NoBreak (codes "| **total** | **") refl) (show-NoBreak (length rows)))
      (inline-NoBreak (codes "** |") refl)

unmapped_line-NoBreak : (rows : List Row) → NoBreak (unmapped_line rows)
unfolding unmapped_line inline is_break
unmapped_line-NoBreak rows =
    let n = show (length (filterb (λ row. text_eq row.status planned) rows)) in
    let tail =
      codes
        " requirements are still `planned`. A phase cannot be declared complete while a requirement it claims to deliver is unmapped or falsely marked tested (TEST-250)." in
    All-append _ (n ++ codes " of " ++ show (length rows)) tail
      (All-append _ (n ++ codes " of ") (show (length rows))
        (All-append _ n (codes " of ") (show-NoBreak _) (inline-NoBreak (codes " of ") refl))
        (show-NoBreak (length rows)))
      (inline-NoBreak tail refl)

summary-NoBreak : (rows : List Row) → All NoBreak (summary rows)
unfolding summary all_inline inline is_break
summary-NoBreak rows =
    All-append NoBreak (map (count_line (count_statuses rows [])) allowed_statuses)
      (total_line rows ∷ [] ∷ unmapped_line rows ∷ [] ∷ [])
      (count_lines-NoBreak (count_statuses rows []) allowed_statuses
        (all_inline-NoBreak allowed_statuses refl))
      (total_line-NoBreak rows, (tt, (unmapped_line-NoBreak rows, (tt, tt))))

title-NoBreak : (name : Text) → NoBreak (domain_title name)
unfolding domain_title inline is_break
title-NoBreak name = elim (Option-cases (lookup name domain_titles)) [
  | inl bad ↦ rw (domain_title, bad) tt
  | inr (title, found) ↦
      rw (domain_title, found)
        (inline-NoBreak title
          (lookup-AllEntries (λ k v. inline v ≡ true) name title domain_titles titles found))
]
  where
    titles : AllEntries (λ k v. inline v ≡ true) domain_titles
    titles = (
      refl,
      (refl, (refl, (refl, (refl, (refl, (refl, (refl, (refl, (refl, (refl, (refl, tt))))))))))),
    )

module _ (decimal : ℕ → Option ℕ) where
  section-NoBreak :
      (name : Text) (rows : List Row) → All (IsRow decimal) rows → All NoBreak (section name rows)
  unfolding section inline is_break
  section-NoBreak name [] h = tt
  section-NoBreak name (row ∷ rows) h = (
    All-append _ (codes "## ") (domain_title name) (inline-NoBreak (codes "## ") refl)
        (title-NoBreak name),
    (
      tt,
      All-append NoBreak (render_table (row ∷ rows)) ([] ∷ [])
          (render_table-NoBreak decimal (row ∷ rows) h) (tt, tt),
    ),
  )

  sections-NoBreak :
      (names : List Text) (rows : List Row)
      → All (IsRow decimal) rows
      → All NoBreak (sections names rows)
  unfolding sections
  sections-NoBreak [] rows h = tt
  sections-NoBreak (name ∷ names) rows h =
      let mine = filterb (λ row. text_eq (domain row) name) rows in
      All-append NoBreak (section name mine) (sections names rows)
        (section-NoBreak name mine (All-filterb (IsRow decimal) _ rows h))
        (sections-NoBreak names rows h)

  orphan_section-NoBreak :
      (rows : List Row) → All (IsRow decimal) rows → All NoBreak (orphan_section rows)
  unfolding orphan_section all_inline inline is_break
  orphan_section-NoBreak [] h = tt
  orphan_section-NoBreak (row ∷ rows) h =
      let head = codes "## Orphaned rows" ∷ [] ∷ orphan_note ∷ [] ∷ [] in
      All-append NoBreak head (render_table (row ∷ rows) ++ [] ∷ []) (all_inline-NoBreak head refl)
        (All-append NoBreak (render_table (row ∷ rows)) ([] ∷ [])
          (render_table-NoBreak decimal (row ∷ rows) h) (tt, tt))

  accepted_table-NoBreak :
      (rows : List Row) → All (IsRow decimal) rows → All NoBreak (accepted_table rows)
  unfolding accepted_table inline is_break
  accepted_table-NoBreak [] h = (inline-NoBreak (codes "None.") refl, tt)
  accepted_table-NoBreak (row ∷ rows) h = render_table-NoBreak decimal (row ∷ rows) h

  pub render_lines-NoBreak :
      (result : SyncResult)
      → All (IsRow decimal) result.rows
      → All (IsRow decimal) result.orphaned
      → All NoBreak (render_lines result)
  unfolding render_lines accepted_rows inline is_break
  render_lines-NoBreak result h k =
      let rows = result.rows in
      let first = preamble ++ summary rows in
      let second = first ++ sections domain_order rows in
      let third = second ++ orphan_section result.orphaned in
      All-append NoBreak third
        (codes "## Accepted exceptions" ∷ [] ∷ accepted_table (accepted_rows rows))
        (All-append NoBreak second (orphan_section result.orphaned)
          (All-append NoBreak first (sections domain_order rows)
            (All-append NoBreak preamble (summary rows) preamble-NoBreak (summary-NoBreak rows))
            (sections-NoBreak domain_order rows h))
          (orphan_section-NoBreak result.orphaned k))
        (
          inline-NoBreak (codes "## Accepted exceptions") refl,
          (tt, accepted_table-NoBreak (accepted_rows rows) (All-filterb (IsRow decimal) _ rows h)),
        )
