-- ===== src/Traceability/Syncing/Again.antt =====
-- The matrix that `render` writes, read and synced again (tools/traceability_sync.py).
use realtime_meeting_transla.Prelude.{
  ℕ, ◌≡◌, refl, ap, subst, ◌∙◌, true, false, ◌&&◌, ◌||◌, Option, some, List, [], Text, arith,
  Option-cases, inl, inr, All, text_eq, text_eq_iff, text_ltb, text_ltb_irrefl, text_ltb_trans, ltb,
}
use realtime_meeting_transla.Prelude.Sorting.{sort_by-sort_by}
use realtime_meeting_transla.Prelude.Dict.{Dict}
use realtime_meeting_transla.Traceability.Rows.{Row}
use realtime_meeting_transla.Traceability.Reading.{
  read_text, splitlines, read_lines, parse_existing_matrix, parse_existing_matrix_from_text,
}
use realtime_meeting_transla.Traceability.Reading.Lines.{splitlines-join, read_text-join}
use realtime_meeting_transla.Traceability.Reading.RowLines.{IsRow}
use realtime_meeting_transla.Traceability.Reading.Parsed.{
  IsCatalogue, IsMatrix, insert_rows, read_lines-insert_rows, parse_existing_matrix-IsMatrix,
}
use realtime_meeting_transla.Traceability.Syncing.{
  SyncResult, orphaned_rows, orphan_key, orphan_before, sync,
}
use realtime_meeting_transla.Traceability.Syncing.Result.{
  the_result, sync_total, rows-IsRow, orphaned-IsRow,
}
use realtime_meeting_transla.Traceability.Syncing.Fixpoint.{
  again, rows_again, added_again, orphaned_again,
}
use realtime_meeting_transla.Traceability.Rendering.{render, render_lines}
use realtime_meeting_transla.Traceability.Rendering.Sections.{all_printed, render_lines-read_rows}
use realtime_meeting_transla.Traceability.Rendering.Inline.{render_lines-NoBreak}

pair_asym :
    (d e : Text) (n m : ℕ)
    → (text_ltb d e || (text_eq d e && ltb n m)) ≡ true
    → (text_ltb e d || (text_eq e d && ltb m n)) ≡ false
pair_asym d e n m h = ground (
  arith,
  text_ltb_trans d e d,
  text_ltb_irrefl d,
  text_ltb_irrefl e,
  text_eq_iff d e,
  text_eq_iff e d,
)

-- The added ids are not printed.
pub render_added :
    (result : SyncResult) (added : List Text)
    → render (record result { added = added }) ≡ render result
unfolding render render_lines
render_added result added = refl

module _ (decimal : ℕ → Option ℕ) where
  pub orphan_before-asym :
      (a b : Row) → orphan_before decimal a b ≡ true → orphan_before decimal b a ≡ false
  unfolding orphan_before
  orphan_before-asym a b h = elim (Option-cases (orphan_key decimal a)) [
    | inl bad ↦ absurd (let k = rw (orphan_before, bad) at h in ground arith)
    | inr ((d, n), at_a) ↦ elim (Option-cases (orphan_key decimal b)) [
      | inl bad ↦ absurd (let k = rw (orphan_before, at_a, bad) at h in ground arith)
      | inr ((e, m), at_b) ↦
          let first = rw (orphan_before, at_a, at_b) at h in
          rw (orphan_before, at_b, at_a) (pair_asym d e n m first)
    ]
  ]

  pub read_text-render :
      (result : SyncResult)
      → All (IsRow decimal) result.rows
      → All (IsRow decimal) result.orphaned
      → read_text (render result) ≡ render result
  unfolding render
  read_text-render result h k =
      read_text-join (render_lines result) (render_lines-NoBreak decimal result h k)

  -- The rendered matrix is read as it was written: its lines, and the rows among them.
  pub parse_existing_matrix-render :
      (result : SyncResult)
      → All (IsRow decimal) result.rows
      → All (IsRow decimal) result.orphaned
      → parse_existing_matrix decimal (some (render result))
        ≡ insert_rows decimal (all_printed decimal result) []
  unfolding parse_existing_matrix parse_existing_matrix_from_text render
  parse_existing_matrix-render result h k =
      let lines = render_lines result in
      let inline = render_lines-NoBreak decimal result h k in
      ap (λ s. read_lines decimal (splitlines s) []) (read_text-join lines inline)
      ∙ ap (λ l. read_lines decimal l []) (splitlines-join lines inline)
      ∙ read_lines-insert_rows decimal lines []
      ∙ ap (λ rows. insert_rows decimal rows []) (render_lines-read_rows decimal result h k)

module _ (decimal : ℕ → Option ℕ) (catalogue : Dict Text) (existing : Dict Row)
    (c : IsCatalogue decimal catalogue) (m : IsMatrix decimal existing) where
  abbrev result : SyncResult
  result = the_result decimal catalogue existing c m

  read_again :
      parse_existing_matrix decimal (some (render result)) ≡ again decimal catalogue existing c m
  read_again =
      parse_existing_matrix-render decimal result (rows-IsRow decimal catalogue existing c m)
        (orphaned-IsRow decimal catalogue existing c m)

  -- A sync of the matrix that the first sync printed gives the same rows in the same order, and
  -- adds none.
  pub sync-render :
      sync decimal catalogue (parse_existing_matrix decimal (some (render result)))
      ≡ some (record result { added = [] })
  sync-render =
      let matrix =
        subst (IsMatrix decimal) read_again
          (parse_existing_matrix-IsMatrix decimal (some (render result))) in
      ap (sync decimal catalogue) read_again
      ∙ sync_total decimal catalogue (again decimal catalogue existing c m) c matrix
      ∙ rw
          (
            rows_again decimal catalogue existing c m,
            added_again decimal catalogue existing c m,
            orphaned_again decimal catalogue existing c m,
            sort_by-sort_by (orphan_before decimal) (orphan_before-asym decimal)
                (orphaned_rows catalogue existing),
          )
          refl
