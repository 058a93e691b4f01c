-- ===== src/Traceability/Command/Runs.antt =====
-- Runs of `main`, and runs after runs (tools/traceability_sync.py).
use realtime_meeting_transla.Prelude.{
  ℕ, ◌≡◌, ◌≢◌, refl, sym, subst, Bool, true, false, ◌&&◌, ◌||◌, Option, none, some, List, [], ◌∷◌,
  Text, arith, Option-cases, Bool-cases, inl, inr, All, text_eq, text_eq_iff, length, map,
}
use realtime_meeting_transla.Prelude.Dict.{Dict, member}
use mathlib.Core.Option.{some-injective}
use realtime_meeting_transla.Traceability.Rows.{Row, allowed_statuses, tested, empty}
use realtime_meeting_transla.Traceability.Reading.{
  Catalogue, found, missing, duplicate, no_ids, parse_requirement_ids, parse_existing_matrix,
}
use realtime_meeting_transla.Traceability.Reading.Parsed.{
  parse_requirement_ids-IsCatalogue, parse_existing_matrix-IsMatrix,
}
use realtime_meeting_transla.Traceability.Syncing.{SyncResult, sync}
use realtime_meeting_transla.Traceability.Syncing.Result.{the_result, sync_total}
use realtime_meeting_transla.Traceability.Rendering.{render}
use realtime_meeting_transla.Traceability.Command.{
  Files, Outcome, missing_catalogue, duplicate_id, no_requirements, bad_key, out_of_date, current,
  wrote, exit_code, check_rows, current_text, finish, run_sync, run_catalogue, main,
}

-- A status that the tool knows, and evidence where it says `tested`.
abbrev pub IsSound : Row → Type 0
IsSound row =
    (member row.status allowed_statuses ≡ true)
    × (row.status ≡ tested → (row.evidence ≢ []) × (row.evidence ≢ empty))

check_row-IsSound :
    (row : Row) (rows : List Row)
    → check_rows (row ∷ rows) ≡ none
    → IsSound row × (check_rows rows ≡ none)
unfolding check_rows
check_row-IsSound row rows h = elim (Bool-cases (member row.status allowed_statuses)) [
  | inr bad ↦ absurd (let k = rw bad at h in ground arith)
  | inl good ↦ elim (Bool-cases (text_eq row.status tested)) [
    | inr other ↦
        ((good, λ e. absurd (ground (arith, text_eq_iff row.status tested))), rw (good, other) at h)
    | inl same ↦ elim (Bool-cases (text_eq row.evidence [] || text_eq row.evidence empty)) [
      | inl bad ↦ absurd (let k = rw (good, same, bad) at h in ground arith)
      | inr there ↦ (
        (
          good,
          λ e. (
            λ z. ground (arith, text_eq_iff row.evidence [], text_eq_iff row.evidence empty),
            λ z. ground (arith, text_eq_iff row.evidence [], text_eq_iff row.evidence empty),
          ),
        ),
        rw (good, same, there) at h,
      )
    ]
  ]
]

check_rows-IsSound : (rows : List Row) → check_rows rows ≡ none → All IsSound rows
check_rows-IsSound [] h = tt
check_rows-IsSound (row ∷ rows) h =
    let (sound, rest) = check_row-IsSound row rows h in (sound, check_rows-IsSound rows rest)

-- A problem of a row is an exit code of 2.
check_rows-some : (rows : List Row) (o : Outcome) → check_rows rows ≡ some o → exit_code o ≡ 2
unfolding check_rows exit_code
check_rows-some [] o h = absurd (ground arith)
check_rows-some (row ∷ rows) o h = elim (Bool-cases (member row.status allowed_statuses)) [
  | inr bad ↦ rw (← some-injective _ _ (rw bad at h)) refl
  | inl good ↦
      elim (Bool-cases
        (text_eq row.status tested && (text_eq row.evidence [] || text_eq row.evidence empty))) [
          | inl bad ↦ rw (← some-injective _ _ (rw (good, bad) at h)) refl
          | inr there ↦ check_rows-some rows o (rw (good, there) at h)
        ]
]

other : (o : Outcome) → exit_code o ≡ 2 → o ≢ bad_key
unfolding exit_code
other o h e = let k = rw e at h in ground arith

module _ (decimal : ℕ → Option ℕ) (check : Bool) (files : Files) where
  -- What is read, synced and found sound before anything is compared or written.
  pub record Passed (result : SyncResult) : Type 0 where
    pub catalogue : Dict Text
    pub listed : parse_requirement_ids decimal files.ids ≡ found catalogue
    pub synced : sync decimal catalogue (parse_existing_matrix decimal files.matrix) ≡ some result
    pub sound : All IsSound result.rows

  -- The runs of `main`: it fails and writes nothing; or it compares the matrix with the rendering
  -- of a sync that passed, and they agree; or it writes that rendering.
  pub data Verdict : Outcome × Files → Type 0 where
    failed : (o : Outcome) → exit_code o ≢ 0 → o ≢ bad_key → Verdict (o, files)
    agreed :
        (result : SyncResult)
        → check ≡ true
        → Passed result
        → render result ≡ current_text files.matrix
        → Verdict (current (length result.rows), files)
    rewritten :
        (result : SyncResult)
        → check ≡ false
        → Passed result
        → Verdict (
          wrote (length result.rows) result.added (map (λ row. row.req_id) result.orphaned),
          record files { matrix = some (render result) },
        )

  finish-Verdict :
      (b : Bool)
      → check ≡ b
      → (result : SyncResult) → Passed result
      → Verdict (finish decimal b result files)
  unfolding finish exit_code
  finish-Verdict false h result p = rewritten result h p
  finish-Verdict true h result p =
      elim (Bool-cases (text_eq (render result) (current_text files.matrix))) [
        | inr old ↦ rw old (failed out_of_date (λ e. ground arith) (λ e. ground arith))
        | inl same ↦
            rw same
              (agreed result h p ((text_eq_iff (render result) (current_text files.matrix)).0 same))
      ]

  result-Verdict :
      (catalogue : Dict Text) (result : SyncResult)
      → parse_requirement_ids decimal files.ids ≡ found catalogue
      → sync decimal catalogue (parse_existing_matrix decimal files.matrix) ≡ some result
      → Verdict (run_sync decimal check (some result) files)
  unfolding run_sync
  result-Verdict catalogue result listed synced = elim (Option-cases (check_rows result.rows)) [
    | inr (o, problem) ↦
        let two = check_rows-some result.rows o problem in
        rw (run_sync, problem) (failed o (λ e. ground arith) (other o two))
    | inl sound ↦
        rw (run_sync, sound)
          (finish-Verdict check refl result (record {
            catalogue = catalogue;
            listed = listed;
            synced = synced;
            sound = check_rows-IsSound result.rows sound;
          }))
  ]

  sync-Verdict :
      (catalogue : Dict Text)
      → parse_requirement_ids decimal files.ids ≡ found catalogue
      → Verdict (run_catalogue decimal check (found catalogue) files)
  unfolding run_catalogue
  sync-Verdict catalogue listed =
      let existing = parse_existing_matrix decimal files.matrix in
      let c = parse_requirement_ids-IsCatalogue decimal files.ids catalogue listed in
      let m = parse_existing_matrix-IsMatrix decimal files.matrix in
      let total = sync_total decimal catalogue existing c m in
      subst (λ r. Verdict (run_sync decimal check r files)) (sym total)
        (result-Verdict catalogue (the_result decimal catalogue existing c m) listed total)

  catalogue-Verdict :
      (read : Catalogue)
      → parse_requirement_ids decimal files.ids ≡ read
      → Verdict (run_catalogue decimal check read files)
  unfolding run_catalogue exit_code
  catalogue-Verdict missing e = failed missing_catalogue (λ e. ground arith) (λ e. ground arith)
  catalogue-Verdict (duplicate id) e =
      failed (duplicate_id id) (λ e. ground arith) (λ e. ground arith)
  catalogue-Verdict no_ids e = failed no_requirements (λ e. ground arith) (λ e. ground arith)
  catalogue-Verdict (found catalogue) e = sync-Verdict catalogue e

  -- Whatever the files hold, a run of `main` does one of three things. It fails with an exit code
  -- other than 0, never for want of a sort key, and leaves the files alone. Or it was asked to
  -- check, all rows of the sync are sound, and the matrix is their rendering already. Or it was
  -- not, the rows are sound, and their rendering is what it writes.
  pub main-Verdict : Verdict (main decimal check files)
  unfolding main
  main-Verdict = catalogue-Verdict (parse_requirement_ids decimal files.ids) refl
