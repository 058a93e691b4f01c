-- ===== src/Traceability/Command.antt =====
-- tools/traceability_sync.py: `main`. The two files are the state; what the run prints is the
-- outcome, less its wording.
pub mod Runs
pub mod Again
use realtime_meeting_transla.Prelude.{
  ℕ, Bool, true, false, not, ◌&&◌, ◌||◌, Option, none, some, List, [], ◌∷◌, Text, text_eq, map,
  if◌then◌else◌, length,
}
use realtime_meeting_transla.Prelude.Dict.{Dict, member}
use realtime_meeting_transla.Traceability.Rows.{Row, allowed_statuses, tested, empty}
use realtime_meeting_transla.Traceability.Reading.{
  Catalogue, found, missing, duplicate, no_ids, read_text, parse_requirement_ids,
  parse_existing_matrix,
}
use realtime_meeting_transla.Traceability.Syncing.{SyncResult, sync}
use realtime_meeting_transla.Traceability.Rendering.{render}

-- The texts of docs/requirement-ids.md and docs/traceability.md, if they are there.
pub record Files : Type 0 where
  pub ids : Option Text
  pub matrix : Option Text

pub data Outcome : Type 0 where
  missing_catalogue : Outcome
  duplicate_id : Text → Outcome
  no_requirements : Outcome
  bad_key : Outcome
  invalid_status : Row → Outcome
  no_evidence : Row → Outcome
  out_of_date : Outcome
  current : ℕ → Outcome
  wrote : ℕ → List Text → List Text → Outcome

-- `SystemExit` with a message exits with 1, and so does an exception.
unfoldable pub exit_code : Outcome → ℕ
exit_code missing_catalogue = 1
exit_code (duplicate_id req_id) = 1
exit_code no_requirements = 1
exit_code bad_key = 1
exit_code (invalid_status row) = 2
exit_code (no_evidence row) = 2
exit_code out_of_date = 1
exit_code (current n) = 0
exit_code (wrote n added orphaned) = 0

-- The first row that the loop of `main` stops at.
unfoldable pub check_rows : List Row → Option Outcome
check_rows [] = none
check_rows (row ∷ rows) =
    let rest = check_rows rows in
    if not (member row.status allowed_statuses)
    then some (invalid_status row)
    else if text_eq row.status tested && (text_eq row.evidence [] || text_eq row.evidence empty)
    then some (no_evidence row)
    else rest

-- `MATRIX_PATH.read_text(…) if MATRIX_PATH.is_file() else ""`
unfoldable pub current_text : Option Text → Text
unfolding read_text
current_text none = []
current_text (some file) = read_text file

module _ (decimal : ℕ → Option ℕ) where
  unfoldable pub finish : Bool → SyncResult → Files → Outcome × Files
  unfolding current_text render
  finish check result files =
      let rendered = render result in
      let n = length result.rows in
      if check
      then (if not (text_eq rendered (current_text files.matrix))
          then (out_of_date, files)
          else (current n, files))
      else (
        wrote n result.added (map (λ row. row.req_id) result.orphaned),
        record files { matrix = some rendered },
      )

  unfoldable pub run_sync : Bool → Option SyncResult → Files → Outcome × Files
  unfolding finish check_rows
  run_sync check none files = (bad_key, files)
  run_sync check (some result) files = elim (check_rows result.rows) [
    | some problem ↦ (problem, files)
    | none ↦ finish check result files
  ]

  unfoldable pub run_catalogue : Bool → Catalogue → Files → Outcome × Files
  unfolding run_sync
  run_catalogue check missing files = (missing_catalogue, files)
  run_catalogue check (duplicate req_id) files = (duplicate_id req_id, files)
  run_catalogue check no_ids files = (no_requirements, files)
  run_catalogue check (found catalogue) files =
      run_sync check (sync decimal catalogue (parse_existing_matrix decimal files.matrix)) files

  -- `main`, with `--check` or without
  unfoldable pub main : Bool → Files → Outcome × Files
  unfolding run_catalogue parse_requirement_ids
  main check files = run_catalogue check (parse_requirement_ids decimal files.ids) files
