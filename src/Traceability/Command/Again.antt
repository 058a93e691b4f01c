-- ===== src/Traceability/Command/Again.antt =====
-- A run of `main` after one that wrote the matrix (tools/traceability_sync.py).
use realtime_meeting_transla.Prelude.{
  ℕ, ◌≡◌, refl, ap, sym, subst, ◌∙◌, Bool, true, false, Option, none, some, List, [], ◌∷◌, Text,
  arith, All, text_eq, text_eq_iff, text_eq_refl, length, map,
}
use mathlib.Core.Option.{some-injective}
use mathlib.Core.Path.{ap₂}
use realtime_meeting_transla.Prelude.Dict.{Dict}
use realtime_meeting_transla.Traceability.Rows.{Row, tested, empty}
use realtime_meeting_transla.Traceability.Reading.{read_text, parse_existing_matrix}
use realtime_meeting_transla.Traceability.Reading.Parsed.{
  IsCatalogue, IsMatrix, parse_requirement_ids-IsCatalogue, parse_existing_matrix-IsMatrix,
}
use realtime_meeting_transla.Traceability.Syncing.{SyncResult, sync}
use realtime_meeting_transla.Traceability.Syncing.Result.{
  the_result, sync_total, rows-IsRow, orphaned-IsRow,
}
use realtime_meeting_transla.Traceability.Syncing.Again.{
  sync-render, read_text-render, render_added,
}
use realtime_meeting_transla.Traceability.Rendering.{render}
use realtime_meeting_transla.Traceability.Command.{
  Files, Outcome, current, wrote, exit_code, check_rows, current_text, finish, run_sync,
  run_catalogue, main,
}
use realtime_meeting_transla.Traceability.Command.Runs.{
  IsSound, Passed, Verdict, failed, agreed, rewritten, main-Verdict,
}

IsSound-check_rows : (rows : List Row) → All IsSound rows → check_rows rows ≡ none
unfolding check_rows
IsSound-check_rows [] h = refl
IsSound-check_rows (row ∷ rows) h =
    let (good, evidence) = h.0 in
    ground (
      arith,
      good,
      evidence,
      IsSound-check_rows rows h.1,
      text_eq_iff row.status tested,
      text_eq_iff row.evidence [],
      text_eq_iff row.evidence empty,
    )

module _ (decimal : ℕ → Option ℕ) (files : Files) where
  abbrev names : SyncResult → List Text
  names result = map (λ row. row.req_id) result.orphaned

  abbrev rewritten_as : SyncResult → Outcome × Files
  rewritten_as result = (
    wrote (length result.rows) result.added (names result),
    record files { matrix = some (render result) },
  )

  -- A run that wrote has passed.
  wrote-Passed :
      (p : Outcome × Files) (n : ℕ) (added orphaned : List Text)
      → Verdict decimal false files p
      → p.0 ≡ wrote n added orphaned
      → (result : SyncResult) × Passed decimal false files result × (p ≡ rewritten_as result)
  unfolding exit_code
  wrote-Passed p n added orphaned (failed o nonzero key) e = absurd (nonzero (ap exit_code e))
  wrote-Passed p n added orphaned (agreed result h passed same) e = absurd (ground arith)
  wrote-Passed p n added orphaned (rewritten result h passed) e = (result, passed, refl)

  module _ (result : SyncResult) (p : Passed decimal false files result) where
    abbrev after : Files
    after = record files { matrix = some (render result) }

    abbrev existing : Dict Row
    existing = parse_existing_matrix decimal files.matrix

    abbrev c : IsCatalogue decimal p.catalogue
    c = parse_requirement_ids-IsCatalogue decimal files.ids p.catalogue p.listed

    abbrev m : IsMatrix decimal existing
    m = parse_existing_matrix-IsMatrix decimal files.matrix

    is_result : the_result decimal p.catalogue existing c m ≡ result
    is_result = some-injective _ _ (sym (sync_total decimal p.catalogue existing c m) ∙ p.synced)

    synced_after :
        sync decimal p.catalogue (parse_existing_matrix decimal after.matrix)
        ≡ some (record result { added = [] })
    synced_after =
        subst
          (λ r.
            sync decimal p.catalogue (parse_existing_matrix decimal (some (render r)))
            ≡ some (record r { added = [] }))
          is_result (sync-render decimal p.catalogue existing c m)

    read_after : read_text (render result) ≡ render result
    read_after =
        subst (λ r. read_text (render r) ≡ render r) is_result
          (read_text-render decimal (the_result decimal p.catalogue existing c m)
            (rows-IsRow decimal p.catalogue existing c m)
            (orphaned-IsRow decimal p.catalogue existing c m))

    run_sync-after :
        (b : Bool)
        → run_sync decimal b (some (record result { added = [] })) after
          ≡ finish decimal b (record result { added = [] }) after
    unfolding run_sync
    run_sync-after b = ap (problem b) (IsSound-check_rows result.rows p.sound)
      where
        problem : Bool → Option Outcome → Outcome × Files
        problem b none = finish decimal b (record result { added = [] }) after
        problem b (some o) = (o, after)

    main-after :
        (b : Bool) → main decimal b after ≡ finish decimal b (record result { added = [] }) after
    unfolding main run_catalogue
    main-after b =
        ap (λ r. run_catalogue decimal b r after) p.listed
        ∙ ap (λ r. run_sync decimal b r after) synced_after
        ∙ run_sync-after b

    checked_after : main decimal true after ≡ (current (length result.rows), after)
    unfolding finish current_text
    checked_after =
        let equal : text_eq (render (record result { added = [] })) (read_text (render result))
            ≡ true =
          rw (render_added result [], read_after) (text_eq_refl (render result)) in
        main-after true ∙ rw equal refl

    rewritten_after :
        main decimal false after ≡ (wrote (length result.rows) [] (names result), after)
    unfolding finish
    rewritten_after = main-after false ∙ rw (render_added result []) refl

  -- What a successful run of `main` has written stays as it is: checked, it is found up to date,
  -- and a second run adds no row and writes the same matrix.
  pub main-main :
      (files' : Files) (n : ℕ) (added orphaned : List Text)
      → main decimal false files ≡ (wrote n added orphaned, files')
      → (main decimal true files' ≡ (current n, files'))
        × (main decimal false files' ≡ (wrote n [] orphaned, files'))
  main-main files' n added orphaned h =
      let (result, p, e) =
        wrote-Passed (main decimal false files) n added orphaned (main-Verdict decimal false files)
          (ap (λ q. q.0) h) in
      let now : after result p ≡ files' = sym (ap (λ q. q.1) e) ∙ ap (λ q. q.1) h in
      let said : wrote (length result.rows) result.added (names result) ≡ wrote n added orphaned =
        sym (ap (λ q. q.0) e) ∙ ap (λ q. q.0) h in
      let count : length result.rows ≡ n = ground (arith, said) in
      let gone : names result ≡ orphaned = ground (arith, said) in
      (
        ap (main decimal true) (sym now)
            ∙ checked_after result p
            ∙ ap₂ (λ k f. (current k, f)) count now,
        ap (main decimal false) (sym now)
            ∙ rewritten_after result p
            ∙ ap₂ (λ o f. (o, f)) (ap₂ (λ k l. wrote k [] l) count gone) now,
      )
