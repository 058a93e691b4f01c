-- ===== src/Traceability/Rendering.antt =====
-- tools/traceability_sync.py: `render`, the text of the matrix, in the blocks it is made of.
pub mod Prose
pub mod Tables
pub mod Sections
pub mod Inline
pub mod Counts
use realtime_meeting_transla.Prelude.{
  ℕ, ◌+◌, Bool, true, false, Option, none, some, List, [], ◌∷◌, ◌++◌, map, Text, codes, show,
  text_eq, if◌then◌else◌, length, filterb,
}
use realtime_meeting_transla.Prelude.Dict.{Dict, lookup, insert}
use realtime_meeting_transla.Traceability.Cells.{escape_cell, join, row_text}
use realtime_meeting_transla.Traceability.Rows.{
  Row, columns, row_cells, domain, domain_order, allowed_statuses, planned, accepted_exception,
}
use realtime_meeting_transla.Traceability.Syncing.{SyncResult}

abbrev pub domain_titles : Dict Text
domain_titles =
    (codes "AUD", codes "AUD - audio capture and client runtime")
    ∷ (codes "UI", codes "UI - client user interface")
    ∷ (codes "PROT", codes "PROT - protocol, timeline, identity, revisions")
    ∷ (codes "VAD", codes "VAD - preprocessing and segmentation")
    ∷ (codes "ASR", codes "ASR - transcription and hallucination control")
    ∷ (codes "LID", codes "LID - language identification and routing")
    ∷ (codes "SPK", codes "SPK - speaker, clustering, overlap, diarization")
    ∷ (codes "TRN", codes "TRN - translation")
    ∷ (codes "PERS", codes "PERS - persistence")
    ∷ (codes "OPS", codes "OPS - deployment, operations, resources, process")
    ∷ (codes "SEC", codes "SEC - security and privacy")
    ∷ (codes "TEST", codes "TEST - testing, fixtures, evaluation")
    ∷ []

-- `DOMAIN_TITLES[domain]`, of a domain of `DOMAIN_ORDER`, which all have one
unfoldable pub domain_title : Text → Text
domain_title name = elim (lookup name domain_titles) [ none ↦ [] | some title ↦ title ]

-- The line of one row.
unfoldable pub row_line : Row → Text
unfolding row_text escape_cell
row_line row = row_text (map escape_cell (row_cells row))

-- `"|" + "|".join(["---"] * len(COLUMNS)) + "|"`
unfoldable pub rule_line : Text
rule_line = codes "|" ++ join (codes "|") (map (λ column. codes "---") columns) ++ codes "|"

-- `_render_table`
unfoldable pub render_table : List Row → List Text
unfolding row_line rule_line
render_table rows = row_text columns ∷ rule_line ∷ map row_line rows

-- `counts.get(status, 0)`
unfoldable pub count_of : Text → Dict ℕ → ℕ
count_of status counts = elim (lookup status counts) [ none ↦ 0 | some n ↦ n ]

unfoldable pub count_statuses : List Row → Dict ℕ → Dict ℕ
unfolding count_of
count_statuses [] counts = counts
count_statuses (row ∷ rows) counts =
    count_statuses rows (insert row.status (count_of row.status counts + 1) counts)

abbrev pub generated_note : Text
generated_note =
    codes
      "Generated by `tools/traceability_sync.py` from `docs/requirement-ids.md`. Run `python tools/traceability_sync.py` after adding a requirement ID, and `python tools/traceability_sync.py --check` at every phase gate."

abbrev pub edit_note : Text
edit_note =
    codes
      "Edit the ADR, Module, Test, Fixture, Evidence, Status and Notes columns by hand; they are preserved across regeneration. The Requirement column is owned by `docs/requirement-ids.md` and is overwritten."

abbrev pub tested_note : Text
tested_note =
    codes
      "`tested` requires a real evidence artifact path in the Evidence column. A server-side requirement may not be marked `tested` until the user has returned the raw run artifacts (`requirements.md` Section 22.4, `CLAUDE.md` Section 20). `accepted_exception` requires explicit user approval, a rationale, a risk statement and a tracked follow-up."

abbrev pub orphan_note : Text
orphan_note =
    codes
      "These IDs are present in the matrix but no longer in `docs/requirement-ids.md`. Requirement IDs are permanent, so removal must be deliberate: either restore the ID to the catalogue or record why it was withdrawn."

-- From the title to the end of the status rules.
unfoldable pub preamble : List Text
preamble =
    codes "# Requirement traceability matrix"
      ∷ []
      ∷ generated_note
      ∷ []
      ∷ edit_note
      ∷ []
      ∷ codes "## Status rules"
      ∷ []
      ∷ codes "```text"
      ∷ allowed_statuses
    ++ codes "```"
      ∷ []
      ∷ tested_note
      ∷ []
      ∷ codes "## Coverage summary"
      ∷ []
      ∷ codes "| Status | Count |"
      ∷ codes "|---|---|"
      ∷ []

unfoldable pub count_line : Dict ℕ → Text → Text
count_line counts status =
    codes "| " ++ status ++ codes " | " ++ show (count_of status counts) ++ codes " |"

unfoldable pub total_line : List Row → Text
total_line rows = codes "| **total** | **" ++ show (length rows) ++ codes "** |"

unfoldable pub unmapped_line : List Row → Text
unmapped_line rows =
    show (length (filterb (λ row. text_eq row.status planned) rows))
    ++ codes " of "
    ++ show (length rows)
    ++ codes
        " requirements are still `planned`. A phase cannot be declared complete while a requirement it claims to deliver is unmapped or falsely marked tested (TEST-250)."

-- The counts of the summary, and the line below them.
unfoldable pub summary : List Row → List Text
unfolding count_line total_line unmapped_line count_statuses
summary rows =
    map (count_line (count_statuses rows [])) allowed_statuses
    ++ total_line rows ∷ [] ∷ unmapped_line rows ∷ [] ∷ []

-- The section of one domain, if it has rows.
unfoldable pub section : Text → List Row → List Text
unfolding render_table domain_title
section name [] = []
section name (row ∷ rows) =
    (codes "## " ++ domain_title name) ∷ [] ∷ render_table (row ∷ rows) ++ [] ∷ []

unfoldable pub sections : List Text → List Row → List Text
unfolding section
sections [] rows = []
sections (name ∷ names) rows =
    section name (filterb (λ row. text_eq (domain row) name) rows) ++ sections names rows

unfoldable pub orphan_section : List Row → List Text
unfolding render_table
orphan_section [] = []
orphan_section (row ∷ rows) =
    codes "## Orphaned rows" ∷ [] ∷ orphan_note ∷ [] ∷ render_table (row ∷ rows) ++ [] ∷ []

unfoldable pub accepted_table : List Row → List Text
unfolding render_table
accepted_table [] = codes "None." ∷ []
accepted_table (row ∷ rows) = render_table (row ∷ rows)

unfoldable pub accepted_rows : List Row → List Row
accepted_rows rows = filterb (λ row. text_eq row.status accepted_exception) rows

-- All lines but the empty one at the end.
unfoldable pub render_lines : SyncResult → List Text
unfolding preamble summary sections orphan_section accepted_table accepted_rows
render_lines result =
    preamble
    ++ summary result.rows
    ++ sections domain_order result.rows
    ++ orphan_section result.orphaned
    ++ codes "## Accepted exceptions" ∷ [] ∷ accepted_table (accepted_rows result.rows)

unfoldable pub render : SyncResult → Text
unfolding render_lines join
render result = join (10 ∷ []) (render_lines result ++ [] ∷ [])
