-- ===== src/Lib.antt =====
-- The real-time meeting translator at its core: the wire protocol and the projection that client
-- and server both fold it into. Audio arrives in binary frames (protocol/frame.py) on a timeline
-- of samples (protocol/timeline.py); control events (protocol/events.py) carry what the pipeline
-- makes of it; the reducer (protocol/projection.py) folds the events into one state of each
-- segment. Identifiers (protocol/identifiers.py), the version (protocol/version.py), enumerations
-- (protocol/enums.py), error codes (protocol/errors.py) and limits (protocol/limits.py) are
-- shared by all.
--
-- Where each part is modelled:
--   Limits, Errors, Enums: the constants, codes and enumerations. A call that may raise
--     `ProtocolError` returns a `Result`; the detail text is left out.
--   Identifiers: the formatters, `parse_ordinal`, `OrdinalAllocator`, and `is_valid_session_id`
--     (Identifiers/SessionId) as a matcher of its pattern, group by group. Python's table of decimal
--     digits is a parameter of the parser, with the ten digits of ASCII as its hypothesis.
--   Events: one record for each event class, one Boolean validator for each, as pydantic applies
--     them. Parsing JSON and pydantic's coercions are not modelled.
--   Packing, Frame: the layout `<BBHIqQHH` byte by byte, and `encode_header`, `decode_header`,
--     `encode_frame`, `decode_frame` over lists of bytes.
--   Version: `parse_version`, with Python's `int` on a text as a parameter.
--   Timeline: the conversions, `SampleSpan` and `measure_gap` over signed integers of any size.
--   Projection: State (`SegmentProjection`, `SessionProjection`, `ProjectionResult`), Handlers and
--     Updates (the `_apply_...` methods), Speakers (aliases and merges), Reducer (`_dispatch`,
--     `apply`, `fold`, `seal`), Views (`ordered_segments`, `compactable_segments`,
--     `translation_is_current`). The mutable session is passed in and given back.
--   CutClip (tools/cut_clip.py): the source manifest and its readers, `resolve_bounds` and
--     `check_locked_set`; CutClip/Audio has `verify_source` and `cut_samples`, CutClip/Ledger `main`
--     over a `World` of files, manifest entries and access log, in which a clip takes the place of
--     what its path held. What hashlib, `wave` and pathlib do are the fields of a `Platform`; an
--     exception that `main` does not catch is the exit code 1.
--   Hashing: `sha256_of`, chunk by chunk, over the digest of hashlib as a parameter.
--   HashFile (tools/hash_file.py): `inspect`, both renderings and `main`. A file is its path, its
--     bytes and what `wave` makes of it: a header, its `wave.Error`, or the `EOFError` that no one
--     catches. Floating-point arithmetic is a parameter.
--   Traceability (tools/traceability_sync.py): Cells (escapes, `_split_markdown_row`), Rows (`Row`
--     and `ID_PATTERN`), Reading (both parsers, `splitlines`, newline translation), Syncing
--     (`sync`), Rendering (`render`, line by line), Command (`main` over the two files, with its
--     exit codes).
--
-- How the pieces are proved: Projection/Steps says what one event may change, as a relation, and
-- Projection/Changes that every handler does no more. Invariant, Progress, Replay, Refusals,
-- Currency, Attribution and Totality follow by the rules of Projection/Rules for `apply`, `seal`
-- and `fold`. Projection/Admits says which events are applied, by a test that does not mention
-- the handlers, and Admission that it is the right one. Hazards states what the code does where
-- its rules say otherwise. For Traceability, Cells/RoundTrip reads a row back from its text,
-- Rendering/Sections the rows of the whole matrix, and Syncing/Fixpoint shows that a second sync
-- finds what the first one left; Command/Again puts them together. CutClip/Outcome says of
-- which kinds a run of `main` is, from the checks as CutClip/Preparation states them, and
-- HashFile/Clips joins the two tools that write and verify a clip.
--
-- Bounds: numbers of the events are natural numbers, as their validators demand; frame fields are
-- signed integers until they are encoded. The loop of `canonical_speaker` runs on fuel, one round
-- more than there are aliases, and more rounds make no difference. Decimal numbers are written by
-- as many rounds as the number itself, each of which divides by ten.
-- Chunks are read on fuel, one round for each byte, of which each chunk takes at least one.
--
-- Not modelled: the uuid4 calls, whose result is random; JSON and YAML, which libraries read and
-- write; argparse, the clock and the wording of what the tools print; tests, scripts and the
-- directories of client and server, which are empty.
pub mod Prelude
pub mod Enums
pub mod Limits
pub mod Errors
pub mod Identifiers
pub mod Events
pub mod Packing
pub mod Frame
pub mod Version
pub mod Traceability
pub mod Timeline
pub mod Projection
pub mod Hashing
pub mod HashFile
pub mod CutClip
