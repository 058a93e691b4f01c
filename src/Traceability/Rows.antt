-- ===== src/Traceability/Rows.antt =====
-- tools/traceability_sync.py: requirement ids, statuses, domains and the rows of the matrix.
pub mod Ids
pub mod Keys
use realtime_meeting_transla.Prelude.{
  ℕ, Bool, true, false, ◌||◌, Option, none, some, List, [], ◌∷◌, Text, codes, text_eq,
  if◌then◌else◌, suc, zero, ◌==◌,
}
use realtime_meeting_transla.Identifiers.{strip_prefix, match_dash, at_end, match_ordinal}

abbrev pub empty : Text
empty = codes "-"

abbrev pub planned : Text
planned = codes "planned"

abbrev pub tested : Text
tested = codes "tested"

abbrev pub accepted_exception : Text
accepted_exception = codes "accepted_exception"

abbrev pub allowed_statuses : List Text
allowed_statuses =
    planned
    ∷ codes "implemented"
    ∷ tested
    ∷ codes "test_script_ready"
    ∷ codes "blocked_environment"
    ∷ codes "blocked_real_fixture"
    ∷ codes "failed"
    ∷ accepted_exception
    ∷ []

abbrev pub domain_order : List Text
domain_order =
    codes "AUD"
    ∷ codes "UI"
    ∷ codes "PROT"
    ∷ codes "VAD"
    ∷ codes "ASR"
    ∷ codes "LID"
    ∷ codes "SPK"
    ∷ codes "TRN"
    ∷ codes "PERS"
    ∷ codes "OPS"
    ∷ codes "SEC"
    ∷ codes "TEST"
    ∷ []

-- The alternatives of `ID_PATTERN`, in its order.
abbrev pub id_domains : List Text
id_domains =
    codes "AUD"
    ∷ codes "UI"
    ∷ codes "PROT"
    ∷ codes "VAD"
    ∷ codes "ASR"
    ∷ codes "LID"
    ∷ codes "SPK"
    ∷ codes "TRN"
    ∷ codes "PERS"
    ∷ codes "OPS"
    ∷ codes "SEC"
    ∷ codes "TEST"
    ∷ []

abbrev pub columns : List Text
columns =
    codes "ID"
    ∷ codes "Requirement"
    ∷ codes "ADR"
    ∷ codes "Module"
    ∷ codes "Test / script"
    ∷ codes "Fixture / vector"
    ∷ codes "Evidence"
    ∷ codes "Status"
    ∷ codes "Notes"
    ∷ []

pub record Row : Type 0 where
  pub req_id : Text
  pub requirement : Text
  pub adr : Text
  pub module_name : Text
  pub test : Text
  pub fixture : Text
  pub evidence : Text
  pub status : Text
  pub notes : Text

-- `Row(req_id=…, requirement=…)`
abbrev pub new_row : Text → Text → Row
new_row req_id requirement = record {
  req_id = req_id;
  requirement = requirement;
  adr = empty;
  module_name = empty;
  test = empty;
  fixture = empty;
  evidence = empty;
  status = planned;
  notes = empty;
}

-- `Row.cells`
abbrev pub row_cells : Row → List Text
row_cells row =
    row.req_id ∷ row.requirement ∷ row.adr ∷ row.module_name ∷ row.test ∷ row.fixture ∷ row.evidence
    ∷ row.status ∷ row.notes ∷ []

-- `text.split("-", 1)[0]`
unfoldable pub before_dash : Text → Text
before_dash [] = []
before_dash (c ∷ s) = let rest = before_dash s in if c == b'-' then [] else c ∷ rest

-- `text.split("-", 1)[1]`; `none` is the `IndexError`.
unfoldable pub after_dash : Text → Option Text
after_dash [] = none
after_dash (c ∷ s) = let rest = after_dash s in if c == b'-' then some s else rest

-- `Row.domain`
abbrev pub domain : Row → Text
domain row = before_dash row.req_id

-- The digits of `\d` are those of every script: `decimal` is Python's table.
module _ (decimal : ℕ → Option ℕ) where
  -- `\d{n}` at the front of a text: what is left behind it
  unfoldable pub match_digits : ℕ → Text → Option Text
  match_digits zero s = some s
  match_digits (suc n) [] = none
  match_digits (suc n) (c ∷ s) = elim (decimal c) [ some d ↦ match_digits n s | none ↦ none ]

  -- `\d{3,4}$`
  unfoldable pub match_number : Text → Bool
  unfolding match_digits
  match_number s = elim (match_digits 3 s) [
    | none ↦ false
    | some rest ↦
        at_end rest || elim (match_digits 1 rest) [ none ↦ false | some last ↦ at_end last ]
  ]

  unfoldable pub match_behind : Option Text → Bool
  match_behind none = false
  match_behind (some rest) = elim (match_dash rest) [ none ↦ false | some s ↦ match_number s ]

  unfoldable pub match_domains : List Text → Text → Bool
  unfolding match_behind
  match_domains [] s = false
  match_domains (d ∷ domains) s = match_behind (strip_prefix d s) || match_domains domains s

  -- `ID_PATTERN.match`
  unfoldable pub match_id : Text → Bool
  unfolding match_domains
  match_id s = match_domains id_domains s

  -- `Row.number`, of the digits that `ID_PATTERN` allows, which are all that a row of the matrix
  -- has; `none` is the `IndexError` or the `ValueError`.
  unfoldable pub number : Row → Option ℕ
  number row = elim (after_dash row.req_id) [ none ↦ none | some s ↦ match_ordinal decimal s ]
