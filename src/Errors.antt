-- ===== src/Errors.antt =====
-- protocol/errors.py: the error codes, and a call that returns or raises `ProtocolError`.
use realtime_meeting_transla.Prelude.{Bool, true, false, ◌≡◌, refl, ◌⊎◌, inl, inr}

pub data ErrorCode : Type 0 where
  prot_unsupported_major_version prot_malformed_header prot_frame_too_large : ErrorCode
  prot_event_too_large prot_invalid_utf8 prot_schema_violation : ErrorCode
  prot_sequence_regression prot_sample_overlap : ErrorCode
  session_unknown session_already_active session_resume_refused : ErrorCode
  session_server_restarted overload_sustained internal_error : ErrorCode

-- `code in FATAL_CODES`
unfoldable pub is_fatal : ErrorCode → Bool
is_fatal ErrorCode.prot_unsupported_major_version = true
is_fatal ErrorCode.prot_malformed_header = true
is_fatal ErrorCode.prot_frame_too_large = true
is_fatal ErrorCode.prot_event_too_large = true
is_fatal ErrorCode.prot_invalid_utf8 = true
is_fatal ErrorCode.prot_sequence_regression = true
is_fatal ErrorCode.prot_sample_overlap = true
is_fatal ErrorCode.session_server_restarted = true
is_fatal ErrorCode.overload_sustained = true
is_fatal _ = false

-- A call that returns a value or raises `ProtocolError` with a code. The detail text is left out.
pub data Result {ℓ} (A : Type ℓ) : Type ℓ where
  ok : A → Result A
  err : ErrorCode → Result A

-- A raise leaves out the rest of the body.
infixl 5 ◌>>=◌
abbrev pub ◌>>=◌ {ℓ κ} : {X : Type ℓ} {Y : Type κ} → Result X → (X → Result Y) → Result Y
err code >>= rest = err code
ok value >>= rest = rest value

infixl 5 ◌>>◌
abbrev pub ◌>>◌ {ℓ} : {Y : Type ℓ} → Result (Unit {0}) → Result Y → Result Y
check >> rest = check >>= (λ _. rest)

-- `_require(condition, code, detail)`
abbrev pub require : Bool → ErrorCode → Result (Unit {0})
require condition code = elim condition [ true ↦ ok tt | false ↦ err code ]

pub Result-cases {ℓ} :
    {A : Type ℓ} (r : Result A) → ((a : A) × (r ≡ ok a)) ⊎ ((c : ErrorCode) × (r ≡ err c))
Result-cases (ok a) = inl (a, refl)
Result-cases (err c) = inr (c, refl)
