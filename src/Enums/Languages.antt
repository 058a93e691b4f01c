-- ===== src/Enums/Languages.antt =====
-- protocol/enums.py: the fixed translation direction between the two supported languages.
use realtime_meeting_transla.Prelude.{◌≡◌, refl, ◌≢◌, ◌↔◌, true, Option, none, some, arith}
use realtime_meeting_transla.Enums.{LanguageCode, LanguageStatus, is_resolved}

-- `TRANSLATION_DIRECTION`, read by `target_language`. Both members are keys, so the lookup finds one.
unfoldable pub target_language : LanguageCode → LanguageCode
target_language LanguageCode.ja = LanguageCode.vi
target_language LanguageCode.vi = LanguageCode.ja

-- `CONFIRMED_STATUS_LANGUAGE.get`
unfoldable pub confirmed_status_language : LanguageStatus → Option LanguageCode
confirmed_status_language LanguageStatus.confirmed_ja = some LanguageCode.ja
confirmed_status_language LanguageStatus.confirmed_vi = some LanguageCode.vi
confirmed_status_language _ = none

-- A language never translates into itself, and the direction is its own inverse.
pub target_language_involutive :
    (c : LanguageCode) → (target_language c ≢ c) × (target_language (target_language c) ≡ c)
unfolding target_language
target_language_involutive LanguageCode.ja = (cc, refl)
target_language_involutive LanguageCode.vi = (cc, refl)

-- A status names a confirmed language exactly when it counts as resolved.
pub is_resolved_confirmed :
    (s : LanguageStatus)
    → (is_resolved s ≡ true) ↔ ((c : LanguageCode) × (confirmed_status_language s ≡ some c))
unfolding is_resolved confirmed_status_language
is_resolved_confirmed LanguageStatus.confirmed_ja = (λ h. (LanguageCode.ja, refl), λ h. refl)
is_resolved_confirmed LanguageStatus.confirmed_vi = (λ h. (LanguageCode.vi, refl), λ h. refl)
is_resolved_confirmed _ = (λ h. absurd (ground arith), λ h. absurd (ground arith))
