-- ===== src/Enums/Values.antt =====
-- protocol/enums.py: the text of a `StrEnum` member, which is what an f-string prints.
use realtime_meeting_transla.Prelude.{Text, codes}
use realtime_meeting_transla.Enums.{SegmentStatus}

unfoldable pub status_value : SegmentStatus → Text
status_value SegmentStatus.created = codes "created"
status_value SegmentStatus.partial = codes "partial"
status_value SegmentStatus.asr_final_candidate = codes "asr_final_candidate"
status_value SegmentStatus.accepted = codes "accepted"
status_value SegmentStatus.low_confidence = codes "low_confidence"
status_value SegmentStatus.rejected = codes "rejected"
status_value SegmentStatus.sealed = codes "sealed"
