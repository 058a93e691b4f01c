-- ===== src/Projection/Samples.antt =====
-- Sessions and events that the tests of protocol/projection.py run on.
use realtime_meeting_transla.Prelude.{true, false, none, some, List, [], ◌∷◌, Text, codes}
use Prim.Native.String.{String}
use realtime_meeting_transla.Enums.{
  LanguageCode, LanguageStatus, SegmentStatus, SpeakerStatus, SpeakerOperation, TranslationStatus,
}
use realtime_meeting_transla.Events.{Event}
use realtime_meeting_transla.Events.Fields.{Envelope}
use realtime_meeting_transla.Events.Transcripts.{
  TranscriptFinal, LanguageUpdated, SpeakerUpdated, TranslationFinal,
}
use realtime_meeting_transla.Projection.State.{SegmentProjection, SessionProjection}

abbrev pub envelope : String → Envelope
envelope id = record {
  protocol_version = codes "1.0";
  session_id = codes "6f9619ff-8b86-4d11-b42d-00cf4fc964ff";
  event_id = codes id;
  sent_at_utc = codes "2026-01-01T00:00:00Z";
}

-- An accepted segment whose translation is current.
abbrev pub translated : SegmentProjection
translated = record {
  segment_id = codes "seg-1";
  utterance_id = codes "utt-1";
  start_sample = 100;
  end_sample = 900;
  status = SegmentStatus.accepted;
  stable_text = [];
  unstable_text = [];
  text = codes "xin";
  language_id = some LanguageCode.vi;
  language_status = LanguageStatus.confirmed_vi;
  primary_speaker_id = some (codes "speaker-1");
  speaker_status = SpeakerStatus.provisional;
  speaker_candidates = [];
  overlap = false;
  overlap_intervals = [];
  translation_status = TranslationStatus.completed;
  translation_text = codes "ja";
  source_language = some LanguageCode.vi;
  target_language = some LanguageCode.ja;
  content_revision = 2;
  language_revision = 1;
  speaker_revision = 1;
  translation_revision = 2;
  translated_from_content_revision = some 2;
  translated_from_language_revision = some 1;
  parent_segment_ids = [];
  sealed = false;
}

abbrev pub closed : SegmentProjection
closed = record translated { segment_id = codes "seg-2"; start_sample = 0; sealed = true }

abbrev pub refused_segment : SegmentProjection
refused_segment = record translated {
  segment_id = codes "seg-3";
  status = SegmentStatus.rejected;
  translation_status = TranslationStatus.pending;
  translation_revision = 0;
}

abbrev pub session : SessionProjection
session = record {
  session_id = codes "6f9619ff-8b86-4d11-b42d-00cf4fc964ff";
  segments =
      (codes "seg-1", translated) ∷ (codes "seg-2", closed) ∷ (codes "seg-3", refused_segment) ∷ [];
  seen_event_ids = codes "e-1" ∷ [];
  speaker_aliases = (codes "speaker-3", codes "speaker-4") ∷ [];
  conflicts = [];
}

-- The same segments in another order.
abbrev pub reordered : SessionProjection
reordered = record session {
  segments =
      (codes "seg-3", refused_segment) ∷ (codes "seg-2", closed) ∷ (codes "seg-1", translated) ∷ [];
}

abbrev pub revision_of : Text → TranscriptFinal
revision_of segment = record {
  envelope = envelope "e-2";
  utterance_id = codes "utt-1";
  segment_id = segment;
  lineage = none;
  content_revision = 3;
  status = SegmentStatus.accepted;
  text = codes "xin chao";
  start_sample = 100;
  end_sample = 950;
  language_id = some LanguageCode.ja;
  language_status = LanguageStatus.mixed;
  language_revision = 0;
  primary_speaker_id = none;
  speaker_status = SpeakerStatus.unknown;
  speaker_revision = 0;
  speaker_candidates = [];
  overlap = false;
  overlap_intervals = [];
  evidence = none;
  intersects_gap = false;
}

abbrev pub language_event : LanguageUpdated
language_event = record {
  envelope = envelope "e-3";
  segment_id = codes "seg-1";
  language_revision = 2;
  language_id = some LanguageCode.ja;
  language_status = LanguageStatus.confirmed_ja;
  speechbrain_confidence = none;
  whisper_language = none;
  disagreement = false;
}

abbrev pub merge_event : Text → SpeakerUpdated
merge_event target = record {
  envelope = envelope "e-5";
  operation = SpeakerOperation.merge;
  speaker_revision = 4;
  segment_id = none;
  primary_speaker_id = none;
  speaker_status = SpeakerStatus.confirmed;
  speaker_candidates = [];
  from_speaker_ids = codes "speaker-1" ∷ [];
  to_speaker_id = some target;
}

abbrev pub translation_of : Text → TranslationFinal
translation_of segment = record {
  envelope = envelope "e-6";
  segment_id = segment;
  translation_revision = 3;
  translated_from_content_revision = 2;
  translated_from_language_revision = 1;
  source_language = LanguageCode.vi;
  target_language = LanguageCode.ja;
  text = codes "konnichiwa";
}

abbrev pub events : List Event
events =
    Event.translation_final (translation_of (codes "seg-1"))
    ∷ Event.language_updated language_event
    ∷ Event.transcript_revised (revision_of (codes "seg-2"))
    ∷ Event.speaker_updated (merge_event (codes "speaker-2"))
    ∷ []
