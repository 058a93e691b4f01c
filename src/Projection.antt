-- ===== src/Projection.antt =====
-- protocol/projection.py: the shared projection reducer.
pub mod State
pub mod Samples
pub mod SampleFacts
mod Tests
mod SpeakerTests
pub mod Speakers
pub mod Handlers
pub mod Updates
pub mod Reducer
pub mod Steps
pub mod Changes
pub mod Rules
pub mod Coherence
pub mod Invariant
pub mod Progress
pub mod Completion
pub mod Replay
pub mod Totality
pub mod Refusals
pub mod Admits
pub mod Admission
pub mod Views
pub mod Currency
pub mod Aliases
pub mod Merging
pub mod Attribution
pub mod Order
pub mod Canonical
pub mod Hazards
