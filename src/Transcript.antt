-- ===== src/Transcript.antt =====
-- The transcript of the messages (ghalbol_core/src/dm_transcript_store.rs).
pub mod Line
pub mod Decode
pub mod Order
pub mod Merge
pub mod Patch
pub mod Keys
pub mod Store
mod Tests
