-- ===== src/Media.antt =====
-- The media of a call: the audio jitter buffer (ghalbol_core/src/call_media), and the packets, the
-- jitter buffer and the quality steps of video (ghalbol_core/src/call_video).
pub mod Jitter
pub mod VideoJitter
pub mod Packet
pub mod Reassembly
pub mod Quality
pub mod Tests
