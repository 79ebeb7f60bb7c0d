-- ===== src/Session.antt =====
-- The state of a native connection (ghalbol_core/src/connect): what waits to be sent to the peers, what
-- came in, and what has been confirmed.
pub mod State
pub mod Acks
pub mod Sends
pub mod Resync
pub mod Signals
mod Tests
