-- ===== src/Call.antt =====
-- Voice and video calls: the signals on the wire (ghalbol_core/src/call_sig_v1.rs) and the state of
-- the call with each peer (ghalbol_core/src/call_state.rs).
pub mod Signal
pub mod State
pub mod Outbound
pub mod Inbound
pub mod Connect
pub mod Glare
pub mod Expiry
pub mod Run
pub mod Active
mod Tests
