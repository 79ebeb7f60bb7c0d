-- ===== src/Coord.antt =====
-- The coordination server (ghalbol_coord/src): where a peer can be reached.
pub mod Presence
pub mod Bridge
pub mod Challenge
mod Tests
