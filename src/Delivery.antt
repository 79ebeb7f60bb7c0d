-- ===== src/Delivery.antt =====
-- The delivery server (ghalbol_delivery/src): it keeps a message in a mailbox until its recipient
-- connects.
pub mod Error
pub mod Policy
pub mod Mailbox
pub mod Challenge
mod Tests
