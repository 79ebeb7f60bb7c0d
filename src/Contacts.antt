-- ===== src/Contacts.antt =====
-- The address book.
pub mod Alias
pub mod Contact
pub mod Book
mod Tests
