-- ===== src/Backed.antt =====
-- src/backed.rs: the sequence-numbered encrypted streams that outlive a connection.
pub mod Socket
pub mod Writer
pub mod Reader
pub mod Session
pub mod Race
pub mod Link
