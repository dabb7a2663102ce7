-- ===== src/Journal.antt =====
-- crates/subvol/src/journal.rs: the keys of the journal that replay has not yet written, and the
-- reservations of the journal's entries.
pub mod Keys
pub mod Res
