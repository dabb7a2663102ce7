-- ===== src/Bkey.antt =====
-- crates/subvol/src/btree/bkey.rs: positions, keys, packed formats.
pub mod Pos
pub mod Key
pub mod Format
