-- ===== src/Snapshot.antt =====
-- crates/subvol/src/snapshot.rs: the tree of snapshots, kept as a table that is indexed by the
-- distance of an id from the greatest u32, the lists of ids, and the queries on ancestors.
pub mod Table
pub mod Walk
pub mod Ancestor
pub mod Mark
pub mod Idlist
