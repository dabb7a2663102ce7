-- ===== src/Tests.antt =====
-- Runs of the model on concrete inputs, and the theorems at inputs that meet their hypotheses.
mod Positions
mod Keys
mod Packing
mod Snapshots
mod Hashes
mod Locks
mod JournalKeys
mod Checksums
mod HashTables
mod Reservations
