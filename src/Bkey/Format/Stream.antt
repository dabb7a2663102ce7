-- ===== src/Bkey/Format/Stream.antt =====
-- The bit streams of the packed key: what is written into the words is what is read back.
pub mod Shifts
pub mod Read
pub mod Write
pub mod Step
pub mod Fields
