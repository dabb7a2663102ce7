-- ===== src/Bkey/Format/RoundTrip.antt =====
-- Packing against unpacking, for keys and for positions.
pub mod Header
pub mod Keys
pub mod Positions
