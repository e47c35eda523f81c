-- ===== src/Guest.antt =====
-- The daily quota of the demo's guests.
pub mod Quota
pub mod Policy
