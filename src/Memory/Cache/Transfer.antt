-- ===== src/Memory/Cache/Transfer.antt =====
-- The block transfers between the levels keep what the hierarchy shows.
pub mod Down
pub mod Up
