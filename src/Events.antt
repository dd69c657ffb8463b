-- ===== src/Events.antt =====
-- internal/events: the cursors of Soroban events and the store that keeps and scans them.
pub mod Cursor
pub mod Store
