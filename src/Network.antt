-- ===== src/Network.antt =====
-- internal/network: the limits on requests.
pub mod Backlog
pub mod Duration
