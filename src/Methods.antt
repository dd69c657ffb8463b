-- ===== src/Methods.antt =====
-- internal/methods: the handlers of requests.
pub mod GetEvents
pub mod GetTransactions
