-- ===== src/Web.antt =====
-- The web client: sessions and the exchange that owns them.
pub mod Session
pub mod Exchange
pub mod Sessions
