-- ===== src/Service.antt =====
-- corndogs/server/implementations: what the server does with a request before the store sees it.
pub mod Policy
pub mod Digest
pub mod Handlers
