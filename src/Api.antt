-- ===== src/Api.antt =====
-- api: the HTTP interface.
pub mod Server
