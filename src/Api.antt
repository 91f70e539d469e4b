-- ===== src/Api.antt =====
-- web/src/api: the interfaces and the HTTP client.
pub mod Types
pub mod Result
pub mod Client
