-- ===== src/Http.antt =====
-- The Management API: src/http.
pub mod Idempotency
mod Tests
