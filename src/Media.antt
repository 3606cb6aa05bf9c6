-- ===== src/Media.antt =====
-- The control of the media servers: src/infra/media.
pub mod Bencode
mod Tests
