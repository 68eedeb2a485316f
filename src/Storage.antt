-- ===== src/Storage.antt =====
-- internal/storage
pub mod Pebble
