-- ===== src/Util.antt =====
-- src/core/ymo_util.c and include/ymo_util.h: text and encoding utilities.
pub mod Utf8
pub mod Base64
pub mod Case
