-- ===== src/Errors.antt =====
-- include/error_utils.h and src/error_utils.cpp.
pub mod State
pub mod Messages
pub mod Decode
