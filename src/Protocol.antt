-- ===== src/Protocol.antt =====
-- include/sqlvdi.h: the structures and codes of the VDI protocol, and src/vdi_protocol.cpp with
-- src/vdi_protocol.h: the naming, the validation and the dispatch of one command.
-- A pointer is an option, and the bytes behind a buffer pointer are a list. The log lines that the
-- functions print are not modelled.
pub mod Codes
pub mod Dispatch
pub mod Commands
pub use Codes.*
unfoldable pub use Dispatch.*
