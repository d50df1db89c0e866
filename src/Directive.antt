-- ===== src/Directive.antt =====
-- src/cfdp_directive.c: the File Directive PDUs, one module each.
pub mod FaultLocation
pub mod Ack
pub mod Prompt
pub mod KeepAlive
pub mod Eof
pub mod Nak
pub mod Metadata
pub mod Finished
pub mod Bounds
pub mod Selection
