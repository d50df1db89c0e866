-- ===== src/Pdu.antt =====
-- src/cfdp_pdu.c: the fixed header of a PDU, its CRC, and the File Data PDU.
pub mod Header
pub mod Crc
pub mod FileData
pub mod Bounds
