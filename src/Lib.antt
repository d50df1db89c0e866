-- ===== src/Lib.antt =====
-- EmbeddedCFDP is a C library for the wire format of the CCSDS File Delivery Protocol (CCSDS
-- 727.0-B-5). It keeps no state of its own: every operation is a serialiser, which writes a
-- structure into a buffer of the caller and answers how many octets it took, or a deserialiser,
-- which does the reverse; 0 is an error. A CRC protects PDUs, a checksum files. A caller
-- composes them: a header, a data field (file data or a file directive), the CRC behind both.
--
-- The files, and the code that they model:
--
--   Base, Base/*       numbers with their wrap-around, C's comparisons, octet lists, bitwise lemmas
--   Endian, Endian/*   include/cfdp_endian.h: cfdp_write_uint and cfdp_read_uint
--   Buffer, Buffer/*   pointers into memory, memcpy, and what sequences of writes leave behind
--   Common, Common/*   include/cfdp_common.h: constants, enumerations, cfdp_file_size_octets
--   Crc, Crc/*         src/cfdp_crc.c: the loops, and the register of the standard
--   Checksum, ...      src/cfdp_checksum.c: the loop, and the sum of words of the standard
--   Tlv, Tlv/*         src/cfdp_tlv.c: LV, TLV and the TLVs of the standard, one module each
--   Pdu/Header         src/cfdp_pdu.c: the fixed header
--   Pdu/Crc            src/cfdp_pdu.c: cfdp_pdu_payload_size, _crc_append, _crc_verify
--   Pdu/FileData       src/cfdp_pdu.c: the File Data PDU, cfdp_pdu_directive_code
--   Directive/*        src/cfdp_directive.c: the File Directive PDUs, one module each
--   Memory             all serialisers: what they write stays inside their buffers
--   Named              all decoders: the codes that they store are members of the enumerations
--   Example, Example/* examples/example.c: a file sent as three PDUs, and read back
--   Tests, Tests/*     concrete runs
--
-- A function of the code keeps its name without the prefix cfdp_ (and pdu_header_ becomes
-- header_). Memory behind a pointer is the list of the octets from the pointer to the end of
-- its object, NULL is none, and &buf[pos] is the list without its first pos octets. A function
-- that writes through pointers returns its result together with what the pointers then point
-- to. Structures are records with the fields of the C structures; a field that points into a
-- buffer holds the list of the octets there. A C enumeration is a number in the structures,
-- since any code can be cast to it from the wire, and Common/Enumeration and Tlv/Codes have its
-- members as a data type; u8, u16, u32 and u64 are the casts, and size_t is taken to have 64
-- bits.
--
-- A read outside an object, undefined in C, gives 0 here, and a write there is lost; theorems
-- about what is read or written assume that buf_len octets are really there, as the code's
-- documentation demands. A local structure that C leaves uninitialised starts as a record of
-- zeros. Loops over octets recurse on the octets or on a count, so no fuel is needed for them;
-- only the loop over the TLV chain of a Finished PDU runs on fuel, which is the number of
-- octets of the PDU: each round is over at least two, and Directive/Finished/Termination shows
-- that half of that is enough.
--
-- The file and the local buffers of examples/example.c are arguments, and what it prints of a
-- received PDU is a value.
--
-- Not modelled: tests/, print_hex of examples/example.c, which only prints octets, the build
-- files and tools/, and include/cfdp.h, which only includes the other headers.
pub mod Base
pub mod Endian
pub mod Buffer
pub mod Crc
pub mod Common
pub mod Checksum
pub mod Tlv
pub mod Pdu
pub mod Directive
pub mod Memory
pub mod Named
pub mod Example
pub mod Tests
