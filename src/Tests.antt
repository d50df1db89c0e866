-- ===== src/Tests.antt =====
-- Concrete runs of the code's models, and the properties applied to concrete inputs.
mod Checks
mod Codecs
mod Pdus
mod Directives
mod Chains
mod Transfers
mod Structures
mod Memories
mod Decoders
mod Filestore
