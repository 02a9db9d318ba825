-- ===== src/Interconnect.antt =====
-- The bus fabric: interconnect/.
pub mod Decoder
pub mod AddressMap
