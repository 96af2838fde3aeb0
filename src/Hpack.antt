-- ===== src/Hpack.antt =====
-- HPACK, RFC 7541, as pajamax reads and writes it.
pub mod Int
pub mod Decoder
pub mod Encoder
mod Runs
