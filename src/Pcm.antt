-- ===== src/Pcm.antt =====
-- The decoder for version 4 of the server's audio protocol (src/pcm_v4.hpp): integer helpers,
-- adaptive filters, Rice decoder, packet header, codec and packet decoder.
pub mod Arith
pub mod Words
pub mod Window
pub mod Real
pub mod Wide
pub mod Complex
pub mod Attempt
pub mod Rice
pub mod Varint
pub mod Header
pub mod Codec
pub mod Stream
