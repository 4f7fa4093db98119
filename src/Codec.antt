-- ===== src/Codec.antt =====
-- The integer codecs of light-server/src/codec.
pub mod Leb128
pub mod BitIo
pub mod EliasDelta
