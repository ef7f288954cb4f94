-- ===== src/Codec.antt =====
-- The Redis protocol of codec/: values, their encoding, and the request decoder.
pub mod Value
pub mod Buffers
pub mod Conversion
mod Examples
pub mod Decoder
