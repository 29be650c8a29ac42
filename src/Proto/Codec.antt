-- ===== src/Proto/Codec.antt =====
-- The macros and byte-order helpers that every encoder and decoder is written with:
-- faith-proto/include/faith-proto/codec/helpers.h and faith-proto/src/codec/helpers.c.
pub mod Steps
pub mod Words
pub mod Encode
pub mod Decode
pub mod RoundTrip
