-- ===== src/Util.antt =====
-- `class util` of src/univix_util.h: byte codecs, variable-length integers, page numbers,
-- the key comparison and bit counting.
pub mod Codec
pub mod Compare
pub mod Varint
pub mod BitCount
pub mod Address
