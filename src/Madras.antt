-- ===== src/Madras.antt =====
-- The codecs of the static trie, src/madras_blk/gen.hpp and src/madras_blk/vint.hpp.
pub mod Fixed
pub mod Svint
pub mod Vint
pub mod Vint32
