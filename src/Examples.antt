-- ===== src/Examples.antt =====
-- Runs of the definitions, and each theorem at a concrete input.
pub mod Pages
mod Codecs
mod Varints
mod Blooms
mod Tries
mod Splits
mod Trees
mod Madras
mod Caches
mod Halves
