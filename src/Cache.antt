-- ===== src/Cache.antt =====
-- The block cache, src/lru_cache.h. `options` is 0: blocks are not compressed.
pub mod Links
pub mod Chain
pub mod Order
pub mod Store
pub mod Write
pub mod Flush
pub mod Flushed
pub mod Choose
pub mod Room
pub mod Fill
pub mod Reuse
pub mod Make
pub mod Touch
pub mod Get
pub mod Miss
pub mod NewPage
pub mod Allocate
pub mod Edit
pub mod Run
pub mod Marks
pub mod Open
pub mod Pages
