-- ===== src/Lib.antt =====
-- Verification library of index_research, a study of B+tree and trie indexes in C++ headers.
--
-- The program keeps an index in blocks of a fixed size. `bplus_tree_handler`
-- (src/bplus_tree_handler.h) walks and updates the tree; each kind of index gives the layout of a
-- block, `basix` (src/basix.h) the plain one: records sorted through an array of positions. The
-- trie indexes keep a byte string in the block besides, which `bpt_trie_handler` of the same file
-- edits. `util` (src/univix_util.h) holds the codecs and the key comparison that all of them use; a
-- Bloom filter (src/simple_bloom.h) can stand before an index. `lru_cache` (src/lru_cache.h) keeps
-- blocks of a file in memory for a tree.
--
-- - Prelude: tests, lists, integers, `&` and `|` as arithmetic (Prelude/Bits), byte memory with the
--   stores and block moves of C (Prelude/Memory). In a block an address is an offset from its
--   start.
-- - Util/Codec: get_int, set_int, get_int3, set_int3 and the read_ and write_ functions of fixed
--   width of src/univix_util.h. Util/Varint: write_vint16, read_vint16 and their kin. Util/Address:
--   ptr_to_bytes, with eight rounds for the bytes of an unsigned long, and bytes_to_ptr.
--   Util/Compare: compare and fast_memeq. Util/BitCount: the bit counts and masks, with the tables
--   of src/univix_util.cpp.
-- - Page: the header and the array of positions of a block (is_leaf, filled_size, get_ptr, ins_ptr,
--   del_ptr, ... of src/bplus_tree_handler.h); Page/Search is basix::search_current_block,
--   Page/Update has basix::is_full, add_data, add_first_data, remove_entry and update_data,
--   init_current_block. Page/View reads a block as numbered records and says when it is well formed
--   (IsPage); Page/Pointers, Page/Add, Page/Find, Page/Remove, Page/Replace, Page/Initial and
--   Page/PutGet prove what each operation does. Page/Separator is the part of basix::split that
--   makes the key for the new block, Page/Split the whole of it: Page/Split/Starts says where the
--   packed records begin, Rounds and Fresh follow the copy, Parts the two halves, Laws puts them
--   together; `none` is a separator that is longer than first_key, whose size is an argument.
--   Page/Flags: which bytes of the header play no part in the records.
-- - Tree: get, traverse_to_leaf and the pointers of src/bplus_tree_handler.h over basix, in memory
--   (cache_size is 0): a child pointer is the address of a block on the heap, and aligned_alloc is
--   two arguments, the addresses it gives and what the memory there holds. Tree/Update has put and
--   recursive_update with the splits up to a new root. Tree/Shape says when a tree is well formed
--   and what it holds, Tree/Lookup is about get, Tree/Apart about the blocks that a tree uses,
--   Tree/Replace about a leaf exchanged, Tree/Insert and Tree/Put about put. The fuel of a
--   traversal counts levels; more than the height is enough. put has the 15 levels that a context
--   has room for. `none` is a traversal that did not end within it, a separator that does not end
--   in the 255 bytes of first_key, or a write before the start of a block.
-- - Madras: codecs of src/madras_blk/gen.hpp and src/madras_blk/vint.hpp, for a little-endian
--   machine. Fixed: integers of fixed width; Svint: the length in the first byte; Vint32: seven
--   bits to a byte, the highest first; Vint: the other codings. The loop of copy_fvint64 gets ten
--   rounds, seven bits each. `none` is a shift or a copy that C++ leaves undefined.
-- - Cache: lru_cache of src/lru_cache.h, which keeps pages of the file in the slots of page_cache.
--   Links has the doubly linked list, Chain and Order what it stands for; Pages has the other
--   operations. Store says when a cache stands for its pages. Write, Flush and Flushed are about
--   the write-back, Choose about the search for an entry to give up, Fill, Reuse, Room and Make
--   about the entry of a page that was not in the cache, Touch about one that was. Get and Miss put
--   get_disk_page_in_cache together, NewPage and Allocate get_new_page; Edit is a caller's write
--   through an address, Run a sequence of calls against plain pages, Open the constructor, where
--   `none` is a page size of 0 or a product beyond an int. Marks is chg_iface_default. A pointer
--   into page_cache is the number of its slot. The outer loop of the search gets a number of
--   rounds, of which one is enough; `none` is also a NULL pointer that is followed.
-- - TrieBytes: bpt_trie_handler's ins_b, ins_at, del_at, append, set_at, ... ; Insert, Append and
--   Delete prove what they do to the byte string.
-- - GenTree: simulate_binary_search and generate_lists of src/gen_tree.h, at the size 64 that it is
--   compiled with; the fuel of the search is that size, and it is found to be enough.
-- - SimpleBloom: bloom_create, bloom_add, bloom_check, where `none` is a byte outside of the array
--   that bloom_create allocates; SimpleBloom/Hash has the hash functions, Probes the bits of a key.
-- - Examples: runs and each theorem at an input.
--
-- Numbers are natural numbers. A conversion to a narrower unsigned type is written as a remainder;
-- an `int` of the block code stays far below 2^31 and is not wrapped. A signed result is a ℤ whose
-- `negsuc n` is both -(n + 1) and C's ~n. A key or value outside of a block is a list of bytes, its
-- length the length argument of the C function. A write before the start of a block, which C leaves
-- undefined, is the result `none`. The search loop recurs on fuel; the number of records is given,
-- and the theorem on the search shows that it is enough. The loops of Util/BitCount get 16 rounds
-- for the bits of an int16_t, which is taken to be non-negative, and 9 for the values of an
-- eight-bit mask. The floating-point product in bloom_create is an argument of the model.
--
-- Not modelled: the other index kinds, the staged index over them (src/stager.h), the cursor and
-- the append mode of the tree, the cached mode of the tree, reading and writing of files, how the
-- cache is closed, the static trie but for its codecs, compression (third-party libraries), the
-- SQLite file format, and the programs in imain.cpp and art_insert.cpp.
pub mod Cache
pub mod Examples
pub mod GenTree
pub mod Madras
pub mod Page
pub mod Prelude
pub mod SimpleBloom
pub mod Tree
pub mod TrieBytes
pub mod Util
