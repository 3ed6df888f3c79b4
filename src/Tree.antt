-- ===== src/Tree.antt =====
-- The tree of blocks: `get`, `put` and `recursive_update` of src/bplus_tree_handler.h over `basix`,
-- held in memory (`cache_size` is 0): a pointer to a block is its address on the heap.
pub mod Update
pub mod Shape
pub mod Lookup
pub mod Apart
pub mod Replace
pub mod Insert
pub mod Put
use index_research.Prelude.{
  ℕ, zero, suc, ◌+◌, ◌-◌, ◌≤◌, List, [], ◌∷◌, Option, none, some, Bool, true, false,
}
use index_research.Prelude.{ltb, leb, ◌==◌, if◌then◌else◌, length}
use index_research.Prelude.Int.{ℤ, pos, negsuc, bit_not}
use index_research.Prelude.Memory.{Mem, read_bytes}
use index_research.Util.Codec.{get_int}
use index_research.Util.Compare.{compare}
use index_research.Util.Address.{bytes_to_ptr, ptr_to_bytes}
use index_research.Page.{
  Cursor, is_leaf, set_leaf, set_changed, get_level, set_level, filled_size, get_ptr,
}
use index_research.Page.Search.{search_current_block}
use index_research.Page.Update.{is_full, add_data, add_first_data, update_data, init_current_block}
use index_research.Page.Split.{split}

-- The memory: what the block at each address holds.
abbrev pub Heap : Type 0
Heap = ℕ → Mem

-- `*a = b`.
abbrev pub put_block : Heap → ℕ → Mem → Heap
put_block heap a b x = if x == a then b else heap x

-- `~0` leads to the position before the first, which lies in the header.
unfoldable pub get_child_ptr_pos : Mem → ℤ → ℕ
unfolding get_ptr
get_child_ptr_pos b (pos i) = get_ptr b i
get_child_ptr_pos b (negsuc zero) = get_int b 4
get_child_ptr_pos b (negsuc (suc i)) = get_ptr b i

-- The record at `ptr` has the address of the child as its value; `to_demote_blocks` is not set.
unfoldable pub get_child_ptr : Mem → ℕ → ℕ
unfolding bytes_to_ptr
get_child_ptr b ptr = let p = ptr + (b ptr + 1) in bytes_to_ptr b p (b p)

-- A level of `bptree_iter_ctx`: the block and where the search in it ended.
pub record Frame : Type 0 where
  pub page : ℕ
  pub found_page_pos : ℤ

-- `current_block`, the result of the search in it with the cursor, and the levels above, the nearest
-- first.
pub record Place : Type 0 where
  pub current_block : ℕ
  pub search_result : ℤ
  pub key_at : Cursor
  pub above : List Frame

abbrev pub no_cursor : Cursor
no_cursor = record { key_at = 0; key_at_len = 0 }

-- BPT_MAX_LVL_COUNT, the number of levels that `bptree_iter_ctx` has room for.
abbrev pub bpt_max_lvl_count : ℕ
bpt_max_lvl_count = 15

-- The `while` loop of `traverse_to_leaf`; `none`: no leaf within `fuel` levels. With a context these are
-- the `bpt_max_lvl_count` it has room for: the next level would be written past its end.
unfoldable pub traverse_to_leaf : ℕ → Heap → List ℕ → ℕ → List Frame → Option Place
unfolding search_current_block get_child_ptr_pos get_child_ptr
traverse_to_leaf zero heap key current above = none
traverse_to_leaf (suc fuel) heap key current above =
    let b = heap current in
    let found = search_current_block b key no_cursor in
    let child = get_child_ptr b (get_child_ptr_pos b found.result) in
    elim (is_leaf b) [
      | true ↦ some (record {
        current_block = current;
        search_result = found.result;
        key_at = found.cursor;
        above = above;
      })
      | false ↦
          traverse_to_leaf fuel heap key child
            (record { page = current; found_page_pos = found.result } ∷ above)
    ]

-- `copy_value`: the value after the key that was found.
unfoldable pub copy_value : Mem → Cursor → List ℕ
copy_value b at =
    let value_at = at.key_at + at.key_at_len in read_bytes b (value_at + 1) (b value_at)

-- Without a context. The outer `none`: the traversal did not end. The inner one: the key is not there.
unfoldable pub get : ℕ → Heap → ℕ → List ℕ → Option (Option (List ℕ))
unfolding traverse_to_leaf copy_value
get fuel heap root key = elim (traverse_to_leaf fuel heap key root []) [
  | none ↦ none
  | some place ↦ some (elim (place.search_result) [
    | pos i ↦ some (copy_value (heap place.current_block) place.key_at)
    | negsuc i ↦ none
  ])
]
