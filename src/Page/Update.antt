-- ===== src/Page/Update.antt =====
-- `is_full`, `add_data`, `add_first_data` and `remove_entry` of src/basix.h, `update_data` and
-- `init_current_block` of src/bplus_tree_handler.h. A byte array outside of the block is a list.
use index_research.Prelude.{ℕ, ◌+◌, ◌-◌, ◌*◌, List, Bool, true, Option, none, some, ltb, leb}
use index_research.Prelude.{◌==◌, if◌then◌else◌, length}
use index_research.Prelude.Memory.{Mem, store, move_in}
use index_research.Page.{Cursor, blk_hdr_size, is_leaf, set_changed, filled_size, set_filled_size}
use index_research.Page.{get_kv_last_pos, set_kv_last_pos, ins_ptr, del_ptr}

-- The position that is searched for plays no part.
unfoldable pub is_full : Mem → List ℕ → List ℕ → Bool
unfolding filled_size get_kv_last_pos
is_full b key value =
    let ptr_size = (filled_size b + 1) * 2 in
    leb (get_kv_last_pos b) (blk_hdr_size + ptr_size + length key + length value + 2)

-- The record at `kv_last_pos`: the length of the key, the key, the length of the value, the value.
unfoldable pub write_record : Mem → ℕ → List ℕ → List ℕ → Mem
unfolding set_kv_last_pos
write_record b kv_last_pos key value =
    let b1 = set_kv_last_pos b kv_last_pos in
    let b2 = store b1 kv_last_pos (length key) in
    let ptr = kv_last_pos + 1 in
    let b3 = move_in b2 ptr key in
    let ptr' = ptr + length key in
    let b4 = store b3 ptr' (length value) in move_in b4 (ptr' + 1) value

-- `none`: the record would begin before the block, and the C code writes there.
unfoldable pub add_data : Mem → ℕ → List ℕ → List ℕ → Option Mem
unfolding get_kv_last_pos write_record ins_ptr
add_data b search_result key value =
    let need = length key + length value + 2 in
    let kv_last_pos = get_kv_last_pos b - need in
    if ltb (get_kv_last_pos b) need
    then none
    else some (ins_ptr (write_record b kv_last_pos key value) search_result kv_last_pos)

unfoldable pub add_first_data : Mem → List ℕ → List ℕ → Option Mem
unfolding add_data
add_first_data b key value = add_data b 0 key value

unfoldable pub remove_entry : Mem → ℕ → Mem
unfolding del_ptr set_changed
remove_entry b pos = set_changed (del_ptr b pos) true

-- Only a value of the same length is replaced; on an inner block a message is printed.
unfoldable pub update_data : Mem → Cursor → List ℕ → Mem
unfolding is_leaf set_changed
update_data b at value =
    let value_at = at.key_at + at.key_at_len in
    if is_leaf b
    then set_changed (if b value_at == length value then move_in b (value_at + 1) value else b) true
    else b

-- On a block that the tree allocated itself (`is_block_given` is 0). BPT_MAX_KEY_LEN is byte 5.
unfoldable pub init_current_block : Mem → ℕ → Mem
unfolding set_filled_size set_kv_last_pos
init_current_block b block_size = set_kv_last_pos (store (set_filled_size b 0) 5 0) block_size
