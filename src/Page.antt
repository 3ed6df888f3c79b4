-- ===== src/Page.antt =====
-- A block of the B+tree: its header, its array of record positions and its records, as
-- src/bplus_tree_handler.h and src/basix.h lay them out (BPT_9_BIT_PTR is 0 there).
-- Byte 0 holds flags and the level, bytes 1-2 the number of records, bytes 3-4 where the records
-- begin; from byte 6 on two bytes for each record hold its position; records grow down from the end.
pub mod Search
pub mod Update
pub mod Pointers
pub mod View
pub mod Flags
pub mod Add
pub mod Find
pub mod Remove
pub mod Replace
pub mod Initial
pub mod PutGet
pub mod Separator
pub mod Split
use Prim.Native.Nat.{bit_and, bit_or}
use index_research.Prelude.{ℕ, ◌+◌, ◌-◌, ◌*◌, Bool, not, ltb, ◌==◌, if◌then◌else◌}
use index_research.Prelude.Memory.{Mem, store, move}
use index_research.Util.Codec.{get_int, set_int}

abbrev pub blk_hdr_size : ℕ
blk_hdr_size = 6

unfoldable pub is_leaf : Mem → Bool
is_leaf b = not (bit_and (b 0) 0x80 == 0)

-- BPT_LEAF0_LVL is 14.
unfoldable pub set_leaf : Mem → Bool → Mem
set_leaf b leaf =
    if leaf
    then store b 0 (bit_or (bit_or (bit_and (b 0) 0x60) 14) 0x80)
    else store b 0 (bit_and (b 0) 0x7f)

unfoldable pub set_changed : Mem → Bool → Mem
set_changed b changed =
    if changed then store b 0 (bit_or (b 0) 0x40) else store b 0 (bit_and (b 0) 0xbf)

unfoldable pub is_changed : Mem → Bool
is_changed b = not (bit_and (b 0) 0x40 == 0)

unfoldable pub get_level : Mem → ℕ
get_level b = bit_and (b 0) 0x1f

unfoldable pub set_level : Mem → ℕ → Mem
set_level b lvl = store b 0 (bit_and (b 0) 0xe0 + lvl)

unfoldable pub filled_size : Mem → ℕ
filled_size b = get_int b 1

unfoldable pub set_filled_size : Mem → ℕ → Mem
set_filled_size b n = set_int b 1 n

unfoldable pub get_kv_last_pos : Mem → ℕ
get_kv_last_pos b = get_int b 3

unfoldable pub set_kv_last_pos : Mem → ℕ → Mem
set_kv_last_pos b val = set_int b 3 (if val == 0 then 65535 else val)

-- `get_ptr_pos() + (pos << 1)`.
abbrev pub ptr_pos : ℕ → ℕ
ptr_pos pos = blk_hdr_size + pos * 2

unfoldable pub get_ptr : Mem → ℕ → ℕ
get_ptr b pos = get_int b (ptr_pos pos)

unfoldable pub set_ptr : Mem → ℕ → ℕ → Mem
set_ptr b pos ptr = set_int b (ptr_pos pos) ptr

-- `pos` is at most the number of records: then `(filled_sz - pos) * 2` is not negative.
unfoldable pub ins_ptr : Mem → ℕ → ℕ → Mem
unfolding filled_size set_filled_size
ins_ptr b pos kv_pos =
    let filled_sz = filled_size b in
    let kv_idx = ptr_pos pos in
    let moved = move b (kv_idx + 2) b kv_idx ((filled_sz - pos) * 2) in
    set_filled_size (set_int moved kv_idx kv_pos) (filled_sz + 1)

-- `pos` is below the number of records.
unfoldable pub del_ptr : Mem → ℕ → Mem
unfolding filled_size set_filled_size
del_ptr b pos =
    let filled_sz = filled_size b - 1 in
    let kv_idx = ptr_pos pos in
    let moved = move b kv_idx b (kv_idx + 2) ((filled_sz - pos) * 2) in
    let counted = set_filled_size moved filled_sz in store counted 0 (bit_or (counted 0) 0x20)

-- Where the key at `pos` is, and its length.
pub record Cursor : Type 0 where
  pub key_at : ℕ
  pub key_at_len : ℕ

unfoldable pub get_key : Mem → ℕ → Cursor
unfolding get_ptr
get_key b pos = let kv_idx = get_ptr b pos in record { key_at = kv_idx + 1; key_at_len = b kv_idx }
