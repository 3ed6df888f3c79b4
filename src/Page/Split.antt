-- ===== src/Page/Split.antt =====
-- `split` of src/basix.h with `allocate_block` of src/bplus_tree_handler.h: all records are copied to a
-- new block in ascending order, the first part goes back to the end of the old block, and the new
-- block keeps the positions of the second part.
pub mod Starts
pub mod Fresh
pub mod Rounds
pub mod Parts
pub mod Laws
use Prim.Native.Nat.{bit_and}
use index_research.Prelude.{ℕ, zero, suc, ◌+◌, ◌-◌, ◌*◌, ◌/◌, List, Option, none, some, Bool, ltb}
use index_research.Prelude.{◌==◌, ◌||◌, if◌then◌else◌}
use index_research.Prelude.Memory.{Mem, store, move}
use index_research.Util.Codec.{set_int}
use index_research.Page.{is_leaf, set_leaf, filled_size, set_filled_size, get_kv_last_pos}
use index_research.Page.{set_kv_last_pos, get_ptr, set_ptr, ins_ptr, ptr_pos, blk_hdr_size}
use index_research.Page.Separator.{split_key}

-- `fresh` is the memory that the allocator or the cache gave. A `type` of 255 is BPT_BLK_TYPE_OVFL, of
-- 0 BPT_BLK_TYPE_INTERIOR.
unfoldable pub allocate_block : Mem → Bool → ℕ → ℕ → ℕ → Mem
allocate_block fresh cached size type lvl =
    let new_page = if cached then store fresh 0 0x40 else fresh in
    let m = set_int (set_int new_page 3 (size - (if size == 65536 then 1 else 0))) 1 0 in
    let typed =
      if type == 255
      then m
      else if type == 0
      then store m 0 (0x40 + lvl)
      else store m 0 (0xc0 + lvl) in
    store typed 5 1

-- `kv_len` of the record at `src_idx`.
unfoldable pub record_len : Mem → ℕ → ℕ
record_len b src_idx = let kv_len = b src_idx + 1 in kv_len + b (src_idx + kv_len) + 1

-- `brk_idx`, `brk_kv_pos` and `first_key`, once they are set; no `first_key`: the loop for it does not
-- end within `fuel` bytes.
pub record Break : Type 0 where
  pub idx : ℕ
  pub kv_pos : ℕ
  pub first_key : Option (List ℕ)

-- The new block and the variables of the loop; no `brk` is a `brk_idx` of -1.
pub record Copying : Type 0 where
  pub block : Mem
  pub kv_last_pos : ℕ
  pub tot_len : ℕ
  pub brk : Option Break

module _ (b : Mem) (fuel half_kv_len : ℕ) where
  -- `if (brk_idx == -1) ...`, after the record `new_idx`.
  unfoldable pub break_after : ℕ → ℕ → ℕ → Option Break → Option Break
  unfolding filled_size
  break_after new_idx tot_len kv_last_pos (some k) = some k
  break_after new_idx tot_len kv_last_pos none =
      if ltb half_kv_len tot_len || new_idx == filled_size b / 2
      then some
          (record { idx = new_idx + 1; kv_pos = kv_last_pos; first_key = split_key b fuel new_idx })
      else none

  unfoldable pub copy_record : ℕ → Copying → Copying
  unfolding get_ptr record_len ins_ptr break_after
  copy_record new_idx s =
      let src_idx = get_ptr b new_idx in
      let kv_len = record_len b src_idx in
      let copied = move s.block s.kv_last_pos b src_idx kv_len in
      let tot_len = s.tot_len + kv_len in
      let kv_last_pos = s.kv_last_pos + kv_len in
      record {
        block = ins_ptr copied new_idx s.kv_last_pos;
        kv_last_pos = kv_last_pos;
        tot_len = tot_len;
        brk = break_after new_idx tot_len kv_last_pos s.brk;
      }

  -- The `for` loop with `left` rounds to go, at `new_idx`.
  unfoldable pub copy_loop : ℕ → ℕ → Copying → Copying
  unfolding copy_record
  copy_loop zero new_idx s = s
  copy_loop (suc left) new_idx s = copy_loop left (new_idx + 1) (copy_record new_idx s)

-- `set_ptr(new_idx, new_block.get_ptr(new_idx) + diff)` for `left` positions from `new_idx` on.
unfoldable pub rebase_loop : Mem → ℕ → ℕ → ℕ → Mem → Mem
unfolding get_ptr set_ptr
rebase_loop new_block diff zero new_idx b = b
rebase_loop new_block diff (suc left) new_idx b =
    rebase_loop new_block diff left (new_idx + 1)
      (set_ptr b new_idx (get_ptr new_block new_idx + diff))

-- The first part goes back to the end of the old block.
unfoldable pub keep_first : ℕ → Mem → Mem → Break → Mem
unfolding rebase_loop get_kv_last_pos set_kv_last_pos set_filled_size
keep_first size new_block b brk =
    let kv_last_pos = get_kv_last_pos b in
    let rebased = rebase_loop new_block (size - brk.kv_pos) (brk.idx + 1) 0 b in
    let old_blk_new_len = brk.kv_pos - kv_last_pos in
    let copied = move rebased (size - old_blk_new_len) new_block kv_last_pos old_blk_new_len in
    set_filled_size (set_kv_last_pos copied (size - old_blk_new_len)) brk.idx

-- The new block keeps the second part.
unfoldable pub keep_second : ℕ → Mem → Break → Mem
unfolding set_kv_last_pos set_filled_size
keep_second orig_filled_size new_block brk =
    let new_size = orig_filled_size - brk.idx in
    let moved = move new_block blk_hdr_size new_block (blk_hdr_size + brk.idx * 2) (new_size * 2) in
    set_filled_size (set_kv_last_pos moved brk.kv_pos) new_size

-- The two blocks after the call, and `first_key`.
pub record Halves : Type 0 where
  pub old_block : Mem
  pub new_block : Mem
  pub first_key : List ℕ

-- BPT_MAX_KEY_LEN is byte 5.
unfoldable pub bump_max_key_len : Mem → Mem
bump_max_key_len b = if ltb (b 5) 255 then store b 5 (b 5 + 1) else b

-- `new_block` as its constructor leaves it, which sets the leaf flag again.
unfoldable pub new_block_for : Mem → Bool → ℕ → Mem → Mem
unfolding allocate_block set_leaf is_leaf
new_block_for fresh cached size b =
    let type = if is_leaf b then 1 else 0 in
    let allocated = allocate_block fresh cached size type (bit_and (b 0) 0x1f) in
    store (set_leaf allocated (is_leaf b)) 5 (bump_max_key_len b 5)

-- `fuel` is the size of the array `first_key`. `none`: there is no record, or the loop for the separator
-- does not end within that array.
unfoldable pub split : Mem → Bool → ℕ → ℕ → Mem → Option Halves
unfolding copy_loop keep_first keep_second bump_max_key_len new_block_for
split fresh cached size fuel b =
    let current = bump_max_key_len b in
    let kv_last_pos = get_kv_last_pos current in
    let half_kv_len = (size - kv_last_pos + 1) / 2 in
    let s = copy_loop current fuel half_kv_len (filled_size current) 0 (record {
      block = new_block_for fresh cached size b;
      kv_last_pos = kv_last_pos;
      tot_len = 0;
      brk = none;
    }) in
    elim (s.brk) [
      | none ↦ none
      | some brk ↦ elim (brk.first_key) [
        | none ↦ none
        | some first_key ↦ some (record {
          old_block = keep_first size s.block current brk;
          new_block = keep_second (filled_size current) s.block brk;
          first_key = first_key;
        })
      ]
    ]
