-- ===== src/TrieBytes.antt =====
-- The byte string of a trie in a block: `bpt_trie_handler` of src/bplus_tree_handler.h, which the
-- trie indexes build on. `trie` is where it begins in the block; bytes 6-7 hold its length. A pointer
-- `ptr` into it is an address of the block.
pub mod Insert
pub mod Append
pub mod Delete
use index_research.Prelude.{ℕ, ◌+◌, ◌-◌, ◌*◌, ◌%◌, ◌^◌, List, length, take}
use index_research.Prelude.Int.{ℤ, pos, negsuc, neg}
use index_research.Prelude.Memory.{Mem, store, move, move_in}
use index_research.Util.Codec.{get_int, set_int}

unfoldable pub get_trie_len : Mem → ℕ
get_trie_len b = get_int b 6

unfoldable pub set_trie_len : Mem → ℕ → Mem
set_trie_len b len = set_int b 6 len

-- The sum is an int; a negative one is stored modulo 2^16.
unfoldable pub change_trie_len : Mem → ℤ → Mem
unfolding set_trie_len
change_trie_len b (pos delta) = set_trie_len b (get_trie_len b + delta)
change_trie_len b (negsuc delta) = set_trie_len b (get_trie_len b + 2 ^ 16 - (delta + 1) % 2 ^ 16)

-- `-count`.
abbrev pub neg_count : ℕ → ℤ
neg_count count = neg (pos count)

module _ (trie : ℕ) (b : Mem) where
  -- `memmove(ptr + n, ptr, trie + get_trie_len() - ptr)`.
  unfoldable pub shift_right : ℕ → ℕ → Mem
  shift_right ptr n = move b (ptr + n) b ptr (trie + get_trie_len b - ptr)

  unfoldable pub del_at : ℕ → ℕ → Mem
  del_at ptr count =
      let shorter = change_trie_len b (neg_count count) in
      move shorter ptr shorter (ptr + count) (trie + get_trie_len shorter - ptr)

  unfoldable pub ins_b : ℕ → ℕ → Mem
  unfolding shift_right
  ins_b ptr b1 = change_trie_len (store (shift_right ptr 1) ptr b1) (pos 1)

  unfoldable pub ins_b2 : ℕ → ℕ → ℕ → Mem
  unfolding shift_right
  ins_b2 ptr b1 b2 = change_trie_len (store (store (shift_right ptr 2) ptr b1) (ptr + 1) b2) (pos 2)

  unfoldable pub ins_b3 : ℕ → ℕ → ℕ → ℕ → Mem
  unfolding shift_right
  ins_b3 ptr b1 b2 b3 =
      change_trie_len (store (store (store (shift_right ptr 3) ptr b1) (ptr + 1) b2) (ptr + 2) b3)
        (pos 3)

  unfoldable pub ins_b4 : ℕ → ℕ → ℕ → ℕ → ℕ → Mem
  unfolding shift_right
  ins_b4 ptr b1 b2 b3 b4 =
      change_trie_len
        (store (store (store (store (shift_right ptr 4) ptr b1) (ptr + 1) b2) (ptr + 2) b3)
          (ptr + 3) b4)
        (pos 4)

  -- `ins_at(ptr, b, s, len)`.
  unfoldable pub ins_at_b : ℕ → ℕ → List ℕ → Mem
  unfolding shift_right
  ins_at_b ptr b1 s =
      change_trie_len (move_in (store (shift_right ptr (1 + length s)) ptr b1) (ptr + 1) s)
        (pos (length s + 1))

  -- `ins_at(ptr, s, len)`; `len` is a uint8_t.
  unfoldable pub ins_at : ℕ → List ℕ → Mem
  unfolding shift_right
  ins_at ptr s =
      let len = length s % 2 ^ 8 in
      change_trie_len (move_in (shift_right ptr len) ptr (take len s)) (pos len)

  unfoldable pub ins_bytes : ℕ → ℕ → Mem
  unfolding shift_right
  ins_bytes ptr len = change_trie_len (shift_right ptr len) (pos len)

  -- `pos` is a uint8_t.
  unfoldable pub set_at : ℕ → ℕ → Mem
  set_at p b1 = store b (trie + p % 256) b1

  unfoldable pub append : ℕ → Mem
  append b1 = change_trie_len (store b (trie + get_trie_len b) b1) (pos 1)

  unfoldable pub append_ptr : ℕ → Mem
  append_ptr p = change_trie_len (set_int b (trie + get_trie_len b) p) (pos 2)

  -- `append(s, need_count)`.
  unfoldable pub append_bytes : List ℕ → Mem
  append_bytes s = change_trie_len (move_in b (trie + get_trie_len b) s) (pos (length s))
