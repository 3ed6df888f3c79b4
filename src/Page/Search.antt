-- ===== src/Page/Search.antt =====
-- `search_current_block` of src/basix.h, and the read of the value that it found.
use index_research.Prelude.{ℕ, zero, suc, ◌+◌, ◌/◌, List, ltb, true, false}
use index_research.Prelude.Int.{ℤ, pos, negsuc, bit_not}
use index_research.Prelude.Memory.{Mem, read_bytes}
use index_research.Util.Compare.{compare}
use index_research.Page.{Cursor, filled_size, get_key}

-- The result of the search and the fields `key_at`, `key_at_len` that it leaves.
pub record Found : Type 0 where
  pub result : ℤ
  pub cursor : Cursor

-- The `while` loop; `fuel` is at least `filled_sz - first`.
unfoldable pub search_loop : Mem → List ℕ → ℕ → ℕ → ℕ → Cursor → Found
search_loop b key zero first filled_sz at = record { result = bit_not (pos filled_sz); cursor = at }
search_loop b key (suc fuel) first filled_sz at =
    let middle = (first + filled_sz) / 2 in
    let key_at = get_key b middle in
    elim (ltb first filled_sz) [
      | false ↦ record { result = bit_not (pos filled_sz); cursor = at }
      | true ↦ elim (compare (read_bytes b key_at.key_at key_at.key_at_len) key) [
        | negsuc k ↦ search_loop b key fuel (middle + 1) filled_sz key_at
        | pos (suc k) ↦ search_loop b key fuel first middle key_at
        | pos zero ↦ record { result = pos middle; cursor = key_at }
      ]
    ]

-- `at` is what the two fields hold before the call.
unfoldable pub search_current_block : Mem → List ℕ → Cursor → Found
unfolding search_loop filled_size
search_current_block b key at = search_loop b key (filled_size b) 0 (filled_size b) at
