-- ===== src/TrieBytes/Append.antt =====
-- The appending operations put their bytes in at the end of the trie.
use index_research.Prelude.{ℕ, ◌+◌, ◌/◌, ◌%◌, ◌≤◌, ◌<◌, List, [], ◌∷◌, length, arith}
use index_research.Prelude.Memory.{Mem, store, move_in}
use index_research.Util.Codec.{set_int}
use index_research.TrieBytes.{get_trie_len, append, append_ptr, append_bytes}
use index_research.TrieBytes.Insert.{IsSpliced, spliced, by_index}

module _ (trie : ℕ) (b : Mem) (above : 8 ≤ trie) where
  abbrev at_end : ℕ
  at_end = trie + get_trie_len b

  -- `append_bytes` lengthens the trie by a whole array; the bytes that it had stay.
  pub append_bytes-IsSpliced :
      (s : List ℕ)
      → get_trie_len b + length s < 65536
      → IsSpliced trie b (get_trie_len b) s (append_bytes trie b s)
  unfolding append_bytes
  append_bytes-IsSpliced s room =
      spliced trie b (get_trie_len b) above (omega arith) (move_in b at_end s) s room
        (λ q h. ground arith) (λ i h. ground arith) (λ i h k. absurd (omega arith))

  -- `append` lengthens the trie by one byte, and `append_ptr` by the two bytes of a pointer, the high
  -- one first.
  pub append_lem :
      (b1 p : ℕ)
      → b1 < 256
      → p < 65536
      → get_trie_len b + 2 < 65536
      → IsSpliced trie b (get_trie_len b) (b1 ∷ []) (append trie b b1)
        × IsSpliced trie b (get_trie_len b) (p / 256 ∷ p % 256 ∷ []) (append_ptr trie b p)
  unfolding append append_ptr set_int
  append_lem b1 p h k room = (
    spliced trie b (get_trie_len b) above (omega arith) (store b at_end b1) (b1 ∷ []) (omega arith)
        (λ q l. ground arith) (by_index _ (b1 ∷ []) (ground arith, tt))
        (λ i l n. absurd (omega arith)),
    spliced trie b (get_trie_len b) above (omega arith) (set_int b at_end p)
        (p / 256 ∷ p % 256 ∷ []) (omega arith) (λ q l. ground arith)
        (by_index _ (p / 256 ∷ p % 256 ∷ []) (ground arith, (ground arith, tt)))
        (λ i l n. absurd (omega arith)),
  )
