-- ===== src/Examples/Tries.antt =====
-- The byte string of a trie at concrete blocks.
use index_research.Prelude.{ℕ, ◌+◌, ◌-◌, ◌<◌, ◌≡◌, refl, List, [], ◌∷◌, arith}
use index_research.Prelude.{ltb, ◌==◌, if◌then◌else◌}
use index_research.Prelude.Memory.{Mem, read_bytes}
use index_research.TrieBytes.{get_trie_len, set_trie_len, del_at}
use index_research.TrieBytes.{ins_at, shift_right}
use index_research.TrieBytes.{change_trie_len}
use index_research.TrieBytes.Insert.{IsSpliced, ins_at-IsSpliced}
use index_research.TrieBytes.Delete.{del_at-IsSpliced}
use index_research.Util.Codec.{get_int, set_int}

-- A trie of the five bytes 1 to 5 at address 8.
abbrev five : Mem
five i = if i == 7 then 5 else if ltb i 8 then 0 else i - 7

five_len : get_trie_len five ≡ 5
unfolding get_trie_len get_int
five_len = refl

abbrev two : List ℕ
two = 21 ∷ 22 ∷ []

ins_at-IsSpliced_example : IsSpliced 8 five 2 two (ins_at 8 five 10 two)
ins_at-IsSpliced_example =
    ins_at-IsSpliced 8 five 2 (omega arith) (omega (arith, five_len)) two (omega arith)
      (omega (arith, five_len))

del_at-IsSpliced_example :
    let b'' = del_at 8 (ins_at 8 five 10 two) 10 2 in
    (get_trie_len b'' ≡ get_trie_len five)
    × ((i : ℕ) → i < get_trie_len five → b'' (8 + i) ≡ five (8 + i))
del_at-IsSpliced_example =
    del_at-IsSpliced 8 five 2 two (ins_at 8 five 10 two) (omega arith) (omega (arith, five_len))
      (omega (arith, five_len)) ins_at-IsSpliced_example

edits_run :
    (read_bytes (ins_at 8 five 10 two) 6 9 ≡ 0 ∷ 7 ∷ 1 ∷ 2 ∷ 21 ∷ 22 ∷ 3 ∷ 4 ∷ 5 ∷ [])
    × (read_bytes (del_at 8 five 9 2) 6 5 ≡ 0 ∷ 3 ∷ 1 ∷ 4 ∷ 5 ∷ [])
unfolding ins_at del_at change_trie_len shift_right get_trie_len set_trie_len get_int set_int
edits_run = (refl, refl)
