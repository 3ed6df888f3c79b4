-- ===== src/TrieBytes/Delete.antt =====
-- `del_at` takes bytes out of the trie and undoes an insertion.
use index_research.Prelude.{ℕ, zero, suc, ◌+◌, ◌-◌, ◌%◌, ◌^◌, ◌≤◌, ◌<◌, ◌≡◌, ap, ◌∙◌, ◌⊎◌, inr}
use index_research.Prelude.{List, length, arith}
use native.Mathlib.Decide.{dec_lt}
use index_research.Prelude.Memory.{Mem, move}
use index_research.Util.Codec.{get_int}
use index_research.Util.Codec.Laws.{get_int-set_int, get_int_ext, set_int_frame}
use index_research.TrieBytes.{get_trie_len, change_trie_len, neg_count, del_at}
use index_research.TrieBytes.Insert.{IsSpliced}

-- `b'` lacks the `count` bytes that the trie of `b` has from index `at`.
pub record IsCut (trie : ℕ) (b : Mem) (at count : ℕ) (b' : Mem) : Type 0 where
  pub shrunk : get_trie_len b' ≡ get_trie_len b - count
  pub before : (i : ℕ) → i < at → b' (trie + i) ≡ b (trie + i)
  pub after : (i : ℕ) → at ≤ i → i + count < get_trie_len b → b' (trie + i) ≡ b (trie + (i + count))
  pub header : (i : ℕ) → i < 6 → b' i ≡ b i

shortened_frame :
    (m : Mem) (count q : ℕ) → (q < 6) ⊎ (7 < q) → change_trie_len m (neg_count count) q ≡ m q
unfolding change_trie_len
shortened_frame m zero q h = set_int_frame m 6 (get_trie_len m + 0) q h
shortened_frame m (suc c) q h = set_int_frame m 6 (get_trie_len m + 2 ^ 16 - (c + 1) % 2 ^ 16) q h

shortened_len :
    (m : Mem) (count : ℕ)
    → count ≤ get_trie_len m
    → get_trie_len m < 65536
    → get_trie_len (change_trie_len m (neg_count count)) ≡ get_trie_len m - count
unfolding change_trie_len get_trie_len
shortened_len m zero h k = get_int-set_int m 6 (get_int m 6 + 0) ∙ omega arith
shortened_len m (suc c) h k =
    get_int-set_int m 6 (get_int m 6 + 2 ^ 16 - (c + 1) % 2 ^ 16) ∙ omega arith

-- The move after the length is changed, for a memory `m` that differs from `b` at the length only.
moved-IsCut :
    (trie : ℕ) (b m : Mem) (at count : ℕ)
    → 8 ≤ trie
    → at + count ≤ get_trie_len b
    → ((q : ℕ) → (q < 6) ⊎ (7 < q) → m q ≡ b q)
    → get_trie_len m ≡ get_trie_len b - count
    → IsCut trie b at count
        (move m (trie + at) m (trie + at + count) (trie + get_trie_len m - (trie + at)))
moved-IsCut trie b m at count above inside frame len = record {
  shrunk = same_len ∙ len;
  before = λ i h. ground (arith, frame (trie + i));
  after = λ i h k.
      ground (arith, len) ∙ ap m (index i h) ∙ frame (trie + (i + count)) (inr (omega arith));
  header = λ i h. ground (arith, frame i);
}
  where
    index : (i : ℕ) → at ≤ i → trie + at + count + (trie + i - (trie + at)) ≡ trie + (i + count)
    index i h = omega arith

    same_len :
        get_trie_len
          (move m (trie + at) m (trie + at + count) (trie + get_trie_len m - (trie + at)))
        ≡ get_trie_len m
    same_len = unfold get_trie_len in get_int_ext _ m 6 6 (ground arith) (ground arith)

-- Where the bytes from `at` to `at + count` lie in the trie, `del_at` takes them out.
pub del_at-IsCut :
    (trie : ℕ) (b : Mem) (at count : ℕ)
    → 8 ≤ trie
    → at + count ≤ get_trie_len b
    → get_trie_len b < 65536
    → IsCut trie b at count (del_at trie b (trie + at) count)
unfolding del_at
del_at-IsCut trie b at count above inside small =
    moved-IsCut trie b (change_trie_len b (neg_count count)) at count above inside
      (shortened_frame b count) (shortened_len b count (omega arith) small)

-- Deleting the bytes that an insertion put in gives back the length and every byte of the trie.
pub del_at-IsSpliced :
    (trie : ℕ) (b : Mem) (at : ℕ) (xs : List ℕ) (b' : Mem)
    → 8 ≤ trie
    → at ≤ get_trie_len b
    → get_trie_len b + length xs < 65536
    → IsSpliced trie b at xs b'
    → let b'' = del_at trie b' (trie + at) (length xs) in
      (get_trie_len b'' ≡ get_trie_len b)
      × ((i : ℕ) → i < get_trie_len b → b'' (trie + i) ≡ b (trie + i))
del_at-IsSpliced trie b at xs b' above inside room s = (omega (arith, cut.shrunk, s.grown), same)
  where
    cut : IsCut trie b' at (length xs) (del_at trie b' (trie + at) (length xs))
    cut =
        del_at-IsCut trie b' at (length xs) above (omega (arith, s.grown)) (omega (arith, s.grown))

    same :
        (i : ℕ)
        → i < get_trie_len b
        → del_at trie b' (trie + at) (length xs) (trie + i) ≡ b (trie + i)
    same i h = elim (dec_lt i at) [
      | yes k ↦ cut.before i k ∙ s.before i k
      | no k ↦ cut.after i (omega arith) (omega (arith, s.grown)) ∙ s.moved i (omega arith) h
    ]
