-- ===== src/TrieBytes/Insert.antt =====
-- Each insertion puts its bytes in at the pointer and moves what follows to the right.
use index_research.Prelude.{ℕ, zero, suc, ◌+◌, ◌%◌, ◌^◌, ◌≤◌, ◌<◌, ◌≡◌, ap, ◌∙◌, ◌⊎◌}
use index_research.Prelude.{List, [], ◌∷◌, length, take_all, get_or, IsBytes, arith}
use index_research.Prelude.Int.{pos}
use index_research.Prelude.Memory.{Mem, store, move_in}
use index_research.Util.Codec.{get_int}
use index_research.Util.Codec.Laws.{get_int-set_int, get_int_ext, set_int_frame}
use index_research.TrieBytes.{
  get_trie_len, change_trie_len, shift_right, ins_b, ins_b2, ins_b3, ins_b4, ins_at, ins_at_b,
}

-- `b'` has the bytes `xs` put into the trie of `b` at index `at`.
pub record IsSpliced (trie : ℕ) (b : Mem) (at : ℕ) (xs : List ℕ) (b' : Mem) : Type 0 where
  pub grown : get_trie_len b' ≡ get_trie_len b + length xs
  pub before : (i : ℕ) → i < at → b' (trie + i) ≡ b (trie + i)
  pub inserted : (i : ℕ) → i < length xs → b' (trie + (at + i)) ≡ get_or xs i 0
  pub moved : (i : ℕ) → at ≤ i → i < get_trie_len b → b' (trie + (i + length xs)) ≡ b (trie + i)
  pub header : (i : ℕ) → i < 6 → b' i ≡ b i

-- An array given by its elements.
abbrev pub Elements : (ℕ → ℕ) → List ℕ → Type 0
Elements f [] = Unit {0}
Elements f (x ∷ xs) = (f 0 ≡ x) × Elements (λ i. f (suc i)) xs

pub by_index :
    (f : ℕ → ℕ) (xs : List ℕ) → Elements f xs → (i : ℕ) → i < length xs → f i ≡ get_or xs i 0
by_index f [] e i h = absurd (omega arith)
by_index f (x ∷ xs) e zero h = e.0
by_index f (x ∷ xs) e (suc i) h = by_index (λ j. f (suc j)) xs e.1 i (omega arith)

-- Bytes 6 and 7 are what `change_trie_len` changes.
changed_frame : (m : Mem) (k q : ℕ) → (q < 6) ⊎ (7 < q) → change_trie_len m (pos k) q ≡ m q
unfolding change_trie_len
changed_frame m k q h = set_int_frame m 6 (get_trie_len m + k) q h

changed_len :
    (m : Mem) (k : ℕ)
    → get_trie_len m + k < 65536
    → get_trie_len (change_trie_len m (pos k)) ≡ get_trie_len m + k
unfolding change_trie_len get_trie_len
changed_len m k h = get_int-set_int m 6 (get_int m 6 + k) ∙ omega arith

module _ (trie : ℕ) (b : Mem) (at : ℕ) (above : 8 ≤ trie) (inside : at ≤ get_trie_len b) where
  abbrev ptr : ℕ
  ptr = trie + at

  -- The memory before the length is changed, part by part.
  pub spliced :
      (m : Mem) (xs : List ℕ)
      → get_trie_len b + length xs < 65536
      → ((q : ℕ) → q < ptr → m q ≡ b q)
      → ((i : ℕ) → i < length xs → m (ptr + i) ≡ get_or xs i 0)
      → ((i : ℕ) → at ≤ i → i < get_trie_len b → m (trie + (i + length xs)) ≡ b (trie + i))
      → IsSpliced trie b at xs (change_trie_len m (pos (length xs)))
  spliced m xs room low mid high = record {
    grown = changed_len m (length xs) (omega (arith, len_same)) ∙ omega (arith, len_same);
    before = λ i h. changed_frame m (length xs) _ (omega arith) ∙ low _ (omega arith);
    inserted = λ i h. changed_frame m (length xs) _ (omega arith) ∙ ap m (omega arith) ∙ mid i h;
    moved = λ i h k. changed_frame m (length xs) _ (omega arith) ∙ high i h k;
    header = λ i h. changed_frame m (length xs) i (omega arith) ∙ low i (omega arith);
  }
    where
      len_same : get_trie_len m ≡ get_trie_len b
      len_same =
          unfold get_trie_len in get_int_ext m b 6 6 (low 6 (omega arith)) (low 7 (omega arith))

  -- ins_at puts an array of less than 256 bytes in at a pointer into the trie or to its end, moves the
  -- later bytes up, adds to the length, which stays below 2^16, and keeps the first six bytes of the
  -- block.
  pub ins_at-IsSpliced :
      (s : List ℕ)
      → length s < 256
      → get_trie_len b + length s < 65536
      → IsSpliced trie b at s (ins_at trie b ptr s)
  unfolding ins_at
  ins_at-IsSpliced s short room =
      let e : length s % 2 ^ 8 ≡ length s = omega arith in
      rw (e, take_all s)
        (spliced (move_in (shift_right trie b ptr (length s)) ptr s) s room
          (λ q h. unfold shift_right in ground arith) (λ i h. unfold shift_right in ground arith)
          (λ i h k. unfold shift_right in ground arith))

  -- `ins_at` with a leading byte.
  pub ins_at_b-IsSpliced :
      (b1 : ℕ) (s : List ℕ)
      → b1 < 256
      → get_trie_len b + suc (length s) < 65536
      → IsSpliced trie b at (b1 ∷ s) (ins_at_b trie b ptr b1 s)
  unfolding ins_at_b
  ins_at_b-IsSpliced b1 s h room =
      let e : length s + 1 ≡ suc (length s) = omega arith in
      rw e (
        spliced (move_in (store (shift_right trie b ptr (1 + length s)) ptr b1) (ptr + 1) s)
          (b1 ∷ s) room (λ q k. unfold shift_right in ground arith) mid
          (λ i k l. unfold shift_right in ground arith))
    where
      mid :
          (i : ℕ)
          → i < suc (length s)
          → move_in (store (shift_right trie b ptr (1 + length s)) ptr b1) (ptr + 1) s (ptr + i)
            ≡ get_or (b1 ∷ s) i 0
      mid zero k = unfold shift_right in ground arith
      mid (suc i) k = unfold shift_right in ground arith

  -- `ins_b`, `ins_b2`, `ins_b3` and `ins_b4` put in their bytes in the order of their arguments.
  pub ins_bytes_lem :
      (b1 b2 b3 b4 : ℕ)
      → IsBytes (b1 ∷ b2 ∷ b3 ∷ b4 ∷ [])
      → get_trie_len b + 4 < 65536
      → IsSpliced trie b at (b1 ∷ []) (ins_b trie b ptr b1)
        × IsSpliced trie b at (b1 ∷ b2 ∷ []) (ins_b2 trie b ptr b1 b2)
        × IsSpliced trie b at (b1 ∷ b2 ∷ b3 ∷ []) (ins_b3 trie b ptr b1 b2 b3)
        × IsSpliced trie b at (b1 ∷ b2 ∷ b3 ∷ b4 ∷ []) (ins_b4 trie b ptr b1 b2 b3 b4)
  unfolding ins_b ins_b2 ins_b3 ins_b4
  ins_bytes_lem b1 b2 b3 b4 h room = (
    spliced _ (b1 ∷ []) (omega arith) (λ q k. ground arith)
        (by_index _ (b1 ∷ []) (ground arith, tt)) (λ i k l. ground arith),
    spliced _ (b1 ∷ b2 ∷ []) (omega arith) (λ q k. ground arith)
        (by_index _ (b1 ∷ b2 ∷ []) (ground arith, (ground arith, tt))) (λ i k l. ground arith),
    spliced _ (b1 ∷ b2 ∷ b3 ∷ []) (omega arith) (λ q k. ground arith)
        (by_index _ (b1 ∷ b2 ∷ b3 ∷ []) (ground arith, (ground arith, (ground arith, tt))))
        (λ i k l. ground arith),
    spliced _ (b1 ∷ b2 ∷ b3 ∷ b4 ∷ []) (omega arith) (λ q k. ground arith)
        (by_index _ (b1 ∷ b2 ∷ b3 ∷ b4 ∷ [])
          (ground arith, (ground arith, (ground arith, (ground arith, tt)))))
        (λ i k l. ground arith),
  )
