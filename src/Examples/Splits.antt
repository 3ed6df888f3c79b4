-- ===== src/Examples/Splits.antt =====
-- Separators at two small leaves, and the tree of src/gen_tree.h.
use index_research.Prelude.{
  ℕ, zero, suc, ◌+◌, ◌<◌, ◌≡◌, refl, List, [], ◌∷◌, get_or, length, some, true, arith,
}
use index_research.Prelude.Int.{pos}
use index_research.Prelude.Memory.{Mem}
use index_research.Page.{is_leaf, get_ptr}
use index_research.Page.View.{rec}
use index_research.Util.Codec.{get_int}
use index_research.Page.Separator.{split_key}
use index_research.Page.Separator.Laws.{Separates, split_key-Separates, split_key_overrun}
use index_research.GenTree.{generate_lists, simulate_binary_search}
use index_research.GenTree.Laws.{simulate_binary_search-finds, left_of}

-- A leaf with two records, at 10 and 15; `more` are the bytes from 11 on.
abbrev two_records : ℕ → List ℕ → Mem
two_records len more i = get_or (0x80 ∷ 0 ∷ 2 ∷ 0 ∷ 10 ∷ 0 ∷ 0 ∷ 10 ∷ 0 ∷ 15 ∷ len ∷ more) i 0

-- Keys 1 2 and 1 3, values of one byte.
abbrev apart : Mem
apart = two_records 2 (1 ∷ 2 ∷ 1 ∷ 9 ∷ 2 ∷ 1 ∷ 3 ∷ 1 ∷ 9 ∷ [])

-- Keys 1 and 1 2; the first value has two bytes.
abbrev prefixed : Mem
prefixed = two_records 1 (1 ∷ 2 ∷ 7 ∷ 8 ∷ 2 ∷ 1 ∷ 2 ∷ 1 ∷ 9 ∷ [])

apart_leaf : is_leaf apart ≡ true
unfolding is_leaf
apart_leaf = refl

prefixed_leaf : is_leaf prefixed ≡ true
unfolding is_leaf
prefixed_leaf = refl

split_key-Separates_example :
    (sep : List ℕ) × (split_key apart 5 0 ≡ some sep)
    × (length sep ≡ 2)
    × Separates (rec apart 0).key (rec apart 1).key sep
unfolding rec get_ptr get_int
split_key-Separates_example =
    split_key-Separates apart 0 apart_leaf 1 5 (omega arith) (omega arith) first_byte (omega arith)
      (omega arith)
  where
    first_byte : (q : ℕ) → q < 1 → get_or (rec apart 0).key q 0 ≡ get_or (rec apart 1).key q 0
    first_byte zero l = refl
    first_byte (suc q) l = absurd (omega arith)

-- The separator 1 2 1 is larger than the key 1 2.
split_key_overrun_example :
    (sep : List ℕ) × (split_key prefixed 5 0 ≡ some sep)
    × (length (rec prefixed 1).key < length sep)
unfolding get_ptr get_int
split_key_overrun_example =
    split_key_overrun prefixed 0 prefixed_leaf 2 5 first_bytes (λ e. absurd (omega (arith, e)))
      (omega arith) (omega arith)
  where
    first_bytes :
        (q : ℕ)
        → q < 2
        → prefixed (get_ptr prefixed 1 + q + 1) ≡ prefixed (get_ptr prefixed 0 + q + 1)
    first_bytes zero l = refl
    first_bytes (suc zero) l = refl
    first_bytes (suc (suc q)) l = absurd (omega arith)

left_child : left_of 31 ≡ pos 15
unfolding generate_lists
left_child = refl

simulate_binary_search-finds_example : (simulate_binary_search generate_lists 12).result ≡ pos 12
simulate_binary_search-finds_example = simulate_binary_search-finds generate_lists 12 (omega arith)
