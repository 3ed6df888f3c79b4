-- ===== src/GenTree.antt =====
-- The search tree over the numbers below TREE_SIZE that src/gen_tree.h lists: for each number its
-- children and its parent in the binary search, and for each count of numbers the root.
pub mod Laws
use index_research.Prelude.{
  ℕ, zero, suc, ◌+◌, ◌-◌, ◌*◌, ◌/◌, ◌^◌, ◌++◌, List, [], ◌∷◌, length, get_or,
}
use index_research.Prelude.{Bool, true, false, ltb, leb, ◌==◌, if◌then◌else◌}
use index_research.Prelude.Int.{ℤ, pos, negsuc, bit_not}

abbrev pub tree_size : ℕ
tree_size = 64

-- The four arrays, as far as they are written: their lengths are the four indices.
pub record Lists : Type 0 where
  pub roots : List ℕ
  pub left : List ℤ
  pub ryte : List ℤ
  pub parent : List ℕ

-- The lists after the call, and its result.
pub record Simulated : Type 0 where
  pub lists : Lists
  pub result : ℤ

-- The block under `idx == middle`. The range below `middle` is empty when `first` is not below it.
unfoldable pub visit : Lists → ℕ → ℕ → ℕ → ℕ → ℕ → Lists
visit lists idx first last middle prev_middle =
    let below =
      if ltb first middle then pos (first + (middle - 1 - first) / 2) else bit_not (pos idx) in
    let above =
      if leb (middle + 1) last
      then pos (middle + 1 + (last - (middle + 1)) / 2)
      else bit_not (pos (idx + 1)) in
    record lists {
      left = lists.left ++ (below ∷ []);
      ryte = lists.ryte ++ (above ∷ []);
      parent = lists.parent ++ (prev_middle ∷ []);
    }

-- The `while` loop; `fuel` is at least the number of values from `first` to `last`.
unfoldable pub simulate_loop : Lists → ℕ → ℕ → ℕ → ℕ → ℕ → ℕ → Simulated
unfolding visit
simulate_loop lists idx zero first last middle prev_middle = record {
  lists = lists;
  result = bit_not (pos middle);
}
simulate_loop lists idx (suc fuel) first last middle prev_middle = elim (leb first last) [
  | false ↦ record { lists = lists; result = bit_not (pos middle) }
  | true ↦ elim (idx == middle) [
    | true ↦ record { lists = visit lists idx first last middle prev_middle; result = pos middle }
    | false ↦ elim (ltb middle idx) [
      | true ↦
          simulate_loop lists idx fuel (middle + 1) last (middle + 1 + (last - (middle + 1)) / 2)
            middle
      | false ↦
          simulate_loop lists idx fuel first (middle - 1) (first + (middle - 1 - first) / 2) middle
    ]
  ]
]

unfoldable pub simulate_binary_search : Lists → ℕ → Simulated
unfolding simulate_loop
simulate_binary_search lists idx =
    let last = tree_size - 1 in simulate_loop lists idx tree_size 0 last (last / 2) (last / 2)

-- The loop of `generate_lists` with `left` rounds to go, at `i`.
unfoldable pub generate_loop : ℕ → ℕ → ℕ → ℕ → Lists → Lists
unfolding simulate_binary_search
generate_loop zero i j nxt lists = lists
generate_loop (suc left) i j nxt lists =
    let root = 2 ^ nxt - 1 in
    let entry =
      if i == 0
      then 0
      else if i + 1 == tree_size
      then get_or lists.roots (length lists.roots - 1) 0
      else root in
    let full = ltb root (j + 1) in
    let j' = if i == 0 then j else if full then 0 else j + 1 in
    let nxt' = if i == 0 then nxt else if full then nxt + 1 else nxt in
    let rooted = record lists { roots = lists.roots ++ (entry ∷ []) } in
    generate_loop left (i + 1) j' nxt' (simulate_binary_search rooted i).lists

unfoldable pub generate_lists : Lists
unfolding generate_loop
generate_lists =
    generate_loop tree_size 0 0 1 (record { roots = []; left = []; ryte = []; parent = [] })
