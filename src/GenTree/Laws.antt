-- ===== src/GenTree/Laws.antt =====
-- The arrays of src/gen_tree.h hold one binary search tree over the numbers 0 to 63.
use index_research.Prelude.{
  ◌⊎◌, inl, inr, ap, sym, ◌∙◌, ==_iff, ℕ, zero, suc, ◌+◌, ◌*◌, ◌≤◌, ◌<◌, ◌≡◌, refl, length, get_or,
  arith,
}
use index_research.Prelude.{Bool, true, false, ltb, leb, ◌==◌, ◌&&◌, ◌||◌}
use index_research.Prelude.Int.{ℤ, pos, negsuc}
use index_research.Prelude.Bits.{all_below, all_below_sound}
use index_research.GenTree.{Lists, generate_lists, simulate_binary_search, tree_size}

abbrev pub left_of : ℕ → ℤ
left_of i = get_or (generate_lists.left) i (pos 0)

abbrev pub ryte_of : ℕ → ℤ
ryte_of i = get_or (generate_lists.ryte) i (pos 0)

-- The arrays, from the child `v` on, list the numbers from `lo` to below `hi` in order; a missing
-- child is `~` of the place where the number that is not there would be.
pub data Spans : ℤ → ℕ → ℕ → Type 0 where
  nothing : {lo : ℕ} → Spans (negsuc lo) lo lo
  node : {i lo hi : ℕ} → Spans (left_of i) lo i → Spans (ryte_of i) (i + 1) hi → Spans (pos i) lo hi

abbrev spans : ℕ → ℤ → ℕ → ℕ → Bool
spans zero v lo hi = false
spans (suc fuel) (negsuc k) lo hi = k == lo && lo == hi
spans (suc fuel) (pos i) lo hi = spans fuel (left_of i) lo i && spans fuel (ryte_of i) (i + 1) hi

spans-Spans : (fuel : ℕ) (v : ℤ) (lo hi : ℕ) → spans fuel v lo hi ≡ true → Spans v lo hi
spans-Spans zero v lo hi h = absurd (ground arith)
spans-Spans (suc fuel) (negsuc k) lo hi h =
    let e : k ≡ lo = ground arith in let e' : hi ≡ lo = ground arith in rw (e, e') nothing
spans-Spans (suc fuel) (pos i) lo hi h =
    node (spans-Spans fuel (left_of i) lo i (ground arith))
      (spans-Spans fuel (ryte_of i) (i + 1) hi (ground arith))

spans_table : spans 9 (pos 31) 0 tree_size ≡ true
unfolding generate_lists
spans_table = refl

-- The arrays hold a search tree of the numbers 0 to 63 with root 31.
pub generate_lists-Spans : Spans (pos 31) 0 tree_size
generate_lists-Spans = spans-Spans 9 (pos 31) 0 tree_size spans_table

-- The four arrays are filled and not overrun.
pub length-generate_lists :
    (length generate_lists.roots ≡ tree_size)
    × (length generate_lists.left ≡ tree_size)
    × (length generate_lists.ryte ≡ tree_size)
    × (length generate_lists.parent ≡ tree_size)
unfolding generate_lists
length-generate_lists = (refl, refl, refl, refl)

-- Whether the child `v`, if there is one, has `i` as its parent.
abbrev parent_matches : ℕ → ℤ → Bool
parent_matches i (negsuc k) = true
parent_matches i (pos c) = get_or (generate_lists.parent) c 64 == i

parents_table :
    all_below 64 (λ i. parent_matches i (left_of i) && parent_matches i (ryte_of i)) ≡ true
unfolding generate_lists
parents_table = refl

parent_matches-eq :
    (i c : ℕ) (v : ℤ)
    → parent_matches i v ≡ true
    → v ≡ pos c
    → get_or (generate_lists.parent) c 64 ≡ i
parent_matches-eq i c v h e =
    (==_iff (get_or (generate_lists.parent) c 64) i).0 (ap (parent_matches i) (sym e) ∙ h)

-- A child in the arrays has as its parent the number whose child it is.
pub parent_lem :
    (i c : ℕ)
    → i < 64
    → (left_of i ≡ pos c) ⊎ (ryte_of i ≡ pos c)
    → get_or (generate_lists.parent) c 64 ≡ i
parent_lem i c h e = elim e [
  | inl l ↦ parent_matches-eq i c (left_of i) (ground (arith, both)) l
  | inr r ↦ parent_matches-eq i c (ryte_of i) (ground (arith, both)) r
]
  where
    both : (parent_matches i (left_of i) && parent_matches i (ryte_of i)) ≡ true
    both =
        all_below_sound 64 (λ k. parent_matches k (left_of k) && parent_matches k (ryte_of k)) i
          parents_table h

roots_table :
    all_below 64 (λ i.
      leb (get_or (generate_lists.roots) i 0) i
      && (ltb 62 i || leb i (2 * get_or (generate_lists.roots) i 0)))
    ≡ true
unfolding generate_lists
roots_table = refl

-- The result as a number; 64 for a negative one.
abbrev found_at : ℤ → ℕ
found_at (pos i) = i
found_at (negsuc k) = 64

found_table :
    (lists : Lists)
    → all_below 64 (λ i. found_at ((simulate_binary_search lists i).result) == i) ≡ true
unfolding simulate_binary_search
found_table lists = refl

found_at-eq : (r : ℤ) (i : ℕ) → i < 64 → found_at r ≡ i → r ≡ pos i
found_at-eq (pos k) i h e = ap pos e
found_at-eq (negsuc k) i h e = absurd (omega arith)

-- The search finds each number below 64.
pub simulate_binary_search-finds :
    (lists : Lists) (i : ℕ) → i < 64 → (simulate_binary_search lists i).result ≡ pos i
simulate_binary_search-finds lists i h = found_at-eq _ i h (
    (==_iff _ _).0 (
      all_below_sound 64 (λ k. found_at ((simulate_binary_search lists k).result) == k) i
        (found_table lists) h))

-- The root for `i + 1` numbers, where they are fewer than 64, is at most `i` and at least half of it.
pub roots_bounds :
    (i : ℕ) → i < 63 → let root = get_or (generate_lists.roots) i 0 in (root ≤ i) × (i ≤ 2 * root)
roots_bounds i h = (ground (arith, row), ground (arith, row))
  where
    row :
        (leb (get_or (generate_lists.roots) i 0) i
          && (ltb 62 i || leb i (2 * get_or (generate_lists.roots) i 0)))
        ≡ true
    row =
        all_below_sound 64
          (λ k.
            leb (get_or (generate_lists.roots) k 0) k
            && (ltb 62 k || leb k (2 * get_or (generate_lists.roots) k 0)))
          i roots_table (omega arith)
