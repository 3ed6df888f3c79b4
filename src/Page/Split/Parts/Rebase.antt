-- ===== src/Page/Split/Parts/Rebase.antt =====
-- The loop that sets the positions of the first part.
use index_research.Prelude.{ℕ, zero, suc, ◌+◌, ◌%◌, ◌≤◌, ◌<◌, ◌≡◌, refl, ◌∙◌, ◌⊎◌, inl, arith}
use index_research.Prelude.Memory.{Mem, IsMem}
use index_research.Util.Codec.Laws.{get_int_ext, get_int-set_int, set_int_frame, set_int-IsMem}
use index_research.Page.{get_ptr, set_ptr, ptr_pos}
use index_research.Page.Split.{rebase_loop}
use native.Mathlib.Decide.{dec_lt}

-- A position is what its two bytes are.
pub get_ptr_ext :
    (m m' : Mem) (i j : ℕ)
    → m (ptr_pos i) ≡ m' (ptr_pos j)
    → m (ptr_pos i + 1) ≡ m' (ptr_pos j + 1)
    → get_ptr m i ≡ get_ptr m' j
unfolding get_ptr
get_ptr_ext m m' i j h k = get_int_ext m m' (ptr_pos i) (ptr_pos j) h k

set_ptr_frame :
    (b : Mem) (i v q : ℕ) → (q < ptr_pos i) ⊎ (ptr_pos (i + 1) ≤ q) → set_ptr b i v q ≡ b q
unfolding set_ptr
set_ptr_frame b i v q h = set_int_frame b (ptr_pos i) v q (omega arith)

get_ptr-set_ptr : (b : Mem) (i v : ℕ) → get_ptr (set_ptr b i v) i ≡ v % 65536
unfolding set_ptr get_ptr
get_ptr-set_ptr b i v = get_int-set_int b (ptr_pos i) v

module _ (m : Mem) (diff : ℕ) where
  pub rebase_frame :
      (left i : ℕ) (b : Mem) (q : ℕ)
      → (q < ptr_pos i) ⊎ (ptr_pos (i + left) ≤ q)
      → rebase_loop m diff left i b q ≡ b q
  unfolding rebase_loop
  rebase_frame zero i b q h = refl
  rebase_frame (suc left) i b q h =
      rebase_frame left (i + 1) (set_ptr b i (get_ptr m i + diff)) q (omega arith)
      ∙ set_ptr_frame b i (get_ptr m i + diff) q (omega arith)

  pub rebase-IsMem : (left i : ℕ) (b : Mem) → IsMem b → IsMem (rebase_loop m diff left i b)
  unfolding rebase_loop set_ptr
  rebase-IsMem zero i b h = h
  rebase-IsMem (suc left) i b h =
      rebase-IsMem left (i + 1) (set_ptr b i (get_ptr m i + diff))
        (set_int-IsMem b (ptr_pos i) (get_ptr m i + diff) h)

  pub get_ptr-rebase :
      (left i : ℕ) (b : Mem) (j : ℕ)
      → i ≤ j
      → j < i + left
      → get_ptr (rebase_loop m diff left i b) j ≡ (get_ptr m j + diff) % 65536
  unfolding rebase_loop
  get_ptr-rebase zero i b j h k = absurd (omega arith)
  get_ptr-rebase (suc left) i b j h k = elim (dec_lt i j) [
    | yes l ↦
        get_ptr-rebase left (i + 1) (set_ptr b i (get_ptr m i + diff)) j (omega arith) (omega arith)
    | no l ↦ let e : j ≡ i = omega arith in rw e (kept ∙ get_ptr-set_ptr b i (get_ptr m i + diff))
  ]
    where
      kept :
          get_ptr (rebase_loop m diff left (i + 1) (set_ptr b i (get_ptr m i + diff))) i
          ≡ get_ptr (set_ptr b i (get_ptr m i + diff)) i
      kept =
          get_ptr_ext _ _ i i (rebase_frame left (i + 1) _ _ (inl (omega arith)))
            (rebase_frame left (i + 1) _ _ (inl (omega arith)))
