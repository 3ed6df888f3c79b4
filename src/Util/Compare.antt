-- ===== src/Util/Compare.antt =====
-- `util::compare` and `util::fast_memeq` of src/univix_util.h.
pub mod Order
use index_research.Prelude.{ℕ, zero, suc, ◌+◌, ◌/◌, ◌%◌, ◌*◌, List, [], ◌∷◌, Bool, true, false, ltb}
use index_research.Prelude.{◌==◌, ◌&&◌, if◌then◌else◌}
use index_research.Prelude.Int.{ℤ, pos, negsuc}
use index_research.Prelude.Memory.{Mem}

-- The loop of `compare` with `k` bytes passed: the lists are what is left of the two keys.
unfoldable pub compare_loop : List ℕ → List ℕ → ℕ → ℤ
compare_loop [] [] k = pos 0
compare_loop [] (y ∷ ys) k = negsuc k
compare_loop (x ∷ xs) [] k = pos (suc k)
compare_loop (x ∷ xs) (y ∷ ys) k =
    let rest = compare_loop xs ys (suc k) in
    if ltb x y then negsuc k else if ltb y x then pos (suc k) else rest

-- `compare(v1, len1, v2, len2)`, with the default `k = 0`; `negsuc k` is -(k + 1).
unfoldable pub compare : List ℕ → List ℕ → ℤ
unfolding compare_loop
compare v1 v2 = compare_loop v1 v2 0

-- `*src1_as_int++ != *src2_as_int++`, `n` times: four bytes are equal as an int when each is.
unfoldable pub equal_ints : Mem → ℕ → Mem → ℕ → ℕ → Bool
equal_ints m a m' b zero = true
equal_ints m a m' b (suc n) =
    let rest = equal_ints m (a + 4) m' (b + 4) n in
    if m a == m' b
      && (m (a + 1) == m' (b + 1) && (m (a + 2) == m' (b + 2) && m (a + 3) == m' (b + 3)))
    then rest
    else false

-- The `switch` over the last 0 to 3 bytes, falling through.
unfoldable pub equal_chars : Mem → ℕ → Mem → ℕ → ℕ → Bool
equal_chars m a m' b zero = true
equal_chars m a m' b (suc n) =
    let rest = equal_chars m (a + 1) m' (b + 1) n in if m a == m' b then rest else false

-- 0 if `len` bytes at `a` and `b` are equal, else 1. The test `src1 == src2` of the pointers only
-- saves time, and is left out: the two memories may be one.
unfoldable pub fast_memeq : Mem → ℕ → Mem → ℕ → ℕ → ℕ
unfolding equal_ints equal_chars
fast_memeq m a m' b len =
    let passes = len / 4 in
    if equal_ints m a m' b passes
    then (if equal_chars m (a + 4 * passes) m' (b + 4 * passes) (len % 4) then 0 else 1)
    else 1
