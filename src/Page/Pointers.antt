-- ===== src/Page/Pointers.antt =====
-- The array of record positions: each operation on it, position by position.
use index_research.Prelude.{ℕ, ◌+◌, ◌-◌, ◌*◌, ◌≤◌, ◌<◌, ◌≡◌, ap, ◌∙◌, ◌⊎◌, inl, inr, arith}
use index_research.Prelude.Memory.{Mem, IsMem, move}
use index_research.Util.Codec.{set_int}
use index_research.Util.Codec.Laws.{get_int-set_int, get_int_ext, get_int-lt}
use index_research.Util.Codec.Laws.{set_int_frame, set_int-IsMem}
use index_research.Page.{filled_size, get_kv_last_pos, get_ptr}
use index_research.Page.{ins_ptr, del_ptr, ptr_pos}

module _ (b : Mem) (p kv : ℕ) (room : p ≤ filled_size b) where
  -- `memmove` of the positions from `p` on, and the new position; the count is still the old one.
  ins_moved : Mem
  ins_moved =
      set_int (move b (ptr_pos p + 2) b (ptr_pos p) ((filled_size b - p) * 2)) (ptr_pos p) kv

  ins_ptr_frame : (q : ℕ) → (q < 1) ⊎ (2 < q) → ins_ptr b p kv q ≡ ins_moved q
  unfolding ins_ptr ins_moved
  ins_ptr_frame q h = set_int_frame _ 1 _ q h

  pub ins_ptr_below : (q : ℕ) → (q < 1) ⊎ (2 < q) → q < ptr_pos p → ins_ptr b p kv q ≡ b q
  unfolding ins_moved
  ins_ptr_below q h k = ins_ptr_frame q h ∙ set_int_frame _ (ptr_pos p) kv q (inl k) ∙ ground arith

  pub ins_ptr_above :
      (q : ℕ) → ptr_pos p + 2 ≤ q → q < ptr_pos (filled_size b + 1) → ins_ptr b p kv q ≡ b (q - 2)
  unfolding ins_moved
  ins_ptr_above q h k =
      ins_ptr_frame q (omega arith) ∙ set_int_frame _ (ptr_pos p) kv q (omega arith) ∙ ground arith

  pub ins_ptr_beyond : (q : ℕ) → ptr_pos (filled_size b + 1) ≤ q → ins_ptr b p kv q ≡ b q
  unfolding ins_moved
  ins_ptr_beyond q h =
      ins_ptr_frame q (omega arith) ∙ set_int_frame _ (ptr_pos p) kv q (omega arith) ∙ ground arith

  -- The positions below `p` stay.
  pub get_ptr-ins_ptr_lt : (j : ℕ) → j < p → get_ptr (ins_ptr b p kv) j ≡ get_ptr b j
  unfolding get_ptr
  get_ptr-ins_ptr_lt j h =
      get_int_ext _ b (ptr_pos j) (ptr_pos j) (ins_ptr_below _ (omega arith) (omega arith))
        (ins_ptr_below _ (omega arith) (omega arith))

  -- At `p` stands the new record.
  pub get_ptr-ins_ptr_self : kv < 65536 → get_ptr (ins_ptr b p kv) p ≡ kv
  unfolding get_ptr ins_moved
  get_ptr-ins_ptr_self h =
      get_int_ext _ ins_moved (ptr_pos p) (ptr_pos p) (ins_ptr_frame _ (omega arith))
        (ins_ptr_frame _ (omega arith))
      ∙ get_int-set_int _ (ptr_pos p) kv
      ∙ omega arith

  -- The positions from `p` on have moved up by one.
  pub get_ptr-ins_ptr_gt :
      (j : ℕ) → p < j → j ≤ filled_size b → get_ptr (ins_ptr b p kv) j ≡ get_ptr b (j - 1)
  unfolding get_ptr
  get_ptr-ins_ptr_gt j h k =
      get_int_ext _ b (ptr_pos j) (ptr_pos (j - 1))
        (ins_ptr_above _ (omega arith) (omega arith) ∙ ap b (omega arith))
        (ins_ptr_above _ (omega arith) (omega arith) ∙ ap b (omega arith))

  pub filled_size-ins_ptr :
      filled_size b + 1 < 65536 → filled_size (ins_ptr b p kv) ≡ filled_size b + 1
  unfolding ins_ptr
  filled_size-ins_ptr h = get_int-set_int _ 1 _ ∙ omega arith

  pub get_kv_last_pos-ins_ptr : get_kv_last_pos (ins_ptr b p kv) ≡ get_kv_last_pos b
  unfolding get_kv_last_pos
  get_kv_last_pos-ins_ptr =
      get_int_ext _ b 3 3 (ins_ptr_below 3 (omega arith) (omega arith))
        (ins_ptr_below 4 (omega arith) (omega arith))

  pub ins_ptr-IsMem : IsMem b → IsMem (ins_ptr b p kv)
  unfolding ins_ptr
  ins_ptr-IsMem h = set_int-IsMem _ 1 _ (
      set_int-IsMem _ (ptr_pos p) kv
        (λ i. ground (arith, h i, h (ptr_pos p + (i - (ptr_pos p + 2))))))

module _ (b : Mem) (p : ℕ) (room : p < filled_size b) where
  del_moved : Mem
  del_moved = move b (ptr_pos p) b (ptr_pos p + 2) ((filled_size b - 1 - p) * 2)

  del_ptr_counted : (q : ℕ) → 0 < q → del_ptr b p q ≡ set_int del_moved 1 (filled_size b - 1) q
  unfolding del_ptr del_moved
  del_ptr_counted q h = ground arith

  del_ptr_frame : (q : ℕ) → 2 < q → del_ptr b p q ≡ del_moved q
  del_ptr_frame q h =
      del_ptr_counted q (omega arith) ∙ set_int_frame del_moved 1 (filled_size b - 1) q (inr h)

  pub del_ptr_below : (q : ℕ) → 2 < q → q < ptr_pos p → del_ptr b p q ≡ b q
  unfolding del_moved
  del_ptr_below q h k = del_ptr_frame q h ∙ ground arith

  pub del_ptr_above :
      (q : ℕ) → ptr_pos p ≤ q → q < ptr_pos (filled_size b - 1) → del_ptr b p q ≡ b (q + 2)
  unfolding del_moved
  del_ptr_above q h k = del_ptr_frame q (omega arith) ∙ ground (arith, ap b (swap q h))
    where
      swap : (q : ℕ) → ptr_pos p ≤ q → ptr_pos p + 2 + (q - ptr_pos p) ≡ q + 2
      swap q h = omega arith

  pub del_ptr_beyond : (q : ℕ) → ptr_pos (filled_size b - 1) ≤ q → del_ptr b p q ≡ b q
  unfolding del_moved
  del_ptr_beyond q h = del_ptr_frame q (omega arith) ∙ ground arith

  -- The positions below `p` stay.
  pub get_ptr-del_ptr_lt : (j : ℕ) → j < p → get_ptr (del_ptr b p) j ≡ get_ptr b j
  unfolding get_ptr
  get_ptr-del_ptr_lt j h =
      get_int_ext _ b (ptr_pos j) (ptr_pos j) (del_ptr_below _ (omega arith) (omega arith))
        (del_ptr_below _ (omega arith) (omega arith))

  -- Those above `p` have moved down by one.
  pub get_ptr-del_ptr_ge :
      (j : ℕ) → p ≤ j → j < filled_size b - 1 → get_ptr (del_ptr b p) j ≡ get_ptr b (j + 1)
  unfolding get_ptr
  get_ptr-del_ptr_ge j h k =
      get_int_ext _ b (ptr_pos j) (ptr_pos (j + 1))
        (del_ptr_above _ (omega arith) (omega arith) ∙ ap b (omega arith))
        (del_ptr_above _ (omega arith) (omega arith) ∙ ap b (omega arith))

  pub filled_size-del_ptr : filled_size (del_ptr b p) ≡ filled_size b - 1
  unfolding filled_size
  filled_size-del_ptr =
      get_int_ext (del_ptr b p) (set_int del_moved 1 (filled_size b - 1)) 1 1
        (del_ptr_counted 1 (omega arith)) (del_ptr_counted 2 (omega arith))
      ∙ get_int-set_int del_moved 1 (filled_size b - 1)
      ∙ omega (arith, get_int-lt b 1)

  pub get_kv_last_pos-del_ptr : get_kv_last_pos (del_ptr b p) ≡ get_kv_last_pos b
  unfolding get_kv_last_pos
  get_kv_last_pos-del_ptr =
      get_int_ext _ b 3 3 (del_ptr_below 3 (omega arith) (omega arith))
        (del_ptr_below 4 (omega arith) (omega arith))

  pub del_ptr-IsMem : IsMem b → IsMem (del_ptr b p)
  unfolding del_ptr del_moved
  del_ptr-IsMem h i = ground (
    arith,
    set_int-IsMem del_moved 1 (filled_size b - 1)
        (λ i. ground (arith, h i, h (ptr_pos p + 2 + (i - ptr_pos p)))) i,
  )
