-- ===== src/Page/Remove.antt =====
-- `remove_entry` takes one record out and keeps the others in order.
use index_research.Prelude.{ℕ, ◌+◌, ◌-◌, ◌≤◌, ◌<◌, ◌≡◌, sym, ap, ◌∙◌, arith}
use index_research.Prelude.Memory.{Mem, IsMem}
use index_research.Util.Codec.Laws.{get_int_ext}
use index_research.Page.{ptr_pos, filled_size, get_kv_last_pos, get_ptr, del_ptr, set_changed}
use index_research.Page.Pointers.{get_ptr-del_ptr_lt, get_ptr-del_ptr_ge, filled_size-del_ptr}
use index_research.Page.Pointers.{get_kv_last_pos-del_ptr, del_ptr-IsMem, del_ptr_beyond}
use index_research.Page.View.{rec, rec_lem, rec_in, size_in, rec_in_ext, size_in_ext, IsPage}
use index_research.Page.Update.{remove_entry}
use native.Mathlib.Decide.{dec_lt}

-- `b'` holds the records of `b` without the one at `p`.
pub record IsRemoved (b : Mem) (p : ℕ) (b' : Mem) : Type 0 where
  pub count : filled_size b' ≡ filled_size b - 1
  pub before : (j : ℕ) → j < p → rec b' j ≡ rec b j
  pub after : (j : ℕ) → p ≤ j → j < filled_size b - 1 → rec b' j ≡ rec b (j + 1)

module _ {size : ℕ} {b : Mem} (page : IsPage size b) (p : ℕ) (inside : p < filled_size b) where
  left : Mem
  left = remove_entry b p

  left_frame : (q : ℕ) → 0 < q → left q ≡ del_ptr b p q
  unfolding left remove_entry set_changed
  left_frame q h = ground arith

  left_count : filled_size left ≡ filled_size b - 1
  left_count = count_ext ∙ filled_size-del_ptr b p inside
    where
      count_ext : filled_size left ≡ filled_size (del_ptr b p)
      count_ext =
          unfold filled_size in
          get_int_ext left (del_ptr b p) 1 1 (left_frame 1 (omega arith))
            (left_frame 2 (omega arith))

  left_last : get_kv_last_pos left ≡ get_kv_last_pos b
  left_last = last_ext ∙ get_kv_last_pos-del_ptr b p inside
    where
      last_ext : get_kv_last_pos left ≡ get_kv_last_pos (del_ptr b p)
      last_ext =
          unfold get_kv_last_pos in
          get_int_ext left (del_ptr b p) 3 3 (left_frame 3 (omega arith))
            (left_frame 4 (omega arith))

  left_ptr : (j : ℕ) → get_ptr left j ≡ get_ptr (del_ptr b p) j
  unfolding get_ptr
  left_ptr j =
      get_int_ext left (del_ptr b p) (ptr_pos j) (ptr_pos j) (left_frame _ (omega arith))
        (left_frame _ (omega arith))

  left_same : (q : ℕ) → get_kv_last_pos b ≤ q → left q ≡ b q
  left_same q h =
      left_frame q (omega (arith, page.room))
      ∙ del_ptr_beyond b p inside q (omega (arith, page.room))

  -- The record that stands at `j` afterwards.
  abbrev from : ℕ → ℕ
  from j = elim (dec_lt j p) [ yes h ↦ j | no h ↦ j + 1 ]

  from_lt : (j : ℕ) → j < p → from j ≡ j
  from_lt j h = ground arith

  from_ge : (j : ℕ) → p ≤ j → from j ≡ j + 1
  from_ge j h = ground arith

  from_inside : (j : ℕ) → j < filled_size b - 1 → from j < filled_size b
  from_inside j h = ground arith

  ptr_from : (j : ℕ) → j < filled_size b - 1 → get_ptr left j ≡ get_ptr b (from j)
  ptr_from j h = elim (dec_lt j p) [
    | yes l ↦ rw (from_lt j l) (left_ptr j ∙ get_ptr-del_ptr_lt b p inside j l)
    | no g ↦
        rw (from_ge j (omega arith)) (left_ptr j ∙ get_ptr-del_ptr_ge b p inside j (omega arith) h)
  ]

  rec_from : (j : ℕ) → j < filled_size b - 1 → rec left j ≡ rec b (from j)
  rec_from j h =
      rec_lem left j
      ∙ ap (rec_in left) (ptr_from j h)
      ∙ rec_in_ext b left (get_ptr b (from j))
          (λ q k l. left_same q (omega (arith, page.low (from j) (from_inside j h))))
      ∙ sym (rec_lem b (from j))

  size_from :
      (j : ℕ)
      → j < filled_size b - 1
      → size_in left (get_ptr b (from j)) ≡ size_in b (get_ptr b (from j))
  size_from j h =
      size_in_ext b left (get_ptr b (from j))
        (λ q k l. left_same q (omega (arith, page.low (from j) (from_inside j h))))

  -- `remove_entry` takes out the record at `p`: those below stay, those above move down by one.
  pub remove_entry-IsRemoved : IsRemoved b p (remove_entry b p)
  unfolding left
  remove_entry-IsRemoved = record {
    count = left_count;
    before = λ j h. rec_from j (omega arith) ∙ ap (rec b) (from_lt j h);
    after = λ j h k. rec_from j k ∙ ap (rec b) (from_ge j h);
  }

  left_bytes : IsMem left
  unfolding left remove_entry set_changed
  left_bytes i = ground (arith, del_ptr-IsMem b p inside page.bytes i)

  -- `remove_entry` keeps the block well formed.
  pub remove_entry-IsPage : IsPage size (remove_entry b p)
  unfolding left
  remove_entry-IsPage = record {
    bytes = left_bytes;
    small = page.small;
    room = omega (arith, left_count, left_last, page.room);
    top = omega (arith, left_last, page.top);
    low = λ j h.
        let k : j < filled_size b - 1 = omega (arith, left_count) in
        rw (ptr_from j k, left_last) (page.low (from j) (from_inside j k));
    high = λ j h.
        let k : j < filled_size b - 1 = omega (arith, left_count) in
        rw (ptr_from j k, size_from j k) (page.high (from j) (from_inside j k));
    apart = λ i j h k.
        let l : j < filled_size b - 1 = omega (arith, left_count) in
        let l' : i < filled_size b - 1 = omega arith in
        rw (ptr_from i l', ptr_from j l, size_from i l', size_from j l)
          (page.apart (from i) (from j) (ground arith) (from_inside j l));
    sorted = λ i j h k.
        let l : j < filled_size b - 1 = omega (arith, left_count) in
        rw (rec_from i (omega arith), rec_from j l)
          (page.sorted (from i) (from j) (ground arith) (from_inside j l));
  }
