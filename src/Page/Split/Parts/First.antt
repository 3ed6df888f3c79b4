-- ===== src/Page/Split/Parts/First.antt =====
-- The old block keeps the records before the break, packed at its end.
use index_research.Prelude.{ℕ, ◌+◌, ◌-◌, ◌%◌, ◌≤◌, ◌<◌, ◌≡◌, sym, ap, ◌∙◌, ◌⊎◌, inl, arith}
use index_research.Prelude.{◌==◌, if◌then◌else◌}
use index_research.Prelude.Memory.{Mem, IsMem, move}
use index_research.Util.Codec.{set_int}
use index_research.Util.Codec.Laws.{
  get_int-lt, get_int_ext, get_int-set_int, set_int_frame, set_int-IsMem,
}
use index_research.Page.{
  filled_size, get_kv_last_pos, get_ptr, ptr_pos, set_kv_last_pos, set_filled_size,
}
use index_research.Page.View.{IsPage, rec, rec_lem, rec_in, size_in}
use index_research.Page.Split.{Break, keep_first, rebase_loop}
use index_research.Page.Split.Starts.{
  size_at, FitsPacked, start-le, start_mono, start_apart, moved-rec_in, moved-size_in,
}
use index_research.Page.Split.Parts.Rebase.{get_ptr_ext, rebase-IsMem, get_ptr-rebase}
use index_research.Page.Split.Rounds.{HasCopies, at}

module _ {size : ℕ} {b : Mem} (page : IsPage size b) (fits : FitsPacked size b) {m : Mem}
    (h : HasCopies page fits (filled_size b) m) (k : Break) (positive : 1 ≤ k.idx)
    (inside : k.idx ≤ filled_size b) (place : k.kv_pos ≡ at page fits k.idx) where
  abbrev pos_of : ℕ → ℕ
  pos_of j = at page fits j

  abbrev diff : ℕ
  diff = size - k.kv_pos

  abbrev kept : ℕ
  kept = k.kv_pos - get_kv_last_pos b

  base : get_kv_last_pos b ≤ k.kv_pos
  base = omega (arith, place, start-le b (get_kv_last_pos b) k.idx)

  top_lem : k.kv_pos ≤ size
  top_lem =
      omega (arith, place, start_mono b (get_kv_last_pos b) k.idx (filled_size b) inside, fits)

  rebased : Mem
  rebased = rebase_loop m diff (k.idx + 1) 0 b

  copied : Mem
  copied = move rebased (size - kept) m (get_kv_last_pos b) kept

  abbrev pub first : Mem
  first = keep_first size m b k

  first_frame : (q : ℕ) → (q < 1) ⊎ (4 < q) → first q ≡ copied q
  unfolding keep_first set_kv_last_pos set_filled_size copied rebased
  first_frame q l = set_int_frame _ 1 k.idx q (omega arith) ∙ set_int_frame _ 3 _ q (omega arith)

  first_slot : (q : ℕ) → 4 < q → q < ptr_pos (filled_size b) → first q ≡ rebased q
  first_slot q l u =
      first_frame q (omega arith) ∙ (unfold copied in ground (arith, page.room, base, top_lem))

  first_copied :
      (j q : ℕ) → j < k.idx → q < size_at b j → first (pos_of j + diff + q) ≡ b (get_ptr b j + q)
  first_copied j q l u =
      first_frame _ (omega (arith, page.room, start-le b (get_kv_last_pos b) j))
      ∙ source
      ∙ h.body j q (omega arith) u
    where
      inner : pos_of j + q < k.kv_pos
      inner = omega (arith, place, start_apart b (get_kv_last_pos b) j k.idx l)

      low : get_kv_last_pos b ≤ pos_of j
      low = start-le b (get_kv_last_pos b) j

      index : get_kv_last_pos b + (pos_of j + diff + q - (size - kept)) ≡ pos_of j + q
      index = omega (arith, inner, low, base, top_lem)

      source : copied (pos_of j + diff + q) ≡ m (pos_of j + q)
      source = unfold copied in ground (arith, inner, index, low, base, top_lem)

  pub first_count : filled_size first ≡ k.idx
  unfolding keep_first set_filled_size filled_size
  first_count = get_int-set_int _ 1 k.idx ∙ omega (arith, get_int-lt b 1)

  first_last : get_kv_last_pos first ≡ size - kept
  unfolding keep_first set_filled_size set_kv_last_pos get_kv_last_pos copied rebased
  first_last =
      get_int_ext _ (set_int copied 3 kv') 3 3 (set_int_frame _ 1 k.idx 3 (omega arith))
        (set_int_frame _ 1 k.idx 4 (omega arith))
      ∙ get_int-set_int copied 3 kv'
      ∙ ground (arith, top_lem, page.small, base, page.room)
    where
      kv' : ℕ
      kv' = if size - kept == 0 then 65535 else size - kept

  rebased_ptr : (j : ℕ) → j < k.idx → get_ptr rebased j ≡ (get_ptr m j + diff) % 65536
  unfolding rebased
  rebased_ptr j l = get_ptr-rebase m diff (k.idx + 1) 0 b j (omega arith) (omega arith)

  first_ptr : (j : ℕ) → j < k.idx → get_ptr first j ≡ pos_of j + diff
  first_ptr j l =
      get_ptr_ext first rebased j j (first_slot _ (omega arith) (omega arith))
        (first_slot _ (omega arith) (omega arith))
      ∙ rebased_ptr j l
      ∙ omega (
        arith,
        h.ptrs j (omega arith),
        start_apart b (get_kv_last_pos b) j k.idx l,
        place,
        top_lem,
        page.small,
      )

  first_size : (j : ℕ) → j < k.idx → size_at first j ≡ size_at b j
  first_size j l =
      ap (size_in first) (first_ptr j l)
      ∙ moved-size_in b first (get_ptr b j) (pos_of j + diff) (λ q u. first_copied j q l u)

  -- Its records are those of the block up to the break.
  pub rec-first : (j : ℕ) → j < k.idx → rec first j ≡ rec b j
  rec-first j l =
      rec_lem first j
      ∙ ap (rec_in first) (first_ptr j l)
      ∙ moved-rec_in b first (get_ptr b j) (pos_of j + diff) (λ q u. first_copied j q l u)
      ∙ sym (rec_lem b j)

  rebased-IsMem : IsMem rebased
  unfolding rebased
  rebased-IsMem = rebase-IsMem m diff (k.idx + 1) 0 b page.bytes

  first-IsMem : IsMem first
  unfolding keep_first set_kv_last_pos set_filled_size rebased
  first-IsMem = set_int-IsMem _ 1 k.idx (
      set_int-IsMem _ 3 _
        (λ q. ground (arith, rebased-IsMem q, h.bytes (get_kv_last_pos b + (q - (size - kept))))))

  end_lem : (j : ℕ) → j < k.idx → pos_of j + diff + size_at b j ≤ size
  end_lem j l = omega (arith, start_apart b (get_kv_last_pos b) j k.idx l, place, top_lem)

  -- It is well formed.
  pub first-IsPage : IsPage size first
  first-IsPage = record {
    bytes = first-IsMem;
    small = page.small;
    room = omega (arith, first_count, first_last, base, top_lem, page.room);
    top = omega (arith, first_last);
    low = λ i l.
        let c : i < k.idx = omega (arith, first_count) in
        omega (arith, first_last, first_ptr i c, base, top_lem, start-le b (get_kv_last_pos b) i);
    high = λ i l.
        let c : i < k.idx = omega (arith, first_count) in
        omega (arith, first_ptr i c, first_size i c, end_lem i c);
    apart = λ i j l u.
        let c : j < k.idx = omega (arith, first_count) in
        let d : i < k.idx = omega arith in
        inl (
          omega (
            arith,
            first_ptr i d,
            first_ptr j c,
            first_size i d,
            start_apart b (get_kv_last_pos b) i j l,
          ));
    sorted = λ i j l u.
        let c : j < k.idx = omega (arith, first_count) in
        rw (rec-first i (omega arith), rec-first j c) (page.sorted i j l (omega arith));
  }
