-- ===== src/Page/Split/Parts/Second.antt =====
-- The new block keeps the records from the break on.
use index_research.Prelude.{ℕ, ◌+◌, ◌-◌, ◌*◌, ◌≤◌, ◌<◌, ◌≡◌, sym, ap, ◌∙◌, ◌⊎◌, inl, arith}
use index_research.Prelude.{◌==◌, if◌then◌else◌}
use index_research.Prelude.Memory.{Mem, IsMem, move}
use index_research.Util.Codec.{set_int}
use index_research.Util.Codec.Laws.{
  get_int-lt, get_int_ext, get_int-set_int, set_int_frame, set_int-IsMem,
}
use index_research.Page.{
  filled_size, get_kv_last_pos, get_ptr, ptr_pos, blk_hdr_size, set_kv_last_pos, set_filled_size,
}
use index_research.Page.View.{IsPage, rec, rec_lem, rec_in, size_in}
use index_research.Page.Split.{Break, keep_second}
use index_research.Page.Split.Starts.{
  size_at, FitsPacked, start-le, start_mono, start_apart, moved-rec_in, moved-size_in,
}
use index_research.Page.Split.Parts.Rebase.{get_ptr_ext}
use index_research.Page.Split.Rounds.{HasCopies, at}

module _ {size : ℕ} {b : Mem} (page : IsPage size b) (fits : FitsPacked size b) {m : Mem}
    (h : HasCopies page fits (filled_size b) m) (k : Break) (inside : k.idx ≤ filled_size b)
    (place : k.kv_pos ≡ at page fits k.idx) where
  abbrev count : ℕ
  count = filled_size b - k.idx

  abbrev pos_of : ℕ → ℕ
  pos_of j = at page fits j

  moved : Mem
  moved = move m blk_hdr_size m (blk_hdr_size + k.idx * 2) (count * 2)

  abbrev pub second : Mem
  second = keep_second (filled_size b) m k

  base : get_kv_last_pos b ≤ k.kv_pos
  base = omega (arith, place, start-le b (get_kv_last_pos b) k.idx)

  end_lem : (j : ℕ) → j < filled_size b → pos_of j + size_at b j ≤ size
  end_lem j l = omega (arith, start_apart b (get_kv_last_pos b) j (filled_size b) l, fits)

  top_lem : k.kv_pos ≤ size
  top_lem =
      omega (arith, place, start_mono b (get_kv_last_pos b) k.idx (filled_size b) inside, fits)

  second_frame : (q : ℕ) → (q < 1) ⊎ (4 < q) → second q ≡ moved q
  unfolding keep_second set_kv_last_pos set_filled_size moved
  second_frame q l =
      set_int_frame _ 1 count q (omega arith) ∙ set_int_frame moved 3 _ q (omega arith)

  second_high : (q : ℕ) → ptr_pos (filled_size b) ≤ q → second q ≡ m q
  second_high q l = second_frame q (omega arith) ∙ (unfold moved in ground arith)

  pub second_count : filled_size second ≡ count
  unfolding keep_second set_filled_size filled_size
  second_count = get_int-set_int _ 1 count ∙ omega (arith, get_int-lt b 1)

  second_last : get_kv_last_pos second ≡ k.kv_pos
  unfolding keep_second set_filled_size set_kv_last_pos get_kv_last_pos moved
  second_last =
      get_int_ext _ (set_int moved 3 kv') 3 3 (set_int_frame _ 1 count 3 (omega arith))
        (set_int_frame _ 1 count 4 (omega arith))
      ∙ get_int-set_int moved 3 kv'
      ∙ ground (arith, top_lem, page.small, base, page.room)
    where
      kv' : ℕ
      kv' = if k.kv_pos == 0 then 65535 else k.kv_pos

  slot : (j q : ℕ) → q < 2 → j < count → second (ptr_pos j + q) ≡ m (ptr_pos (k.idx + j) + q)
  slot j q l c =
      second_frame (ptr_pos j + q) (omega arith) ∙ (unfold moved in ground (arith, index))
    where
      index : blk_hdr_size + k.idx * 2 + (ptr_pos j + q - blk_hdr_size) ≡ ptr_pos (k.idx + j) + q
      index = omega arith

  second_ptr : (j : ℕ) → j < count → get_ptr second j ≡ pos_of (k.idx + j)
  second_ptr j c =
      get_ptr_ext second m j (k.idx + j)
        (ap second (omega arith) ∙ slot j 0 (omega arith) c ∙ ap m (omega arith))
        (slot j 1 (omega arith) c)
      ∙ h.ptrs (k.idx + j) (omega arith)

  second_body :
      (j q : ℕ)
      → j < count
      → q < size_at b (k.idx + j)
      → second (pos_of (k.idx + j) + q) ≡ b (get_ptr b (k.idx + j) + q)
  second_body j q c l =
      second_high _ (omega (arith, page.room, start-le b (get_kv_last_pos b) (k.idx + j)))
      ∙ h.body (k.idx + j) q (omega arith) l

  second_size : (j : ℕ) → j < count → size_at second j ≡ size_at b (k.idx + j)
  second_size j c =
      ap (size_in second) (second_ptr j c)
      ∙ moved-size_in b second (get_ptr b (k.idx + j)) (pos_of (k.idx + j))
          (λ q l. second_body j q c l)

  -- Its records are those of the block from the break on.
  pub rec-second : (j : ℕ) → j < count → rec second j ≡ rec b (k.idx + j)
  rec-second j c =
      rec_lem second j
      ∙ ap (rec_in second) (second_ptr j c)
      ∙ moved-rec_in b second (get_ptr b (k.idx + j)) (pos_of (k.idx + j))
          (λ q l. second_body j q c l)
      ∙ sym (rec_lem b (k.idx + j))

  second-IsMem : IsMem second
  unfolding keep_second set_kv_last_pos set_filled_size
  second-IsMem = set_int-IsMem _ 1 count (
      set_int-IsMem _ 3 _
        (λ q. ground (arith, h.bytes q, h.bytes (blk_hdr_size + k.idx * 2 + (q - blk_hdr_size)))))

  -- It is well formed.
  pub second-IsPage : IsPage size second
  second-IsPage = record {
    bytes = second-IsMem;
    small = page.small;
    room = omega (arith, second_count, second_last, base, page.room);
    top = omega (arith, second_last, top_lem);
    low = λ i l.
        let c : i < count = omega (arith, second_count) in
        omega (
          arith,
          second_last,
          second_ptr i c,
          place,
          start_mono b (get_kv_last_pos b) k.idx (k.idx + i) (omega arith),
        );
    high = λ i l.
        let c : i < count = omega (arith, second_count) in
        omega (arith, second_ptr i c, second_size i c, end_lem (k.idx + i) (omega arith));
    apart = λ i j l u.
        let c : j < count = omega (arith, second_count) in
        let d : i < count = omega arith in
        inl (
          omega (
            arith,
            second_ptr i d,
            second_ptr j c,
            second_size i d,
            start_apart b (get_kv_last_pos b) (k.idx + i) (k.idx + j) (omega arith),
          ));
    sorted = λ i j l u.
        let c : j < count = omega (arith, second_count) in
        rw (rec-second i (omega arith), rec-second j c)
          (page.sorted (k.idx + i) (k.idx + j) (omega arith) (omega arith));
  }
