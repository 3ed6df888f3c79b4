-- ===== src/Page/Split/Rounds.antt =====
-- The loop of `split`: after each round the new block holds the copies so far, packed.
use index_research.Prelude.{
  ℕ, zero, suc, ◌+◌, ◌-◌, ◌/◌, ◌≤◌, ◌<◌, ◌≡◌, ap, ◌∙◌, ◌⊎◌, inl, inr, Bool-cases, true,
}
use index_research.Prelude.{Option, none, some, arith, ltb, ◌==◌, ◌||◌}
use index_research.Prelude.Memory.{Mem, IsMem, move}
use index_research.Util.Codec.Laws.{get_int_ext}
use index_research.Page.{filled_size, get_kv_last_pos, get_ptr, ins_ptr, ptr_pos}
use index_research.Page.Pointers.{get_ptr-ins_ptr_lt, get_ptr-ins_ptr_self, filled_size-ins_ptr}
use index_research.Page.Pointers.{ins_ptr-IsMem, ins_ptr_beyond}
use index_research.Page.View.{IsPage}
use index_research.Page.Separator.{split_key}
use index_research.Page.Split.{record_len, Break, Copying, break_after, copy_record, copy_loop}
use index_research.Page.Split.Starts.{
  size_at, start, FitsPacked, record_len-size_in, start-le, start_mono, start_apart, start_suc,
}
use native.Mathlib.Decide.{dec_lt}

module _ {size : ℕ} {b : Mem} (page : IsPage size b) (fits : FitsPacked size b) where
  abbrev pub at : ℕ → ℕ
  at j = start b (get_kv_last_pos b) j

  abbrev pub n : ℕ
  n = filled_size b

  -- The new block `m` holds copies of the first `i` records.
  pub record HasCopies (i : ℕ) (m : Mem) : Type 0 where
    pub bytes : IsMem m
    pub count : filled_size m ≡ i
    pub ptrs : (j : ℕ) → j < i → get_ptr m j ≡ at j
    pub body : (j q : ℕ) → j < i → q < size_at b j → m (at j + q) ≡ b (get_ptr b j + q)

  -- One record more.
  module _ {i : ℕ} {m : Mem} (h : HasCopies i m) (more : i < n) where
    len : ℕ
    len = record_len b (get_ptr b i)

    copied : Mem
    unfolding len
    copied = move m (at i) b (get_ptr b i) len

    len_lem : len ≡ size_at b i
    unfolding len
    len_lem = record_len-size_in b (get_ptr b i)

    at_low : ptr_pos n ≤ at i
    at_low = omega (arith, page.room, start-le b (get_kv_last_pos b) i)

    at_high : at i + size_at b i ≤ size
    at_high = omega (
      arith,
      start_mono b (get_kv_last_pos b) (suc i) n more,
      fits,
      start_suc b (get_kv_last_pos b) i,
    )

    copied_below : (q : ℕ) → q < at i → copied q ≡ m q
    unfolding copied
    copied_below q l = ground arith

    copied-at : (q : ℕ) → q < size_at b i → copied (at i + q) ≡ b (get_ptr b i + q)
    unfolding copied
    copied-at q l = ground (arith, len_lem, index)
      where
        index : get_ptr b i + (at i + q - at i) ≡ get_ptr b i + q
        index = omega arith

    copied_count : filled_size copied ≡ i
    copied_count = count_ext ∙ h.count
      where
        count_ext : filled_size copied ≡ filled_size m
        count_ext =
            unfold filled_size in
            get_int_ext copied m 1 1 (copied_below 1 (omega (arith, at_low)))
              (copied_below 2 (omega (arith, at_low)))

    inside : i ≤ filled_size copied
    inside = omega (arith, copied_count)

    grown : Mem
    grown = ins_ptr copied i (at i)

    grown_beyond : (q : ℕ) → ptr_pos n ≤ q → grown q ≡ copied q
    unfolding grown
    grown_beyond q l = ins_ptr_beyond copied i (at i) inside q (omega (arith, copied_count))

    copied-get_ptr : (j : ℕ) → j < i → get_ptr copied j ≡ get_ptr m j
    unfolding get_ptr
    copied-get_ptr j l =
        get_int_ext copied m (ptr_pos j) (ptr_pos j) (copied_below _ (omega (arith, at_low)))
          (copied_below _ (omega (arith, at_low)))

    grown_ptrs : (j : ℕ) → j < suc i → get_ptr grown j ≡ at j
    unfolding grown
    grown_ptrs j l = elim (dec_lt j i) [
      | yes k ↦ get_ptr-ins_ptr_lt copied i (at i) inside j k ∙ copied-get_ptr j k ∙ h.ptrs j k
      | no k ↦
          let e : j ≡ i = omega arith in
          rw e (get_ptr-ins_ptr_self copied i (at i) inside (omega (arith, at_high, page.small)))
    ]

    grown_body : (j q : ℕ) → j < suc i → q < size_at b j → grown (at j + q) ≡ b (get_ptr b j + q)
    grown_body j q l k =
        grown_beyond (at j + q) (omega (arith, page.room, start-le b (get_kv_last_pos b) j))
        ∙ elim (dec_lt j i) [
          | yes less ↦
              copied_below (at j + q) (omega (arith, start_apart b (get_kv_last_pos b) j i less))
              ∙ h.body j q less k
          | no less ↦ let e : j ≡ i = omega arith in rw e (copied-at q (rw e at k))
        ]

    copied-IsMem : IsMem copied
    unfolding copied
    copied-IsMem q = ground (arith, h.bytes q, page.bytes (get_ptr b i + (q - at i)))

    pub grown-HasCopies :
        HasCopies
          (suc i)
          (ins_ptr (move m (at i) b (get_ptr b i) (record_len b (get_ptr b i))) i (at i))
    unfolding grown copied len
    grown-HasCopies = record {
      bytes = ins_ptr-IsMem copied i (at i) inside copied-IsMem;
      count =
          filled_size-ins_ptr copied i (at i) inside
            (omega (arith, copied_count, at_high, page.small, at_low))
          ∙ omega (arith, copied_count);
      ptrs = grown_ptrs;
      body = grown_body;
    }

  -- The break is after the first record with which the copies exceed half of the bytes, and after the
  -- middle one at the latest.
  module _ (fuel half : ℕ) where
    pub record BreaksAt (k : Break) : Type 0 where
      pub some_first : 1 ≤ k.idx
      pub middle : k.idx ≤ n / 2 + 1
      pub place : k.kv_pos ≡ at k.idx
      pub key : k.first_key ≡ split_key b fuel (k.idx - 1)
      pub below : at (k.idx - 1) ≤ at 0 + half
      pub reached : (at 0 + half < at k.idx) ⊎ (k.idx ≡ n / 2 + 1)

    abbrev Broken : ℕ → Option Break → Type 0
    Broken i none = (i ≤ n / 2) × (at i ≤ at 0 + half)
    Broken i (some k) = (k.idx ≤ i) × BreaksAt k

    pub record IsCopying (i : ℕ) (s : Copying) : Type 0 where
      pub copies : HasCopies i s.block
      pub here : s.kv_last_pos ≡ at i
      pub total : s.tot_len + at 0 ≡ at i
      pub broken : Broken i s.brk

    at_zero : (i : ℕ) → at 0 ≤ at i
    at_zero i = start_mono b (get_kv_last_pos b) 0 i (omega arith)

    break_after-Broken :
        (i tot_len kv : ℕ) (brk : Option Break)
        → i < n
        → kv ≡ at (suc i)
        → tot_len + at 0 ≡ at (suc i)
        → Broken i brk
        → Broken (suc i) (break_after b fuel half i tot_len kv brk)
    unfolding break_after
    break_after-Broken i tot_len kv (some k) l e t h = (omega (arith, h.0), h.1)
    break_after-Broken i tot_len kv none l e t h =
        elim (Bool-cases (ltb half tot_len || i == filled_size b / 2)) [
          | inr go ↦ rw go (ground (arith, go, h.0), ground (arith, go, t))
          | inl stop ↦ rw stop (
            omega arith,
            record {
              some_first = omega arith;
              middle = omega (arith, h.0);
              place = e ∙ ap at (omega arith);
              key = ap (split_key b fuel) (omega arith);
              below = rw back h.1;
              reached = reach stop;
            },
          )
        ]
      where
        back : i + 1 - 1 ≡ i
        back = omega arith

        next : at (i + 1) ≡ at (suc i)
        next = ap at (omega arith)

        reach :
            (ltb half tot_len || i == filled_size b / 2) ≡ true
            → (at 0 + half < at (i + 1)) ⊎ (i + 1 ≡ n / 2 + 1)
        reach stop = elim (Bool-cases (ltb half tot_len)) [
          | inl over ↦ inl (let k : half < tot_len = ground arith in omega (arith, t, next))
          | inr under ↦ inr (let k : i ≡ n / 2 = ground (arith, stop) in omega arith)
        ]

    copy_record-IsCopying :
        (i : ℕ) (s : Copying)
        → i < n
        → IsCopying i s
        → IsCopying (suc i) (copy_record b fuel half i s)
    unfolding copy_record
    copy_record-IsCopying i s l h = record {
      copies = rw h.here (grown-HasCopies h.copies l);
      here = next;
      total = tot;
      broken =
          break_after-Broken i (s.tot_len + record_len b (get_ptr b i))
            (s.kv_last_pos + record_len b (get_ptr b i)) s.brk l next tot h.broken;
    }
      where
        next : s.kv_last_pos + record_len b (get_ptr b i) ≡ at (suc i)
        next =
            omega
              (arith, h.here, record_len-size_in b (get_ptr b i), start_suc b (get_kv_last_pos b) i)

        tot : s.tot_len + record_len b (get_ptr b i) + at 0 ≡ at (suc i)
        tot =
            omega (
              arith,
              h.total,
              record_len-size_in b (get_ptr b i),
              start_suc b (get_kv_last_pos b) i,
            )

    pub copy_loop-IsCopying :
        (left i : ℕ) (s : Copying)
        → i + left ≡ n
        → IsCopying i s
        → IsCopying n (copy_loop b fuel half left i s)
    unfolding copy_loop
    copy_loop-IsCopying zero i s e h = let e' : n ≡ i = omega arith in rw e' h
    copy_loop-IsCopying (suc left) i s e h =
        copy_loop-IsCopying left (i + 1) (copy_record b fuel half i s) (omega arith) (
          let e' : i + 1 ≡ suc i = omega arith in rw e' (copy_record-IsCopying i s (omega arith) h))
