-- ===== src/Page/Add.antt =====
-- `add_data` puts its record at the wanted position, moves the later ones up and keeps the rest.
pub mod Written
pub mod Block
use index_research.Prelude.{
  ℕ, ◌+◌, ◌-◌, ◌*◌, ◌≤◌, ◌<◌, ◌≡◌, refl, sym, ap, ◌∙◌, ◌⊎◌, inl, inr, List, arith,
}
use index_research.Prelude.{length, IsBytes, Bool, true, false, some, tri}
use index_research.Prelude.Memory.{Mem, IsMem}
use index_research.Util.Compare.Order.{KeyLt}
use index_research.Page.{ptr_pos, filled_size, get_kv_last_pos, get_ptr}
use index_research.Page.View.{Rec, rec, rec_lem, rec_in, size_in, IsPage, Apart}
use index_research.Page.Update.{is_full, add_data}
use Block.{
  CanAdd, added, kv, enough, add_data-eq, added_count, added_last, old_rec, old_size, new_size,
}
use Block.{new_rec, ptr_before, ptr_here, ptr_after, added-IsMem}

-- `b'` holds the records of `b` with `r` put in at position `at`.
pub record IsInserted (b : Mem) (at : ℕ) (r : Rec) (b' : Mem) : Type 0 where
  pub count : filled_size b' ≡ filled_size b + 1
  pub before : (j : ℕ) → j < at → rec b' j ≡ rec b j
  pub here : rec b' at ≡ r
  pub after : (j : ℕ) → at < j → j ≤ filled_size b → rec b' j ≡ rec b (j - 1)

module _ {size : ℕ} {b : Mem} {at : ℕ} {key value : List ℕ} (add : CanAdd size b at key value) where
  open add use {page}

  abbrev pub after_add : Mem
  after_add = added add

  old_at :
      (i j : ℕ) → i < filled_size b → get_ptr after_add j ≡ get_ptr b i → rec after_add j ≡ rec b i
  old_at i j h e =
      rec_lem after_add j ∙ ap (rec_in after_add) e ∙ old_rec add i h ∙ sym (rec_lem b i)

  pub added-IsInserted : IsInserted b at (record { key = key; value = value }) after_add
  added-IsInserted = record {
    count = added_count add;
    before = λ j h. old_at j j (omega arith) (ptr_before add j h);
    here = rec_lem after_add at ∙ ap (rec_in after_add) (ptr_here add) ∙ new_rec add;
    after = λ j h k. old_at (j - 1) j (omega arith) (ptr_after add j h k);
  }

  -- `add_data` on a block that is not full stays inside of the block and inserts the record.
  pub add_data-IsInserted :
      (b' : Mem) × (add_data b at key value ≡ some b')
      × IsInserted b at (record { key = key; value = value }) b'
  add_data-IsInserted = (after_add, add_data-eq add, added-IsInserted)

  pub added-eq : add_data b at key value ≡ some after_add
  added-eq = add_data-eq add

  -- Where record `j` of the new block comes from.
  origin :
      (j : ℕ)
      → j < filled_size b + 1
      → ((j < at) × (get_ptr after_add j ≡ get_ptr b j))
        ⊎ ((j ≡ at) × (get_ptr after_add j ≡ kv add))
        ⊎ ((at < j) × (get_ptr after_add j ≡ get_ptr b (j - 1)))
  origin j h = elim (tri j at) [
    | inl l ↦ inl (l, ptr_before add j l)
    | inr (inl g) ↦ inr (inr (g, ptr_after add j g (omega arith)))
    | inr (inr e) ↦ inr (inl (e, rw e (ptr_here add)))
  ]

  added_low : (j : ℕ) → j < filled_size after_add → get_kv_last_pos after_add ≤ get_ptr after_add j
  added_low j h = ground (
    arith,
    origin j (omega (arith, added_count add)),
    added_last add,
    added_count add,
    page.low j,
    page.low (j - 1),
  )

  added_high :
      (j : ℕ)
      → j < filled_size after_add
      → get_ptr after_add j + size_in after_add (get_ptr after_add j) ≤ size
  added_high j h = elim (origin j (omega (arith, added_count add))) [
    | inl (l, e) ↦ rw e (omega (arith, old_size add j, page.high j))
    | inr (inl (l, e)) ↦ rw e (omega (arith, new_size add, enough add, page.top))
    | inr (inr (l, e)) ↦
        rw e (omega (arith, old_size add (j - 1), page.high (j - 1), added_count add))
  ]

  old-Apart :
      (i j i' j' : ℕ)
      → i < j
      → j < filled_size b
      → get_ptr after_add i' ≡ get_ptr b i
      → get_ptr after_add j' ≡ get_ptr b j
      → Apart after_add i' j'
  old-Apart i j i' j' h k e f =
      rw (e, f, old_size add i (omega arith), old_size add j k) (page.apart i j h k)

  -- The new record ends where the old ones begin.
  new_end : kv add + size_in after_add (kv add) ≡ get_kv_last_pos b
  new_end = omega (arith, new_size add, enough add)

  added-Apart : (i j : ℕ) → i < j → j < filled_size b + 1 → Apart after_add i j
  added-Apart i j h k = elim (origin i (omega arith)) [
    | inl (l, e) ↦ elim (origin j k) [
      | inl (m, f) ↦ old-Apart i j i j h (omega arith) e f
      | inr (inl (m, f)) ↦ inr (rw (e, f) (omega (arith, new_end, page.low i (omega arith))))
      | inr (inr (m, f)) ↦ old-Apart i (j - 1) i j (omega arith) (omega arith) e f
    ]
    | inr (inl (l, e)) ↦ elim (origin j k) [
      | inl (m, f) ↦ absurd (omega arith)
      | inr (inl (m, f)) ↦ absurd (omega arith)
      | inr (inr (m, f)) ↦ inl (rw (e, f) (omega (arith, new_end, page.low (j - 1) (omega arith))))
    ]
    | inr (inr (l, e)) ↦ elim (origin j k) [
      | inl (m, f) ↦ absurd (omega arith)
      | inr (inl (m, f)) ↦ absurd (omega arith)
      | inr (inr (m, f)) ↦ old-Apart (i - 1) (j - 1) i j (omega arith) (omega arith) e f
    ]
  ]

  -- With the keys below `at` smaller and the others larger the keys stay in order.
  module _ (smaller : (j : ℕ) → j < at → KeyLt (rec b j).key key)
      (larger : (j : ℕ) → at ≤ j → j < filled_size b → KeyLt key (rec b j).key) where
    added_sorted :
        (i j : ℕ)
        → i < j
        → j < filled_size b + 1
        → KeyLt (rec after_add i).key (rec after_add j).key
    added_sorted i j h k = elim (tri i at) [
      | inl il ↦ rw (added-IsInserted.before i il) (elim (tri j at) [
        | inl jl ↦ rw (added-IsInserted.before j jl) (page.sorted i j h (omega arith))
        | inr (inl jg) ↦
            rw (added-IsInserted.after j jg (omega arith))
              (page.sorted i (j - 1) (omega arith) (omega arith))
        | inr (inr e) ↦ rw (e, added-IsInserted.here) (smaller i il)
      ])
      | inr (inl ig) ↦
          rw
            (
              added-IsInserted.after i ig (omega arith),
              added-IsInserted.after j (omega arith) (omega arith),
            )
            (page.sorted (i - 1) (j - 1) (omega arith) (omega arith))
      | inr (inr e) ↦
          rw (e, added-IsInserted.here, added-IsInserted.after j (omega arith) (omega arith))
            (larger (j - 1) (omega arith) (omega arith))
    ]

    -- `add_data` keeps the block well formed.
    pub added-IsPage : IsBytes key → IsBytes value → IsPage size after_add
    added-IsPage hk hv = record {
      bytes = added-IsMem add hk hv;
      small = page.small;
      room = omega (arith, enough add, added_count add, added_last add);
      top = omega (arith, added_last add, page.top);
      low = added_low;
      high = added_high;
      apart = λ i j h k. added-Apart i j h (omega (arith, added_count add));
      sorted = λ i j h k. added_sorted i j h (omega (arith, added_count add));
    }
