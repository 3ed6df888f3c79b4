-- ===== src/Page/Replace.antt =====
-- `update_data` changes nothing but the value that the cursor stands at, and only where the new
-- value is as long as the old one.
use index_research.Prelude.{ℕ, ◌+◌, ◌≤◌, ◌<◌, ◌≡◌, ◌≢◌, sym, ap, ◌∙◌, ◌⊎◌, inl, inr, arith}
use index_research.Prelude.{List, length, get_or, true, tri, Bool-cases, ◌==◌, if◌then◌else◌}
use index_research.Prelude.Memory.{Mem, move_in, read_bytes_of, read_bytes_ext}
use index_research.Util.Codec.Laws.{get_int_ext}
use index_research.Page.{
  ptr_pos, filled_size, get_kv_last_pos, get_ptr, get_key, set_changed, is_leaf,
}
use index_research.Page.View.{
  rec, rec_lem, rec_in, key_in, value_in, value_pos, size_in, rec_in_ext, IsPage,
}
use index_research.Page.Update.{update_data}

-- Where the value of record `i` begins.
abbrev value_at : Mem → ℕ → ℕ
value_at b i = value_pos b (get_ptr b i)

module _ {size : ℕ} {b : Mem} (page : IsPage size b) (leaf : is_leaf b ≡ true) (i : ℕ)
    (inside : i < filled_size b) (value : List ℕ) where
  new : Mem
  new = update_data b (get_key b i) value

  -- What is stored, but for the flag byte.
  new_byte :
      (q : ℕ)
      → 0 < q
      → new q
        ≡ (if b (value_at b i) == length value then move_in b (value_at b i + 1) value q else b q)
  unfolding new update_data set_changed get_key
  new_byte q h = rw leaf (elim (Bool-cases (b (value_at b i) == length value)) [
    | inl e ↦ rw e (ground arith)
    | inr e ↦ rw e (ground arith)
  ])

  rec_same :
      (j : ℕ)
      → j < filled_size b
      → ((q : ℕ) → get_ptr b j ≤ q → q < get_ptr b j + size_in b (get_ptr b j) → new q ≡ b q)
      → get_ptr new j ≡ get_ptr b j
      → rec new j ≡ rec b j
  rec_same j h same e =
      rec_lem new j ∙ ap (rec_in new) e ∙ rec_in_ext b new (get_ptr b j) same ∙ sym (rec_lem b j)

  new_low : (q : ℕ) → 0 < q → q < get_kv_last_pos b → new q ≡ b q
  new_low q h k = ground (arith, new_byte q h, page.low i inside)

  new_ptr : (j : ℕ) → j < filled_size b → get_ptr new j ≡ get_ptr b j
  unfolding get_ptr
  new_ptr j h =
      get_int_ext new b (ptr_pos j) (ptr_pos j) (new_low _ (omega arith) (omega (arith, page.room)))
        (new_low _ (omega arith) (omega (arith, page.room)))

  -- A value of another length is not stored: every record is as it was.
  pub update_data_ignored :
      b (value_at b i) ≢ length value
      → (j : ℕ) → j < filled_size b
      → rec (update_data b (get_key b i) value) j ≡ rec b j
  unfolding new
  update_data_ignored ne j h =
      rec_same j h (λ q k l. ground (arith, new_byte q, page.low j h, page.room)) (new_ptr j h)

  module _ (fits : b (value_at b i) ≡ length value) where
    start : ℕ
    start = value_at b i + 1

    outside : (q : ℕ) → 0 < q → (q < start) ⊎ (start + length value ≤ q) → new q ≡ b q
    unfolding start
    outside q h k = ground (arith, new_byte q h)

    stored : (k : ℕ) → k < length value → new (start + k) ≡ get_or value k 0
    unfolding start
    stored k h = ground (arith, new_byte (value_at b i + 1 + k))

    positive : 0 < get_ptr b i
    positive = omega (arith, page.low i inside, page.room)

    key_kept : key_in new (get_ptr b i) ≡ key_in b (get_ptr b i)
    key_kept = rw len_kept (
        read_bytes_ext new b (get_ptr b i + 1) (get_ptr b i + 1) (b (get_ptr b i))
          (λ k h. outside _ (omega arith) (inl (unfold start in omega arith))))
      where
        len_kept : new (get_ptr b i) ≡ b (get_ptr b i)
        len_kept = outside _ positive (inl (unfold start in omega arith))

    value_new : value_in new (get_ptr b i) ≡ value
    value_new = rw (len_kept, val_len) (unfold start in read_bytes_of new start value stored)
      where
        len_kept : new (get_ptr b i) ≡ b (get_ptr b i)
        len_kept = outside _ positive (inl (unfold start in omega arith))

        val_len : new (value_at b i) ≡ length value
        val_len = outside (value_at b i) (omega arith) (inl (unfold start in omega arith)) ∙ fits

    new_here : rec new i ≡ record { key = (rec b i).key; value = value }
    new_here = rec_lem new i ∙ ap (rec_in new) (new_ptr i inside) ∙ parts
      where
        parts : rec_in new (get_ptr b i) ≡ record { key = (rec b i).key; value = value }
        parts = λ k. record {
          key = (key_kept ∙ sym (ap (λ r. r.key) (rec_lem b i))) k;
          value = value_new k;
        }

    new_other : (j : ℕ) → j < filled_size b → j ≢ i → rec new j ≡ rec b j
    new_other j h ne =
        rec_same j h
          (λ q k l. outside q (omega (arith, page.low j h, page.room)) (unfold start in away q k l))
          (new_ptr j h)
      where
        away :
            (q : ℕ)
            → get_ptr b j ≤ q
            → q < get_ptr b j + size_in b (get_ptr b j)
            → (q < value_at b i + 1) ⊎ (value_at b i + 1 + length value ≤ q)
        away q k l = elim (tri j i) [
          | inl m ↦ omega (arith, page.apart j i m inside)
          | inr (inl m) ↦ omega (arith, page.apart i j m h)
          | inr (inr m) ↦ absurd (ne m)
        ]

    -- In a well-formed leaf, update_data with the cursor at a record and a value of the stored length
    -- replaces the value of that record and changes no other record.
    pub update_data_stored :
        (rec (update_data b (get_key b i) value) i ≡ record { key = (rec b i).key; value = value })
        × ((j : ℕ)
            → j < filled_size b
            → j ≢ i
            → rec (update_data b (get_key b i) value) j ≡ rec b j)
    unfolding new
    update_data_stored = (new_here, new_other)
