-- ===== src/Page/Add/Block.antt =====
-- The block that `add_data` leaves, part by part.
use index_research.Prelude.{ℕ, ◌+◌, ◌-◌, ◌≤◌, ◌<◌, ◌≡◌, ◌∙◌, inl, List, arith}
use index_research.Prelude.{length, IsBytes, false, some}
use index_research.Prelude.Memory.{Mem, IsMem}
use index_research.Page.{ptr_pos, filled_size, get_kv_last_pos, get_ptr, ins_ptr}
use index_research.Page.Pointers.{get_ptr-ins_ptr_lt, get_ptr-ins_ptr_self, get_ptr-ins_ptr_gt}
use index_research.Page.Pointers.{filled_size-ins_ptr, get_kv_last_pos-ins_ptr, ins_ptr-IsMem}
use index_research.Page.Pointers.{ins_ptr_beyond, ins_ptr_below}
use index_research.Page.View.{rec_in, size_in, rec_in_ext, size_in_ext, IsPage}
use index_research.Page.Update.{is_full, add_data, write_record}
use index_research.Page.Add.Written.{
  need, written_frame, written_kv_last, written_get_ptr, written_filled_size, written-IsMem,
  written_rec, written_size,
}

-- What `add_data` needs: a well-formed block with room for the record, and a position in it.
pub record CanAdd (size : ℕ) (b : Mem) (at : ℕ) (key value : List ℕ) : Type 0 where
  pub page : IsPage size b
  pub inside : at ≤ filled_size b
  pub key_len : length key < 256
  pub value_len : length value < 256
  pub free : is_full b key value ≡ false

module _ {size : ℕ} {b : Mem} {at : ℕ} {key value : List ℕ} (add : CanAdd size b at key value) where
  open add use {page, inside, key_len, value_len, free}

  abbrev pub kv : ℕ
  kv = get_kv_last_pos b - (length key + length value + 2)

  pub enough : ptr_pos (filled_size b + 1) + (length key + length value + 2) < get_kv_last_pos b
  enough = unfold is_full in ground arith

  w : Mem
  w = write_record b kv key value

  pub added : Mem
  unfolding w
  added = ins_ptr w at kv

  pub add_data-eq : add_data b at key value ≡ some added
  unfolding add_data added
  add_data-eq = ground (arith, enough)

  w_count : filled_size w ≡ filled_size b
  unfolding w
  w_count = written_filled_size b kv key value (omega (arith, enough))

  w_inside : at ≤ filled_size w
  w_inside = omega (arith, w_count)

  -- Above the positions nothing but the record is new.
  added_high : (q : ℕ) → kv ≤ q → added q ≡ w q
  unfolding added
  added_high q h = ins_ptr_beyond w at kv w_inside q (omega (arith, w_count, enough))

  added_old : (q : ℕ) → get_kv_last_pos b ≤ q → added q ≡ b q
  added_old q h =
      added_high q (omega arith)
      ∙ (unfold w in written_frame b kv key value q (omega (arith, enough)) (omega (arith, enough)))

  -- The flags and the level stay.
  pub added_flags : added 0 ≡ b 0
  unfolding added
  added_flags =
      ins_ptr_below w at kv w_inside 0 (inl (omega arith)) (omega arith)
      ∙ (unfold w in
          written_frame b kv key value 0 (inl (omega arith)) (inl (omega (arith, enough))))

  pub added_count : filled_size added ≡ filled_size b + 1
  unfolding added
  added_count =
      filled_size-ins_ptr w at kv w_inside (omega (arith, w_count, page.room, page.top, page.small))
      ∙ omega (arith, w_count)

  pub added_last : get_kv_last_pos added ≡ kv
  unfolding added
  added_last =
      get_kv_last_pos-ins_ptr w at kv w_inside
      ∙ (unfold w in
          written_kv_last b kv key value (omega (arith, enough))
            (omega (arith, page.top, page.small)))

  pub old_rec : (i : ℕ) → i < filled_size b → rec_in added (get_ptr b i) ≡ rec_in b (get_ptr b i)
  old_rec i h =
      rec_in_ext b added (get_ptr b i) (λ q k l. added_old q (omega (arith, page.low i h)))

  pub old_size : (i : ℕ) → i < filled_size b → size_in added (get_ptr b i) ≡ size_in b (get_ptr b i)
  old_size i h =
      size_in_ext b added (get_ptr b i) (λ q k l. added_old q (omega (arith, page.low i h)))

  w_size : size_in w kv ≡ need b kv key value
  unfolding w
  w_size = written_size b kv key value key_len value_len

  pub new_size : size_in added kv ≡ length key + length value + 2
  new_size = size_in_ext w added kv (λ q k l. added_high q k) ∙ w_size

  pub new_rec : rec_in added kv ≡ record { key = key; value = value }
  new_rec =
      rec_in_ext w added kv (λ q k l. added_high q k)
      ∙ (unfold w in written_rec b kv key value key_len value_len)

  w-get_ptr : (j : ℕ) → j ≤ filled_size b → get_ptr w j ≡ get_ptr b j
  unfolding w
  w-get_ptr j h = written_get_ptr b kv key value (omega (arith, enough)) j (omega (arith, enough))

  pub ptr_before : (j : ℕ) → j < at → get_ptr added j ≡ get_ptr b j
  unfolding added
  ptr_before j h = get_ptr-ins_ptr_lt w at kv w_inside j h ∙ w-get_ptr j (omega arith)

  pub ptr_here : get_ptr added at ≡ kv
  unfolding added
  ptr_here = get_ptr-ins_ptr_self w at kv w_inside (omega (arith, page.top, page.small))

  pub ptr_after : (j : ℕ) → at < j → j ≤ filled_size b → get_ptr added j ≡ get_ptr b (j - 1)
  unfolding added
  ptr_after j h k =
      get_ptr-ins_ptr_gt w at kv w_inside j h (omega (arith, w_count))
      ∙ w-get_ptr (j - 1) (omega arith)

  pub added-IsMem : IsBytes key → IsBytes value → IsMem added
  unfolding added w
  added-IsMem hk hv =
      ins_ptr-IsMem w at kv w_inside
        (written-IsMem b kv key value (omega (arith, enough)) page.bytes hk hv)
