-- ===== src/Page/Flags.antt =====
-- Bytes 0 and 5 of a block, the flags and the split count, play no part in what it holds.
use Prim.Native.Nat.{bit_and, bit_or}
use index_research.Prelude.{true, not, ◌==◌, refl, ◌%◌, ℕ, ◌≤◌, ◌<◌, ◌≡◌, ◌≢◌, sym, ap, ◌∙◌, arith}
use index_research.Prelude.Bits.{byte_table}
use index_research.Prelude.Memory.{Mem, IsMem}
use index_research.Util.Codec.Laws.{get_int_ext}
use index_research.Page.{is_leaf, set_changed, filled_size, get_kv_last_pos, get_ptr, ptr_pos}
use index_research.Page.View.{IsPage, Apart, rec, rec_lem, rec_in, size_in, rec_in_ext, size_in_ext}

module _ (b b' : Mem) (same : (q : ℕ) → 0 < q → q ≢ 5 → b' q ≡ b q) where
  pub same_count : filled_size b' ≡ filled_size b
  unfolding filled_size
  same_count =
      get_int_ext b' b 1 1 (same 1 (omega arith) (omega arith)) (same 2 (omega arith) (omega arith))

  pub same_last : get_kv_last_pos b' ≡ get_kv_last_pos b
  unfolding get_kv_last_pos
  same_last =
      get_int_ext b' b 3 3 (same 3 (omega arith) (omega arith)) (same 4 (omega arith) (omega arith))

  pub same_ptr : (j : ℕ) → get_ptr b' j ≡ get_ptr b j
  unfolding get_ptr
  same_ptr j =
      get_int_ext b' b (ptr_pos j) (ptr_pos j) (same _ (omega arith) (omega arith))
        (same _ (omega arith) (omega arith))

  module _ {size : ℕ} (page : IsPage size b) where
    same_byte : (j : ℕ) → j < filled_size b → (q : ℕ) → get_ptr b j ≤ q → b' q ≡ b q
    same_byte j h q l =
        same q (omega (arith, page.room, page.low j h)) (omega (arith, page.room, page.low j h))

    pub same_size :
        (j : ℕ) → j < filled_size b → size_in b' (get_ptr b' j) ≡ size_in b (get_ptr b j)
    same_size j h =
        ap (size_in b') (same_ptr j) ∙ size_in_ext b b' (get_ptr b j) (λ q l u. same_byte j h q l)

    pub same_rec : (j : ℕ) → j < filled_size b → rec b' j ≡ rec b j
    same_rec j h =
        rec_lem b' j
        ∙ ap (rec_in b') (same_ptr j)
        ∙ rec_in_ext b b' (get_ptr b j) (λ q l u. same_byte j h q l)
        ∙ sym (rec_lem b j)

    pub same-IsPage : IsMem b' → IsPage size b'
    same-IsPage bytes = record {
      bytes = bytes;
      small = page.small;
      room = omega (arith, same_count, same_last, page.room);
      top = omega (arith, same_last, page.top);
      low = λ i h. omega (arith, same_last, same_ptr i, page.low i (omega (arith, same_count)));
      high = λ i h.
          let c : i < filled_size b = omega (arith, same_count) in
          omega (arith, same_ptr i, same_size i c, page.high i c);
      apart = λ i j h k.
          let c : j < filled_size b = omega (arith, same_count) in
          let apart : Apart b i j = page.apart i j h c in
          omega (arith, apart, same_ptr i, same_ptr j, same_size i (omega arith), same_size j c);
      sorted = λ i j h k.
          let c : j < filled_size b = omega (arith, same_count) in
          rw (same_rec i (omega arith), same_rec j c) (page.sorted i j h c);
    }

or_40_top : (x : ℕ) → x < 256 → bit_and (bit_or x 0x40 % 256) 0x80 ≡ bit_and x 0x80
or_40_top = byte_table (λ x. bit_and (bit_or x 0x40 % 256) 0x80) (λ x. bit_and x 0x80) refl

-- Marking a block as changed keeps all that it holds, and whether it is a leaf.
pub changed_same : (b : Mem) (q : ℕ) → 0 < q → q ≢ 5 → set_changed b true q ≡ b q
unfolding set_changed
changed_same b q h k = ground arith

pub changed-IsMem : (b : Mem) → IsMem b → IsMem (set_changed b true)
unfolding set_changed
changed-IsMem b bytes q = ground (arith, bytes q)

pub changed-is_leaf : (b : Mem) → IsMem b → is_leaf (set_changed b true) ≡ is_leaf b
unfolding is_leaf set_changed
changed-is_leaf b bytes = ap (λ x. not (x == 0)) (or_40_top (b 0) (bytes 0))
