-- ===== src/Page/Add/Written.antt =====
-- The block after the bytes of a new record are stored, before its position is.
use index_research.Prelude.{ℕ, ◌+◌, ◌-◌, ◌≤◌, ◌<◌, ◌≡◌, ◌∙◌, ◌⊎◌, List, arith}
use index_research.Prelude.{length, get_or, IsBytes, IsBytes-get_or, ◌==◌, if◌then◌else◌}
use index_research.Prelude.Memory.{Mem, IsMem, read_bytes_of}
use index_research.Util.Codec.{set_int}
use index_research.Util.Codec.Laws.{get_int-set_int, get_int_ext, set_int_frame, set_int-IsMem}
use index_research.Page.{filled_size, get_kv_last_pos, get_ptr, ptr_pos}
use index_research.Page.View.{rec_in, key_in, value_in, size_in}
use index_research.Page.Update.{write_record}

module _ (b : Mem) (kv : ℕ) (key value : List ℕ) where
  abbrev pub need : ℕ
  need = length key + length value + 2

  -- Nothing outside of the record and of bytes 3 and 4 is written.
  pub written_frame :
      (q : ℕ) → (q < 3) ⊎ (4 < q) → (q < kv) ⊎ (kv + need ≤ q) → write_record b kv key value q ≡ b q
  unfolding write_record
  written_frame q h k = ground (arith, set_int_frame b 3 (if kv == 0 then 65535 else kv) q)

  module _ (above : 4 < kv) where
    pub written_kv_last : kv < 65536 → get_kv_last_pos (write_record b kv key value) ≡ kv
    unfolding write_record get_kv_last_pos
    written_kv_last h =
        get_int_ext (write_record b kv key value) (set_int b 3 kv') 3 3 (ground arith)
          (ground arith)
        ∙ get_int-set_int b 3 kv'
        ∙ ground arith
      where
        kv' : ℕ
        kv' = if kv == 0 then 65535 else kv

    pub written_filled_size : filled_size (write_record b kv key value) ≡ filled_size b
    unfolding filled_size
    written_filled_size =
        get_int_ext _ b 1 1 (written_frame 1 (omega arith) (omega arith))
          (written_frame 2 (omega arith) (omega arith))

    pub written_get_ptr :
        (j : ℕ) → ptr_pos j + 1 < kv → get_ptr (write_record b kv key value) j ≡ get_ptr b j
    unfolding get_ptr
    written_get_ptr j h =
        get_int_ext _ b (ptr_pos j) (ptr_pos j)
          (written_frame (ptr_pos j) (omega arith) (omega arith))
          (written_frame (ptr_pos j + 1) (omega arith) (omega arith))

    pub written-IsMem : IsMem b → IsBytes key → IsBytes value → IsMem (write_record b kv key value)
    unfolding write_record
    written-IsMem h hk hv i = ground (
      arith,
      set_int-IsMem b 3 (if kv == 0 then 65535 else kv) h i,
      IsBytes-get_or key (i - (kv + 1)) hk,
      IsBytes-get_or value (i - (kv + 1 + length key + 1)) hv,
    )

  module _ (key_len : length key < 256) (value_len : length value < 256) where
    written_key_len : write_record b kv key value kv ≡ length key
    unfolding write_record
    written_key_len = ground arith

    written_value_len : write_record b kv key value (kv + 1 + length key) ≡ length value
    unfolding write_record
    written_value_len = ground arith

    written_key :
        (i : ℕ) → i < length key → write_record b kv key value (kv + 1 + i) ≡ get_or key i 0
    unfolding write_record
    written_key i h = ground arith

    written_value :
        (i : ℕ)
        → i < length value
        → write_record b kv key value (kv + 1 + length key + 1 + i) ≡ get_or value i 0
    unfolding write_record
    written_value i h = ground arith

    pub written_rec : rec_in (write_record b kv key value) kv ≡ record { key = key; value = value }
    written_rec = λ i. record { key = key_eq i; value = value_eq i }
      where
        w : Mem
        w = write_record b kv key value

        key_eq : key_in w kv ≡ key
        key_eq = rw written_key_len (read_bytes_of w (kv + 1) key written_key)

        value_eq : value_in w kv ≡ value
        value_eq =
            rw (written_key_len, written_value_len)
              (read_bytes_of w (kv + 1 + length key + 1) value written_value)

    pub written_size : size_in (write_record b kv key value) kv ≡ need
    written_size = rw (written_key_len, written_value_len)
