-- ===== src/Util/Varint/RoundTrip.antt =====
-- A variable-length integer that was written is read back, with its length.
use Prim.Native.Nat.{bit_and}
use index_research.Prelude.{
  ℕ, zero, suc, ◌+◌, ◌-◌, ◌*◌, ◌/◌, ◌%◌, ◌^◌, ◌≤◌, ◌<◌, ◌≡◌, refl, sym, ap, ◌∙◌, arith,
}
use index_research.Prelude.{lt→ltb, le→not_ltb}
use index_research.Prelude.Bits.{bit_and_low, byte_table}
use index_research.Prelude.Memory.{Mem, store}
use native.Mathlib.Decide.{dec_lt}
use index_research.Util.Varint.{write_groups, write_vint16, write_vint32, read_groups, read_vint16}
use index_research.Util.Varint.{read_vint32, get_vlen_of_uint16, get_vlen_of_uint32}

flag : (x : ℕ) → x < 256 → bit_and x 0x80 ≡ x / 128 * 128
flag = byte_table (λ x. bit_and x 0x80) (λ x. x / 128 * 128) refl

-- One round of the reader, at a byte with the flag and at one without.
read_more :
    (w : ℕ) (m : Mem) (p len ret : ℕ)
    → 128 ≤ m p
    → m p < 256
    → read_groups w m p (suc len) ret
      ≡ read_groups w m (p + 1) len ((ret * 2 ^ 7 % 2 ^ w + m p % 128) % 2 ^ w)
unfolding read_groups
read_more w m p len ret h k = ground (arith, flag (m p) k, bit_and_low 7 (m p))

read_last :
    (w : ℕ) (m : Mem) (p len ret : ℕ)
    → m p < 128
    → read_groups w m p (suc len) ret
      ≡ record { ret = (ret * 2 ^ 7 % 2 ^ w + m p % 128) % 2 ^ w; left = len }
unfolding read_groups
read_last w m p len ret h = ground (arith, flag (m p) (omega arith), bit_and_low 7 (m p))

-- The writer leaves what lies before it alone.
write_groups_frame : (i : ℕ) (m : Mem) (p v q : ℕ) → q < p → write_groups m p i v q ≡ m q
unfolding write_groups
write_groups_frame zero m p v q h = ground arith
write_groups_frame (suc i) m p v q h =
    write_groups_frame i (store m p (0x80 + bit_and (v / 2 ^ (7 * suc i)) 0x7f)) (p + 1) v q
      (omega arith)
    ∙ ground arith

write_groups_first :
    (i : ℕ) (m : Mem) (p v : ℕ) → write_groups m p (suc i) v p ≡ 128 + v / 2 ^ (7 * suc i) % 128
unfolding write_groups
write_groups_first i m p v =
    write_groups_frame i (store m p (0x80 + bit_and (v / 2 ^ (7 * suc i)) 0x7f)) (p + 1) v p
      (omega arith)
    ∙ ground (arith, bit_and_low 7 (v / 2 ^ (7 * suc i)))

write_groups_last : (m : Mem) (p v : ℕ) → write_groups m p 0 v p ≡ v % 128
unfolding write_groups
write_groups_last m p v = ground (arith, bit_and_low 7 v)

group_mod : (x : ℕ) → x % 128 % 128 ≡ x % 128
group_mod x = omega arith

flag_mod : (x : ℕ) → (128 + x % 128) % 128 ≡ x % 128
flag_mod x = omega arith

-- Reading what the writer left, round by round.
read_write_last :
    (w : ℕ) (m : Mem) (p v len ret : ℕ)
    → read_groups w (write_groups m p 0 v) p (suc len) ret
      ≡ record { ret = (ret * 2 ^ 7 % 2 ^ w + v % 128) % 2 ^ w; left = len }
read_write_last w m p v len ret =
    read_last w (write_groups m p 0 v) p len ret (omega (arith, write_groups_last m p v))
    ∙ rw (write_groups_last m p v, group_mod v)

read_write_more :
    (w i : ℕ) (m : Mem) (p v len ret : ℕ)
    → read_groups w (write_groups m p (suc i) v) p (suc len) ret
      ≡ read_groups w
          (write_groups m p (suc i) v)
          (p + 1)
          len
          ((ret * 2 ^ 7 % 2 ^ w + v / 2 ^ (7 * suc i) % 128) % 2 ^ w)
read_write_more w i m p v len ret =
    read_more w (write_groups m p (suc i) v) p len ret (omega (arith, write_groups_first i m p v))
      (omega (arith, write_groups_first i m p v))
    ∙ rw (write_groups_first i m p v, flag_mod (v / 2 ^ (7 * suc i)))

-- What the reader makes of the groups from number `i` down.
abbrev assemble : ℕ → ℕ → ℕ → ℕ → ℕ
assemble w v zero ret = (ret * 2 ^ 7 % 2 ^ w + v % 128) % 2 ^ w
assemble w v (suc i) ret =
    assemble w v i ((ret * 2 ^ 7 % 2 ^ w + v / 2 ^ (7 * suc i) % 128) % 2 ^ w)

abbrev plus : ℕ → ℕ → ℕ
plus zero k = k
plus (suc i) k = suc (plus i k)

read_groups-write_groups :
    (w i k : ℕ) (m : Mem) (p v ret : ℕ)
    → read_groups w (write_groups m p i v) p (suc (plus i k)) ret
      ≡ record { ret = assemble w v i ret; left = k }
unfolding write_groups
read_groups-write_groups w zero k m p v ret = read_write_last w m p v k ret
read_groups-write_groups w (suc i) k m p v ret =
    read_write_more w i m p v (suc (plus i k)) ret
    ∙ read_groups-write_groups w i k (store m p (0x80 + bit_and (v / 2 ^ (7 * suc i)) 0x7f)) (p + 1)
        v ((ret * 2 ^ 7 % 2 ^ w + v / 2 ^ (7 * suc i) % 128) % 2 ^ w)

-- The reader on the memory that `write_groups` leaves for a value of `i + 1` groups.
module _ (m : Mem) (p v : ℕ) where
  read16 :
      (i k : ℕ)
      → suc (plus i k) ≡ 3
      → assemble 16 v i 0 ≡ v
      → read_vint16 (write_groups m p i v) p ≡ record { value = v; vlen = 3 - k }
  unfolding read_vint16
  read16 i k e f = rw scan
    where
      scan : read_groups 16 (write_groups m p i v) p 3 0 ≡ record { ret = v; left = k }
      scan =
          ap (λ n. read_groups 16 (write_groups m p i v) p n 0) (sym e)
          ∙ read_groups-write_groups 16 i k m p v 0
          ∙ rw f

  read32 :
      (i k : ℕ)
      → suc (plus i k) ≡ 5
      → assemble 32 v i 0 ≡ v
      → read_vint32 (write_groups m p i v) p ≡ record { value = v; vlen = 5 - k }
  unfolding read_vint32
  read32 i k e f = rw scan
    where
      scan : read_groups 32 (write_groups m p i v) p 5 0 ≡ record { ret = v; left = k }
      scan =
          ap (λ n. read_groups 32 (write_groups m p i v) p n 0) (sym e)
          ∙ read_groups-write_groups 32 i k m p v 0
          ∙ rw f

  -- A uint16_t written as a variable-length integer is read back, with its length in bytes.
  pub read_vint16-write_vint16 :
      v < 2 ^ 16
      → let out = write_vint16 m p v in read_vint16 out.mem p ≡ record { value = v; vlen = out.len }
  unfolding write_vint16 get_vlen_of_uint16
  read_vint16-write_vint16 h = elim (dec_lt 16383 v) [
    | yes a ↦ rw (lt→ltb 16383 v a) (read16 2 0 refl (omega arith))
    | no a ↦ rw (le→not_ltb 16383 v (omega arith)) (elim (dec_lt 127 v) [
      | yes b ↦ rw (lt→ltb 127 v b) (read16 1 1 refl (omega arith))
      | no b ↦ rw (le→not_ltb 127 v (omega arith)) (read16 0 2 refl (omega arith))
    ])
  ]

  -- A uint32_t written as a variable-length integer is read back, with its length in bytes.
  pub read_vint32-write_vint32 :
      v < 2 ^ 32
      → let out = write_vint32 m p v in read_vint32 out.mem p ≡ record { value = v; vlen = out.len }
  unfolding write_vint32 get_vlen_of_uint32
  read_vint32-write_vint32 h = elim (dec_lt (2 ^ 28 - 1) v) [
    | yes a ↦ rw (lt→ltb (2 ^ 28 - 1) v a) (read32 4 0 refl (omega arith))
    | no a ↦ rw (le→not_ltb (2 ^ 28 - 1) v (omega arith)) (elim (dec_lt (2 ^ 21 - 1) v) [
      | yes b ↦ rw (lt→ltb (2 ^ 21 - 1) v b) (read32 3 1 refl (omega arith))
      | no b ↦ rw (le→not_ltb (2 ^ 21 - 1) v (omega arith)) (elim (dec_lt (2 ^ 14 - 1) v) [
        | yes c ↦ rw (lt→ltb (2 ^ 14 - 1) v c) (read32 2 2 refl (omega arith))
        | no c ↦ rw (le→not_ltb (2 ^ 14 - 1) v (omega arith)) (elim (dec_lt (2 ^ 7 - 1) v) [
          | yes d ↦ rw (lt→ltb (2 ^ 7 - 1) v d) (read32 1 3 refl (omega arith))
          | no d ↦ rw (le→not_ltb (2 ^ 7 - 1) v (omega arith)) (read32 0 4 refl (omega arith))
        ])
      ])
    ])
  ]
