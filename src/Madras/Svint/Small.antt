-- ===== src/Madras/Svint/Small.antt =====
-- `svint15`, the length of `svint61` and `encode_int64_sortable`.
use Prim.Native.Nat.{bit_and, bit_or}
use index_research.Prelude.{
  ℕ, ◌+◌, ◌*◌, ◌/◌, ◌%◌, ◌^◌, ◌≤◌, ◌<◌, ◌≡◌, ◌∙◌, ap, ap₂, sym, refl, arith,
}
use index_research.Prelude.{List, [], ◌∷◌, ◌++◌, ◌==◌, ==_iff, lt→ltb, le→not_ltb}
use index_research.Prelude.Bits.{bit_or-shift, bit_and_low, byte_table, all_below_sound}
use index_research.Prelude.Int.{pos, negsuc}
use index_research.Prelude.Memory.{Mem, store, read_bytes}
use index_research.Madras.Svint.{
  copy_svint60, read_svint60, read_svint60_len, read_svint61_len, high_bit, read_be_or,
  copy_svint61, read_svint61, read_low_bytes, get_svint61_len,
}
use index_research.Madras.Svint.{
  get_svint15_len, read_svint15_len, copy_svint15, append_svint15, read_svint15,
}
use index_research.Madras.Svint.{encode_int64_sortable, decode_int64_sortable}
use index_research.Madras.Svint.RoundTrip.{
  read_svint60-copy_svint60, read_svint60-copy_svint60_neg, read_svint60-copy_svint60_low,
  read_svint61-copy_svint61, read_svint61_parts, read_svint61_three, sign_bit,
  read_be_or-write_bytes_be,
}
use native.Mathlib.Decide.{dec_lt}

or_top_bit : (y : ℕ) → y < 256 → bit_or (y % 128) 0x80 ≡ 128 + y % 128
or_top_bit = byte_table (λ y. bit_or (y % 128) 0x80) (λ y. 128 + y % 128) refl

-- The two forms of `svint15`.
module _ (m : Mem) (p x : ℕ) (v : List ℕ) where
  abbrev RoundTrip15 : ℕ → Type 0
  RoundTrip15 n =
      let m' = copy_svint15 x m p n in
      (read_svint15 m' p ≡ x)
      × (read_svint15_len m' p ≡ n)
      × (append_svint15 v x ≡ v ++ read_bytes m' p n)

  one_byte : x < 128 → RoundTrip15 1
  unfolding read_svint15_len copy_svint15 append_svint15 read_svint15
  one_byte h =
      let head : copy_svint15 x m p 1 p ≡ x = ground (arith, bit_and_low 7 x) in
      (
        ground (arith, head, sign_bit x (omega arith), bit_and_low 7 x),
        ground (arith, head),
        rw (lt→ltb x 128 h) (ap (λ b. v ++ b ∷ []) (omega (arith, head, bit_and_low 7 x))),
      )

  two_bytes : 128 ≤ x → x < 2 ^ 15 → RoundTrip15 2
  unfolding read_svint15_len copy_svint15 append_svint15 read_svint15
  two_bytes h k =
      let flag : bit_or (bit_and (x / 2 ^ 8) 0x7f) 0x80 ≡ 128 + x / 256 =
        ap (λ b. bit_or b 0x80) (bit_and_low 7 (x / 2 ^ 8))
        ∙ or_top_bit (x / 256) (omega arith)
        ∙ omega arith in
      let head : copy_svint15 x m p 2 p ≡ 128 + x / 256 = ground (arith, flag) in
      let low : copy_svint15 x m p 2 (p + 1) ≡ x % 256 = ground (arith, bit_and_low 8 x) in
      (
        ground (
          arith,
          head,
          low,
          sign_bit (128 + x / 256) (omega arith),
          bit_and_low 7 (128 + x / 256),
          bit_or-shift 8 (x / 256) (x % 256) (omega arith),
        ),
        ground (arith, head),
        rw (le→not_ltb x 128 h)
            (ap₂ (λ a b. v ++ a ∷ b ∷ []) (flag ∙ sym head) (bit_and_low 8 x ∙ sym low)),
      )

-- An integer below 2 ^ 15 is read back with its length by `svint15`, and `append_svint15` pushes the
-- bytes that `copy_svint15` stores.
pub read_svint15-copy_svint15 :
    (m : Mem) (p x : ℕ) (v : List ℕ)
    → x < 2 ^ 15
    → let n = get_svint15_len x in
      let m' = copy_svint15 x m p n in
      (read_svint15 m' p ≡ x)
      × (read_svint15_len m' p ≡ n)
      × (append_svint15 v x ≡ v ++ read_bytes m' p n)
unfolding get_svint15_len
read_svint15-copy_svint15 m p x v h = elim (dec_lt x 128) [
  | yes l ↦ rw (lt→ltb x 128 l) (one_byte m p x v l)
  | no l ↦ rw (le→not_ltb x 128 (omega arith)) (two_bytes m p x v (omega arith) h)
]

-- `get_svint61_len` gives one byte to the numbers from 32 to 255, which has bits for 0 to 31 only:
-- what is read back is the number modulo 32.
pub read_svint61_short :
    (m : Mem) (p x : ℕ)
    → 32 ≤ x
    → x < 256
    → (get_svint61_len x ≡ 1) × (read_svint61 (copy_svint61 x m p (get_svint61_len x)) p ≡ x % 32)
unfolding get_svint61_len copy_svint61 read_svint61 read_low_bytes
read_svint61_short m p x h k =
    rw one (refl, rw at_p (rw no_more (bit_and_low 5 (x % 32) ∙ omega arith)))
  where
    low_bits : bit_or (bit_and (x / 1) 0x1f) 0 % 256 ≡ x % 32
    low_bits = byte_table (λ y. bit_or (bit_and (y / 1) 0x1f) 0 % 256) (λ y. y % 32) refl x k

    at_p : store m p (bit_or (bit_and (x / 1) 0x1f) 0) p ≡ x % 32
    at_p = ground (arith, low_bits)

    no_more : x % 32 / 32 ≡ 0
    no_more = omega arith

    one : get_svint61_len x ≡ 1
    one = ground (
      arith,
      (==_iff (high_bit 63 x / 8) 0).0 (all_below_sound 256 (λ y. high_bit 63 y / 8 == 0) x refl k),
    )

-- A value encoded for sorting is decoded.
pub decode-encode :
    (m : Mem) (p x : ℕ) → x < 2 ^ 64 → decode_int64_sortable (encode_int64_sortable x m p) p ≡ x
unfolding decode_int64_sortable encode_int64_sortable
decode-encode m p x h =
    let y = (x + 2 ^ 63) % 2 ^ 64 in
    let e : y / 2 ^ 64 ≡ 0 = omega arith in
    ap (λ r. (r + 2 ^ 63) % 2 ^ 64)
      (ap (read_be_or (encode_int64_sortable x m p) p 8) (sym e)
        ∙ read_be_or-write_bytes_be 8 m p y (omega arith))
    ∙ omega arith

-- What a length of up to seven bytes has bits for is read back with that length by svint60, a number
-- that is not negative and one that is; by svint61 the length is read back, and in one or two bytes
-- the number.
pub read_svint-copy_svint :
    (m : Mem) (p k x y z : ℕ)
    → k < 7
    → x < 16 * 2 ^ (8 * k)
    → y + 1 < 16 * 2 ^ (8 * k)
    → z < 32 * 2 ^ (8 * k)
    → (read_svint60 (copy_svint60 (pos x) m p (k + 1)) p ≡ pos x)
      × (read_svint60_len (copy_svint60 (pos x) m p (k + 1)) p ≡ k + 1)
      × (read_svint60 (copy_svint60 (negsuc y) m p (k + 1)) p ≡ negsuc y)
      × (read_svint60_len (copy_svint60 (negsuc y) m p (k + 1)) p ≡ k + 1)
      × (read_svint61_len (copy_svint61 z m p (k + 1)) p ≡ k + 1)
      × (k < 2 → read_svint61 (copy_svint61 z m p (k + 1)) p ≡ z)
read_svint-copy_svint m p k x y z short hx hy hz =
    let few : k < 8 = omega arith in
    let (a, b) = read_svint60-copy_svint60 m p k few x hx in
    let (c, d) = read_svint60-copy_svint60_neg m p k few y hy short in
    let e = (read_svint61_parts m p z k few hz).0 in
    (a, b, c, d, e, λ two. (read_svint61-copy_svint61 m p z k few hz two).0)

-- In eight bytes svint60 reads a negative number below 2^56 - 2^60, down to 1 - 2^60, as 0; in the one
-- byte that get_svint61_len gives to a number from 32 to 255, svint61 reads it modulo 32; of a number
-- below 2^21 in three bytes svint61 reads the two low bytes exchanged.
pub read_svint_short :
    (m : Mem) (p x y z : ℕ)
    → 2 ^ 60 < x + 1 + 2 ^ 56
    → x + 1 < 2 ^ 60
    → 32 ≤ y
    → y < 256
    → z < 2 ^ 21
    → (read_svint60 (copy_svint60 (negsuc x) m p 8) p ≡ pos 0)
      × (read_svint61 (copy_svint61 y m p (get_svint61_len y)) p ≡ y % 32)
      × (read_svint61 (copy_svint61 z m p 3) p ≡ z / 65536 * 65536 + z % 256 * 256 + z / 256 % 256)
read_svint_short m p x y z low fits h k three = (
  (read_svint60-copy_svint60_low m p 7 (omega arith) x (omega arith) refl low).0,
  (read_svint61_short m p y h k).1,
  read_svint61_three m p z three,
)
