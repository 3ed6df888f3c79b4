-- ===== src/Madras/Svint/RoundTrip.antt =====
-- What the writers of Svint.antt store and what the readers make of it.
use Prim.Native.Nat.{bit_and, bit_or}
use index_research.Prelude.{
  ℕ, zero, suc, ◌+◌, ◌-◌, ◌*◌, ◌/◌, ◌%◌, ◌^◌, ◌≤◌, ◌<◌, ◌≡◌, ◌∙◌, ap, ap₂, sym, refl, arith, ◌⊎◌,
  inl, inr,
}
use index_research.Prelude.{if◌then◌else◌, ltb, leb, true, leb→le}
use index_research.Prelude.Bits.{
  bit_or-shift, shift-bit_or, bit_and_low, byte_table, all_below_sound,
}
use index_research.Prelude.Int.{pos, negsuc}
use index_research.Prelude.Memory.{Mem, store}
use index_research.Util.Codec.{write_bytes_be}
use index_research.Madras.Svint.{
  read_be_or, read_low_bytes, copy_low_bytes, copy_svint61, read_svint61, read_svint61_len,
  copy_svint60_bytes, copy_svint60, read_svint60, read_svint60_len, get_svint60_ceil, minus,
}
use native.Mathlib.Nat.{
  div-le_self, div-eq_of_lt, div-lt_iff_lt-mul, one-le-pow, div-div-eq-div-mul,
}

write_bytes_be_below : (n : ℕ) (m : Mem) (p x q : ℕ) → q < p → write_bytes_be m p n x q ≡ m q
unfolding write_bytes_be
write_bytes_be_below zero m p x q h = refl
write_bytes_be_below (suc n) m p x q h =
    write_bytes_be_below n (store m p (bit_and (x / 2 ^ (8 * n)) 0xff)) (p + 1) x q (omega arith)
    ∙ ground arith

write_bytes_be_first :
    (n : ℕ) (m : Mem) (p x : ℕ) → write_bytes_be m p (suc n) x p ≡ x / 2 ^ (8 * n) % 256
unfolding write_bytes_be
write_bytes_be_first n m p x =
    write_bytes_be_below n (store m p (bit_and (x / 2 ^ (8 * n)) 0xff)) (p + 1) x p (omega arith)
    ∙ ground (arith, bit_and_low 8 (x / 2 ^ (8 * n)))

pow_byte : (n : ℕ) → 2 ^ (8 * n) * 256 ≡ 2 ^ (8 * suc n)
pow_byte n =
    let e : 8 * suc n ≡ suc (suc (suc (suc (suc (suc (suc (suc (8 * n)))))))) = omega arith in
    sym (ap (λ k. 2 ^ k) e ∙ omega arith)

shift_byte : (x n : ℕ) → x / 2 ^ (8 * suc n) ≡ x / 2 ^ (8 * n) / 256
shift_byte x n = sym (div-div-eq-div-mul x (2 ^ (8 * n)) 256 ∙ ap (λ k. x / k) (pow_byte n))

-- The reader starts with the part of `x` above the bytes that are stored.
pub read_be_or-write_bytes_be :
    (n : ℕ) (m : Mem) (p x : ℕ)
    → x < 2 ^ 64
    → read_be_or (write_bytes_be m p n x) p n (x / 2 ^ (8 * n)) ≡ x
unfolding read_be_or write_bytes_be
read_be_or-write_bytes_be zero m p x h = omega arith
read_be_or-write_bytes_be (suc n) m p x h =
    ap (read_be_or (write_bytes_be m p (suc n) x) (p + 1) n) next
    ∙ read_be_or-write_bytes_be n (store m p (bit_and (x / 2 ^ (8 * n)) 0xff)) (p + 1) x h
  where
    y : ℕ
    y = x / 2 ^ (8 * n)

    next :
        bit_or (x / 2 ^ (8 * suc n) * 2 ^ 8 % 2 ^ 64) (write_bytes_be m p (suc n) x p)
        ≡ x / 2 ^ (8 * n)
    next =
        ap₂ (λ a b. bit_or (a * 2 ^ 8 % 2 ^ 64) b) (shift_byte x n) (write_bytes_be_first n m p x)
        ∙ ap (λ a. bit_or a (x / 2 ^ (8 * n) % 256)) (omega (arith, div-le_self x (2 ^ (8 * n))))
        ∙ bit_or-shift 8 (x / 2 ^ (8 * n) / 256) (x / 2 ^ (8 * n) % 256) (omega arith)
        ∙ omega arith

-- What `copy_low_bytes` leaves after a header at `p` that the reader starts from.
module _ (m : Mem) (p x n header : ℕ) (few : n < 8) where
  abbrev out : Mem
  out = copy_low_bytes (store m p header) (p + 1) n x

  pub head_kept : out p ≡ header % 256
  unfolding copy_low_bytes
  head_kept = ground (arith, few, write_bytes_be_below n (store m p header) (p + 1) x p)

  pub rest_read : x < 2 ^ 64 → read_be_or out (p + 1) n (x / 2 ^ (8 * n)) ≡ x
  unfolding copy_low_bytes
  rest_read h = ground (arith, few, read_be_or-write_bytes_be n (store m p header) (p + 1) x h)

pow_small : (n : ℕ) → n < 8 → 2 ^ (8 * n) ≤ 2 ^ 56
pow_small n h =
    leb→le (2 ^ (8 * n)) (2 ^ 56)
      (all_below_sound 8 (λ n. leb (2 ^ (8 * n)) (2 ^ 56)) n (λ i. true) h)

top_bits : (n x k : ℕ) → x < k * 2 ^ (8 * n) → x / 2 ^ (8 * n) < k
top_bits n x k h = (div-lt_iff_lt-mul (one-le-pow (8 * n) 2 (omega arith))).1 h

module _ (m : Mem) (p x n : ℕ) (few : n < 8) (fits : x < 32 * 2 ^ (8 * n)) where
  abbrev top : ℕ
  top = x / 2 ^ (8 * n)

  top_small : top < 32
  top_small = top_bits n x 32 fits

  header61 : bit_or (bit_and (x / 2 ^ (n * 8)) 0x1f) (n * 2 ^ 5) ≡ n * 32 + top
  header61 =
      let e : n * 8 ≡ 8 * n = omega arith in
      ap (λ k. bit_or (bit_and (x / 2 ^ k) 0x1f) (n * 2 ^ 5)) e
      ∙ ap (λ a. bit_or a (n * 2 ^ 5)) (bit_and_low 5 top ∙ omega (arith, top_small))
      ∙ shift-bit_or 5 n top top_small

  stored61 : copy_svint61 x m p (n + 1) ≡ copy_low_bytes (store m p (n * 32 + top)) (p + 1) n x
  unfolding copy_svint61
  stored61 =
      let e : n + 1 - 1 ≡ n = omega arith in
      ap
        (λ k.
          copy_low_bytes (store m p (bit_or (bit_and (x / 2 ^ (k * 8)) 0x1f) (k * 2 ^ 5))) (p + 1) k
            x)
        e
      ∙ ap (λ h. copy_low_bytes (store m p h) (p + 1) n x) header61

  head61 : copy_svint61 x m p (n + 1) p ≡ n * 32 + top
  head61 =
      ap (λ (c : Mem). c p) stored61
      ∙ head_kept m p x n (n * 32 + top) few
      ∙ omega (arith, top_small)

  low61 : bit_and (copy_svint61 x m p (n + 1) p) 0x1f ≡ top
  low61 = ap (λ h. bit_and h 0x1f) head61 ∙ bit_and_low 5 (n * 32 + top) ∙ omega (arith, top_small)

  len61 : copy_svint61 x m p (n + 1) p / 2 ^ 5 ≡ n
  len61 = omega (arith, head61, top_small)

  -- The length is read back, and what `svint61` reads are the stored bytes, the last one first.
  pub read_svint61_parts :
      (read_svint61_len (copy_svint61 x m p (n + 1)) p ≡ n + 1)
      × (read_svint61 (copy_svint61 x m p (n + 1)) p
          ≡ read_low_bytes (copy_low_bytes (store m p (n * 32 + top)) (p + 1) n x) (p + 1) n top)
  unfolding read_svint61 read_svint61_len
  read_svint61_parts = (
    omega (arith, len61),
    ap₂ (read_low_bytes (copy_svint61 x m p (n + 1)) (p + 1)) len61 low61
        ∙ ap (λ (c : Mem). read_low_bytes c (p + 1) n top) stored61,
  )

  one_low_byte : (c : Mem) (q r : ℕ) → n < 2 → read_low_bytes c q n r ≡ read_be_or c q n r
  unfolding read_low_bytes read_be_or
  one_low_byte c q r short = elim (small short) [
    | inl e ↦ rw e refl
    | inr e ↦ rw e (ap (λ k. bit_or (r * 2 ^ 8 % 2 ^ 64) (c k)) (omega arith))
  ]
    where
      small : n < 2 → (n ≡ 0) ⊎ (n ≡ 1)
      small h = omega arith

  -- An integer of at most two bytes that the length has bits for is read back, with its length, by
  -- `svint61`.
  pub read_svint61-copy_svint61 :
      n < 2
      → let m' = copy_svint61 x m p (n + 1) in
        (read_svint61 m' p ≡ x) × (read_svint61_len m' p ≡ n + 1)
  read_svint61-copy_svint61 short = (
    read_svint61_parts.1
        ∙ one_low_byte _ (p + 1) top short
        ∙ rest_read m p x n (n * 32 + top) few (omega (arith, fits, pow_small n few)),
    read_svint61_parts.0,
  )

-- Of three bytes, `svint61` exchanges the lower two.
pub read_svint61_three :
    (m : Mem) (p x : ℕ)
    → x < 2 ^ 21
    → read_svint61 (copy_svint61 x m p 3) p ≡ x / 65536 * 65536 + x % 256 * 256 + x / 256 % 256
unfolding read_low_bytes copy_low_bytes write_bytes_be
read_svint61_three m p x fits =
    (read_svint61_parts m p x 2 (omega arith) (omega arith)).1
    ∙ ground (
      arith,
      bit_and_low 8 (x / 256),
      bit_and_low 8 x,
      bit_or-shift 8 (x / 65536) (x % 256) (omega arith),
      bit_or-shift 8 (x / 65536 * 256 + x % 256) (x / 256 % 256) (omega arith),
    )

pub sign_bit : (h : ℕ) → h < 256 → bit_and h 0x80 ≡ h / 128 * 128
sign_bit = byte_table (λ h. bit_and h 0x80) (λ h. h / 128 * 128) refl

-- What the `svint60` reader makes of a header that is not 0.
module _ (m : Mem) (p sign top : ℕ) (head : m p ≡ sign * 16 + top) (small : top < 16)
    (nibble : sign < 16) (some_bit : 0 < sign) where
  len_of : read_svint60_len m p ≡ (if ltb sign 8 then 8 - sign else sign - 7)
  unfolding read_svint60_len
  len_of = ground (arith, head, sign_bit (m p) (omega (arith, head)), bit_and_low 3 (m p / 2 ^ 4))

  value_of :
      (k lng : ℕ)
      → read_svint60_len m p ≡ k + 1
      → read_be_or m (p + 1) k (bit_and (m p) 0x0f) ≡ lng
      → read_svint60 m p ≡ (if ltb sign 8 then minus lng (get_svint60_ceil (k + 1)) else pos lng)
  unfolding read_svint60
  value_of k lng e f =
      let e' : read_svint60_len m p - 1 ≡ k = omega (arith, e) in
      rw (e', f, e) (ground (arith, head, sign_bit (m p) (omega (arith, head))))

-- The value and the length that `svint60` reads are those that were written: of a number that is not
-- negative and that the length has bits for.
module _ (m : Mem) (p k : ℕ) (few : k < 8) where
  -- The header of the bytes of `lng`, whose sign part is a multiple of 16.
  module _ (lng sign : ℕ) (fits : lng < 16 * 2 ^ (8 * k)) (nibble : sign < 16) where
    abbrev top60 : ℕ
    top60 = lng / 2 ^ (8 * k)

    top60_small : top60 < 16
    top60_small = top_bits k lng 16 fits

    bytes60 :
        copy_svint60_bytes m p (k + 1) lng (sign * 2 ^ 4)
        ≡ copy_low_bytes (store m p (sign * 16 + top60)) (p + 1) k lng
    unfolding copy_svint60_bytes
    bytes60 =
        let e : k + 1 - 1 ≡ k = omega arith in
        let e' : k * 8 ≡ 8 * k = omega arith in
        ap
          (λ n.
            copy_low_bytes (store m p (bit_or (bit_and (lng / 2 ^ (n * 8)) 0x0f) (sign * 2 ^ 4)))
              (p + 1) n lng)
          e
        ∙ ap (λ h. copy_low_bytes (store m p h) (p + 1) k lng)
            (ap (λ n. bit_or (bit_and (lng / 2 ^ n) 0x0f) (sign * 2 ^ 4)) e'
              ∙ ap (λ a. bit_or a (sign * 2 ^ 4)) (bit_and_low 4 top60 ∙ omega (arith, top60_small))
              ∙ shift-bit_or 4 sign top60 top60_small)

    head60 : copy_svint60_bytes m p (k + 1) lng (sign * 2 ^ 4) p ≡ sign * 16 + top60
    head60 =
        ap (λ (c : Mem). c p) bytes60
        ∙ head_kept m p lng k (sign * 16 + top60) few
        ∙ omega (arith, top60_small)

    rest60 :
        read_be_or
          (copy_svint60_bytes m p (k + 1) lng (sign * 2 ^ 4))
          (p + 1)
          k
          (bit_and (copy_svint60_bytes m p (k + 1) lng (sign * 2 ^ 4) p) 0x0f)
        ≡ lng
    rest60 =
        ap₂ (λ (c : Mem) h. read_be_or c (p + 1) k h) bytes60
          (ap (λ h. bit_and h 0x0f) head60
            ∙ bit_and_low 4 (sign * 16 + top60)
            ∙ omega (arith, top60_small))
        ∙ rest_read m p lng k (sign * 16 + top60) few (omega (arith, fits, pow_small k few))

    read60 :
        0 < sign
        → (if ltb sign 8 then 8 - sign else sign - 7) ≡ k + 1
        → let m' = copy_svint60_bytes m p (k + 1) lng (sign * 2 ^ 4) in
          (read_svint60 m' p
            ≡ (if ltb sign 8 then minus lng (get_svint60_ceil (k + 1)) else pos lng))
          × (read_svint60_len m' p ≡ k + 1)
    read60 some_bit e =
        let m' = copy_svint60_bytes m p (k + 1) lng (sign * 2 ^ 4) in
        let len : read_svint60_len m' p ≡ k + 1 =
          len_of m' p sign top60 head60 top60_small nibble some_bit ∙ e in
        (value_of m' p sign top60 head60 top60_small nibble some_bit k lng len rest60, len)

  -- A number that is not negative, of as many bits as the length has, is read back with its length.
  pub read_svint60-copy_svint60 :
      (x : ℕ)
      → x < 16 * 2 ^ (8 * k)
      → let m' = copy_svint60 (pos x) m p (k + 1) in
        (read_svint60 m' p ≡ pos x) × (read_svint60_len m' p ≡ k + 1)
  unfolding copy_svint60
  read_svint60-copy_svint60 x fits =
      let e : k + 1 - 1 ≡ k = omega arith in
      let sign : bit_or 0x80 ((k + 1 - 1) * 2 ^ 4) ≡ (8 + k) * 2 ^ 4 =
        ap (λ n. bit_or 0x80 (n * 2 ^ 4)) e
        ∙ bit_or-shift 7 1 (k * 2 ^ 4) (omega arith)
        ∙ omega arith in
      let (value, len) = read60 x (8 + k) fits (omega arith) (omega arith) (ground arith) in
      rw sign (value ∙ ground arith, len)

  ceil_lem : get_svint60_ceil (k + 1) + 1 ≡ 16 * 2 ^ (8 * k)
  unfolding get_svint60_ceil
  ceil_lem =
      let e : k + 1 ≡ suc k = omega arith in
      let e' : 4 + 8 * k ≡ suc (suc (suc (suc (8 * k)))) = omega arith in
      let pow : 2 ^ (4 + 8 * k) ≡ 16 * 2 ^ (8 * k) = ap (λ n. 2 ^ n) e' ∙ omega arith in
      ap (λ n. get_svint60_ceil n + 1) e ∙ omega (arith, pow, one-le-pow (8 * k) 2)

  -- A negative number stores what is left to the ceiling.
  module _ (x : ℕ) (fits : x + 1 < 16 * 2 ^ (8 * k)) where
    left : ℕ
    left = get_svint60_ceil (k + 1) - (x + 1)

    left_fits : left < 16 * 2 ^ (8 * k)
    unfolding left
    left_fits = omega (arith, ceil_lem, fits)

    stored_neg :
        copy_svint60 (negsuc x) m p (k + 1) ≡ copy_svint60_bytes m p (k + 1) left ((7 - k) * 2 ^ 4)
    unfolding copy_svint60 left
    stored_neg =
        let e : k + 1 - 1 ≡ k = omega arith in
        ap₂ (λ n j. copy_svint60_bytes m p (k + 1) n ((7 - j) * 2 ^ 4))
          (omega (arith, ceil_lem, fits, pow_small k few)) e

    -- A negative number that the length has bits for, of at most seven bytes, likewise.
    pub read_svint60-copy_svint60_neg :
        k < 7
        → let m' = copy_svint60 (negsuc x) m p (k + 1) in
          (read_svint60 m' p ≡ negsuc x) × (read_svint60_len m' p ≡ k + 1)
    read_svint60-copy_svint60_neg short =
        let (value, len) =
          read60 left (7 - k) left_fits (omega arith) (omega arith) (ground arith) in
        rw stored_neg (value ∙ (unfold left in ground (arith, ceil_lem)), len)

    -- In eight bytes, a negative number below 2 ^ 56 - 2 ^ 60 has the header 0 and is read as 0.
    pub read_svint60-copy_svint60_low :
        k ≡ 7
        → 2 ^ 60 < x + 1 + 2 ^ 56
        → let m' = copy_svint60 (negsuc x) m p (k + 1) in
          (read_svint60 m' p ≡ pos 0) × (read_svint60_len m' p ≡ 1)
    unfolding read_svint60 read_svint60_len left
    read_svint60-copy_svint60_low e low =
        let head : copy_svint60 (negsuc x) m p (k + 1) p ≡ 0 =
          ap (λ (c : Mem). c p) stored_neg ∙ head60 left (7 - k) left_fits (omega arith) ∙ no_top in
        rw head (refl, refl)
      where
        no_top : (7 - k) * 16 + left / 2 ^ (8 * k) ≡ 0
        no_top =
            let w : 2 ^ (8 * k) ≡ 2 ^ 56 = ap (λ n. 2 ^ (8 * n)) e in
            omega (
              arith,
              e,
              div-eq_of_lt {n = left} {m = 2 ^ (8 * k)} (omega (arith, w, low, ceil_lem)),
            )
