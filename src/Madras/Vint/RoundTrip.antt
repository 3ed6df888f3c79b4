-- ===== src/Madras/Vint/RoundTrip.antt =====
-- What the writers of Vint.antt store and what the readers make of it.
use Prim.Native.Nat.{bit_and, bit_or}
use index_research.Prelude.{
  ℕ, zero, suc, ◌+◌, ◌-◌, ◌*◌, ◌/◌, ◌%◌, ◌^◌, ◌≤◌, ◌<◌, ◌≡◌, ◌∙◌, ap, ap₂, refl, arith,
}
use index_research.Prelude.{leb, leb→le, lt→ltb, le→not_ltb, none, some}
use index_research.Prelude.Bits.{bit_or-shift, shift-bit_or, bit_and_low, all_below_sound}
use index_research.Prelude.Memory.{Mem, store}
use index_research.Madras.Fixed.{read_le}
use index_research.Madras.Vint.{
  copy_fvint_loop, store_le, copy_fast_vuint64, read_fast_vuint64, copy_fast_vuint32,
  read_fast_vuint32, copy_rvint32, read_rvint32,
}

store_le_below : (n : ℕ) (m : Mem) (p v q : ℕ) → q < p → store_le m p n v q ≡ m q
unfolding store_le
store_le_below zero m p v q h = refl
store_le_below (suc n) m p v q h =
    store_le_below n (store m p (v % 256)) (p + 1) (v / 256) q (omega arith) ∙ ground arith

store_le_first : (n : ℕ) (m : Mem) (p v : ℕ) → store_le m p (suc n) v p ≡ v % 256
unfolding store_le
store_le_first n m p v =
    store_le_below n (store m p (v % 256)) (p + 1) (v / 256) p (omega arith) ∙ ground arith

-- An integer of at most `n` bytes is read back.
read_le-store_le : (n : ℕ) (m : Mem) (p v : ℕ) → v < 256 ^ n → read_le (store_le m p n v) p n ≡ v
unfolding read_le store_le
read_le-store_le zero m p v h = omega arith
read_le-store_le (suc n) m p v h =
    ap₂ (λ a b. a + b * 256) (store_le_first n m p v)
      (read_le-store_le n (store m p (v % 256)) (p + 1) (v / 256) (omega arith))
    ∙ omega arith

eight_bytes : (n : ℕ) → n < 8 → 256 ^ (n + 1) ≤ 2 ^ 64
eight_bytes n h =
    leb→le (256 ^ (n + 1)) (2 ^ 64) (all_below_sound 8 (λ n. leb (256 ^ (n + 1)) (2 ^ 64)) n refl h)

-- An integer that fits in `n + 1` bytes beside the length is read back, with its length.
module _ (m : Mem) (p x n : ℕ) where
  abbrev packed : ℕ
  packed = x * 16 + (n + 1)

  packed_or : n < 15 → bit_or (x * 2 ^ 4) (n + 1) ≡ packed
  packed_or few = bit_or-shift 4 x (n + 1) (omega arith)

  nibble : n < 15 → bit_and (store_le m p (n + 1) packed p) 0x0f ≡ n + 1
  nibble few =
      let e : n + 1 ≡ suc n = omega arith in
      ap (λ b. bit_and b 0x0f) (ap (λ k. store_le m p k packed p) e ∙ store_le_first n m p packed)
      ∙ bit_and_low 4 (packed % 256)
      ∙ omega arith

  pub read_fast_vuint32-copy_fast_vuint32 :
      n < 4
      → x * 16 + 16 ≤ 256 ^ (n + 1)
      → read_fast_vuint32 (copy_fast_vuint32 x m p (n + 1)) p
        ≡ some (record { value = x; len = n + 1 })
  unfolding read_fast_vuint32 copy_fast_vuint32
  read_fast_vuint32-copy_fast_vuint32 few fits =
      rw (packed_or (omega arith), nibble (omega arith), le→not_ltb 4 (n + 1) (omega arith))
        (ap (λ v. some (record { value = v / 16; len = n + 1 }))
            (read_le-store_le (n + 1) m p packed (omega arith))
          ∙ ap (λ v. some (record { value = v; len = n + 1 })) (omega arith))

  pub read_fast_vuint64-copy_fast_vuint64 :
      n < 8
      → x * 16 + 16 ≤ 256 ^ (n + 1)
      → read_fast_vuint64 (copy_fast_vuint64 x m p (n + 1)) p
        ≡ some (record { value = x; len = n + 1 })
  unfolding read_fast_vuint64 copy_fast_vuint64
  read_fast_vuint64-copy_fast_vuint64 few fits =
      let no_wrap : x * 2 ^ 4 % 2 ^ 64 ≡ x * 2 ^ 4 = omega (arith, fits, eight_bytes n few) in
      rw
        (
          no_wrap,
          packed_or (omega arith),
          le→not_ltb 8 (n + 1) (omega arith),
          nibble (omega arith),
          le→not_ltb 8 (n + 1) (omega arith),
        )
        (ap (λ v. some (record { value = v / 16; len = n + 1 }))
            (read_le-store_le (n + 1) m p packed (omega arith))
          ∙ ap (λ v. some (record { value = v; len = n + 1 })) (omega arith))

-- A number that leaves four bits of `n + 1` bytes for the length is read back with its length, of at
-- most four bytes by the functions on 32 bits and of at most eight by those on 64.
pub read_fast-copy_fast :
    (m : Mem) (p x n y k : ℕ)
    → n < 4
    → x * 16 + 16 ≤ 256 ^ (n + 1)
    → k < 8
    → y * 16 + 16 ≤ 256 ^ (k + 1)
    → (read_fast_vuint32 (copy_fast_vuint32 x m p (n + 1)) p
        ≡ some (record { value = x; len = n + 1 }))
      × (read_fast_vuint64 (copy_fast_vuint64 y m p (k + 1)) p
          ≡ some (record { value = y; len = k + 1 }))
read_fast-copy_fast m p x n y k hn hx hk hy = (
  read_fast_vuint32-copy_fast_vuint32 m p x n hn hx,
  read_fast_vuint64-copy_fast_vuint64 m p y k hk hy,
)

nine_none : (m : Mem) (p : ℕ) → bit_and (m p) 0x0f ≡ 9 → read_fast_vuint64 m p ≡ none
unfolding read_fast_vuint64
nine_none m p e = rw e refl

store_above : (m : Mem) (p b : ℕ) → store m (p + 8) b p ≡ m p
store_above m p b = ground arith

nine_nibble : (m : Mem) (p x : ℕ) → bit_and (copy_fast_vuint64 x m p 9 p) 0x0f ≡ 9
unfolding copy_fast_vuint64
nine_nibble m p x =
    let v = bit_or (x * 2 ^ 4 % 2 ^ 64) 9 in
    let e : v ≡ x % 2 ^ 60 * 16 + 9 =
      ap (λ k. bit_or k 9) (omega arith) ∙ bit_or-shift 4 (x % 2 ^ 60) 9 (omega arith) in
    ap (λ b. bit_and b 0x0f)
      (store_above (store_le m p 8 v) p (x / 2 ^ 60) ∙ store_le_first 7 m p v)
    ∙ bit_and_low 4 (v % 256)
    ∙ omega (arith, e)

-- Where the size is 5 for 32 bits (a number from 2 ^ 28 on), or 9 for 64 (from 2 ^ 60 on), the reader
-- writes outside of its variable.
pub read_fast_undefined :
    (m : Mem) (p x : ℕ)
    → (read_fast_vuint32 (copy_fast_vuint32 x m p 5) p ≡ none)
      × (read_fast_vuint64 (copy_fast_vuint64 x m p 9) p ≡ none)
unfolding read_fast_vuint32 copy_fast_vuint32
read_fast_undefined m p x = (
  rw (packed_or m p x 4 (omega arith), nibble m p x 4 (omega arith)) refl,
  nine_none (copy_fast_vuint64 x m p 9) p (nine_nibble m p x),
)

read_rvint32_one :
    (m : Mem) (p x : ℕ) → x < 64 → m p ≡ x → read_rvint32 m p ≡ record { value = x; len = 1 }
unfolding read_rvint32
read_rvint32_one m p x h e =
    let z : x / 2 ^ 6 ≡ 0 = omega arith in
    let low : bit_and x 0x3f ≡ x = bit_and_low 6 x ∙ omega arith in rw (e, z, low) refl

read_rvint32_two :
    (m : Mem) (p y : ℕ)
    → y < 4096
    → m (p + 1) ≡ 64 + y % 64
    → m p ≡ 64 + y / 64
    → read_rvint32 m (p + 1) ≡ record { value = y + 4096; len = 2 }
unfolding read_rvint32
read_rvint32_two m p y h e f =
    let back : p + 1 - 1 ≡ p = omega arith in
    let z : (64 + y % 64) / 2 ^ 6 ≡ 1 = omega arith in
    let low : bit_and (64 + y % 64) 0x3f ≡ y % 64 = bit_and_low 6 (64 + y % 64) ∙ omega arith in
    let value : bit_or (y % 64) ((64 + y / 64) * 2 ^ 6) ≡ y + 4096 =
      shift-bit_or 6 (64 + y / 64) (y % 64) (omega arith) ∙ omega arith in
    rw (e, back, f, z, low, value) refl

rvint32_one : (m : Mem) (p x : ℕ) → x < 64 → (copy_rvint32 m p x).mem p ≡ x
unfolding copy_rvint32
rvint32_one m p x h = rw (lt→ltb x 64 h) (ground (arith, bit_or-shift 6 0 x))

rvint32_two :
    (m : Mem) (p y : ℕ)
    → 64 ≤ y
    → y < 4096
    → ((copy_rvint32 m p y).mem (p + 1) ≡ 64 + y % 64) × ((copy_rvint32 m p y).mem p ≡ 64 + y / 64)
unfolding copy_rvint32
rvint32_two m p y h k =
    rw (le→not_ltb y 64 h, lt→ltb y 4096 k)
      (
        ground (arith, bit_and_low 6 y, bit_or-shift 6 1 (y % 64)),
        ground (arith, bit_or-shift 6 1 (y / 64)),
      )

-- A number that `copy_rvint32` stores in one byte is read back. One of two bytes is not: the bits of
-- the length in the first byte are read as part of the number, which comes out larger by 4096.
pub read_rvint32-copy_rvint32 :
    (m : Mem) (p x y : ℕ)
    → x < 64
    → 64 ≤ y
    → y < 4096
    → (read_rvint32 (copy_rvint32 m p x).mem p ≡ record { value = x; len = 1 })
      × (read_rvint32 (copy_rvint32 m p y).mem (p + 1) ≡ record { value = y + 4096; len = 2 })
read_rvint32-copy_rvint32 m p x y hx ly hy = (
  read_rvint32_one (copy_rvint32 m p x).mem p x hx (rvint32_one m p x hx),
  let (low, high) = rvint32_two m p y ly hy in
      read_rvint32_two (copy_rvint32 m p y).mem p y hy low high,
)

-- Each round of the loops.
copy_fvint_more :
    (rounds : ℕ) (m : Mem) (p u len : ℕ)
    → 128 ≤ u
    → copy_fvint_loop (suc rounds) m p u len
      ≡ copy_fvint_loop rounds
          (store m p (bit_or (bit_and u 0x7f) 0x80))
          (p + 1)
          (u / 128)
          (len + 1)
unfolding copy_fvint_loop
copy_fvint_more rounds m p u len h = ground arith
