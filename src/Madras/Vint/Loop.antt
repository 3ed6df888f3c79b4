-- ===== src/Madras/Vint/Loop.antt =====
-- `copy_fvint64` and `read_fvint`.
use Prim.Native.Nat.{bit_and, bit_or}
use index_research.Prelude.{
  ℕ, zero, suc, ◌+◌, ◌*◌, ◌/◌, ◌%◌, ◌^◌, ◌≤◌, ◌<◌, ◌≡◌, ◌∙◌, ap, ap₂, sym, refl, arith,
}
use index_research.Prelude.{lt→ltb, some}
use index_research.Prelude.Bits.{bit_and_low, byte_table}
use index_research.Prelude.Memory.{Mem, store}
use index_research.Madras.Svint.RoundTrip.{sign_bit}
use index_research.Madras.Vint.{Copied, copy_fvint_loop, read_fvint_loop, copy_fvint64, read_fvint}
use native.Mathlib.Decide.{dec_lt}

pow_group : (n : ℕ) → 2 ^ (7 * suc n) ≡ 128 * 2 ^ (7 * n)
pow_group n =
    let e : 7 * suc n ≡ suc (suc (suc (suc (suc (suc (suc (7 * n))))))) = omega arith in
    ap (λ k. 2 ^ k) e ∙ omega arith

-- Scaled by `w`, the groups of a number add up.
groups : (u w : ℕ) → u % 128 * w + u / 128 * (128 * w) ≡ u * w
groups u w =
    let e : u ≡ u % 128 + 128 * (u / 128) = omega arith in sym (ap (λ k. k * w) e ∙ grind arith)

flagged : (y : ℕ) → y < 256 → bit_or (y % 128) 0x80 ≡ 128 + y % 128
flagged = byte_table (λ y. bit_or (y % 128) 0x80) (λ y. 128 + y % 128) refl

-- One round of the reader.
module _ (rounds : ℕ) (m : Mem) (p len ret b w : ℕ) (power : 2 ^ (7 * len) ≡ w) (here : m p ≡ b)
    (byte : b < 256) where
  read_last :
      b < 128
      → ret + b * w < 2 ^ 64
      → read_fvint_loop (suc rounds) m p len ret
        ≡ some (record { value = ret + b * w; len = len + 1 })
  unfolding read_fvint_loop
  read_last h k =
      let low : bit_and b 0x7f ≡ b = bit_and_low 7 b ∙ omega arith in
      let top : bit_and b 0x80 ≡ 0 = sign_bit b byte ∙ omega arith in
      let sum : (ret + b * w % 2 ^ 64) % 2 ^ 64 ≡ ret + b * w = omega arith in
      rw (power, here, low, top, sum) refl

  read_more :
      127 < b
      → ret + b % 128 * w < 2 ^ 64
      → read_fvint_loop (suc rounds) m p len ret
        ≡ read_fvint_loop rounds m (p + 1) (len + 1) (ret + b % 128 * w)
  unfolding read_fvint_loop
  read_more h k =
      let low : bit_and b 0x7f ≡ b % 128 = bit_and_low 7 b in
      let top : bit_and b 0x80 ≡ 128 = sign_bit b byte ∙ omega arith in
      let sum : (ret + b % 128 * w % 2 ^ 64) % 2 ^ 64 ≡ ret + b % 128 * w = omega arith in
      rw (power, here, low, top, sum) refl

-- What the writer's loop leaves.
record IsCopy (rounds : ℕ) (m : Mem) (p u len n : ℕ) (c : Copied) : Type 0 where
  runs : copy_fvint_loop rounds m p u len ≡ some c
  length : c.len ≡ len + n
  below : (q : ℕ) → q < p → c.mem q ≡ m q
  back :
      (l ret : ℕ)
      → ret + u * 2 ^ (7 * l) < 2 ^ 64
      → read_fvint_loop rounds c.mem p l ret
        ≡ some (record { value = ret + u * 2 ^ (7 * l); len = l + n })

last-IsCopy :
    (f : ℕ) (m : Mem) (p u len : ℕ)
    → u < 128
    → IsCopy (suc f) m p u len 1 (record { mem = store m p (bit_and u 0x7f); len = len + 1 })
unfolding copy_fvint_loop
last-IsCopy f m p u len h =
    let low : bit_and u 0x7f ≡ u = bit_and_low 7 u ∙ omega arith in
    let z : u / 2 ^ 7 ≡ 0 = omega arith in
    record {
      runs = rw z refl;
      length = refl;
      below = λ q l. ground arith;
      back = λ l ret k.
          read_last f (store m p (bit_and u 0x7f)) p l ret u (2 ^ (7 * l)) refl
            (ground (arith, low)) (omega arith) h k;
    }

more-IsCopy :
    (f : ℕ) (m : Mem) (p u len n : ℕ) (c : Copied)
    → 128 ≤ u
    → IsCopy f (store m p (bit_or (bit_and u 0x7f) 0x80)) (p + 1) (u / 128) (len + 1) n c
    → IsCopy (suc f) m p u len (n + 1) c
unfolding copy_fvint_loop
more-IsCopy f m p u len n c h rest =
    let b : bit_or (bit_and u 0x7f) 0x80 ≡ 128 + u % 128 =
      ap (λ k. bit_or k 0x80) (bit_and_low 7 u ∙ omega arith)
      ∙ flagged (u % 128) (omega arith)
      ∙ omega arith in
    record {
      runs = rw (lt→ltb 0 (u / 2 ^ 7) (omega arith)) rest.runs;
      length = omega (arith, rest.length);
      below = λ q l. rest.below q (omega arith) ∙ ground arith;
      back = λ l ret k.
          let w = 2 ^ (7 * l) in
          let r : (128 + u % 128) % 128 * w ≡ u % 128 * w = ap (λ j. j * w) (omega arith) in
          let next : 2 ^ (7 * (l + 1)) ≡ 128 * w =
            ap (λ j. 2 ^ (7 * j)) (omega arith) ∙ pow_group l in
          let scaled : u / 128 * 2 ^ (7 * (l + 1)) ≡ u / 128 * (128 * w) =
            ap (λ j. u / 128 * j) next in
          let sum : ret + (128 + u % 128) % 128 * w + u / 128 * 2 ^ (7 * (l + 1)) ≡ ret + u * w =
            omega (arith, r, scaled, groups u w) in
          read_more f c.mem p l ret (128 + u % 128) w refl
            (rest.below p (omega arith) ∙ ground (arith, b)) (omega arith) (omega arith)
            (omega (arith, sum, k))
          ∙ rest.back (l + 1) (ret + (128 + u % 128) % 128 * w) (omega (arith, sum, k))
          ∙ ap₂ (λ v j. some (record { value = v; len = j })) sum (omega arith);
    }

fvint_loop-IsCopy :
    (f : ℕ) (m : Mem) (p u len : ℕ)
    → u < 2 ^ (7 * suc f)
    → (n : ℕ) × (c : Copied) × IsCopy (suc f) m p u len n c
fvint_loop-IsCopy zero m p u len h = (1, _, last-IsCopy zero m p u len h)
fvint_loop-IsCopy (suc f) m p u len h = elim (dec_lt u 128) [
  | yes l ↦ (1, _, last-IsCopy (suc f) m p u len l)
  | no l ↦
      let (n, c, rest) =
        fvint_loop-IsCopy f (store m p (bit_or (bit_and u 0x7f) 0x80)) (p + 1) (u / 128) (len + 1)
          (omega (arith, h, pow_group (suc f))) in
      (n + 1, c, more-IsCopy (suc f) m p u len n c (omega arith) rest)
]

-- `copy_fvint64` of a uint64_t ends, and `read_fvint` reads back the number and the length.
pub read_fvint-copy_fvint64 :
    (m : Mem) (p x : ℕ)
    → x < 2 ^ 64
    → (c : Copied) × (copy_fvint64 m p x ≡ some c)
      × (read_fvint c.mem p ≡ some (record { value = x; len = c.len }))
unfolding copy_fvint64 read_fvint
read_fvint-copy_fvint64 m p x h =
    let (n, c, is) = fvint_loop-IsCopy 9 m p x 0 (omega arith) in
    (
      c,
      is.runs,
      is.back 0 0 (omega arith)
          ∙ ap₂ (λ v j. some (record { value = v; len = j })) (omega arith) (sym (is.length)),
    )
