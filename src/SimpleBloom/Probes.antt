-- ===== src/SimpleBloom/Probes.antt =====
-- The probes of a key in an array that holds them all.
use Prim.Native.Nat.{bit_and, bit_or}
use index_research.Prelude.{
  ℕ, zero, suc, ◌+◌, ◌/◌, ◌%◌, ◌^◌, ◌≡◌, ◌≢◌, refl, some, Bool, if◌then◌else◌,
}
use index_research.Prelude.{true, false, ltb, ◌&&◌, ◌==◌, Bool-cases, inl, inr, arith}
use index_research.Prelude.Memory.{Mem, IsMem, store}
use index_research.SimpleBloom.Bits.{clear_at, set_bit_lem, set_bit-lt, keep_bit_lem}
use index_research.SimpleBloom.{add_loop, check_loop}

-- The bits of `left` probes are set.
unfoldable pub set_probes : Mem → ℕ → ℕ → ℕ → ℕ → Mem
set_probes a bits zero h delta = a
set_probes a bits (suc left) h delta =
    set_probes (store a (h % bits / 8) (bit_or (a (h % bits / 8)) (2 ^ (h % bits % 8)))) bits left
      ((h + delta) % 2 ^ 32) delta

unfoldable pub has_probes : Mem → ℕ → ℕ → ℕ → ℕ → Bool
has_probes a bits zero h delta = true
has_probes a bits (suc left) h delta =
    let rest = has_probes a bits left ((h + delta) % 2 ^ 32) delta in
    if bit_and (a (h % bits / 8)) (2 ^ (h % bits % 8)) == 0 then false else rest

-- Every probe falls into the first `allocated` bytes.
unfoldable pub probes_inside : ℕ → ℕ → ℕ → ℕ → ℕ → Bool
probes_inside allocated bits zero h delta = true
probes_inside allocated bits (suc left) h delta =
    ltb (h % bits / 8) allocated && probes_inside allocated bits left ((h + delta) % 2 ^ 32) delta

both : (x y : Bool) → (x && y) ≡ true → (x ≡ true) × (y ≡ true)
both true y e = (refl, e)
both false y e = absurd (ground (arith, e))

pub add_loop_inside :
    (left allocated : ℕ) (a : Mem) (bits h delta : ℕ)
    → probes_inside allocated bits left h delta ≡ true
    → add_loop allocated a bits left h delta ≡ some (set_probes a bits left h delta)
unfolding probes_inside add_loop set_probes
add_loop_inside zero allocated a bits h delta e = refl
add_loop_inside (suc left) allocated a bits h delta e =
    let (here, rest) = both (ltb (h % bits / 8) allocated) _ e in
    rw here (add_loop_inside left allocated _ bits ((h + delta) % 2 ^ 32) delta rest)

pub check_loop_inside :
    (left allocated : ℕ) (a : Mem) (bits h delta : ℕ)
    → probes_inside allocated bits left h delta ≡ true
    → check_loop allocated a bits left h delta ≡ some (has_probes a bits left h delta)
unfolding probes_inside check_loop has_probes
check_loop_inside zero allocated a bits h delta e = refl
check_loop_inside (suc left) allocated a bits h delta e =
    let (here, rest) = both (ltb (h % bits / 8) allocated) _ e in
    let more = check_loop_inside left allocated a bits ((h + delta) % 2 ^ 32) delta rest in
    elim (Bool-cases (bit_and (a (h % bits / 8)) (2 ^ (h % bits % 8)) == 0)) [
      | inl k ↦ rw here (rw k refl)
      | inr k ↦ rw here (rw k more)
    ]

-- Bit `p` of the array is set.
abbrev pub IsBitSet : Mem → ℕ → Type 0
IsBitSet a p = clear_at (a (p / 8)) (p % 8) ≢ 0

abbrev set_bit : Mem → ℕ → Mem
set_bit a p = store a (p / 8) (bit_or (a (p / 8)) (2 ^ (p % 8)))

set_bit-IsMem : (a : Mem) (p : ℕ) → IsMem a → IsMem (set_bit a p)
set_bit-IsMem a p h i = ground (arith, h i)

set_bit_same : (a : Mem) (p : ℕ) → IsMem a → set_bit a p (p / 8) ≡ bit_or (a (p / 8)) (2 ^ (p % 8))
set_bit_same a p h = ground (arith, set_bit-lt (a (p / 8)) (p % 8) (h (p / 8)) (omega arith))

set_bit-IsBitSet : (a : Mem) (p : ℕ) → IsMem a → IsBitSet (set_bit a p) p
set_bit-IsBitSet a p h =
    rw (set_bit_same a p h) (set_bit_lem (a (p / 8)) (p % 8) (h (p / 8)) (omega arith))

keep-IsBitSet : (a : Mem) (p q : ℕ) → IsMem a → IsBitSet a q → IsBitSet (set_bit a p) q
keep-IsBitSet a p q h s = elim (Bool-cases (q / 8 == p / 8)) [
  | inr other ↦ rw other s
  | inl same ↦
      let e : q / 8 ≡ p / 8 = ground arith in
      rw (e, set_bit_same a p h)
        (keep_bit_lem (a (p / 8)) (p % 8) (q % 8) (h (p / 8)) (omega arith) (omega arith)
          (rw e at s))
]

pub set_probes-keep :
    (left : ℕ) (a : Mem) (bits h delta q : ℕ)
    → IsMem a
    → IsBitSet a q
    → IsBitSet (set_probes a bits left h delta) q
unfolding set_probes
set_probes-keep zero a bits h delta q m s = s
set_probes-keep (suc left) a bits h delta q m s =
    set_probes-keep left (set_bit a (h % bits)) bits ((h + delta) % 2 ^ 32) delta q
      (set_bit-IsMem a (h % bits) m) (keep-IsBitSet a (h % bits) q m s)

pub set_probes-IsMem :
    (left : ℕ) (a : Mem) (bits h delta : ℕ) → IsMem a → IsMem (set_probes a bits left h delta)
unfolding set_probes
set_probes-IsMem zero a bits h delta m = m
set_probes-IsMem (suc left) a bits h delta m =
    set_probes-IsMem left (set_bit a (h % bits)) bits ((h + delta) % 2 ^ 32) delta
      (set_bit-IsMem a (h % bits) m)

-- A check looks only for bits that are set.
pub has_probes_mono :
    (left : ℕ) (a a' : Mem) (bits h delta : ℕ)
    → ((q : ℕ) → IsBitSet a q → IsBitSet a' q)
    → has_probes a bits left h delta ≡ true
    → has_probes a' bits left h delta ≡ true
unfolding has_probes
has_probes_mono zero a a' bits h delta keep c = refl
has_probes_mono (suc left) a a' bits h delta keep c =
    ground
      (arith, keep (h % bits), has_probes_mono left a a' bits ((h + delta) % 2 ^ 32) delta keep)

not_zero : (x : ℕ) → x ≢ 0 → (x == 0) ≡ false
not_zero x h = ground arith

pub has_probes-set_probes :
    (left : ℕ) (a : Mem) (bits h delta : ℕ)
    → IsMem a
    → has_probes (set_probes a bits left h delta) bits left h delta ≡ true
unfolding has_probes set_probes
has_probes-set_probes zero a bits h delta m = refl
has_probes-set_probes (suc left) a bits h delta m =
    rw (not_zero _ first_kept) (
      has_probes-set_probes left a' bits ((h + delta) % 2 ^ 32) delta
        (set_bit-IsMem a (h % bits) m))
  where
    a' : Mem
    a' = set_bit a (h % bits)

    first_kept : IsBitSet (set_probes a' bits left ((h + delta) % 2 ^ 32) delta) (h % bits)
    first_kept =
        set_probes-keep left a' bits ((h + delta) % 2 ^ 32) delta (h % bits)
          (set_bit-IsMem a (h % bits) m) (set_bit-IsBitSet a (h % bits) m)
