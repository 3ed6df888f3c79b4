-- ===== src/SimpleBloom.antt =====
-- The Bloom filter of src/simple_bloom.h and the hash functions in that file.
pub mod Hash
pub mod Bits
pub mod Probes
pub mod Laws
use Prim.Native.Nat.{bit_and, bit_or}
use index_research.Prelude.{
  Option, none, some, ℕ, zero, suc, ◌+◌, ◌*◌, ◌/◌, ◌%◌, ◌^◌, List, Bool, true, false, ltb, ◌==◌,
}
use index_research.Prelude.{if◌then◌else◌}
use index_research.Prelude.Memory.{Mem, store}
use index_research.SimpleBloom.Hash.{bloom_hash, rotate_right_17}

-- `allocated` is the size of the array at `a`, in bytes. The fields nfuncs and funcs are not used.
pub record BloomFilter : Type 0 where
  pub asize : ℕ
  pub a : Mem
  pub k : ℕ
  pub bits : ℕ
  pub allocated : ℕ

-- `scaled` is `static_cast<size_t>(bits_per_key * 0.69)`, a floating-point product.
unfoldable pub probe_count : ℕ → ℕ
probe_count scaled = let k = if ltb scaled 1 then 1 else scaled in if ltb 30 k then 30 else k

-- `bytes + 7` is computed in size_t.
unfoldable pub bloom_create : ℕ → ℕ → ℕ → BloomFilter
unfolding probe_count
bloom_create sz bits_per_key scaled =
    let wanted = sz * bits_per_key % 2 ^ 64 in
    let bits = if ltb wanted 64 then 64 else wanted in
    let bytes = (bits + 7) % 2 ^ 64 / 8 in
    record {
      asize = bytes;
      a = λ i. 0;
      k = probe_count scaled;
      bits = bytes * 8 % 2 ^ 64;
      allocated = (bytes + 7) / 8;
    }

-- The loop of `bloom_add` with `left` rounds to go; `none`: a byte outside of the array is changed.
unfoldable pub add_loop : ℕ → Mem → ℕ → ℕ → ℕ → ℕ → Option Mem
add_loop allocated a bits zero h delta = some a
add_loop allocated a bits (suc left) h delta =
    let bitpos = h % bits in
    let rest =
      add_loop allocated (store a (bitpos / 8) (bit_or (a (bitpos / 8)) (2 ^ (bitpos % 8)))) bits
        left ((h + delta) % 2 ^ 32) delta in
    if ltb (bitpos / 8) allocated then rest else none

unfoldable pub bloom_add : BloomFilter → List ℕ → Option BloomFilter
unfolding add_loop
bloom_add bloom s =
    let h = bloom_hash s in
    elim (add_loop bloom.allocated bloom.a bloom.bits bloom.k h (rotate_right_17 h)) [
      | none ↦ none
      | some a ↦ some (record bloom { a = a })
    ]

-- The loop of `bloom_check`; the early `return 0` is `false`. `none`: a byte outside of the array is read.
unfoldable pub check_loop : ℕ → Mem → ℕ → ℕ → ℕ → ℕ → Option Bool
check_loop allocated a bits zero h delta = some true
check_loop allocated a bits (suc left) h delta =
    let bitpos = h % bits in
    let rest = check_loop allocated a bits left ((h + delta) % 2 ^ 32) delta in
    if ltb (bitpos / 8) allocated
    then (if bit_and (a (bitpos / 8)) (2 ^ (bitpos % 8)) == 0 then some false else rest)
    else none

unfoldable pub bloom_check : BloomFilter → List ℕ → Option Bool
unfolding check_loop
bloom_check bloom s =
    let h = bloom_hash s in
    check_loop bloom.allocated bloom.a bloom.bits bloom.k h (rotate_right_17 h)
