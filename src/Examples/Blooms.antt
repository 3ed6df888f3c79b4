-- ===== src/Examples/Blooms.antt =====
-- The filter and its hash functions at concrete keys.
use index_research.Prelude.{
  ℕ, ◌+◌, ◌*◌, ◌/◌, ◌%◌, ◌^◌, ◌≤◌, ◌<◌, ◌≡◌, refl, List, [], ◌∷◌, none, some, true, false, arith,
}
use index_research.SimpleBloom.{BloomFilter, bloom_create, bloom_add, bloom_check}
use index_research.SimpleBloom.Hash.{decode_fixed32, bloom_hash}
use index_research.SimpleBloom.Hash.{rotate_right_17, decode_fixed32_sum}
use index_research.SimpleBloom.Probes.{probes_inside}
use index_research.SimpleBloom.Laws.{IsInside, add_all, bloom_check-add_all, bloom_create_bounds}

-- A new filter for eight keys of ten bits; 10 * 0.69 is 6 as a size_t.
abbrev fresh : BloomFilter
fresh = bloom_create 8 10 6

abbrev cat : List ℕ
cat = 99 ∷ 97 ∷ 116 ∷ []

abbrev dog : List ℕ
dog = 100 ∷ 111 ∷ 103 ∷ []

fresh_byte : (i : ℕ) → fresh.a i < 256
unfolding bloom_create
fresh_byte i = omega arith

fresh_runs : (fresh.bits ≡ 80) × (fresh.k ≡ 6) × (fresh.asize ≡ 10) × (fresh.allocated ≡ 2)
unfolding bloom_create
fresh_runs = (refl, refl, refl, refl)

-- All probes of these keys fall into the two bytes that are allocated.
abbrev ase : List ℕ
ase = 97 ∷ 115 ∷ 101 ∷ []

abbrev dwi : List ℕ
dwi = 100 ∷ 119 ∷ 105 ∷ []

ase-IsInside : IsInside fresh ase
unfolding bloom_create bloom_hash rotate_right_17 probes_inside
ase-IsInside = refl

dwi-IsInside : IsInside fresh dwi
unfolding bloom_create bloom_hash rotate_right_17 probes_inside
dwi-IsInside = refl

check_runs :
    (bloom_check fresh ase ≡ some false)
    × (bloom_add fresh cat ≡ none)
    × (bloom_check fresh dog ≡ none)
unfolding bloom_create bloom_add bloom_check bloom_hash rotate_right_17
check_runs = (refl, refl, refl)

bloom_check-add_all_example :
    (b' : BloomFilter) × (add_all fresh (dwi ∷ ase ∷ dwi ∷ []) ≡ some b')
    × (bloom_check b' ase ≡ some true)
bloom_check-add_all_example =
    bloom_check-add_all fresh (dwi ∷ []) ase (dwi ∷ []) fresh_byte
      (dwi-IsInside, (ase-IsInside, (dwi-IsInside, tt)))

bloom_create_bounds_example :
    let bloom = bloom_create 8 10 6 in
    (bloom.bits ≡ bloom.asize * 8)
    × (64 ≤ bloom.bits)
    × (1 ≤ bloom.k)
    × (bloom.k ≤ 30)
    × ((h : ℕ) → h % bloom.bits / 8 < bloom.asize)
    × (bloom.allocated ≡ (bloom.asize + 7) / 8)
    × (bloom.allocated < bloom.asize)
    × ((s : List ℕ) → bloom.allocated ≤ bloom_hash s % bloom.bits / 8 → bloom_add bloom s ≡ none)
bloom_create_bounds_example = bloom_create_bounds 8 10 6 (omega arith)

decode_fixed32_sum_example : decode_fixed32 1 2 3 4 ≡ 1 + 2 * 2 ^ 8 + 3 * 2 ^ 16 + 4 * 2 ^ 24
decode_fixed32_sum_example =
    decode_fixed32_sum 1 2 3 4 (omega arith) (omega arith) (omega arith) (omega arith)
