-- ===== src/SimpleBloom/Laws.antt =====
-- What `bloom_add` and `bloom_check` of src/simple_bloom.h do inside of the array that `bloom_create`
-- allocates, and how large that is.
use index_research.Prelude.{
  ℕ, zero, suc, Bool, ◌+◌, ◌*◌, ◌/◌, ◌%◌, ◌^◌, ◌≤◌, ◌<◌, ◌≡◌, refl, ap, ◌∙◌, Option, none, some,
}
use index_research.Prelude.{List, [], ◌∷◌, ◌++◌, true, false, ltb, arith}
use index_research.Prelude.Memory.{Mem, IsMem}
use index_research.SimpleBloom.Hash.{bloom_hash, rotate_right_17}
use index_research.SimpleBloom.Probes.{
  set_probes, has_probes, probes_inside, add_loop_inside, check_loop_inside, set_probes-keep,
  set_probes-IsMem, has_probes_mono, has_probes-set_probes,
}
use index_research.SimpleBloom.{BloomFilter, bloom_create, bloom_add, bloom_check, add_loop}

-- Every probe of the key falls into the bytes that are allocated.
abbrev pub IsInside : BloomFilter → List ℕ → Type 0
IsInside bloom s =
    probes_inside bloom.allocated bloom.bits bloom.k (bloom_hash s) (rotate_right_17 (bloom_hash s))
    ≡ true

abbrev pub AllInside : BloomFilter → List (List ℕ) → Type 0
AllInside bloom [] = Unit {0}
AllInside bloom (s ∷ keys) = IsInside bloom s × AllInside bloom keys

-- A sequence of calls of `bloom_add`.
abbrev pub add_all : BloomFilter → List (List ℕ) → Option BloomFilter
add_all bloom [] = some bloom
add_all bloom (s ∷ keys) = elim (bloom_add bloom s) [ none ↦ none | some b ↦ add_all b keys ]

abbrev added : BloomFilter → List ℕ → BloomFilter
added bloom s = record bloom {
  a = set_probes bloom.a bloom.bits bloom.k (bloom_hash s) (rotate_right_17 (bloom_hash s));
}

abbrev has : BloomFilter → List ℕ → Bool
has bloom s = has_probes bloom.a bloom.bits bloom.k (bloom_hash s) (rotate_right_17 (bloom_hash s))

add_inside :
    (bloom : BloomFilter) (s : List ℕ) → IsInside bloom s → bloom_add bloom s ≡ some (added bloom s)
unfolding bloom_add
add_inside bloom s e =
    rw
      (
        bloom_add,
        add_loop_inside bloom.k bloom.allocated bloom.a bloom.bits (bloom_hash s)
            (rotate_right_17 (bloom_hash s)) e,
      )
      refl

check_inside :
    (bloom : BloomFilter) (s : List ℕ) → IsInside bloom s → bloom_check bloom s ≡ some (has bloom s)
unfolding bloom_check
check_inside bloom s e =
    check_loop_inside bloom.k bloom.allocated bloom.a bloom.bits (bloom_hash s)
      (rotate_right_17 (bloom_hash s)) e

-- Adding keys whose probes are inside ends, and never makes the filter forget another.
record IsKept (bloom b' : BloomFilter) (keys : List (List ℕ)) : Type 0 where
  runs : add_all bloom keys ≡ some b'
  bytes : IsMem b'.a
  bits : b'.bits ≡ bloom.bits
  k : b'.k ≡ bloom.k
  allocated : b'.allocated ≡ bloom.allocated
  kept : (t : List ℕ) → has bloom t ≡ true → has b' t ≡ true

still_inside :
    (bloom : BloomFilter) (s : List ℕ) (keys : List (List ℕ))
    → AllInside bloom keys
    → AllInside (added bloom s) keys
still_inside bloom s [] h = tt
still_inside bloom s (t ∷ ts) h = (h.0, still_inside bloom s ts h.1)

has_kept :
    (bloom : BloomFilter) (s t : List ℕ)
    → IsMem bloom.a
    → has bloom t ≡ true
    → has (added bloom s) t ≡ true
has_kept bloom s t m c =
    has_probes_mono bloom.k bloom.a (added bloom s).a bloom.bits (bloom_hash t)
      (rotate_right_17 (bloom_hash t))
      (λ q.
        set_probes-keep bloom.k bloom.a bloom.bits (bloom_hash s) (rotate_right_17 (bloom_hash s)) q
          m)
      c

add_all-IsKept :
    (bloom : BloomFilter) (keys : List (List ℕ))
    → IsMem bloom.a
    → AllInside bloom keys
    → (b' : BloomFilter) × IsKept bloom b' keys
add_all-IsKept bloom [] m inside = (
  bloom,
  record { runs = refl; bytes = m; bits = refl; k = refl; allocated = refl; kept = λ t h. h },
)
add_all-IsKept bloom (s ∷ keys) m inside =
    let m' : IsMem (added bloom s).a =
      set_probes-IsMem bloom.k bloom.a bloom.bits (bloom_hash s) (rotate_right_17 (bloom_hash s))
        m in
    let (b', w) = add_all-IsKept (added bloom s) keys m' (still_inside bloom s keys inside.1) in
    (
      b',
      record {
        runs = rw (add_all, add_inside bloom s inside.0) w.runs;
        bytes = w.bytes;
        bits = w.bits;
        k = w.k;
        allocated = w.allocated;
        kept = λ t h. w.kept t (has_kept bloom s t m h);
      },
    )

-- Where the probes of all keys fall into the bytes that are allocated, adding them ends, and the
-- filter has no false negatives: each key is reported, whatever keys were added before and after it.
pub bloom_check-add_all :
    (bloom : BloomFilter) (before : List (List ℕ)) (s : List ℕ) (after : List (List ℕ))
    → IsMem bloom.a
    → AllInside bloom (before ++ s ∷ after)
    → (b' : BloomFilter) × (add_all bloom (before ++ s ∷ after) ≡ some b')
      × (bloom_check b' s ≡ some true)
bloom_check-add_all bloom [] s after m inside =
    let h = bloom_hash s in
    let m' : IsMem (added bloom s).a =
      set_probes-IsMem bloom.k bloom.a bloom.bits h (rotate_right_17 h) m in
    let (b', w) = add_all-IsKept (added bloom s) after m' (still_inside bloom s after inside.1) in
    let here : has (added bloom s) s ≡ true =
      has_probes-set_probes bloom.k bloom.a bloom.bits h (rotate_right_17 h) m in
    let inside' : IsInside b' s = rw w.bits (rw w.k (rw w.allocated inside.0)) in
    (
      b',
      rw (add_all, add_inside bloom s inside.0) w.runs,
      check_inside b' s inside' ∙ ap some (w.kept s here),
    )
bloom_check-add_all bloom (x ∷ xs) s after m inside =
    let h = bloom_hash x in
    let m' : IsMem (added bloom x).a =
      set_probes-IsMem bloom.k bloom.a bloom.bits h (rotate_right_17 h) m in
    let (b', runs, found) =
      bloom_check-add_all (added bloom x) xs s after m'
        (still_inside bloom x (xs ++ s ∷ after) inside.1) in
    (b', rw (add_all, add_inside bloom x inside.0) runs, found)

add_loop_outside :
    (allocated : ℕ) (a : Mem) (bits k h delta : ℕ)
    → 1 ≤ k
    → allocated ≤ h % bits / 8
    → add_loop allocated a bits k h delta ≡ none
unfolding add_loop
add_loop_outside allocated a bits zero h delta some_probe far = absurd (omega (arith, some_probe))
add_loop_outside allocated a bits (suc k) h delta some_probe far =
    let e : ltb (h % bits / 8) allocated ≡ false = ground (arith, far) in rw e refl

add_outside :
    (bloom : BloomFilter) (s : List ℕ)
    → 1 ≤ bloom.k
    → bloom.allocated ≤ bloom_hash s % bloom.bits / 8
    → bloom_add bloom s ≡ none
unfolding bloom_add
add_outside bloom s some_probe far =
    rw
      (
        bloom_add,
        add_loop_outside bloom.allocated bloom.a bloom.bits bloom.k (bloom_hash s)
            (rotate_right_17 (bloom_hash s)) some_probe far,
      )
      refl

probe_inside : (k bits asize : ℕ) → bits ≡ asize * 8 → 64 ≤ bits → k % bits / 8 < asize
probe_inside k bits asize e h = omega arith

-- When sz * bits_per_key is below 2^63, a new filter has at least 64 bits, eight to a byte of asize,
-- and 1 to 30 probes, which all fall into asize bytes; an eighth of these bytes, rounded up, is
-- allocated, which is less, and bloom_add of a key whose first probe falls behind it writes outside of
-- the array.
pub bloom_create_bounds :
    (sz bits_per_key scaled : ℕ)
    → sz * bits_per_key < 2 ^ 63
    → let bloom = bloom_create sz bits_per_key scaled in
      (bloom.bits ≡ bloom.asize * 8)
      × (64 ≤ bloom.bits)
      × (1 ≤ bloom.k)
      × (bloom.k ≤ 30)
      × ((h : ℕ) → h % bloom.bits / 8 < bloom.asize)
      × (bloom.allocated ≡ (bloom.asize + 7) / 8)
      × (bloom.allocated < bloom.asize)
      × ((s : List ℕ) → bloom.allocated ≤ bloom_hash s % bloom.bits / 8 → bloom_add bloom s ≡ none)
unfolding bloom_create
bloom_create_bounds sz bits_per_key scaled h = (
  ground arith,
  ground arith,
  ground arith,
  ground arith,
  λ k. probe_inside k _ _ (ground arith) (ground arith),
  refl,
  ground arith,
  λ s far. add_outside (bloom_create sz bits_per_key scaled) s (ground arith) far,
)
