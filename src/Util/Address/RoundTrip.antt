-- ===== src/Util/Address/RoundTrip.antt =====
-- A page number that was written is read back.
use index_research.Prelude.{
  true, false, ℕ, zero, suc, ◌+◌, ◌-◌, ◌*◌, ◌/◌, ◌%◌, ◌^◌, ◌<◌, ◌≤◌, ◌≡◌, ◌⊎◌, inl, inr, refl, ap,
  sym, ◌∙◌, arith, ◌==◌,
}
use Prim.Native.Nat.{bit_or}
use index_research.Prelude.Bits.{bit_or-shift}
use index_research.Prelude.Memory.{Mem, IsMem, store}
use native.Mathlib.Decide.{dec_lt}
use index_research.Util.Address.{
  Written, digits_loop, swap_loop, ptr_to_bytes, bytes_loop, bytes_to_ptr,
}

-- The bytes of `x` in `n` places, highest first, for what the reader makes of them.
abbrev Places : Mem → ℕ → ℕ → ℕ → Type 0
Places m a zero x = x ≡ 0
Places m a (suc n) x = (m (a + n) ≡ x % 256) × Places m a n (x / 256)

bytes_loop-suc :
    (n : ℕ) (m : Mem) (a ret : ℕ)
    → bytes_loop (suc n) m a ret ≡ bit_or (bytes_loop n m a ret * 2 ^ 8 % 2 ^ 64) (m (a + n))
unfolding bytes_loop
bytes_loop-suc zero m a ret = ap (λ c. bit_or (ret * 2 ^ 8 % 2 ^ 64) (m c)) (omega arith)
bytes_loop-suc (suc n) m a ret =
    bytes_loop-suc n m (a + 1) (bit_or (ret * 2 ^ 8 % 2 ^ 64) (m a))
    ∙ ap (λ c. bit_or (bytes_loop (suc n) m a ret * 2 ^ 8 % 2 ^ 64) (m c)) (omega arith)

high_part : (x : ℕ) → x < 2 ^ 64 → x / 256 * 2 ^ 8 % 2 ^ 64 ≡ x / 256 * 2 ^ 8
high_part x h = omega arith

bytes_loop-Places :
    (n : ℕ) (m : Mem) (a x : ℕ) → x < 2 ^ 64 → Places m a n x → bytes_loop n m a 0 ≡ x
unfolding bytes_loop
bytes_loop-Places zero m a x h p = sym p
bytes_loop-Places (suc n) m a x h p =
    bytes_loop-suc n m a 0
    ∙ rw (bytes_loop-Places n m a (x / 256) (omega arith) p.1, p.0, high_part x h)
        (bit_or-shift 8 (x / 256) (x % 256) (omega arith) ∙ omega arith)

-- The bytes of `x` in `n` places, lowest first, as the loop of the writer leaves them.
abbrev LowFirst : Mem → ℕ → ℕ → ℕ → Type 0
LowFirst m a zero x = x ≡ 0
LowFirst m a (suc n) x = (m a ≡ x % 256) × LowFirst m (a + 1) n (x / 256)

relocate-LowFirst : (m : Mem) {a a' : ℕ} → a ≡ a' → (x n : ℕ) → LowFirst m a n x → LowFirst m a' n x
relocate-LowFirst m e x n p = rw e at p

reversed-Places :
    (n : ℕ) (m m' : Mem) (a a' x : ℕ)
    → ((i : ℕ) → i < n → m' (a' + i) ≡ m (a + (n - i - 1)))
    → LowFirst m a n x
    → Places m' a' n x
reversed-Places zero m m' a a' x r p = p
reversed-Places (suc n) m m' a a' x r p = (
  r n (omega arith) ∙ ap m (omega arith) ∙ p.0,
  reversed-Places n m m' (a + 1) a' (x / 256) (λ i h. r i (omega arith) ∙ ap m (omega arith)) p.1,
)

-- One swap.
abbrev swapped : Mem → ℕ → ℕ → ℕ → Mem
swapped m a l i = store (store m (a + i) (m (a + (l - i - 1)))) (a + (l - i - 1)) (m (a + i))

-- What the swaps from `i` on do to byte `q`.
swap_loop_out :
    (left : ℕ) (m : Mem) (a l i q : ℕ)
    → i + left ≤ l - i - left
    → (q < i) ⊎ (l - i ≤ q)
    → swap_loop left m a l i (a + q) ≡ m (a + q)
unfolding swap_loop
swap_loop_out zero m a l i q e h = refl
swap_loop_out (suc left) m a l i q e h =
    swap_loop_out left (swapped m a l i) a l (i + 1) q (omega arith) (omega arith) ∙ ground arith

swapped-IsMem : (m : Mem) (a l i : ℕ) → IsMem m → IsMem (swapped m a l i)
swapped-IsMem m a l i b q = ground (arith, b q)

swap_loop_in :
    (left : ℕ) (m : Mem) (a l i q : ℕ)
    → IsMem m
    → i + left ≡ l / 2
    → i ≤ q
    → q < l - i
    → swap_loop left m a l i (a + q) ≡ m (a + (l - q - 1))
unfolding swap_loop
swap_loop_in zero m a l i q b e h k = ap m (omega arith)
swap_loop_in (suc left) m a l i q b e h k = elim (dec_lt i q) [
  | no c ↦
      swap_loop_out left (swapped m a l i) a l (i + 1) q (omega arith) (inl (omega arith))
      ∙ swapped_at q (omega arith)
  | yes c ↦ elim (dec_lt q (l - i - 1)) [
    | no d ↦
        swap_loop_out left (swapped m a l i) a l (i + 1) q (omega arith) (inr (omega arith))
        ∙ swapped_at q (omega arith)
    | yes d ↦
        swap_loop_in left (swapped m a l i) a l (i + 1) q (swapped-IsMem m a l i b) (omega arith)
          (omega arith) (omega arith)
        ∙ ground arith
  ]
]
  where
    swapped_at : (p : ℕ) → (p ≡ i) ⊎ (p ≡ l - i - 1) → swapped m a l i (a + p) ≡ m (a + (l - p - 1))
    swapped_at p (inl c) = rw c (ground (arith, b (a + (l - i - 1))))
    swapped_at p (inr c) =
        let back : l - (l - i - 1) - 1 ≡ i = omega arith in rw (c, back) (ground (arith, b (a + i)))

-- A number of at most `n` bytes.
abbrev Fits : ℕ → ℕ → Type 0
Fits zero x = x ≡ 0
Fits (suc n) x = Fits n (x / 256)

digits_loop_lem :
    (fuel : ℕ) (m : Mem) (a l x : ℕ)
    → IsMem m
    → Fits fuel x
    → let out = digits_loop fuel m a l x in
      (n : ℕ) × (out.len ≡ l + n)
      × LowFirst out.mem (a + l) n x
      × IsMem out.mem
      × ((q : ℕ) → q < a + l → out.mem q ≡ m q)
unfolding digits_loop
digits_loop_lem zero m a l x b f = (0, omega arith, f, b, λ q h. refl)
digits_loop_lem (suc fuel) m a l x b f = elim (dec_lt 0 x) [
  | no c ↦
      let z : (x == 0) ≡ true = ground arith in rw z (0, omega arith, omega arith, b, λ q h. refl)
  | yes c ↦
      let z : (x == 0) ≡ false = ground arith in
      let m' = store m (a + l) x in
      let ih = digits_loop_lem fuel m' a (l + 1) (x / 256) (λ q. ground (arith, b q)) f in
      rw z (
        suc ih.0,
        ih.1 ∙ omega arith,
        (
          ih.4 (a + l) (omega arith) ∙ ground arith,
          relocate-LowFirst _ (omega arith) (x / 256) ih.0 ih.2,
        ),
        ih.3,
        λ q h. ih.4 q (omega arith) ∙ ground arith,
      )
]

Fits_lem : (x : ℕ) → x < 2 ^ 64 → Fits 8 x
Fits_lem x h = omega arith

-- The swaps and the reader, on the memory that the first loop leaves.
assembled :
    (out : Written) (p x n : ℕ)
    → out.len ≡ n
    → IsMem out.mem
    → LowFirst out.mem (p + 1) n x
    → 0 < x
    → x < 2 ^ 64
    → (0 < out.len)
      × (bytes_to_ptr (swap_loop (out.len / 2) out.mem (p + 1) out.len 0) p out.len ≡ x)
unfolding bytes_to_ptr
assembled out p x zero e b low h k = absurd (omega (arith, low, h))
assembled out p x (suc n) e b low h k =
    rw e (omega arith, bytes_loop-Places (suc n) _ (p + 1) x k places)
  where
    places : Places (swap_loop (suc n / 2) out.mem (p + 1) (suc n) 0) (p + 1) (suc n) x
    places =
        reversed-Places (suc n) out.mem (swap_loop (suc n / 2) out.mem (p + 1) (suc n) 0) (p + 1)
          (p + 1) x
          (λ i l.
            swap_loop_in (suc n / 2) out.mem (p + 1) (suc n) 0 i b (omega arith) (omega arith)
              (omega arith))
          low

-- A page number that is not 0 is written in at least one byte and read back from them.
pub bytes_to_ptr-ptr_to_bytes :
    (m : Mem) (p x : ℕ)
    → IsMem m
    → 0 < x
    → x < 2 ^ 64
    → let out = ptr_to_bytes m (p + 1) x in (0 < out.len) × (bytes_to_ptr out.mem p out.len ≡ x)
unfolding ptr_to_bytes
bytes_to_ptr-ptr_to_bytes m p x b h k =
    let d = digits_loop_lem 8 m (p + 1) 0 x b (Fits_lem x k) in
    assembled (digits_loop 8 m (p + 1) 0 x) p x d.0 (d.1 ∙ omega arith) d.3
      (relocate-LowFirst _ (omega arith) x d.0 d.2) h k
