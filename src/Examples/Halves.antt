-- ===== src/Examples/Halves.antt =====
-- `split` at a full leaf of 24 bytes with three records.
use index_research.Prelude.{
  ℕ, zero, suc, ◌+◌, ◌/◌, ◌<◌, ◌≤◌, ◌≡◌, refl, ap, inl, List, [], ◌∷◌, some, true, false, get_or,
  IsBytes-get_or, arith,
}
use index_research.Prelude.Memory.{Mem, IsMem}
use index_research.Util.Codec.{get_int}
use index_research.Page.{is_leaf, filled_size, get_kv_last_pos, get_ptr}
use index_research.Page.View.{rec, IsPage, size_in}
use index_research.Page.Separator.Laws.{FirstDiffer}
use index_research.Page.Split.{Halves, split}
use index_research.Page.Split.Starts.{FitsPacked, start, start_suc, start_zero}
use index_research.Page.Split.Laws.{IsSplit, split-IsSplit}
use index_research.Examples.Pages.{zeros, zeros_bytes}

abbrev record_of : ℕ → List ℕ → List ℕ
record_of key rest = 1 ∷ key ∷ 1 ∷ 49 ∷ rest

abbrev three_bytes : List ℕ
three_bytes =
    0x80
    ∷ 0
    ∷ 3
    ∷ 0
    ∷ 12
    ∷ 1
    ∷ 0
    ∷ 12
    ∷ 0
    ∷ 16
    ∷ 0
    ∷ 20
    ∷ record_of 97 (record_of 98 (record_of 99 []))

abbrev three : Mem
three i = get_or three_bytes i 0

program : Unit {0}
unfolding is_leaf get_int filled_size get_kv_last_pos get_ptr rec
program = tt

abbrev key_of : ℕ → List ℕ
key_of i = (97 + i) ∷ []

header : (filled_size three ≡ 3) × (get_kv_last_pos three ≡ 12) × (is_leaf three ≡ true)
unfolding program
header = (refl, refl, refl)

-- The record `i` is at 12 + 4 * i.
abbrev IsRecord : ℕ → Type 0
IsRecord i =
    (get_ptr three i ≡ 12 + (i + i + i + i))
    × (size_in three (get_ptr three i) ≡ 4)
    × ((rec three i).key ≡ key_of i)

is_record : (i : ℕ) → i < 3 → IsRecord i
unfolding program
is_record zero h = (refl, refl, refl)
is_record (suc zero) h = (refl, refl, refl)
is_record (suc (suc zero)) h = (refl, refl, refl)
is_record (suc (suc (suc i))) h = absurd (omega (arith, h))

below_three : (i : ℕ) → i < filled_size three → i < 3
below_three i h = omega (arith, h, header.0)

three-IsMem : IsMem three
three-IsMem i = IsBytes-get_or three_bytes i (omega arith)

three-IsPage : IsPage 24 three
three-IsPage = record {
  bytes = three-IsMem;
  small = omega arith;
  room = omega (arith, header.0, header.1);
  top = omega (arith, header.1);
  low = λ i h. let r = is_record i (below_three i h) in omega (arith, header.1, r.0);
  high = λ i h. let r = is_record i (below_three i h) in omega (arith, r.0, r.1, below_three i h);
  apart = λ i j h k.
      let r = is_record i (omega (arith, h, below_three j k)) in
      let q = is_record j (below_three j k) in inl (omega (arith, r.0, r.1, q.0, h));
  sorted = λ i j h k.
      let r = is_record i (omega (arith, h, below_three j k)) in
      let q = is_record j (below_three j k) in rw r.2 (rw q.2 (inl (omega (arith, h))));
}

fits : FitsPacked 24 three
fits =
    let r0 = is_record 0 (omega arith) in
    let r1 = is_record 1 (omega arith) in
    let r2 = is_record 2 (omega arith) in
    omega (
      arith,
      ap (start three (get_kv_last_pos three)) header.0,
      start_suc three (get_kv_last_pos three) 0,
      start_suc three (get_kv_last_pos three) 1,
      start_suc three (get_kv_last_pos three) 2,
      start_zero three (get_kv_last_pos three),
      header.1,
      r0.1,
      r1.1,
      r2.1,
    )

differ : (j : ℕ) → j ≤ filled_size three / 2 → FirstDiffer (rec three j).key (rec three (j + 1)).key
differ j h =
    let r = is_record j (omega (arith, h, header.0)) in
    let q = is_record (j + 1) (omega (arith, h, header.0)) in
    rw r.2 (rw q.2 (0, omega arith, omega arith, (λ p l. absurd (omega (arith, l))), omega arith))

split-IsSplit_example :
    (k : ℕ) × (h : Halves) × (split zeros false 24 255 three ≡ some h) × IsSplit 24 255 three k h
split-IsSplit_example =
    split-IsSplit three-IsPage false 255 fits zeros_bytes (omega (arith, header.0)) (omega arith)
      (λ leaf. differ)
