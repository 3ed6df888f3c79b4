-- ===== src/Page/Split/Starts.antt =====
-- Where the copy of each record begins, and a record that is moved.
use index_research.Prelude.{ℕ, zero, suc, ◌+◌, ◌≤◌, ◌<◌, ◌≡◌, refl, ap, ◌∙◌, arith}
use index_research.Prelude.Memory.{Mem, read_bytes_ext}
use native.Mathlib.Decide.{dec_lt}
use index_research.Page.{filled_size, get_kv_last_pos, get_ptr}
use index_research.Page.View.{rec_in, key_in, value_in, size_in, value_pos}
use index_research.Page.Split.{record_len}

-- The bytes of record `j`.
abbrev pub size_at : Mem → ℕ → ℕ
size_at b j = size_in b (get_ptr b j)

-- The place of the copy of record `j`: the records before it are packed from `at` on.
pub start : Mem → ℕ → ℕ → ℕ
start b at zero = at
start b at (suc j) = start b at j + size_at b j

-- The records of a block, packed, fit where they lie.
abbrev pub FitsPacked : ℕ → Mem → Type 0
FitsPacked size b = start b (get_kv_last_pos b) (filled_size b) ≤ size

pub record_len-size_in : (b : Mem) (a : ℕ) → record_len b a ≡ size_in b a
unfolding record_len
record_len-size_in b a =
    let e : b (a + (b a + 1)) ≡ b (value_pos b a) = ap b (omega arith) in omega (arith, e)

pub start_suc : (b : Mem) (at j : ℕ) → start b at (suc j) ≡ start b at j + size_at b j
unfolding start
start_suc b at j = refl

pub start_zero : (b : Mem) (at : ℕ) → start b at 0 ≡ at
unfolding start
start_zero b at = refl

pub start-le : (b : Mem) (at j : ℕ) → at ≤ start b at j
unfolding start
start-le b at zero = omega arith
start-le b at (suc j) = omega (arith, start-le b at j)

pub start_mono : (b : Mem) (at i j : ℕ) → i ≤ j → start b at i ≤ start b at j
unfolding start
start_mono b at i zero h = let e : i ≡ 0 = omega arith in rw e (omega arith)
start_mono b at i (suc j) h = elim (dec_lt i (suc j)) [
  | yes l ↦ omega (arith, start_mono b at i j (omega arith))
  | no l ↦ let e : i ≡ suc j = omega arith in rw e (omega arith)
]

-- The copy of a record ends where that of a later one begins, or before.
pub start_apart : (b : Mem) (at i j : ℕ) → i < j → start b at i + size_at b i ≤ start b at j
start_apart b at i j h = omega (arith, start_mono b at (suc i) j h, start_suc b at i)

-- A record whose bytes stand at `a'` is the same record.
module _ (b b' : Mem) (a a' : ℕ) (same : (q : ℕ) → q < size_in b a → b' (a' + q) ≡ b (a + q)) where
  moved_key_len : b' a' ≡ b a
  moved_key_len = ap b' (omega arith) ∙ same 0 (omega arith) ∙ ap b (omega arith)

  moved_value_len : b' (value_pos b' a') ≡ b (value_pos b a)
  moved_value_len =
      rw moved_key_len (ap b' (omega arith) ∙ same (1 + b a) (omega arith) ∙ ap b (omega arith))

  pub moved-size_in : size_in b' a' ≡ size_in b a
  moved-size_in = omega (arith, moved_key_len, moved_value_len)

  pub moved-rec_in : rec_in b' a' ≡ rec_in b a
  moved-rec_in = λ i. record { key = key_eq i; value = value_eq i }
    where
      key_eq : key_in b' a' ≡ key_in b a
      key_eq = rw moved_key_len (
          read_bytes_ext b' b (a' + 1) (a + 1) (b a)
            (λ i p. ap b' (omega arith) ∙ same (1 + i) (omega arith) ∙ ap b (omega arith)))

      value_eq : value_in b' a' ≡ value_in b a
      value_eq =
          rw (moved_value_len, moved_key_len)
            (read_bytes_ext b' b (a' + 1 + b a + 1) (a + 1 + b a + 1) (b (value_pos b a)) (λ i p.
              ap b' (omega arith) ∙ same (1 + b a + 1 + i) (omega arith) ∙ ap b (omega arith)))
