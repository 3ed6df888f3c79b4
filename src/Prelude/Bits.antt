-- ===== src/Prelude/Bits.antt =====
-- `&` and `|` of C as arithmetic: low masks and disjoint fields at every width, and tables for
-- the flag bits of one byte.
use Prim.Native.Nat.{ℕ, zero, suc, ◌+◌, ◌-◌, ◌*◌, ◌/◌, ◌%◌, ◌^◌, ◌≤◌, ◌<◌, min, max}
use Prim.Native.Nat.{bit_and, bit_or, digits, bit_and-bitwise, bit_or-bitwise}
use mathlib.Core.Path.{◌≡◌, refl, ap}
use mathlib.Core.Bool.{Bool, true, ◌&&◌}
use native.Mathlib.Nat.{pow-suc, one-le-pow}
use native.Mathlib.Omega.{arith}
use index_research.Prelude.Tests.{◌==◌, ==_iff}

-- The count of digits to go does not matter once it is large enough.
module _ (end : ℕ → ℕ) (op : ℕ → ℕ → ℕ) where
  count_free : (k l x y : ℕ) → x ≤ k → x ≤ l → digits end op k x y ≡ digits end op l x y
  count_free zero zero x y h i = refl
  count_free (suc k) (suc l) zero y h i = refl
  count_free zero (suc l) zero y h i = refl
  count_free (suc k) zero zero y h i = refl
  count_free zero l (suc x) y h i = absurd (omega arith)
  count_free (suc k) zero (suc x) y h i = absurd (omega arith)
  count_free (suc k) (suc l) (suc x) y h i =
      ap (λ t. t * 2 + op (suc x % 2) (y % 2))
        (count_free k l (suc x / 2) (y / 2) (omega arith) (omega arith))

pub bit_or_digit : (x y : ℕ) → bit_or x y ≡ bit_or (x / 2) (y / 2) * 2 + max (x % 2) (y % 2)
bit_or_digit zero y = omega (arith, bit_or-bitwise 0 y, bit_or-bitwise 0 (y / 2))
bit_or_digit (suc x) y = omega (
  arith,
  bit_or-bitwise (suc x) y,
  bit_or-bitwise (suc x / 2) (y / 2),
  count_free (λ t. t) max x (suc x / 2) (suc x / 2) (y / 2) (omega arith) (omega arith),
)

pub bit_and_digit : (x y : ℕ) → bit_and x y ≡ bit_and (x / 2) (y / 2) * 2 + min (x % 2) (y % 2)
bit_and_digit zero y = omega (arith, bit_and-bitwise 0 y, bit_and-bitwise 0 (y / 2))
bit_and_digit (suc x) y = omega (
  arith,
  bit_and-bitwise (suc x) y,
  bit_and-bitwise (suc x / 2) (y / 2),
  count_free (λ t. 0) min x (suc x / 2) (suc x / 2) (y / 2) (omega arith) (omega arith),
)

or_zero_fuel : (k x : ℕ) → x ≤ k → bit_or x 0 ≡ x
or_zero_fuel k zero h = refl
or_zero_fuel zero (suc x) h = absurd (omega arith)
or_zero_fuel (suc k) (suc x) h =
    omega (arith, bit_or_digit (suc x) 0, or_zero_fuel k (suc x / 2) (omega arith))

and_zero_fuel : (k x : ℕ) → x ≤ k → bit_and x 0 ≡ 0
and_zero_fuel k zero h = refl
and_zero_fuel zero (suc x) h = absurd (omega arith)
and_zero_fuel (suc k) (suc x) h =
    omega (arith, bit_and_digit (suc x) 0, and_zero_fuel k (suc x / 2) (omega arith))

double : (q k : ℕ) → q * 2 ^ suc k ≡ 2 * (q * 2 ^ k)
double q k = omega (arith, ap (λ (t : ℕ). q * t) (pow-suc 2 k))

-- `(q << k) | r` where `r` has `k` bits.
pub bit_or-shift : (k q r : ℕ) → r < 2 ^ k → bit_or (q * 2 ^ k) r ≡ q * 2 ^ k + r
bit_or-shift zero q r h = ground (arith, or_zero_fuel q q)
bit_or-shift (suc k) q r h =
    ground
      (arith, bit_or_digit (q * 2 ^ suc k) r, double q k, bit_or-shift k q (r / 2) (omega arith))

-- The same with the fields the other way round.
pub shift-bit_or : (k q r : ℕ) → r < 2 ^ k → bit_or r (q * 2 ^ k) ≡ q * 2 ^ k + r
shift-bit_or zero q r h =
    let e : r ≡ 0 = omega arith in rw e (omega (arith, bit_or-bitwise 0 (q * 2 ^ 0)))
shift-bit_or (suc k) q r h =
    ground
      (arith, bit_or_digit r (q * 2 ^ suc k), double q k, shift-bit_or k q (r / 2) (omega arith))

and_low : (k q r : ℕ) → r < 2 ^ k → bit_and (q * 2 ^ k + r) (2 ^ k - 1) ≡ r
and_low zero q r h = omega (arith, and_zero_fuel (q * 1 + r) (q * 1 + r))
and_low (suc k) q r h = ground (
  arith,
  bit_and_digit (q * 2 ^ suc k + r) (2 ^ suc k - 1),
  double q k,
  pow-suc 2 k,
  and_low k q (r / 2) (omega arith),
)

-- `a & (2^k - 1)`.
pub bit_and_low : (k a : ℕ) → bit_and a (2 ^ k - 1) ≡ a % 2 ^ k
bit_and_low k a = ground (arith, one-le-pow k 2, and_low k (a / 2 ^ k) (a % 2 ^ k))

-- Over a byte every value is checked by evaluation.
abbrev pub all_below : ℕ → (ℕ → Bool) → Bool
all_below zero p = true
all_below (suc n) p = p n && all_below n p

pub all_below_sound : (n : ℕ) (p : ℕ → Bool) (x : ℕ) → all_below n p ≡ true → x < n → p x ≡ true
all_below_sound zero p x h lt = absurd (omega arith)
all_below_sound (suc n) p x h lt = ground (arith, all_below_sound n p x)

-- Two functions of a byte that agree in the table agree.
pub byte_table :
    (f g : ℕ → ℕ) → all_below 256 (λ x. f x == g x) ≡ true → (x : ℕ) → x < 256 → f x ≡ g x
byte_table f g t x h = (==_iff (f x) (g x)).0 (all_below_sound 256 (λ y. f y == g y) x t h)
