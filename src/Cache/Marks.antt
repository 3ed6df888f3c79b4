-- ===== src/Cache/Marks.antt =====
-- `chg_iface_default`: the mark is a bit of the first byte of the block.
use index_research.Prelude.{
  ℕ, zero, suc, ◌+◌, ◌*◌, ◌/◌, ◌%◌, ◌^◌, ◌<◌, ◌≡◌, refl, sym, ◌∙◌, ap, ap₂, Bool, false, not, List,
  [], ◌∷◌, arith, ◌==◌, if◌then◌else◌,
}
use Prim.Native.Nat.{bit_and, bit_or, min}
use index_research.Prelude.Bits.{bit_and_digit, bit_and_low}
use native.Mathlib.Nat.{pow-suc, div-div-eq-div-mul}
use index_research.Cache.Pages.{ChgIface}

bit_and_zero : (x : ℕ) → bit_and x 0 ≡ 0
bit_and_zero x = omega (arith, bit_and_low 0 x)

half : (x m : ℕ) → bit_and x m / 2 ≡ bit_and (x / 2) (m / 2)
half x m = omega (arith, bit_and_digit x m)

lowest : (x m : ℕ) → bit_and x m % 2 ≡ min (x % 2) (m % 2)
lowest x m = omega (arith, bit_and_digit x m)

power_half : (k : ℕ) → 2 ^ suc k / 2 ≡ 2 ^ k
power_half k = omega (arith, pow-suc 2 k)

half_bit : (k m : ℕ) → m / 2 ^ suc k % 2 ≡ 0 → m / 2 / 2 ^ k % 2 ≡ 0
half_bit k m h =
    ap (λ y. y % 2) (div-div-eq-div-mul m 2 (2 ^ k) ∙ ap (λ y. m / y) (omega (arith, pow-suc 2 k)))
    ∙ h

-- A bit that the mask does not have is clear.
cleared : (k x m : ℕ) → m / 2 ^ k % 2 ≡ 0 → bit_and (bit_and x m) (2 ^ k) ≡ 0
cleared zero x m h =
    omega
      (arith, bit_and_digit (bit_and x m) 1, bit_and_zero (bit_and x m / 2), bit_and_digit x m, h)
cleared (suc k) x m h =
    bit_and_digit (bit_and x m) (2 ^ suc k)
    ∙ ap₂ (λ a b. a * 2 + b)
        (ap₂ bit_and (half x m) (power_half k) ∙ cleared k (x / 2) (m / 2) (half_bit k m h)) even
  where
    even : min (bit_and x m % 2) (2 ^ suc k % 2) ≡ 0
    even = omega (arith, pow-suc 2 k)

-- A mask applied twice.
masked : (n x m : ℕ) → m < 2 ^ n → bit_and (bit_and x m) m ≡ bit_and x m
masked zero x m h =
    let e : m ≡ 0 = omega (arith, h) in
    ap (bit_and (bit_and x m)) e
    ∙ bit_and_zero (bit_and x m)
    ∙ sym (ap (bit_and x) e ∙ bit_and_zero x)
masked (suc n) x m h =
    bit_and_digit (bit_and x m) m
    ∙ ap₂ (λ a b. a * 2 + b)
        (ap (λ y. bit_and y (m / 2)) (half x m)
          ∙ masked n (x / 2) (m / 2) (omega (arith, h, pow-suc 2 n)))
        (omega (arith, lowest x m))
    ∙ sym (bit_and_digit x m)

abbrev pub set_block_changed : List ℕ → Bool → List ℕ
set_block_changed [] is_changed = []
set_block_changed (x ∷ xs) is_changed =
    if is_changed then bit_or x 0x40 ∷ xs else bit_and x 0xBF ∷ xs

abbrev pub is_block_changed : List ℕ → Bool
is_block_changed [] = false
is_block_changed (x ∷ xs) = not (bit_and x 0x40 == 0)

pub set_false_lem : (b : List ℕ) → is_block_changed (set_block_changed b false) ≡ false
set_false_lem [] = refl
set_false_lem (x ∷ xs) = rw (cleared 6 x 0xBF refl) refl

pub set_twice_lem :
    (b : List ℕ) → set_block_changed (set_block_changed b false) false ≡ set_block_changed b false
set_twice_lem [] = refl
set_twice_lem (x ∷ xs) = ap (λ y. y ∷ xs) (masked 8 x 0xBF (omega arith))

abbrev pub chg_iface_default : ChgIface (List ℕ)
chg_iface_default = record {
  set_block_changed = set_block_changed;
  is_block_changed = is_block_changed;
  set_false = set_false_lem;
  set_twice = set_twice_lem;
}
