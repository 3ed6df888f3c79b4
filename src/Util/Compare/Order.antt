-- ===== src/Util/Compare/Order.antt =====
-- The order of keys that `util::compare` decides, and what its result says.
use index_research.Prelude.{ℕ, zero, suc, ◌+◌, ◌<◌, ◌≡◌, refl, ◌⊎◌, inl, inr, ◌≢◌}
use index_research.Prelude.{List, [], ◌∷◌, arith, ◌==◌, if◌then◌else◌, lt→ltb, le→not_ltb, tri}
use index_research.Prelude.Int.{ℤ, pos, negsuc, neg}
use index_research.Util.Compare.{compare, compare_loop}

-- Lexicographic order on bytes, a proper prefix first.
abbrev pub KeyLt : List ℕ → List ℕ → Type 0
KeyLt xs [] = ⊥
KeyLt [] (y ∷ ys) = Unit {0}
KeyLt (x ∷ xs) (y ∷ ys) = (x < y) ⊎ ((x ≡ y) × KeyLt xs ys)

pub KeyLt-irrefl : (xs : List ℕ) → ¬ KeyLt xs xs
KeyLt-irrefl [] h = h
KeyLt-irrefl (x ∷ xs) (inl h) = omega arith
KeyLt-irrefl (x ∷ xs) (inr h) = KeyLt-irrefl xs h.1

pub KeyLt-trans : (xs ys zs : List ℕ) → KeyLt xs ys → KeyLt ys zs → KeyLt xs zs
KeyLt-trans xs ys [] h k = k
KeyLt-trans xs [] (z ∷ zs) h k = absurd h
KeyLt-trans [] (y ∷ ys) (z ∷ zs) h k = tt
KeyLt-trans (x ∷ xs) (y ∷ ys) (z ∷ zs) (inl h) (inl k) = inl (omega arith)
KeyLt-trans (x ∷ xs) (y ∷ ys) (z ∷ zs) (inl h) (inr k) = inl (omega arith)
KeyLt-trans (x ∷ xs) (y ∷ ys) (z ∷ zs) (inr h) (inl k) = inl (omega arith)
KeyLt-trans (x ∷ xs) (y ∷ ys) (z ∷ zs) (inr h) (inr k) =
    inr (omega arith, KeyLt-trans xs ys zs h.1 k.1)

-- What a result of `compare` says of the two keys.
abbrev pub Decides : List ℕ → List ℕ → ℤ → Type 0
Decides xs ys (pos zero) = xs ≡ ys
Decides xs ys (pos (suc k)) = KeyLt ys xs
Decides xs ys (negsuc k) = KeyLt xs ys

Decides-cons :
    (x y : ℕ) (xs ys : List ℕ) (c : ℤ) → x ≡ y → Decides xs ys c → Decides (x ∷ xs) (y ∷ ys) c
Decides-cons x y xs ys (pos zero) e d = cc
Decides-cons x y xs ys (pos (suc k)) e d = inr (omega arith, d)
Decides-cons x y xs ys (negsuc k) e d = inr (e, d)

compare_loop-Decides : (xs ys : List ℕ) (k : ℕ) → Decides xs ys (compare_loop xs ys k)
unfolding compare_loop
compare_loop-Decides [] [] k = refl
compare_loop-Decides [] (y ∷ ys) k = tt
compare_loop-Decides (x ∷ xs) [] k = tt
compare_loop-Decides (x ∷ xs) (y ∷ ys) k = elim (tri x y) [
  | inl h ↦ rw (lt→ltb x y h) (inl h)
  | inr (inl h) ↦ rw (le→not_ltb x y (omega arith), lt→ltb y x h) (inl h)
  | inr (inr e) ↦
      rw (le→not_ltb x y (omega arith), le→not_ltb y x (omega arith))
        (Decides-cons x y xs ys (compare_loop xs ys (suc k)) e (compare_loop-Decides xs ys (suc k)))
]

-- The sign of the result is the order of the keys: negative, zero or positive exactly when the
-- first key is below, equal to or above the second.
pub compare-Decides : (xs ys : List ℕ) → Decides xs ys (compare xs ys)
unfolding compare
compare-Decides xs ys = compare_loop-Decides xs ys 0

compare_loop-neg : (xs ys : List ℕ) (k : ℕ) → compare_loop ys xs k ≡ neg (compare_loop xs ys k)
unfolding compare_loop
compare_loop-neg [] [] k = refl
compare_loop-neg [] (y ∷ ys) k = refl
compare_loop-neg (x ∷ xs) [] k = refl
compare_loop-neg (x ∷ xs) (y ∷ ys) k = elim (tri x y) [
  | inl h ↦ rw (lt→ltb x y h, le→not_ltb y x (omega arith))
  | inr (inl h) ↦ rw (le→not_ltb x y (omega arith), lt→ltb y x h)
  | inr (inr e) ↦
      rw (le→not_ltb x y (omega arith), le→not_ltb y x (omega arith))
        (compare_loop-neg xs ys (suc k))
]

-- Swapping the keys negates the result.
pub compare-neg : (xs ys : List ℕ) → compare ys xs ≡ neg (compare xs ys)
unfolding compare
compare-neg xs ys = compare_loop-neg xs ys 0

-- The number of bytes that the keys share at their start.
abbrev pub common_prefix : List ℕ → List ℕ → ℕ
common_prefix [] ys = 0
common_prefix (x ∷ xs) [] = 0
common_prefix (x ∷ xs) (y ∷ ys) = if x == y then suc (common_prefix xs ys) else 0

abbrev pub abs : ℤ → ℕ
abs (pos n) = n
abs (negsuc n) = suc n

abs-compare_loop :
    (xs ys : List ℕ) (k : ℕ)
    → (xs ≡ ys) ⊎ (abs (compare_loop xs ys k) ≡ suc (k + common_prefix xs ys))
unfolding compare_loop
abs-compare_loop [] [] k = inl refl
abs-compare_loop [] (y ∷ ys) k = inr (omega arith)
abs-compare_loop (x ∷ xs) [] k = inr (omega arith)
abs-compare_loop (x ∷ xs) (y ∷ ys) k = ground (arith, abs-compare_loop xs ys (suc k))

-- Of different keys the result tells how many bytes they share: its absolute value is one more.
pub abs-compare : (xs ys : List ℕ) → xs ≢ ys → abs (compare xs ys) ≡ suc (common_prefix xs ys)
unfolding compare
abs-compare xs ys ne = ground (arith, abs-compare_loop xs ys 0)
