-- ===== src/Prelude/Memory.antt =====
-- Byte memory: what an address holds, with the stores and block moves of C's library.
use Prim.Native.Nat.{ℕ, zero, suc, ◌+◌, ◌-◌, ◌%◌, ◌<◌}
use mathlib.Core.Path.{◌≡◌, refl, ap, ap₂, ◌∙◌}
use mathlib.Core.Bool.{◌&&◌}
use mathlib.Core.List.{List, [], ◌∷◌}
use native.Mathlib.Omega.{arith}
use index_research.Prelude.Tests.{ltb, leb, ◌==◌, if◌then◌else◌}
use index_research.Prelude.Lists.{length, get_or}

-- Addresses are offsets from the start of a block.
abbrev pub Mem : Type 0
Mem = ℕ → ℕ

-- `m[a] = v`: what is stored is the low byte of `v`.
abbrev pub store : Mem → ℕ → ℕ → Mem
store m a v i = if i == a then v % 256 else m i

-- `memcpy(m + dst, src, len)` or `memmove`: `src` is read before anything is written.
abbrev pub move : Mem → ℕ → Mem → ℕ → ℕ → Mem
move m dst src from len i = if leb dst i && ltb i (dst + len) then src (from + (i - dst)) else m i

-- `memcpy(m + dst, xs, length xs)` from an array outside.
abbrev pub move_in : Mem → ℕ → List ℕ → Mem
move_in m dst xs i = if leb dst i && ltb i (dst + length xs) then get_or xs (i - dst) 0 else m i

-- The array of `n` bytes at `a`.
abbrev pub read_bytes : Mem → ℕ → ℕ → List ℕ
read_bytes m a zero = []
read_bytes m a (suc n) = m a ∷ read_bytes m (a + 1) n

-- Every address holds a byte.
abbrev pub IsMem : Mem → Type 0
IsMem m = (i : ℕ) → m i < 256

pub length-read_bytes : (m : Mem) (a n : ℕ) → length (read_bytes m a n) ≡ n
length-read_bytes m a zero = refl
length-read_bytes m a (suc n) = ap suc (length-read_bytes m (a + 1) n)

pub get_or-read_bytes : (m : Mem) (a n i : ℕ) → i < n → get_or (read_bytes m a n) i 0 ≡ m (a + i)
get_or-read_bytes m a zero i h = absurd (omega arith)
get_or-read_bytes m a (suc n) zero h = ap m (omega arith)
get_or-read_bytes m a (suc n) (suc i) h =
    get_or-read_bytes m (a + 1) n i (omega arith) ∙ ap m (omega arith)

-- Two memories that agree on a range hold the same array there, also at another place.
pub read_bytes_ext :
    (m m' : Mem) (a a' n : ℕ)
    → ((i : ℕ) → i < n → m (a + i) ≡ m' (a' + i))
    → read_bytes m a n ≡ read_bytes m' a' n
read_bytes_ext m m' a a' zero h = refl
read_bytes_ext m m' a a' (suc n) h =
    ap₂ ◌∷◌ (ap m (omega arith) ∙ h 0 (omega arith) ∙ ap m' (omega arith)) (
      read_bytes_ext m m' (a + 1) (a' + 1) n
        (λ i p. ap m (omega arith) ∙ h (i + 1) (omega arith) ∙ ap m' (omega arith)))

-- What was copied in is read back.
pub read_bytes_of :
    (m : Mem) (a : ℕ) (xs : List ℕ)
    → ((i : ℕ) → i < length xs → m (a + i) ≡ get_or xs i 0)
    → read_bytes m a (length xs) ≡ xs
read_bytes_of m a [] h = refl
read_bytes_of m a (x ∷ xs) h =
    ap₂ ◌∷◌ (ap m (omega arith) ∙ h 0 (omega arith))
      (read_bytes_of m (a + 1) xs (λ i p. ap m (omega arith) ∙ h (suc i) (omega arith)))
