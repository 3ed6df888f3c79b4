-- ===== src/Util/Codec/Laws.antt =====
-- Round trips of the fixed-width codecs of src/univix_util.h, and where they fail.
use index_research.Prelude.{ℕ, ◌+◌, ◌*◌, ◌%◌, ◌<◌, ◌≡◌}
use index_research.Prelude.{◌⊎◌, arith}
use index_research.Prelude.Bits.{bit_or-shift}
use index_research.Prelude.Memory.{Mem, IsMem}
use index_research.Util.Codec.{get_int, set_int}

-- `get_int` as arithmetic.
pub get_int_sum :
    (m : Mem) (p : ℕ) → m p < 256 → m (p + 1) < 256 → get_int m p ≡ m p * 256 + m (p + 1)
unfolding get_int
get_int_sum m p h k = omega (arith, bit_or-shift 8 (m p) (m (p + 1)) k)

pub get_int-lt : (m : Mem) (p : ℕ) → get_int m p < 65536
unfolding get_int
get_int-lt m p = omega arith

-- What `set_int` stored is read back, up to the conversion to uint16_t.
pub get_int-set_int : (m : Mem) (p v : ℕ) → get_int (set_int m p v) p ≡ v % 65536
unfolding set_int
get_int-set_int m p v = ground (arith, get_int_sum (set_int m p v) p)

pub set_int_frame : (m : Mem) (p v q : ℕ) → (q < p) ⊎ (p + 1 < q) → set_int m p v q ≡ m q
unfolding set_int
set_int_frame m p v q h = ground arith

pub set_int-IsMem : (m : Mem) (p v : ℕ) → IsMem m → IsMem (set_int m p v)
unfolding set_int
set_int-IsMem m p v h i = ground (arith, h i)

pub get_int_ext :
    (m m' : Mem) (p p' : ℕ) → m p ≡ m' p' → m (p + 1) ≡ m' (p' + 1) → get_int m p ≡ get_int m' p'
unfolding get_int
get_int_ext m m' p p' h k = cc

-- `set_int` leaves every other field alone.
pub get_int-set_int_ne :
    (m : Mem) (p v q : ℕ) → (q + 1 < p) ⊎ (p + 1 < q) → get_int (set_int m p v) q ≡ get_int m q
unfolding set_int
get_int-set_int_ne m p v q h = get_int_ext (set_int m p v) m q q (ground arith) (ground arith)
