-- ===== src/Madras/Vint32.antt =====
-- `vint32` of src/madras_blk/gen.hpp and src/madras_blk/vint.hpp: groups of seven bits, the highest
-- first.
pub mod RoundTrip
use Prim.Native.Nat.{bit_and}
use index_research.Prelude.{
  ℕ, zero, suc, ◌+◌, ◌-◌, ◌*◌, ◌/◌, ◌%◌, ◌^◌, List, [], ◌∷◌, ◌++◌, if◌then◌else◌, ◌==◌, ltb,
}
use index_research.Prelude.Memory.{Mem, store}
use index_research.Madras.Vint.{Taken}

unfoldable pub get_vlen_of_uint32 : ℕ → ℕ
get_vlen_of_uint32 vint =
    if ltb vint (2 ^ 7)
    then 1
    else if ltb vint (2 ^ 14)
    then 2
    else if ltb vint (2 ^ 21)
    then 3
    else if ltb vint (2 ^ 28)
    then 4
    else 5

-- The `for` loop with `i` rounds left, and the last byte.
unfoldable pub copy_vint_loop : Mem → ℕ → ℕ → ℕ → Mem
copy_vint_loop m out zero input = store m out (bit_and input 0x7f)
copy_vint_loop m out (suc i) input =
    copy_vint_loop (store m out (0x80 + bit_and (input / 2 ^ (7 * suc i)) 0x7f)) (out + 1) i input

-- `vlen` is at most 5.
unfoldable pub copy_vint32 : ℕ → Mem → ℕ → ℕ → Mem
unfolding copy_vint_loop
copy_vint32 input m out vlen = copy_vint_loop m out (vlen - 1) input

unfoldable pub append_vint_loop : List ℕ → ℕ → ℕ → List ℕ
append_vint_loop vec zero vint = vec ++ bit_and vint 0x7f ∷ []
append_vint_loop vec (suc i) vint =
    append_vint_loop (vec ++ (0x80 + bit_and (vint / 2 ^ (7 * suc i)) 0x7f) ∷ []) i vint

unfoldable pub append_vint32 : List ℕ → ℕ → List ℕ
unfolding append_vint_loop get_vlen_of_uint32
append_vint32 vec vint = append_vint_loop vec (get_vlen_of_uint32 vint - 1) vint

-- The `do` loop with `len` bytes to go, out of five; at least one is read.
unfoldable pub read_vint_loop : Mem → ℕ → ℕ → ℕ → Taken
read_vint_loop m ptr zero ret = record { value = ret; len = 5 }
read_vint_loop m ptr (suc len) ret =
    let ret' = (ret * 2 ^ 7 % 2 ^ 32 + bit_and (m ptr) 0x7f) % 2 ^ 32 in
    let rest = read_vint_loop m (ptr + 1) len ret' in
    if m ptr / 2 ^ 7 == 0 then record { value = ret'; len = 5 - len } else rest

unfoldable pub read_vint32 : Mem → ℕ → Taken
unfolding read_vint_loop
read_vint32 m ptr = read_vint_loop m ptr 5 0
