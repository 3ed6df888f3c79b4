-- ===== src/Util/Address.antt =====
-- Page numbers as byte strings: `ptr_to_bytes` and `bytes_to_ptr` of src/univix_util.h.
pub mod RoundTrip
use Prim.Native.Nat.{bit_or}
use index_research.Prelude.{ℕ, zero, suc, ◌+◌, ◌-◌, ◌*◌, ◌/◌, ◌%◌, ◌^◌, ◌==◌, if◌then◌else◌}
use index_research.Prelude.Memory.{Mem, store}

-- The memory and the result `l`.
pub record Written : Type 0 where
  pub mem : Mem
  pub len : ℕ

-- The `while` loop: the bytes of the number, lowest first. An unsigned long has at most eight.
unfoldable pub digits_loop : ℕ → Mem → ℕ → ℕ → ℕ → Written
digits_loop zero m addr l addr_num = record { mem = m; len = l }
digits_loop (suc fuel) m addr l addr_num =
    let rest = digits_loop fuel (store m (addr + l) addr_num) addr (l + 1) (addr_num / 2 ^ 8) in
    if addr_num == 0 then record { mem = m; len = l } else rest

-- The `for` loop with `left` rounds to go, at `i`.
unfoldable pub swap_loop : ℕ → Mem → ℕ → ℕ → ℕ → Mem
swap_loop zero m addr l i = m
swap_loop (suc left) m addr l i =
    let b = m (addr + i) in
    let m' = store m (addr + i) (m (addr + (l - i - 1))) in
    swap_loop left (store m' (addr + (l - i - 1)) b) addr l (i + 1)

unfoldable pub ptr_to_bytes : Mem → ℕ → ℕ → Written
unfolding digits_loop swap_loop
ptr_to_bytes m addr addr_num =
    let digits = digits_loop 8 m addr 0 addr_num in
    record { mem = swap_loop (digits.len / 2) digits.mem addr digits.len 0; len = digits.len }

-- The `do` loop with `len` bytes to go, `len` not 0.
unfoldable pub bytes_loop : ℕ → Mem → ℕ → ℕ → ℕ
bytes_loop zero m addr ret = ret
bytes_loop (suc len) m addr ret =
    bytes_loop len m (addr + 1) (bit_or (ret * 2 ^ 8 % 2 ^ 64) (m addr))

-- `bytes_to_ptr(addr, len)`; the byte at `addr` holds the length and is passed over.
unfoldable pub bytes_to_ptr : Mem → ℕ → ℕ → ℕ
unfolding bytes_loop
bytes_to_ptr m addr len = bytes_loop len m (addr + 1) 0
