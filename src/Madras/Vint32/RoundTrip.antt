-- ===== src/Madras/Vint32/RoundTrip.antt =====
-- `vint32` of the static trie is that of src/univix_util.h.
use Prim.Native.Nat.{bit_and}
use index_research.Prelude.{
  ℕ, zero, suc, ◌+◌, ◌-◌, ◌*◌, ◌/◌, ◌%◌, ◌^◌, ◌<◌, ◌≡◌, ◌∙◌, ap, sym, refl, arith,
}
use index_research.Prelude.Memory.{Mem, store, IsMem}
use index_research.Util.Varint
use index_research.Util.Varint.{Read, write_groups, read_groups, write_vint32}
use index_research.Util.Varint.RoundTrip.{read_vint32-write_vint32}
use index_research.Madras.Svint.RoundTrip.{sign_bit}
use index_research.Madras.Vint.{Taken}
use index_research.Madras.Vint32.{
  get_vlen_of_uint32, copy_vint_loop, copy_vint32, read_vint_loop, read_vint32,
}

get_vlen_same : (x : ℕ) → get_vlen_of_uint32 x ≡ Varint.get_vlen_of_uint32 x
unfolding get_vlen_of_uint32 Varint.get_vlen_of_uint32
get_vlen_same x = ground arith

copy_vint_loop-write_groups :
    (i : ℕ) (m : Mem) (p x : ℕ) → copy_vint_loop m p i x ≡ write_groups m p i x
unfolding copy_vint_loop write_groups
copy_vint_loop-write_groups zero m p x = refl
copy_vint_loop-write_groups (suc i) m p x =
    copy_vint_loop-write_groups i (store m p (0x80 + bit_and (x / 2 ^ (7 * suc i)) 0x7f)) (p + 1) x

store-IsMem : (m : Mem) (p b : ℕ) → IsMem m → IsMem (store m p b)
store-IsMem m p b h q = ground (arith, h q)

copy_vint_loop-IsMem : (i : ℕ) (m : Mem) (p x : ℕ) → IsMem m → IsMem (copy_vint_loop m p i x)
unfolding copy_vint_loop
copy_vint_loop-IsMem zero m p x h = store-IsMem m p (bit_and x 0x7f) h
copy_vint_loop-IsMem (suc i) m p x h =
    copy_vint_loop-IsMem i (store m p (0x80 + bit_and (x / 2 ^ (7 * suc i)) 0x7f)) (p + 1) x
      (store-IsMem m p (0x80 + bit_and (x / 2 ^ (7 * suc i)) 0x7f) h)

-- The test of the top bit by a shift is that by a mask.
read_vint_loop-read_groups :
    (len : ℕ) (m : Mem) (p ret : ℕ)
    → IsMem m
    → len < 6
    → let s = read_groups 32 m p len ret in
      read_vint_loop m p len ret ≡ record { value = s.ret; len = 5 - s.left }
unfolding read_vint_loop read_groups
read_vint_loop-read_groups zero m p ret h few = refl
read_vint_loop-read_groups (suc len) m p ret h few = ground (
  arith,
  h p,
  sign_bit (m p) (h p),
  read_vint_loop-read_groups len m (p + 1) ((ret * 2 ^ 7 % 2 ^ 32 + bit_and (m p) 0x7f) % 2 ^ 32) h
      (omega arith),
)

abbrev taken : Read → Taken
taken r = record { value = r.value; len = r.vlen }

read_same : (m : Mem) (p : ℕ) → IsMem m → read_vint32 m p ≡ taken (Varint.read_vint32 m p)
unfolding read_vint32 Varint.read_vint32
read_same m p h = read_vint_loop-read_groups 5 m p 0 h (omega arith)

copy_vint32-IsMem : (x : ℕ) (m : Mem) (p n : ℕ) → IsMem m → IsMem (copy_vint32 x m p n)
unfolding copy_vint32
copy_vint32-IsMem x m p n h = copy_vint_loop-IsMem (n - 1) m p x h

copy_vint32-write_vint32 :
    (m : Mem) (p x : ℕ) → copy_vint32 x m p (get_vlen_of_uint32 x) ≡ (write_vint32 m p x).mem
unfolding copy_vint32 write_vint32
copy_vint32-write_vint32 m p x =
    copy_vint_loop-write_groups (get_vlen_of_uint32 x - 1) m p x
    ∙ ap (λ k. write_groups m p (k - 1) x) (get_vlen_same x)

len_same : (m : Mem) (p x : ℕ) → (write_vint32 m p x).len ≡ get_vlen_of_uint32 x
unfolding write_vint32
len_same m p x = sym (get_vlen_same x)

-- A uint32_t that `copy_vint32` stores in the length of `get_vlen_of_uint32` is read back with its
-- length, and what is stored is what `write_vint32` of src/univix_util.h stores.
pub read_vint32-copy_vint32 :
    (m : Mem) (p x : ℕ)
    → IsMem m
    → x < 2 ^ 32
    → let n = get_vlen_of_uint32 x in
      (read_vint32 (copy_vint32 x m p n) p ≡ record { value = x; len = n })
      × (copy_vint32 x m p n ≡ (write_vint32 m p x).mem)
read_vint32-copy_vint32 m p x bytes h =
    let m' = copy_vint32 x m p (get_vlen_of_uint32 x) in
    (
      read_same m' p (copy_vint32-IsMem x m p (get_vlen_of_uint32 x) bytes)
          ∙ ap (λ (c : Mem). taken (Varint.read_vint32 c p)) (copy_vint32-write_vint32 m p x)
          ∙ ap taken (read_vint32-write_vint32 m p x h)
          ∙ ap (λ k. record { value = x; len = k }) (len_same m p x),
      copy_vint32-write_vint32 m p x,
    )
