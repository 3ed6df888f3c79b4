-- ===== src/Page/View.antt =====
-- What a block holds, independent of where its records lie, and when it is well formed.
use index_research.Prelude.{ℕ, ◌+◌, ◌≤◌, ◌<◌, ◌≡◌, refl, ◌⊎◌, List, arith}
use index_research.Prelude.Memory.{Mem, IsMem, read_bytes, read_bytes_ext}
use index_research.Util.Compare.Order.{KeyLt}
use index_research.Page.{ptr_pos, filled_size, get_kv_last_pos, get_ptr}

-- The record at address `a`: a length byte, the key, a length byte, the value.
abbrev pub key_in : Mem → ℕ → List ℕ
key_in b a = read_bytes b (a + 1) (b a)

abbrev pub value_pos : Mem → ℕ → ℕ
value_pos b a = a + 1 + b a

abbrev pub value_in : Mem → ℕ → List ℕ
value_in b a = read_bytes b (value_pos b a + 1) (b (value_pos b a))

abbrev pub size_in : Mem → ℕ → ℕ
size_in b a = b a + b (value_pos b a) + 2

pub record Rec : Type 0 where
  pub key : List ℕ
  pub value : List ℕ

abbrev pub rec_in : Mem → ℕ → Rec
rec_in b a = record { key = key_in b a; value = value_in b a }

-- The record number `i` of a block.
unfoldable pub rec : Mem → ℕ → Rec
rec b i = rec_in b (get_ptr b i)

pub rec_lem : (b : Mem) (i : ℕ) → rec b i ≡ rec_in b (get_ptr b i)
unfolding rec
rec_lem b i = refl

-- The records `i` and `j` share no byte.
abbrev pub Apart : Mem → ℕ → ℕ → Type 0
Apart b i j =
    (get_ptr b i + size_in b (get_ptr b i) ≤ get_ptr b j)
    ⊎ (get_ptr b j + size_in b (get_ptr b j) ≤ get_ptr b i)

-- A block of `size` bytes: the positions end below the records, each record lies inside of the
-- block and apart from the others, and the keys ascend.
pub record IsPage (size : ℕ) (b : Mem) : Type 0 where
  pub bytes : IsMem b
  pub small : size < 65536
  pub room : ptr_pos (filled_size b) ≤ get_kv_last_pos b
  pub top : get_kv_last_pos b ≤ size
  pub low : (i : ℕ) → i < filled_size b → get_kv_last_pos b ≤ get_ptr b i
  pub high : (i : ℕ) → i < filled_size b → get_ptr b i + size_in b (get_ptr b i) ≤ size
  pub apart : (i j : ℕ) → i < j → j < filled_size b → Apart b i j
  pub sorted : (i j : ℕ) → i < j → j < filled_size b → KeyLt (rec b i).key (rec b j).key

-- A record is what its bytes are.
module _ (b b' : Mem) (a : ℕ) (same : (q : ℕ) → a ≤ q → q < a + size_in b a → b' q ≡ b q) where
  key_len_same : b' a ≡ b a
  key_len_same = same a (omega arith) (omega arith)

  value_len_same : b' (value_pos b' a) ≡ b (value_pos b a)
  value_len_same = rw key_len_same (same (value_pos b a) (omega arith) (omega arith))

  pub size_in_ext : size_in b' a ≡ size_in b a
  size_in_ext = omega (arith, key_len_same, value_len_same)

  pub rec_in_ext : rec_in b' a ≡ rec_in b a
  rec_in_ext = λ i. record { key = key_eq i; value = value_eq i }
    where
      key_eq : key_in b' a ≡ key_in b a
      key_eq = rw key_len_same (
          read_bytes_ext b' b (a + 1) (a + 1) (b a)
            (λ i p. same (a + 1 + i) (omega arith) (omega arith)))

      value_eq : value_in b' a ≡ value_in b a
      value_eq =
          rw (value_len_same, key_len_same)
            (read_bytes_ext b' b (value_pos b a + 1) (value_pos b a + 1) (b (value_pos b a))
              (λ i p. same (value_pos b a + 1 + i) (omega arith) (omega arith)))
