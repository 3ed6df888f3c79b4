-- ===== src/Page/Separator/Laws.antt =====
-- Where two neighbouring keys differ in a byte that both have, the key that `split` gives lies between
-- them; where the first is a prefix of the second, the loop may run past the end of the keys.
use index_research.Prelude.{
  ℕ, zero, suc, ◌+◌, ◌-◌, ◌<◌, ◌≤◌, ◌≡◌, ◌≢◌, ap, sym, ◌∙◌, List, [], ◌∷◌, some,
}
use index_research.Prelude.{true, false, refl, length, get_or, arith}
use index_research.Prelude.Int.{negsuc}
use index_research.Prelude.Memory.{Mem, read_bytes, length-read_bytes, get_or-read_bytes}
use native.Mathlib.Decide.{dec_lt}
use index_research.Util.Compare.{compare, compare_loop}
use index_research.Page.{is_leaf, get_ptr}
use index_research.Page.View.{rec}
use index_research.Page.Separator.{separator_loop, split_key}

separator_loop_lem :
    (fuel : ℕ) (b : Mem) (first_idx src_idx t len : ℕ)
    → ((q : ℕ) → q < t → b (first_idx + q + 1) ≡ b (src_idx + q + 1))
    → b (first_idx + t + 1) ≢ b (src_idx + t + 1)
    → len ≤ t
    → t < len + fuel
    → separator_loop b fuel first_idx src_idx len ≡ some t
unfolding separator_loop
separator_loop_lem zero b f s t len same ne l h = absurd (omega arith)
separator_loop_lem (suc fuel) b f s t len same ne l h = elim (dec_lt len t) [
  | yes k ↦
      let rest = separator_loop_lem fuel b f s t (len + 1) same ne (omega arith) (omega arith) in
      let e = same len k in ground (arith, rest, e)
  | no k ↦ let e : len ≡ t = omega arith in rw e (ground (arith, ne))
]

compare_first_difference :
    (xs ys : List ℕ) (i k : ℕ)
    → ((q : ℕ) → q < i → get_or xs q 0 ≡ get_or ys q 0)
    → i < length xs
    → i < length ys
    → get_or xs i 0 < get_or ys i 0
    → compare_loop xs ys k ≡ negsuc (k + i)
unfolding compare_loop
compare_first_difference [] ys i k same h l lt = absurd (omega arith)
compare_first_difference (x ∷ xs) [] i k same h l lt = absurd (omega arith)
compare_first_difference (x ∷ xs) (y ∷ ys) zero k same h l lt = ground arith
compare_first_difference (x ∷ xs) (y ∷ ys) (suc i) k same h l lt =
    let e : x ≡ y = same 0 (omega arith) in
    let rest : compare_loop xs ys (suc k) ≡ negsuc (suc k + i) =
      compare_first_difference xs ys i (suc k) (λ q p. same (suc q) (omega arith)) (omega arith)
        (omega arith) lt in
    ground arith

-- `sep` lies between two keys: it is a start of the second, and differs from the first in its last byte,
-- where it is the larger one.
pub record Separates (prev next sep : List ℕ) : Type 0 where
  pub len : length sep ≤ length next
  pub start : (q : ℕ) → q < length sep → get_or sep q 0 ≡ get_or next q 0
  pub above : compare prev sep ≡ negsuc (length sep - 1)

-- The keys first differ at a byte that both have, where the second has the larger one.
abbrev pub FirstDiffer : List ℕ → List ℕ → Type 0
FirstDiffer prev next =
    (i : ℕ) × (i < length prev)
    × (i < length next)
    × ((q : ℕ) → q < i → get_or prev q 0 ≡ get_or next q 0)
    × (get_or prev i 0 < get_or next i 0)

-- Of an inner block `split` gives the whole second key.
pub split_key_inner :
    (b : Mem) (fuel j : ℕ) → is_leaf b ≡ false → split_key b fuel j ≡ some (rec b (j + 1)).key
unfolding split_key rec
split_key_inner b fuel j inner = rw inner refl

module _ (b : Mem) (j : ℕ) (leaf : is_leaf b ≡ true) where
  abbrev src_idx : ℕ
  src_idx = get_ptr b j

  abbrev first_idx : ℕ
  first_idx = get_ptr b (j + 1)

  -- The separator ends with the first byte that differs from the one at the same place of the record
  -- before.
  split_key_lem :
      (t fuel : ℕ)
      → ((q : ℕ) → q < t → b (first_idx + q + 1) ≡ b (src_idx + q + 1))
      → b (first_idx + t + 1) ≢ b (src_idx + t + 1)
      → t < fuel
      → split_key b fuel j ≡ some (read_bytes b (first_idx + 1) (t + 1))
  unfolding split_key
  split_key_lem t fuel same ne h =
      rw (leaf, separator_loop_lem fuel b first_idx src_idx t 0 same ne (omega arith) (omega arith))

  -- A leaf in which two neighbouring keys first differ at byte `i` of both is split between them by
  -- the first `i + 1` bytes of the second key.
  pub split_key-Separates :
      (i fuel : ℕ)
      → i < length (rec b j).key
      → i < length (rec b (j + 1)).key
      → ((q : ℕ) → q < i → get_or (rec b j).key q 0 ≡ get_or (rec b (j + 1)).key q 0)
      → get_or (rec b j).key i 0 < get_or (rec b (j + 1)).key i 0
      → i < fuel
      → (sep : List ℕ) × (split_key b fuel j ≡ some sep)
        × (length sep ≡ i + 1)
        × Separates (rec b j).key (rec b (j + 1)).key sep
  unfolding rec
  split_key-Separates i fuel h k same lt enough = (
    sep,
    split_key_lem i fuel
        (λ q l. sym (next_at q (omega arith)) ∙ sym (same q l) ∙ prev_at q (omega arith))
        (λ e. omega (arith, e, lt, prev_at i (omega arith), next_at i (omega arith))) enough,
    sep_len,
    record {
      len = omega (arith, sep_len);
      start = λ q l. let m : q ≤ i = omega (arith, sep_len) in sep_at q m ∙ sym (next_at q m);
      above = compared ∙ ap negsuc (omega (arith, sep_len));
    },
  )
    where
      sep : List ℕ
      sep = read_bytes b (first_idx + 1) (i + 1)

      sep_len : length sep ≡ i + 1
      sep_len = length-read_bytes b (first_idx + 1) (i + 1)

      prev_at : (q : ℕ) → q ≤ i → get_or (rec b j).key q 0 ≡ b (src_idx + q + 1)
      prev_at q l =
          get_or-read_bytes b (src_idx + 1) (b src_idx) q
            (omega (arith, length-read_bytes b (src_idx + 1) (b src_idx)))
          ∙ ap b (omega arith)

      next_at : (q : ℕ) → q ≤ i → get_or (rec b (j + 1)).key q 0 ≡ b (first_idx + q + 1)
      next_at q l =
          get_or-read_bytes b (first_idx + 1) (b first_idx) q
            (omega (arith, length-read_bytes b (first_idx + 1) (b first_idx)))
          ∙ ap b (omega arith)

      sep_at : (q : ℕ) → q ≤ i → get_or sep q 0 ≡ b (first_idx + q + 1)
      sep_at q l = get_or-read_bytes b (first_idx + 1) (i + 1) q (omega arith) ∙ ap b (omega arith)

      compared : compare (rec b j).key sep ≡ negsuc (0 + i)
      compared =
          unfold compare in
          compare_first_difference (rec b j).key sep i 0
            (λ q l. same q l ∙ next_at q (omega arith) ∙ sym (sep_at q (omega arith))) h
            (omega (arith, sep_len))
            (omega (arith, lt, sep_at i (omega arith), next_at i (omega arith)))

  -- In a leaf, where the bytes of two neighbouring records agree up to a place past the end of the
  -- second key and differ there, the separator, given room for it, is longer than that key.
  pub split_key_overrun :
      (t fuel : ℕ)
      → ((q : ℕ) → q < t → b (first_idx + q + 1) ≡ b (src_idx + q + 1))
      → b (first_idx + t + 1) ≢ b (src_idx + t + 1)
      → b first_idx ≤ t
      → t < fuel
      → (sep : List ℕ) × (split_key b fuel j ≡ some sep) × (length (rec b (j + 1)).key < length sep)
  unfolding rec
  split_key_overrun t fuel same ne over enough = (
    read_bytes b (first_idx + 1) (t + 1),
    split_key_lem t fuel same ne enough,
    omega (
      arith,
      length-read_bytes b (first_idx + 1) (t + 1),
      length-read_bytes b (first_idx + 1) (b first_idx),
    ),
  )
