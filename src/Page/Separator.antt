-- ===== src/Page/Separator.antt =====
-- The key that `basix::split` of src/basix.h gives for the new block: of a leaf, the first key of the
-- second half up to where it differs from the last key of the first half.
pub mod Laws
use index_research.Prelude.{
  ℕ, zero, suc, ◌+◌, List, Option, none, some, true, false, ◌==◌, if◌then◌else◌,
}
use index_research.Prelude.Memory.{Mem, read_bytes}
use index_research.Page.{is_leaf, get_ptr}

-- `while (current_block[first_idx + len + 1] == current_block[src_idx + len + 1]) len++`; `none`: it
-- does not end within `fuel` bytes.
unfoldable pub separator_loop : Mem → ℕ → ℕ → ℕ → ℕ → Option ℕ
separator_loop b zero first_idx src_idx len = none
separator_loop b (suc fuel) first_idx src_idx len =
    let rest = separator_loop b fuel first_idx src_idx (len + 1) in
    if b (first_idx + len + 1) == b (src_idx + len + 1) then rest else some len

-- `first_key` with its length, when the first half ends with the record `new_idx`.
unfoldable pub split_key : Mem → ℕ → ℕ → Option (List ℕ)
unfolding is_leaf get_ptr separator_loop
split_key b fuel new_idx =
    let src_idx = get_ptr b new_idx in
    let first_idx = get_ptr b (new_idx + 1) in
    if is_leaf b
    then elim (separator_loop b fuel first_idx src_idx 0) [
      | none ↦ none
      | some len ↦ some (read_bytes b (first_idx + 1) (len + 1))
    ]
    else some (read_bytes b (first_idx + 1) (b first_idx))
