-- ===== src/Page/Split/Fresh.antt =====
-- The block that `split` begins with is empty.
use Prim.Native.Nat.{bit_and}
use index_research.Prelude.{ℕ, ◌-◌, ◌<◌, ◌≡◌, ◌≢◌, ◌∙◌, Bool, arith}
use index_research.Prelude.{true, false, ◌==◌, if◌then◌else◌}
use index_research.Prelude.Memory.{Mem, IsMem, store}
use index_research.Util.Codec.{set_int}
use index_research.Util.Codec.Laws.{get_int_ext, get_int-set_int, set_int-IsMem}
use index_research.Page.{filled_size, is_leaf, set_leaf}
use index_research.Page.Split.{allocate_block, new_block_for}

pub store-IsMem : (m : Mem) (a v : ℕ) → IsMem m → IsMem (store m a v)
store-IsMem m a v h q = ground (arith, h q)

choose-IsMem : (c : Bool) (m m' : Mem) → IsMem m → IsMem m' → IsMem (if c then m else m')
choose-IsMem true m m' h h' = h
choose-IsMem false m m' h h' = h'

module _ (fresh : Mem) (cached : Bool) (size type lvl : ℕ) where
  page_for : Mem
  page_for = if cached then store fresh 0 0x40 else fresh

  sized : Mem
  unfolding page_for
  sized = set_int page_for 3 (size - (if size == 65536 then 1 else 0))

  allocate_frame :
      (q : ℕ) → 0 < q → q ≢ 5 → allocate_block fresh cached size type lvl q ≡ set_int sized 1 0 q
  unfolding allocate_block sized page_for
  allocate_frame q h k = ground arith

  allocate-IsMem : IsMem fresh → IsMem (allocate_block fresh cached size type lvl)
  unfolding allocate_block
  allocate-IsMem h = store-IsMem _ 5 1 (
      choose-IsMem (type == 255) _ _ counted
        (choose-IsMem (type == 0) _ _ (store-IsMem _ 0 _ counted) (store-IsMem _ 0 _ counted)))
    where
      counted : IsMem (
          set_int
            (set_int
              (if cached then store fresh 0 0x40 else fresh)
              3
              (size - (if size == 65536 then 1 else 0)))
            1
            0)
      counted =
          set_int-IsMem _ 1 0
            (set_int-IsMem _ 3 _ (choose-IsMem cached _ _ (store-IsMem fresh 0 0x40 h) h))

pub set_leaf_frame : (m : Mem) (leaf : Bool) (q : ℕ) → 0 < q → set_leaf m leaf q ≡ m q
unfolding set_leaf
set_leaf_frame m leaf q h = ground arith

pub set_leaf-IsMem : (m : Mem) (leaf : Bool) → IsMem m → IsMem (set_leaf m leaf)
unfolding set_leaf
set_leaf-IsMem m leaf h = choose-IsMem leaf _ _ (store-IsMem m 0 _ h) (store-IsMem m 0 _ h)

-- A new block is empty.
module _ (fresh : Mem) (cached : Bool) (size : ℕ) (b : Mem) where
  abbrev type : ℕ
  type = if is_leaf b then 1 else 0

  abbrev lvl : ℕ
  lvl = bit_and (b 0) 0x1f

  empty_byte :
      (q : ℕ)
      → 0 < q
      → q ≢ 5
      → new_block_for fresh cached size b q ≡ set_int (sized fresh cached size type lvl) 1 0 q
  unfolding new_block_for
  empty_byte q h k =
      ground (arith, set_leaf_frame (allocate_block fresh cached size type lvl) (is_leaf b) q h)
      ∙ allocate_frame fresh cached size type lvl q h k

  pub empty_count : filled_size (new_block_for fresh cached size b) ≡ 0
  unfolding filled_size
  empty_count =
      get_int_ext _ (set_int (sized fresh cached size type lvl) 1 0) 1 1
        (empty_byte 1 (omega arith) (omega arith)) (empty_byte 2 (omega arith) (omega arith))
      ∙ get_int-set_int _ 1 0

  pub empty-IsMem : IsMem fresh → IsMem (new_block_for fresh cached size b)
  unfolding new_block_for
  empty-IsMem h =
      store-IsMem _ 5 _ (set_leaf-IsMem _ (is_leaf b) (allocate-IsMem fresh cached size type lvl h))
