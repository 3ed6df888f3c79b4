-- ===== src/Examples/Pages.antt =====
-- A block of 64 bytes, filled step by step.
use index_research.Prelude.{
  ℕ, zero, suc, ◌++◌, ap, ◌≡◌, refl, List, [], ◌∷◌, Option, none, some, true, false, arith,
}
use index_research.Prelude.{◌<◌, ◌⊎◌, ◌↔◌, ◌≢◌}
use index_research.Prelude.Int.{pos, negsuc}
use index_research.Prelude.Memory.{Mem, IsMem}
use index_research.Util.Codec.{get_int, set_int}
use index_research.Util.Compare.{compare}
use index_research.Page.{Cursor, filled_size, get_ptr, get_key, set_leaf, is_leaf}
use index_research.Page.View.{Rec, rec, IsPage, value_pos}
use index_research.Page.Search.{search_current_block}
use index_research.Page.Update.{is_full, add_data, add_first_data, remove_entry, update_data}
use index_research.Page.Update.{init_current_block}
use index_research.Page.Initial.{init_current_block-IsPage}
use index_research.Page.Find.{Locates, PointsAt, search_current_block-Locates}
use index_research.Page.Add.Block.{CanAdd}
use index_research.Page.Add.{
  IsInserted, added-IsInserted, add_data-IsInserted, after_add, added-IsPage, added-eq,
}
use index_research.Page.PutGet.{Holds, add_data-Holds, search_current_block_iff}
use index_research.Page.Remove.{IsRemoved, remove_entry-IsRemoved, remove_entry-IsPage}
use index_research.Page.Replace.{update_data_stored}

program : Unit {0}
unfolding init_current_block set_leaf add_data search_current_block is_full filled_size get_key rec
    compare remove_entry update_data is_leaf get_int set_int get_ptr
program = tt

abbrev pub zeros : Mem
zeros i = 0

pub zeros_bytes : IsMem zeros
zeros_bytes i = omega arith

abbrev pub leaf : Mem
leaf = init_current_block (set_leaf zeros true) 64

abbrev pub nowhere : Cursor
nowhere = record { key_at = 0; key_at_len = 0 }

abbrev pub key_b : List ℕ
key_b = 98 ∷ []

abbrev pub key_a : List ℕ
key_a = 97 ∷ []

abbrev key_pair : List ℕ
key_pair = 97 ∷ 98 ∷ []

abbrev pub value_1 : List ℕ
value_1 = 49 ∷ 50 ∷ []

zero_bytes : ℕ → List ℕ
zero_bytes zero = []
zero_bytes (suc n) = 0 ∷ zero_bytes n

leaf_bytes : IsMem (set_leaf zeros true)
unfolding set_leaf
leaf_bytes i = ground arith

leaf-IsPage : IsPage 64 leaf
leaf-IsPage =
    (init_current_block-IsPage (set_leaf zeros true) 64 (omega arith) (omega arith) leaf_bytes).0

init_current_block-IsPage_example : IsPage 64 leaf × (filled_size leaf ≡ 0)
init_current_block-IsPage_example =
    init_current_block-IsPage (set_leaf zeros true) 64 (omega arith) (omega arith) leaf_bytes

leaf_count : filled_size leaf ≡ 0
unfolding program
leaf_count = refl

leaf_free : is_full leaf key_b value_1 ≡ false
unfolding program
leaf_free = refl

leaf_miss : (search_current_block leaf key_b nowhere).result ≡ negsuc 0
unfolding program
leaf_miss = refl

abbrev add_b : CanAdd 64 leaf 0 key_b value_1
add_b = record {
  page = leaf-IsPage;
  inside = omega arith;
  key_len = omega arith;
  value_len = omega arith;
  free = leaf_free;
}

-- The block with one record.
abbrev one : Mem
one = after_add add_b

one-IsPage : IsPage 64 one
one-IsPage =
    added-IsPage add_b (λ j h. absurd (omega arith)) (λ j h k. absurd (omega (arith, leaf_count)))
      (omega arith) (omega arith)

one-IsInserted : IsInserted leaf 0 (record { key = key_b; value = value_1 }) one
one-IsInserted = added-IsInserted add_b

one_count : filled_size one ≡ 1
one_count = omega (arith, one-IsInserted.count, leaf_count)

one_key : (rec one 0).key ≡ key_b
one_key = ap (λ (r : Rec). r.key) one-IsInserted.here

add_data-IsInserted_example :
    (b' : Mem) × (add_data leaf 0 key_b value_1 ≡ some b')
    × IsInserted leaf 0 (record { key = key_b; value = value_1 }) b'
add_data-IsInserted_example = add_data-IsInserted add_b

add_data-Holds_example :
    (b' : Mem) × (add_data leaf 0 key_b value_1 ≡ some b')
    × IsPage 64 b'
    × (b' 0 ≡ leaf 0)
    × ((r : Rec) → Holds b' r ↔ (Holds leaf r ⊎ (r ≡ record { key = key_b; value = value_1 })))
add_data-Holds_example =
    add_data-Holds leaf-IsPage key_b value_1 0 nowhere leaf_miss leaf_free (omega arith)
      (omega arith) (omega arith) (omega arith)

search_current_block-Locates_example :
    let r = search_current_block one key_a nowhere in
    Locates one key_a r.result × PointsAt one r.result r.cursor
search_current_block-Locates_example = search_current_block-Locates one-IsPage key_a nowhere

search_current_block_iff_example :
    ((search_current_block one key_b nowhere).result ≡ pos 0)
    ↔ ((0 < filled_size one) × ((rec one 0).key ≡ key_b))
search_current_block_iff_example =
    search_current_block_iff one-IsPage (record { key = key_b; value = value_1 }) 0 nowhere

one_inside : 0 < filled_size one
one_inside = omega (arith, one_count)

remove_entry-IsRemoved_example : IsRemoved one 0 (remove_entry one 0)
remove_entry-IsRemoved_example = remove_entry-IsRemoved one-IsPage 0 one_inside

remove_entry-IsPage_example : IsPage 64 (remove_entry one 0)
remove_entry-IsPage_example = remove_entry-IsPage one-IsPage 0 one_inside

-- The same block by its bytes: the flags, the count, the positions and the record at 59.
abbrev pub or_zeros : Option Mem → Mem
or_zeros none = zeros
or_zeros (some b) = b

abbrev pub one_bytes : Mem
one_bytes = or_zeros (add_data leaf 0 key_b value_1)

pub one_runs :
    (filled_size one_bytes ≡ 1)
    × (get_ptr one_bytes 0 ≡ 59)
    × (rec one_bytes 0 ≡ record { key = key_b; value = value_1 })
    × ((search_current_block one_bytes key_b nowhere).result ≡ pos 0)
    × ((search_current_block one_bytes key_a nowhere).result ≡ negsuc 0)
unfolding program
one_runs = (refl, refl, refl, refl, refl)

-- A first record that is larger than the block would be written before it.
first_too_large : add_first_data leaf key_b (◌++◌ (zero_bytes 60) value_1) ≡ none
unfolding program add_first_data zero_bytes
first_too_large = refl

one_bytes-eq : one_bytes ≡ one
one_bytes-eq = ap or_zeros (added-eq add_b)

pub one_bytes-IsPage : IsPage 64 one_bytes
one_bytes-IsPage = rw one_bytes-eq one-IsPage

pub one_bytes_inside : 0 < filled_size one_bytes
one_bytes_inside = rw one_bytes-eq one_inside

pub one_bytes_leaf : is_leaf one_bytes ≡ true
unfolding program
one_bytes_leaf = refl

value_len_two : one_bytes (value_pos one_bytes (get_ptr one_bytes 0)) ≡ 2
unfolding program
value_len_two = refl

update_data_stored_example :
    (rec (update_data one_bytes (get_key one_bytes 0) key_pair) 0
      ≡ record { key = (rec one_bytes 0).key; value = key_pair })
    × ((j : ℕ)
        → j < filled_size one_bytes
        → j ≢ 0
        → rec (update_data one_bytes (get_key one_bytes 0) key_pair) j ≡ rec one_bytes j)
update_data_stored_example =
    update_data_stored one_bytes-IsPage one_bytes_leaf 0 one_bytes_inside key_pair value_len_two
