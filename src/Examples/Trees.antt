-- ===== src/Examples/Trees.antt =====
-- `get`, `put` and `split` at a tree of one leaf with one record.
use index_research.Prelude.{
  ℕ, ◌+◌, ◌<◌, ◌≡◌, ◌≢◌, ◌↔◌, inl, ap, sym, ◌∙◌, refl, List, [], ◌∷◌, Option, none, some, false,
  arith,
}
use index_research.Prelude.Int.{negsuc}
use index_research.Prelude.Memory.{Mem}
use index_research.Util.Codec.{get_int, set_int}
use index_research.Util.Compare.{compare}
use index_research.Page.{get_kv_last_pos, filled_size, get_ptr, get_key, set_leaf, is_leaf}
use index_research.Page.View.{Rec, rec}
use index_research.Page.Search.{search_current_block}
use index_research.Page.Update.{is_full, add_data, init_current_block}
use index_research.Tree.{Heap, Place, bpt_max_lvl_count, traverse_to_leaf, get}
use index_research.Tree.Update.{Handler, Put, put}
use index_research.Tree.Shape.{InTree, IsTree}
use index_research.Tree.Lookup.{get-InTree}
use index_research.Tree.Put.{IsPut, put-IsPut, get-put, get-put_ne}
use index_research.Examples.Pages.{
  one_bytes, one_bytes-IsPage, one_bytes_leaf, one_bytes_inside, one_runs, key_a, key_b, value_1,
  zeros,
}

program : Unit {0}
unfolding init_current_block set_leaf add_data search_current_block is_full filled_size get_key rec
    compare is_leaf get_int set_int get_ptr traverse_to_leaf get_kv_last_pos
program = tt

abbrev heap : Heap
heap a = one_bytes

only : (i : ℕ) → i < filled_size one_bytes → i ≡ 0
only i h = omega (arith, h, one_runs.0)

key_at : (i : ℕ) → i < filled_size one_bytes → (rec one_bytes i).key ≡ key_b
key_at i h = ap (λ j. (rec one_bytes j).key) (only i h) ∙ ap (λ (r : Rec). r.key) one_runs.2

tree : IsTree 64 0 heap 7 [] none
tree = (one_bytes-IsPage, one_bytes_leaf, λ i h. (rw (key_at i h) (inl tt), tt))

get-InTree_example :
    (found : Option (List ℕ)) × (get 1 heap 7 key_b ≡ some found)
    × ((v : List ℕ) → (found ≡ some v) ↔ InTree 0 heap 7 (record { key = key_b; value = v }))
get-InTree_example = get-InTree 0 64 1 heap 7 [] none key_b tree (inl tt) tt (omega arith)

abbrev address : ℕ → ℕ
address n = 100 + n

abbrev fresh : ℕ → Mem
fresh n = zeros

abbrev handler : Handler
handler = record {
  heap = heap;
  allocated = 0;
  root_block = 7;
  current_block = 7;
  total_size = 1;
  num_levels = 1;
  max_key_len = 1;
  max_key_count_node = 0;
  max_key_count_leaf = 0;
  block_count_node = 0;
  block_count_leaf = 1;
}

abbrev new : Rec
new = record { key = key_a; value = value_1 }

abbrev place : Place
place = record {
  current_block = 7;
  search_result = negsuc 0;
  key_at = (search_current_block one_bytes key_a (record { key_at = 0; key_at_len = 0 })).cursor;
  above = [];
}

leads : traverse_to_leaf bpt_max_lvl_count heap key_a 7 [] ≡ some place
unfolding program
leads = refl

free : is_full one_bytes key_a value_1 ≡ false
unfolding program
free = refl

head : List ℕ → ℕ
head [] = 0
head (x ∷ xs) = x

new_key : (r : Rec) → InTree 0 heap 7 r → r.key ≢ key_a
unfolding head
new_key r (i, h, e) same =
    let clash : key_b ≡ key_a = sym (key_at i h) ∙ ap (λ (r : Rec). r.key) e ∙ same in
    let bad : 98 ≡ 97 = ap head clash in omega (arith, bad)

put-IsPut_example :
    (p : Put address fresh 64 64) × IsPut address fresh 64 64 64 0 handler [] none new p
put-IsPut_example =
    put-IsPut address fresh 64 64 64 0 handler [] none new place tree tt (inl tt) tt (omega arith)
      one_bytes_inside new_key leads free (omega arith) (omega arith) (omega arith) (omega arith)

get-put_example :
    (p : Put address fresh 64 64) × (put address fresh 64 64 handler key_a value_1 ≡ some p)
    × (get 1 p.handler.heap p.handler.root_block key_a ≡ some (some value_1))
get-put_example =
    get-put address fresh 64 64 64 0 handler [] none new place tree tt (inl tt) tt (omega arith)
      one_bytes_inside new_key leads free (omega arith) (omega arith) (omega arith) (omega arith) 1
      (omega arith)

different : key_b ≢ key_a
unfolding head
different e = let bad : 98 ≡ 97 = ap head e in omega (arith, bad)

get-put_ne_example :
    (p : Put address fresh 64 64) × (put address fresh 64 64 handler key_a value_1 ≡ some p)
    × (get 1 p.handler.heap p.handler.root_block key_b ≡ get 1 heap 7 key_b)
get-put_ne_example =
    get-put_ne address fresh 64 64 64 0 handler [] none new place tree tt (inl tt) tt (omega arith)
      one_bytes_inside new_key leads free (omega arith) (omega arith) (omega arith) (omega arith) 1
      key_b (omega arith) (inl tt) tt different
