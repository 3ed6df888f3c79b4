-- ===== src/Tree/Update.antt =====
-- `put` and `recursive_update` of src/bplus_tree_handler.h over `basix`, in memory.
use index_research.Prelude.{ℕ, zero, suc, ◌+◌, List, [], ◌∷◌, Option, none, some, Bool, true, false}
use index_research.Prelude.{ltb, leb, ◌==◌, if◌then◌else◌, length}
use index_research.Prelude.Int.{ℤ, pos, negsuc}
use index_research.Prelude.Memory.{Mem, read_bytes}
use index_research.Util.Compare.{compare}
use index_research.Util.Address.{ptr_to_bytes}
use index_research.Page.{Cursor, is_leaf, set_leaf, set_changed, get_level, set_level, filled_size}
use index_research.Page.Search.{search_current_block}
use index_research.Page.Update.{is_full, add_data, add_first_data, update_data, init_current_block}
use index_research.Page.Split.{split}
use index_research.Tree.{Heap, put_block, Frame, no_cursor, bpt_max_lvl_count, traverse_to_leaf}

-- The fields of the handler that `put` changes; `allocated` counts the calls of aligned_alloc.
pub record Handler : Type 0 where
  pub heap : Heap
  pub allocated : ℕ
  pub root_block : ℕ
  pub current_block : ℕ
  pub total_size : ℕ
  pub num_levels : ℕ
  pub max_key_len : ℕ
  pub max_key_count_node : ℕ
  pub max_key_count_leaf : ℕ
  pub block_count_node : ℕ
  pub block_count_leaf : ℕ

-- An address as the value of a record.
unfoldable pub address_bytes : ℕ → List ℕ
unfolding ptr_to_bytes
address_bytes address = let out = ptr_to_bytes (λ i. 0) 0 address in read_bytes out.mem 0 out.len

abbrev pub current : Handler → Mem
current t = t.heap t.current_block

abbrev pub with_current : Handler → Mem → Handler
with_current t b = record t { heap = put_block t.heap t.current_block b }

-- `add_data(~search_current_block())`; `none` where the key is found, which leaves a negative position.
unfoldable pub add_where_missed : Mem → List ℕ → List ℕ → Option Mem
unfolding search_current_block add_data
add_where_missed b key value =
    let found = search_current_block b key no_cursor in
    elim (found.result) [ pos i ↦ none | negsuc i ↦ add_data b i key value ]

unfoldable pub update_split_stats : Handler → Handler
unfolding is_leaf filled_size
update_split_stats t =
    let n = filled_size (current t) in
    if is_leaf (current t)
    then record t {
      max_key_count_leaf = t.max_key_count_leaf + n;
      block_count_leaf = t.block_count_leaf + 1;
    }
    else record t {
      max_key_count_node = t.max_key_count_node + n;
      block_count_node = t.block_count_node + 1;
    }

-- The two records of a new root; the key of the first is one zero byte.
unfoldable pub add_first_kv_to_root : Mem → List ℕ → ℕ → ℕ → Option Mem
unfolding add_first_data add_where_missed address_bytes
add_first_kv_to_root b first_key old_block_addr new_block_addr =
    elim (add_first_data b (0 ∷ []) (address_bytes old_block_addr)) [
      | none ↦ none
      | some b' ↦ add_where_missed b' first_key (address_bytes new_block_addr)
    ]

-- `cmp <= 0`.
unfoldable pub not_above : ℤ → Bool
not_above (pos zero) = true
not_above (pos (suc k)) = false
not_above (negsuc k) = true

-- The level of a new root over a block of level `lvl`: BPT_LEAF0_LVL is 14, BPT_PARENT0_LVL 16.
unfoldable pub root_level : ℕ → ℕ
root_level lvl = if lvl == 14 then 16 else if leb 16 lvl then lvl + 1 else lvl

-- `address` gives the result of each call of aligned_alloc, `fresh` what the memory there holds.
module _ (address : ℕ → ℕ) (fresh : ℕ → Mem) (block_size parent_block_size : ℕ) where
  -- `get_first_key_len`, the size of the array `first_key`.
  abbrev pub first_key_len : ℕ
  first_key_len = 255

  abbrev size_of : Mem → ℕ
  size_of b = if is_leaf b then block_size else parent_block_size

  -- The root was split: a new block above the two.
  unfoldable pub grow_root : Handler → List ℕ → ℕ → ℕ → ℕ → Option Handler
  unfolding set_leaf set_changed set_level init_current_block add_first_kv_to_root root_level
  grow_root t first_key lvl old_block new_block =
      let root = address t.allocated in
      let b = init_current_block (set_leaf (fresh t.allocated) false) parent_block_size in
      let levelled = set_level (set_changed b true) (root_level lvl) in
      elim (add_first_kv_to_root levelled first_key old_block new_block) [
        | none ↦ none
        | some b' ↦ some (record t {
          heap = put_block t.heap root b';
          allocated = t.allocated + 1;
          root_block = root;
          current_block = root;
          block_count_node = t.block_count_node + 1;
          num_levels = t.num_levels + 1;
        })
      ]

  -- The block that takes the record is chosen by `compare_first_key`. The handler, with the new record
  -- in one of the halves of the block at `old`, and `first_key`.
  pub record Parted : Type 0 where
    pub handler : Handler
    pub new_block : ℕ
    pub first_key : List ℕ
    pub lvl : ℕ

  unfoldable pub split_current : Handler → List ℕ → List ℕ → Option Parted
  unfolding update_split_stats split set_changed set_level get_level compare add_where_missed
  split_current t key value =
      let b = current t in
      let size = size_of b in
      let new_block = address t.allocated in
      let t' = record (update_split_stats t) { allocated = t.allocated + 1 } in
      elim (split (fresh t.allocated) false size first_key_len b) [
        | none ↦ none
        | some h ↦
            let old = set_changed h.old_block true in
            let new = set_level h.new_block (get_level old) in
            let right = not_above (compare h.first_key key) in
            let target = if right then new else old in
            elim (add_where_missed target key value) [
              | none ↦ none
              | some added ↦ some (record {
                handler = record t' {
                  heap =
                      put_block (put_block t.heap t.current_block (if right then old else added))
                        new_block (if right then added else new);
                  current_block = if right then new_block else t.current_block;
                };
                new_block = new_block;
                first_key = h.first_key;
                lvl = get_level old;
              })
            ]
      ]

  -- The end of one level of `recursive_update`: the record is in, or the level above has to take a
  -- pointer to the new block.
  pub data Outcome : Type 0 where
    done : Handler → Outcome
    climb : Parted → Outcome

  -- A level where the key is missing. `none`: a write before the start of a block, or a separator that
  -- does not end within `first_key`.
  unfoldable pub insert_step : Handler → ℕ → List ℕ → List ℕ → Option Outcome
  unfolding is_full add_data set_changed split_current grow_root
  insert_step t i key value = elim (is_full (current t) key value) [
    | false ↦ elim (add_data (current t) i key value) [
      | none ↦ none
      | some b ↦ some (done (with_current t (set_changed b true)))
    ]
    | true ↦ elim (split_current t key value) [
      | none ↦ none
      | some p ↦ elim (t.root_block == t.current_block) [
        | false ↦ some (climb p)
        | true ↦ elim (grow_root p.handler p.first_key p.lvl t.current_block p.new_block) [
          | none ↦ none
          | some t' ↦ some (done t')
        ]
      ]
    ]
  ]

  -- The levels above come nearest first. `none` also where a block that is not the root has no level
  -- above.
  unfoldable pub recursive_update :
      List Frame → Handler → ℤ → Cursor → List ℕ → List ℕ → Option Handler
  unfolding update_data insert_step search_current_block address_bytes
  recursive_update above t (pos i) at key value =
      some (with_current t (update_data (current t) at value))
  recursive_update [] t (negsuc i) at key value = elim (insert_step t i key value) [
    | none ↦ none
    | some (done t') ↦ some t'
    | some (climb p) ↦ none
  ]
  recursive_update (frame ∷ above) t (negsuc i) at key value = elim (insert_step t i key value) [
    | none ↦ none
    | some (done t') ↦ some t'
    | some (climb p) ↦
        let t' = record (p.handler) { current_block = frame.page } in
        let found = search_current_block (current t') p.first_key at in
        recursive_update above t' found.result found.cursor p.first_key (address_bytes p.new_block)
  ]

  -- The handler after `put`, and its result: whether the key was there.
  pub record Put : Type 0 where
    pub handler : Handler
    pub found : Bool

  -- `none` also where the tree has more levels than the context. The parameter `only_if_not_full` is not set.
  unfoldable pub put : Handler → List ℕ → List ℕ → Option Put
  unfolding filled_size add_first_data set_changed traverse_to_leaf recursive_update
  put t key value =
      let longest = if ltb t.max_key_len (length key) then length key else t.max_key_len in
      let t' = record t { current_block = t.root_block; max_key_len = longest } in
      if filled_size (current t') == 0
      then elim (add_first_data (current t') key value) [
        | none ↦ none
        | some b ↦ some (record {
          handler = record (with_current t' (set_changed b true)) { total_size = t.total_size + 1 };
          found = false;
        })
      ]
      else elim (traverse_to_leaf bpt_max_lvl_count t'.heap key t'.root_block []) [
        | none ↦ none
        | some place ↦
            let at_leaf = record t' {
              current_block = place.current_block;
              num_levels = length place.above + 1;
            } in
            elim (recursive_update place.above at_leaf place.search_result place.key_at key value) [
              | none ↦ none
              | some t'' ↦ some (elim (place.search_result) [
                | pos i ↦ record {
                  handler = with_current t'' (set_changed (current t'') true);
                  found = true;
                }
                | negsuc i ↦ record {
                  handler = record t'' { total_size = t''.total_size + 1 };
                  found = false;
                }
              ])
            ]
      ]
