-- ===== src/Tree/Put.antt =====
-- `put` of a new key where the leaf to which the key leads is not full, and `get` after it.
use index_research.Prelude.{
  ℕ, ◌+◌, ◌<◌, ◌≡◌, ◌≢◌, refl, sym, ap, ◌∙◌, inl, inr, List, [], ◌∷◌, Option, none, some, true,
  false, arith,
}
use index_research.Prelude.{length, ltb, IsBytes, if◌then◌else◌}
use index_research.Prelude.Int.{ℤ, pos, negsuc}
use index_research.Prelude.Memory.{Mem}
use index_research.Page.{Cursor, set_changed, filled_size}
use index_research.Page.View.{Rec, rec}
use index_research.Page.Find.{Locates, search_current_block-Locates}
use index_research.Page.Search.{search_current_block}
use index_research.Page.Update.{is_full, add_data}
use index_research.Tree.{
  put_block, Frame, Place, no_cursor, bpt_max_lvl_count, traverse_to_leaf, get,
}
use index_research.Tree.Update.{
  Handler, current, with_current, insert_step, done, recursive_update, Put, put,
}
use index_research.Tree.Shape.{KeyLe, Below, InTree, IsTree}
use index_research.Tree.Lookup.{get-InTree}
use index_research.Tree.Apart.{IsSeparate}
use index_research.Tree.Insert.{Ends, traverse_to_leaf-Ends, insert_step-Takes}
use index_research.Tree.Replace.{IsReplaced}

some_eq : (a b : Place) → some a ≡ some b → a ≡ b
some_eq a b e = cc

option_ext :
    (o o' : Option (List ℕ))
    → ((v : List ℕ) → o ≡ some v → o' ≡ some v)
    → ((v : List ℕ) → o' ≡ some v → o ≡ some v)
    → o ≡ o'
option_ext none none f g = refl
option_ext none (some v) f g = g v refl
option_ext (some v) o' f g = sym (f v refl)

module _ (address : ℕ → ℕ) (fresh : ℕ → Mem) (block_size parent_block_size : ℕ) where
  insert_step-done :
      (t : Handler) (i : ℕ) (key value : List ℕ) (b : Mem)
      → is_full (current t) key value ≡ false
      → add_data (current t) i key value ≡ some b
      → insert_step address fresh block_size parent_block_size t i key value
        ≡ some (done (with_current t (set_changed b true)))
  unfolding insert_step
  insert_step-done t i key value b free e = ground (arith, free, e)

  recursive_update-done :
      (above : List Frame) (t t' : Handler) (i : ℕ) (at : Cursor) (key value : List ℕ)
      → insert_step address fresh block_size parent_block_size t i key value ≡ some (done t')
      → recursive_update address fresh block_size parent_block_size above t (negsuc i) at key value
        ≡ some t'
  unfolding recursive_update
  recursive_update-done [] t t' i at key value e = ground (arith, e)
  recursive_update-done (frame ∷ above) t t' i at key value e = ground (arith, e)

  -- What `put` of a new record leaves: the tree with this record more.
  pub record IsPut (size h : ℕ) (t : Handler) (low : List ℕ) (high : Option (List ℕ)) (new : Rec)
      (p : Put address fresh block_size parent_block_size) : Type 0 where
    pub runs : put address fresh block_size parent_block_size t new.key new.value ≡ some p
    pub found : p.found ≡ false
    pub root : p.handler.root_block ≡ t.root_block
    pub total : p.handler.total_size ≡ t.total_size + 1
    pub allocated : p.handler.allocated ≡ t.allocated
    pub tree : IsReplaced size h t.heap p.handler.heap t.root_block low high new

  module _ (size h : ℕ) (t : Handler) (low : List ℕ) (high : Option (List ℕ)) (new : Rec)
      (place : Place) (tree : IsTree size h t.heap t.root_block low high)
      (separate : IsSeparate h t.heap t.root_block) (low_key : KeyLe low new.key)
      (below_key : Below new.key high) (levels : h < bpt_max_lvl_count)
      (some_record : 0 < filled_size (t.heap t.root_block))
      (new_key : (r : Rec) → InTree h t.heap t.root_block r → r.key ≢ new.key)
      (leads : traverse_to_leaf bpt_max_lvl_count t.heap new.key t.root_block [] ≡ some place)
      (free : is_full (t.heap place.current_block) new.key new.value ≡ false)
      (key_len : length new.key < 256) (value_len : length new.value < 256)
      (key_bytes : IsBytes new.key) (value_bytes : IsBytes new.value) where
    ends : Ends size h t.heap t.root_block low high new.key place
    ends =
        let (place', e, r) =
          traverse_to_leaf-Ends h size bpt_max_lvl_count t.heap t.root_block low high new.key []
            tree separate low_key below_key levels in
        let same : place' ≡ place = some_eq place' place (sym e ∙ leads) in rw (← same) r

    missed : (z : ℤ) → Locates (t.heap place.current_block) new.key z → (at : ℕ) × (z ≡ negsuc at)
    missed (pos i) l =
        absurd (new_key (rec (t.heap place.current_block) i) (ends.held _ (i, l.0, refl)) l.1)
    missed (negsuc i) l = (i, refl)

    put_lem :
        (at : ℕ) (b' : Mem)
        → place.search_result ≡ negsuc at
        → add_data (t.heap place.current_block) at new.key new.value ≡ some b'
        → (p : Put address fresh block_size parent_block_size) × (put address fresh block_size
              parent_block_size t new.key new.value
            ≡ some p)
          × (p.found ≡ false)
          × (p.handler.root_block ≡ t.root_block)
          × (p.handler.total_size ≡ t.total_size + 1)
          × (p.handler.allocated ≡ t.allocated)
          × (p.handler.heap ≡ put_block t.heap place.current_block (set_changed b' true))
    unfolding put
    put_lem at b' e added = (
      record {
        handler = record (with_current at_leaf (set_changed b' true)) {
          total_size = t.total_size + 1;
        };
        found = false;
      },
      ground (arith, some_record, leads, e, runs),
      refl,
      refl,
      refl,
      refl,
      refl,
    )
      where
        at_leaf : Handler
        at_leaf = record t {
          current_block = place.current_block;
          max_key_len =
              if ltb t.max_key_len (length new.key) then length new.key else t.max_key_len;
          num_levels = length place.above + 1;
        }

        runs :
            recursive_update address fresh block_size parent_block_size place.above at_leaf
              (negsuc at)
              place.key_at
              new.key
              new.value
            ≡ some (with_current at_leaf (set_changed b' true))
        runs =
            recursive_update-done place.above at_leaf (with_current at_leaf (set_changed b' true))
              at place.key_at new.key new.value
              (insert_step-done at_leaf at new.key new.value b' free added)

    -- Let a well-formed tree have at most 15 levels (what a context holds), different blocks and a
    -- record in its root; let the new key not be below the lowest key of the tree, be below its upper
    -- bound and not be in the tree, let the leaf it leads to not be full for it, and let key and value
    -- be shorter than 256 bytes. Then put ends: it reports a new key, counts it, allocates nothing,
    -- keeps the root and leaves a well-formed tree with that record and no other more.
    pub put-IsPut :
        (p : Put address fresh block_size parent_block_size) × IsPut size h t low high new p
    put-IsPut =
        let (at, e) =
          missed (search_current_block (t.heap place.current_block) new.key no_cursor).result
            (search_current_block-Locates ends.leaf new.key no_cursor).0 in
        let (b', takes) =
          insert_step-Takes ends.leaf at new e free key_len value_len key_bytes value_bytes in
        let (p, runs, found, root, total, allocated, heap) =
          put_lem at b' (ends.result ∙ e) takes.added in
        (
          p,
          record {
            runs = runs;
            found = found;
            root = root;
            total = total;
            allocated = allocated;
            tree = rw heap (
                ends.exchange (set_changed b' true) new takes.page (takes.flag ends.flag) refl
                  takes.gains);
          },
        )

    -- Let a well-formed tree have at most 15 levels (what a context holds), different blocks and a
    -- record in its root; let the new key not be below the lowest key of the tree, be below its upper
    -- bound and not be in the tree, let the leaf it leads to not be full for it, and let key and value
    -- be shorter than 256 bytes. Then put ends, and get, given more rounds than the tree is high,
    -- finds the new value under the key afterwards.
    pub get-put :
        (fuel' : ℕ)
        → h < fuel'
        → (p : Put address fresh block_size parent_block_size) × (put address fresh block_size
              parent_block_size t new.key new.value
            ≡ some p)
          × (get fuel' p.handler.heap p.handler.root_block new.key ≡ some (some new.value))
    get-put fuel' enough =
        let (p, put_p) = put-IsPut in
        let (found, e, holds) =
          get-InTree h size fuel' p.handler.heap t.root_block low high new.key put_p.tree.tree
            low_key below_key enough in
        (
          p,
          put_p.runs,
          rw put_p.root (e ∙ ap some ((holds new.value).1 ((put_p.tree.gains new).1 (inr refl)))),
        )

    -- Let a well-formed tree have at most 15 levels (what a context holds), different blocks and a
    -- record in its root; let the new key not be below the lowest key of the tree, be below its upper
    -- bound and not be in the tree, let the leaf it leads to not be full for it, and let key and value
    -- be shorter than 256 bytes. Then put ends, and for another key that is not below the lowest key
    -- of the tree and below its upper bound get, given more rounds than the tree is high, answers as
    -- before the put.
    pub get-put_ne :
        (fuel' : ℕ) (key : List ℕ)
        → h < fuel'
        → KeyLe low key
        → Below key high
        → key ≢ new.key
        → (p : Put address fresh block_size parent_block_size) × (put address fresh block_size
              parent_block_size t new.key new.value
            ≡ some p)
          × (get fuel' p.handler.heap p.handler.root_block key ≡ get fuel' t.heap t.root_block key)
    get-put_ne fuel' key enough lo hi ne =
        let (p, put_p) = put-IsPut in
        let (found, e, holds) =
          get-InTree h size fuel' p.handler.heap t.root_block low high key put_p.tree.tree lo hi
            enough in
        let (before, e', held) =
          get-InTree h size fuel' t.heap t.root_block low high key tree lo hi enough in
        let back = λ (v : List ℕ) (k : found ≡ some v).
          (held v).1
            (elim ((put_p.tree.gains (record { key = key; value = v })).0 ((holds v).0 k)) [
              | inl old ↦ old
              | inr same ↦ absurd (ne (ap (λ (r : Rec). r.key) same))
            ]) in
        let forth = λ (v : List ℕ) (k : before ≡ some v).
          (holds v).1
            ((put_p.tree.gains (record { key = key; value = v })).1 (inl ((held v).0 k))) in
        (p, put_p.runs, rw put_p.root (e ∙ ap some (option_ext found before back forth) ∙ sym e'))
