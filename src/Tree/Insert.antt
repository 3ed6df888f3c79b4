-- ===== src/Tree/Insert.antt =====
-- The leaf to which `traverse_to_leaf` leads, exchanged.
use index_research.Prelude.{
  ℕ, zero, suc, ◌<◌, ◌≡◌, refl, sym, ◌∙◌, ◌↔◌, inr, List, ◌∷◌, Option, some, true, false, arith,
}
use index_research.Prelude.{length, IsBytes}
use index_research.Prelude.Int.{negsuc}
use index_research.Prelude.Memory.{Mem}
use index_research.Page.{is_leaf, set_changed}
use index_research.Page.View.{Rec, IsPage}
use index_research.Page.Flags.{
  changed_same, changed-IsMem, changed-is_leaf, same_count, same_rec, same-IsPage,
}
use index_research.Page.Find.{search_current_block-Locates}
use index_research.Page.PutGet.{Holds, add_data-Holds}
use index_research.Page.Search.{search_current_block}
use index_research.Page.Update.{is_full, add_data}
use index_research.Tree.{Heap, put_block, Frame, Place, no_cursor, traverse_to_leaf}
use index_research.Tree.Shape.{KeyLe, Below, InTree, IsTree, child, key_of, upper}
use index_research.Tree.Lookup.{descends, Below-upper}
use index_research.Tree.Apart.{Uses, IsSeparate}
use index_research.Tree.Replace.{Gains, IsReplaced, leaf-IsReplaced, level-IsReplaced}

-- Where the traversal ends: a leaf of the tree, which can be exchanged for one with another record of
-- the key.
pub record Ends (size h : ℕ) (heap : Heap) (a : ℕ) (low : List ℕ) (high : Option (List ℕ))
    (key : List ℕ) (place : Place) : Type 0 where
  pub leaf : IsPage size (heap place.current_block)
  pub flag : is_leaf (heap place.current_block) ≡ true
  pub result :
      place.search_result ≡ (search_current_block (heap place.current_block) key no_cursor).result
  pub used : Uses h heap a place.current_block
  pub held : (r : Rec) → Holds (heap place.current_block) r → InTree h heap a r
  pub exchange :
      (b' : Mem) (new : Rec)
      → IsPage size b'
      → is_leaf b' ≡ true
      → new.key ≡ key
      → Gains (heap place.current_block) b' new
      → IsReplaced size h heap (put_block heap place.current_block b') a low high new

pub traverse_to_leaf-Ends :
    (h size fuel : ℕ) (heap : Heap) (a : ℕ) (low : List ℕ) (high : Option (List ℕ)) (key : List ℕ)
    (above : List Frame)
    → IsTree size h heap a low high
    → IsSeparate h heap a
    → KeyLe low key
    → Below key high
    → h < fuel
    → (place : Place) × (traverse_to_leaf fuel heap key a above ≡ some place)
      × Ends size h heap a low high key place
unfolding traverse_to_leaf
traverse_to_leaf-Ends h size zero heap a low high key above t s lo hi f = absurd (omega arith)
traverse_to_leaf-Ends zero size (suc fuel) heap a low high key above t s lo hi f = (
  record {
    current_block = a;
    search_result = (search_current_block (heap a) key no_cursor).result;
    key_at = (search_current_block (heap a) key no_cursor).cursor;
    above = above;
  },
  ground (arith, t.1),
  record {
    leaf = t.0;
    flag = t.1;
    result = refl;
    used = refl;
    held = λ r m. m;
    exchange = λ b' new page flag k gain.
        leaf-IsReplaced size heap key a b' new page flag k gain low high t lo hi;
  },
)
traverse_to_leaf-Ends (suc h) size (suc fuel) heap a low high key above t s lo hi f =
    let b = heap a in
    let found = search_current_block b key no_cursor in
    let (i, d) =
      descends t.0 key found.result (search_current_block-Locates t.0 key no_cursor).0 t.2
        (rw (← t.3) at lo) in
    let (place, e, r) =
      traverse_to_leaf-Ends h size fuel heap (child b i) (key_of b i) (upper b i high) key
        (record { page = a; found_page_pos = found.result } ∷ above) (t.5 i d.inside)
        (s.2 i d.inside) d.from (Below-upper size h heap a low high t d hi) (omega arith) in
    (
      place,
      ground (arith, t.1, d.leads, e),
      record {
        leaf = r.leaf;
        flag = r.flag;
        result = r.result;
        used = inr (i, d.inside, r.used);
        held = λ x m. (i, d.inside, r.held x m);
        exchange = λ b' new page flag k gain.
            level-IsReplaced size heap key place.current_block b' new page flag k gain h a low high
              t s i d.inside r.used (r.exchange b' new page flag k gain);
      },
    )

-- What `insert_step` stores in a leaf that is not full.
pub record Takes (size : ℕ) (b : Mem) (at : ℕ) (new : Rec) (b' : Mem) : Type 0 where
  pub added : add_data b at new.key new.value ≡ some b'
  pub page : IsPage size (set_changed b' true)
  pub flag : is_leaf b ≡ true → is_leaf (set_changed b' true) ≡ true
  pub gains : Gains b (set_changed b' true) new

module _ {size : ℕ} {b : Mem} (page : IsPage size b) where
  changed-Holds : (r : Rec) → Holds (set_changed b true) r ↔ Holds b r
  changed-Holds r = (
    λ (i, l, e).
        let k = rw (same_count b (set_changed b true) (changed_same b)) at l in
        (i, k, sym (same_rec b (set_changed b true) (changed_same b) page i k) ∙ e),
    λ (i, l, e). (
      i,
      rw (same_count b (set_changed b true) (changed_same b)) l,
      same_rec b (set_changed b true) (changed_same b) page i l ∙ e,
    ),
  )

  changed-IsPage : IsPage size (set_changed b true)
  changed-IsPage =
      same-IsPage b (set_changed b true) (changed_same b) page (changed-IsMem b page.bytes)

pub insert_step-Takes :
    {size : ℕ} {b : Mem} (page : IsPage size b) (at : ℕ) (new : Rec)
    → (search_current_block b new.key no_cursor).result ≡ negsuc at
    → is_full b new.key new.value ≡ false
    → length new.key < 256
    → length new.value < 256
    → IsBytes new.key
    → IsBytes new.value
    → (b' : Mem) × Takes size b at new b'
unfolding is_leaf
insert_step-Takes {size} {b} page at new missed free hk hv bk bv =
    let (b', e, page', flag, holds) =
      add_data-Holds page new.key new.value at no_cursor missed free hk hv bk bv in
    (
      b',
      record {
        added = e;
        page = changed-IsPage page';
        flag = λ f. rw (changed-is_leaf b' page'.bytes, flag) f;
        gains = λ r. (
          λ m. (holds r).0 ((changed-Holds page' r).0 m),
          λ m. (changed-Holds page' r).1 ((holds r).1 m),
        );
      },
    )
