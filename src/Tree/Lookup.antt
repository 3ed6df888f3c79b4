-- ===== src/Tree/Lookup.antt =====
-- `get` finds what the tree holds.
use index_research.Prelude.{
  tri, ℕ, zero, suc, ◌+◌, ◌<◌, ◌≡◌, ◌↔◌, inl, inr, List, [], ◌∷◌, Option, none, some, arith, refl,
  sym, ap, ◌∙◌,
}
use index_research.Prelude.Int.{ℤ, pos, negsuc}
use index_research.Prelude.Memory.{Mem}
use index_research.Util.Compare.Order.{KeyLt, KeyLt-irrefl}
use index_research.Page.{Cursor, filled_size, get_ptr, get_key}
use index_research.Page.View.{Rec, rec, IsPage}
use index_research.Page.Find.{Locates, PointsAt, search_current_block-Locates, rec_unique}
use index_research.Page.PutGet.{Holds}
use index_research.Page.Search.{search_current_block}
use index_research.Tree.{
  Heap, Frame, Place, get_child_ptr_pos, traverse_to_leaf, copy_value, get, no_cursor,
}
use index_research.Tree.Shape.{
  KeyLe, Below, child, key_of, upper, InTree, IsTree, KeyLt-KeyLe, KeyLe-not_lt, key_of_mono,
  upper_next, upper_last, InTree-range,
}
use native.Mathlib.Decide.{dec_lt}

-- The child to which a search leads: the last whose key is not above the one sought.
pub record Descends (b : Mem) (key : List ℕ) (z : ℤ) (i : ℕ) : Type 0 where
  pub inside : i < filled_size b
  pub leads : get_child_ptr_pos b z ≡ get_ptr b i
  pub from : KeyLe (key_of b i) key
  pub next : (j : ℕ) → i < j → j < filled_size b → KeyLt key (key_of b j)

pub descends :
    {size : ℕ} {b : Mem}
    → IsPage size b
    → (key : List ℕ) (z : ℤ) → Locates b key z
    → 0 < filled_size b
    → KeyLe (key_of b 0) key
    → (i : ℕ) × Descends b key z i
unfolding get_child_ptr_pos
descends page key (pos i) l some_key low = (
  i,
  record {
    inside = l.0;
    leads = refl;
    from = inr l.1;
    next = λ j h k. rw (← l.1) (page.sorted i j h k);
  },
)
descends page key (negsuc zero) l some_key low =
    absurd (KeyLe-not_lt _ _ low (l.2 0 (omega arith) some_key))
descends page key (negsuc (suc i)) l some_key low = (
  i,
  record {
    inside = omega (arith, l.0);
    leads = refl;
    from = inl (l.1 i (omega arith));
    next = λ j h k. l.2 j (omega arith) k;
  },
)

-- A key between the key of child `i` and the next can only be in child `i`.
module _ (size h : ℕ) (heap : Heap) (a : ℕ) (low : List ℕ) (high : Option (List ℕ))
    (t : IsTree size (suc h) heap a low high) {key : List ℕ} {z : ℤ} {i : ℕ}
    (d : Descends (heap a) key z i) where
  in_child : (r : Rec) → r.key ≡ key → InTree (suc h) heap a r → InTree h heap (child (heap a) i) r
  in_child r e (j, l, m) = elim (tri j i) [
    | inl less ↦ absurd (KeyLe-not_lt (key_of (heap a) i) key d.from (below less))
    | inr (inl more) ↦
        absurd (KeyLe-not_lt (key_of (heap a) j) key (rw e at (range.0)) (d.next j more l))
    | inr (inr same) ↦ rw same at m
  ]
    where
      range : KeyLe (key_of (heap a) j) r.key × Below r.key (upper (heap a) j high)
      range =
          InTree-range h size heap (child (heap a) j) (key_of (heap a) j) (upper (heap a) j high) r
            (t.5 j l) m

      below : j < i → KeyLt key (key_of (heap a) i)
      below less =
          let next : KeyLt r.key (key_of (heap a) (j + 1)) =
            rw (upper_next (heap a) j high (omega (arith, d.inside))) at (range.1) in
          KeyLt-KeyLe key (key_of (heap a) (j + 1)) (key_of (heap a) i) (rw e at next)
            (key_of_mono t.0 (j + 1) i (omega arith) d.inside)

  pub Below-upper : Below key high → Below key (upper (heap a) i high)
  Below-upper u = elim (dec_lt (i + 1) (filled_size (heap a))) [
    | yes k ↦ rw (upper_next (heap a) i high k) (d.next (i + 1) (omega arith) k)
    | no k ↦ rw (upper_last (heap a) i high (omega arith)) u
  ]

-- Where the traversal ends: the leaf holds of the records with this key those that the tree does.
record Reached (size h : ℕ) (heap : Heap) (a : ℕ) (key : List ℕ) (place : Place) : Type 0 where
  leaf : IsPage size (heap place.current_block)
  result :
      place.search_result ≡ (search_current_block (heap place.current_block) key no_cursor).result
  cursor : place.key_at ≡ (search_current_block (heap place.current_block) key no_cursor).cursor
  holds : (r : Rec) → r.key ≡ key → InTree h heap a r → Holds (heap place.current_block) r
  held : (r : Rec) → Holds (heap place.current_block) r → InTree h heap a r

traverse_to_leaf-Reached :
    (h size fuel : ℕ) (heap : Heap) (a : ℕ) (low : List ℕ) (high : Option (List ℕ)) (key : List ℕ)
    (above : List Frame)
    → IsTree size h heap a low high
    → KeyLe low key
    → Below key high
    → h < fuel
    → (place : Place) × (traverse_to_leaf fuel heap key a above ≡ some place)
      × Reached size h heap a key place
unfolding traverse_to_leaf
traverse_to_leaf-Reached h size zero heap a low high key above t lo hi f = absurd (omega arith)
traverse_to_leaf-Reached zero size (suc fuel) heap a low high key above t lo hi f = (
  record {
    current_block = a;
    search_result = (search_current_block (heap a) key no_cursor).result;
    key_at = (search_current_block (heap a) key no_cursor).cursor;
    above = above;
  },
  ground (arith, t.1),
  record { leaf = t.0; result = refl; cursor = refl; holds = λ r e m. m; held = λ r m. m },
)
traverse_to_leaf-Reached (suc h) size (suc fuel) heap a low high key above t lo hi f =
    let b = heap a in
    let found = search_current_block b key no_cursor in
    let (i, d) =
      descends t.0 key found.result (search_current_block-Locates t.0 key no_cursor).0 t.2
        (rw (← t.3) at lo) in
    let (place, e, r) =
      traverse_to_leaf-Reached h size fuel heap (child b i) (key_of b i) (upper b i high) key
        (record { page = a; found_page_pos = found.result } ∷ above) (t.5 i d.inside) d.from
        (Below-upper size h heap a low high t d hi) (omega arith) in
    (
      place,
      ground (arith, t.1, d.leads, e),
      record {
        leaf = r.leaf;
        result = r.result;
        cursor = r.cursor;
        holds = λ x k m. r.holds x k (in_child size h heap a low high t d x k m);
        held = λ x m. (i, d.inside, r.held x m);
      },
    )

-- What `get` makes of the search in the leaf.
abbrev answer : Mem → ℤ → Cursor → Option (List ℕ)
answer b (pos i) at = some (copy_value b at)
answer b (negsuc i) at = none

copy_value-get_key : (b : Mem) (i : ℕ) → copy_value b (get_key b i) ≡ (rec b i).value
unfolding copy_value get_key rec
copy_value-get_key b i = refl

rec_eq :
    (r : Rec) (key v : List ℕ) → r.key ≡ key → r.value ≡ v → r ≡ record { key = key; value = v }
rec_eq r key v h k = λ i. record { key = h i; value = k i }

some_eq : (xs ys : List ℕ) → some xs ≡ some ys → xs ≡ ys
some_eq xs ys e = cc

answer_iff :
    {size : ℕ} {b : Mem}
    → IsPage size b
    → (key : List ℕ) (z : ℤ) (at : Cursor) (v : List ℕ) → Locates b key z
    → PointsAt b z at
    → (answer b z at ≡ some v) ↔ Holds b (record { key = key; value = v })
answer_iff {size} {b} page key (pos i) at v l p = (
  λ e. (i, l.0, rec_eq (rec b i) key v l.1 (sym value_at ∙ some_eq _ _ e)),
  λ (j, m, e).
      ap some (value_at ∙ ap (λ k. (rec b k).value) (same j m e) ∙ ap (λ (r : Rec). r.value) e),
)
  where
    value_at : copy_value b at ≡ (rec b i).value
    value_at = ap (copy_value b) p ∙ copy_value-get_key b i

    same : (j : ℕ) → j < filled_size b → rec b j ≡ record { key = key; value = v } → i ≡ j
    same j m e = rec_unique page i j l.0 m (l.1 ∙ sym (ap (λ (r : Rec). r.key) e))
answer_iff {size} {b} page key (negsuc i) at v l p = (
  λ e. absurd (cc),
  λ (j, m, e).
      let k : (rec b j).key ≡ key = ap (λ (r : Rec). r.key) e in
      elim (dec_lt j i) [
        | yes q ↦ absurd (KeyLt-irrefl key (rw k at (l.1 j q)))
        | no q ↦ absurd (KeyLt-irrefl key (rw k at (l.2 j (omega arith) m)))
      ],
)

-- On a well-formed tree, for a key that is not below the lowest key of the tree and below its upper
-- bound, get without a context ends, given more rounds than the tree is high, and finds a value
-- exactly when the tree holds the key with this value.
pub get-InTree :
    (h size fuel : ℕ) (heap : Heap) (root : ℕ) (low : List ℕ) (high : Option (List ℕ))
    (key : List ℕ)
    → IsTree size h heap root low high
    → KeyLe low key
    → Below key high
    → h < fuel
    → (found : Option (List ℕ)) × (get fuel heap root key ≡ some found)
      × ((v : List ℕ) → (found ≡ some v) ↔ InTree h heap root (record { key = key; value = v }))
unfolding get
get-InTree h size fuel heap root low high key t lo hi f =
    let (place, e, r) = traverse_to_leaf-Reached h size fuel heap root low high key [] t lo hi f in
    let b = heap place.current_block in
    let found = search_current_block b key no_cursor in
    let located = search_current_block-Locates r.leaf key no_cursor in
    let iff =
      λ (v : List ℕ). answer_iff r.leaf key found.result found.cursor v located.0 located.1 in
    (
      answer b found.result found.cursor,
      ground (arith, e, r.result, r.cursor),
      λ v. (
        λ k. r.held (record { key = key; value = v }) ((iff v).0 k),
        λ m. (iff v).1 (r.holds (record { key = key; value = v }) refl m),
      ),
    )
