-- ===== src/Tree/Shape.antt =====
-- What a tree of blocks holds, and when it is well formed.
use index_research.Prelude.{
  ℕ, zero, suc, ◌+◌, ◌<◌, ◌≡◌, ◌⊎◌, inl, inr, List, Option, none, some, true, false, ltb, arith, ap,
  if◌then◌else◌, lt→ltb, le→not_ltb,
}
use index_research.Util.Compare.Order.{KeyLt, KeyLt-trans, KeyLt-irrefl}
use index_research.Page.{is_leaf, filled_size, get_ptr}
use index_research.Prelude.Memory.{Mem}
use index_research.Page.View.{Rec, rec, IsPage}
use index_research.Page.PutGet.{Holds}
use index_research.Tree.{Heap, get_child_ptr}
use native.Mathlib.Decide.{dec_lt}

abbrev pub KeyLe : List ℕ → List ℕ → Type 0
KeyLe xs ys = KeyLt xs ys ⊎ (xs ≡ ys)

-- The key is below the bound, if there is one.
abbrev pub Below : List ℕ → Option (List ℕ) → Type 0
Below key none = Unit {0}
Below key (some high) = KeyLt key high

abbrev pub child : Mem → ℕ → ℕ
child b i = get_child_ptr b (get_ptr b i)

abbrev pub key_of : Mem → ℕ → List ℕ
key_of b i = (rec b i).key

-- The bound of child `i`: the key of the next one, or that of the whole block.
abbrev pub upper : Mem → ℕ → Option (List ℕ) → Option (List ℕ)
upper b i high = if ltb (i + 1) (filled_size b) then some (key_of b (i + 1)) else high

-- A record in a leaf of the tree of height `h` at the address `a`.
abbrev pub InTree : ℕ → Heap → ℕ → Rec → Type 0
InTree zero heap a r = Holds (heap a) r
InTree (suc h) heap a r = (i : ℕ) × (i < filled_size (heap a)) × InTree h heap (child (heap a) i) r

-- The blocks are well formed, leaves at one depth, and the keys under child `i` of a block lie from its
-- key `i` on and below the next.
abbrev pub IsTree : ℕ → ℕ → Heap → ℕ → List ℕ → Option (List ℕ) → Type 0
IsTree size zero heap a low high =
    IsPage size (heap a)
    × (is_leaf (heap a) ≡ true)
    × ((i : ℕ)
        → i < filled_size (heap a)
        → KeyLe low (key_of (heap a) i) × Below (key_of (heap a) i) high)
IsTree size (suc h) heap a low high =
    IsPage size (heap a)
    × (is_leaf (heap a) ≡ false)
    × (0 < filled_size (heap a))
    × (key_of (heap a) 0 ≡ low)
    × ((i : ℕ) → i < filled_size (heap a) → Below (key_of (heap a) i) high)
    × ((i : ℕ)
        → i < filled_size (heap a)
        → IsTree size h heap (child (heap a) i) (key_of (heap a) i) (upper (heap a) i high))

pub KeyLe-trans : (xs ys zs : List ℕ) → KeyLe xs ys → KeyLe ys zs → KeyLe xs zs
KeyLe-trans xs ys zs (inl h) (inl k) = inl (KeyLt-trans xs ys zs h k)
KeyLe-trans xs ys zs (inl h) (inr e) = inl (rw (← e) h)
KeyLe-trans xs ys zs (inr e) k = rw e k

pub KeyLt-KeyLe : (xs ys zs : List ℕ) → KeyLt xs ys → KeyLe ys zs → KeyLt xs zs
KeyLt-KeyLe xs ys zs h (inl k) = KeyLt-trans xs ys zs h k
KeyLt-KeyLe xs ys zs h (inr e) = rw (← e) h

pub KeyLe-not_lt : (xs ys : List ℕ) → KeyLe xs ys → KeyLt ys xs → ⊥
KeyLe-not_lt xs ys (inl h) k = KeyLt-irrefl xs (KeyLt-trans xs ys xs h k)
KeyLe-not_lt xs ys (inr e) k = KeyLt-irrefl ys (rw e at k)

pub Below-trans :
    (xs ys : List ℕ) (high : Option (List ℕ)) → KeyLt xs ys → Below ys high → Below xs high
Below-trans xs ys none h k = tt
Below-trans xs ys (some z) h k = KeyLt-trans xs ys z h k

-- The keys of a block ascend, also weakly.
pub key_of_mono :
    {size : ℕ} {b : Mem}
    → IsPage size b
    → (i j : ℕ) → i < j + 1
    → j < filled_size b
    → KeyLe (key_of b i) (key_of b j)
key_of_mono {b} page i j h k = elim (dec_lt i j) [
  | yes l ↦ inl (page.sorted i j l k)
  | no l ↦ inr (ap (key_of b) (omega arith))
]

pub upper_next :
    (b : Mem) (i : ℕ) (high : Option (List ℕ))
    → i + 1 < filled_size b
    → upper b i high ≡ some (key_of b (i + 1))
upper_next b i high h = rw (lt→ltb (i + 1) (filled_size b) h)

pub upper_last :
    (b : Mem) (i : ℕ) (high : Option (List ℕ)) → filled_size b < i + 2 → upper b i high ≡ high
upper_last b i high h = rw (le→not_ltb (i + 1) (filled_size b) (omega arith))

-- A key below the bound of a child is below the bound of the block.
widen :
    (b : Mem) (i : ℕ) (high : Option (List ℕ)) (key : List ℕ)
    → Below key (upper b i high)
    → (i + 1 < filled_size b → Below (key_of b (i + 1)) high)
    → Below key high
widen b i high key h next = elim (dec_lt (i + 1) (filled_size b)) [
  | yes k ↦ Below-trans key (key_of b (i + 1)) high (rw (upper_next b i high k) at h) (next k)
  | no k ↦ rw (upper_last b i high (omega arith)) at h
]

-- Every record of a tree lies in its range.
pub InTree-range :
    (h size : ℕ) (heap : Heap) (a : ℕ) (low : List ℕ) (high : Option (List ℕ)) (r : Rec)
    → IsTree size h heap a low high
    → InTree h heap a r
    → KeyLe low r.key × Below r.key high
InTree-range zero size heap a low high r t (i, l, e) =
    let k : (rec (heap a) i).key ≡ r.key = ap (λ (x : Rec). x.key) e in rw k at (t.2 i l)
InTree-range (suc h) size heap a low high r t (i, l, m) =
    let inner =
      InTree-range h size heap (child (heap a) i) (key_of (heap a) i) (upper (heap a) i high) r
        (t.5 i l) m in
    (
      rw (← t.3) (
          KeyLe-trans (key_of (heap a) 0) (key_of (heap a) i) r.key
            (key_of_mono t.0 0 i (omega arith) l) inner.0),
      widen (heap a) i high r.key inner.1 (t.4 (i + 1)),
    )
