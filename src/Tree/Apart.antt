-- ===== src/Tree/Apart.antt =====
-- The blocks of a tree are different blocks, and what is true of a tree where no block changed.
use index_research.Prelude.{ℕ, zero, suc, ◌<◌, ◌≡◌, ◌⊎◌, inl, inr, List, Option, refl}
use index_research.Page.{filled_size}
use index_research.Page.View.{Rec}
use index_research.Tree.{Heap}
use index_research.Tree.Shape.{InTree, IsTree, child, key_of, upper}

-- The block at `x` belongs to the tree.
abbrev pub Uses : ℕ → Heap → ℕ → ℕ → Type 0
Uses zero heap a x = x ≡ a
Uses (suc h) heap a x =
    (x ≡ a) ⊎ ((i : ℕ) × (i < filled_size (heap a)) × Uses h heap (child (heap a) i) x)

-- No block stands at two places of the tree.
abbrev pub IsSeparate : ℕ → Heap → ℕ → Type 0
IsSeparate zero heap a = Unit {0}
IsSeparate (suc h) heap a =
    ((i : ℕ) → i < filled_size (heap a) → Uses h heap (child (heap a) i) a → ⊥)
    × ((i j x : ℕ)
        → i < filled_size (heap a)
        → j < filled_size (heap a)
        → Uses h heap (child (heap a) i) x
        → Uses h heap (child (heap a) j) x
        → i ≡ j)
    × ((i : ℕ) → i < filled_size (heap a) → IsSeparate h heap (child (heap a) i))

pub Uses-root : (h : ℕ) (heap : Heap) (a : ℕ) → Uses h heap a a
Uses-root zero heap a = refl
Uses-root (suc h) heap a = inl refl

-- The two heaps agree on the tree.
abbrev pub Agrees : ℕ → Heap → Heap → ℕ → Type 0
Agrees h heap heap' a = (x : ℕ) → Uses h heap a x → heap' x ≡ heap x

pub Agrees-child :
    (h : ℕ) (heap heap' : Heap) (a i : ℕ)
    → i < filled_size (heap a)
    → Agrees (suc h) heap heap' a
    → Agrees h heap heap' (child (heap a) i)
Agrees-child h heap heap' a i l g x u = g x (inr (i, l, u))

pub agree-InTree :
    (h : ℕ) (heap heap' : Heap) (a : ℕ) (r : Rec)
    → Agrees h heap heap' a
    → InTree h heap a r
    → InTree h heap' a r
agree-InTree zero heap heap' a r g m = rw (g a refl) m
agree-InTree (suc h) heap heap' a r g (i, l, m) =
    rw (g a (inl refl))
      (i, l, agree-InTree h heap heap' (child (heap a) i) r (Agrees-child h heap heap' a i l g) m)

pub agree-InTree_back :
    (h : ℕ) (heap heap' : Heap) (a : ℕ) (r : Rec)
    → Agrees h heap heap' a
    → InTree h heap' a r
    → InTree h heap a r
agree-InTree_back zero heap heap' a r g m = rw (g a refl) at m
agree-InTree_back (suc h) heap heap' a r g m =
    let (i, l, k) = rw (g a (inl refl)) at m in
    (
      i,
      l,
      agree-InTree_back h heap heap' (child (heap a) i) r (Agrees-child h heap heap' a i l g) k,
    )

pub agree-Uses_back :
    (h : ℕ) (heap heap' : Heap) (a x : ℕ)
    → Agrees h heap heap' a
    → Uses h heap' a x
    → Uses h heap a x
agree-Uses_back zero heap heap' a x g u = u
agree-Uses_back (suc h) heap heap' a x g (inl e) = inl e
agree-Uses_back (suc h) heap heap' a x g (inr m) =
    let (i, l, k) = rw (g a (inl refl)) at m in
    inr (
      i,
      l,
      agree-Uses_back h heap heap' (child (heap a) i) x (Agrees-child h heap heap' a i l g) k,
    )

pub agree-IsTree :
    (h size : ℕ) (heap heap' : Heap) (a : ℕ) (low : List ℕ) (high : Option (List ℕ))
    → Agrees h heap heap' a
    → IsTree size h heap a low high
    → IsTree size h heap' a low high
agree-IsTree zero size heap heap' a low high g t = rw (g a refl) t
agree-IsTree (suc h) size heap heap' a low high g t = rw (g a (inl refl)) (
  t.0,
  t.1,
  t.2,
  t.3,
  t.4,
  λ i l.
      agree-IsTree h size heap heap' (child (heap a) i) (key_of (heap a) i) (upper (heap a) i high)
        (Agrees-child h heap heap' a i l g) (t.5 i l),
)

pub agree-IsSeparate :
    (h : ℕ) (heap heap' : Heap) (a : ℕ)
    → Agrees h heap heap' a
    → IsSeparate h heap a
    → IsSeparate h heap' a
agree-IsSeparate zero heap heap' a g s = tt
agree-IsSeparate (suc h) heap heap' a g s = rw (g a (inl refl)) (
  λ i l u.
      s.0 i l
        (agree-Uses_back h heap heap' (child (heap a) i) a (Agrees-child h heap heap' a i l g) u),
  λ i j x l k u v.
      s.1 i j x l k
        (agree-Uses_back h heap heap' (child (heap a) i) x (Agrees-child h heap heap' a i l g) u)
        (agree-Uses_back h heap heap' (child (heap a) j) x (Agrees-child h heap heap' a j k g) v),
  λ i l.
      agree-IsSeparate h heap heap' (child (heap a) i) (Agrees-child h heap heap' a i l g)
        (s.2 i l),
)
