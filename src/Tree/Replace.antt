-- ===== src/Tree/Replace.antt =====
-- The tree after the leaf to which a key leads is exchanged for one with a record more.
use index_research.Prelude.{
  ℕ, suc, ◌<◌, ◌≡◌, ◌≢◌, ◌⊎◌, ◌↔◌, inl, inr, List, Option, true, refl, ap, ◌∙◌, arith,
}
use index_research.Prelude.Memory.{Mem}
use index_research.Page.{is_leaf, filled_size}
use index_research.Page.View.{Rec, rec, IsPage}
use index_research.Page.PutGet.{Holds}
use index_research.Tree.{Heap, put_block}
use index_research.Tree.Shape.{KeyLe, Below, InTree, IsTree, child, key_of, upper}
use index_research.Tree.Apart.{
  Uses, IsSeparate, Agrees, agree-InTree, agree-InTree_back, agree-Uses_back, agree-IsTree,
  agree-IsSeparate,
}
use native.Mathlib.Decide.{ℕ_discrete}

-- `b'` holds the records of `b` and `new`.
abbrev pub Gains : Mem → Mem → Rec → Type 0
Gains b b' new = (r : Rec) → Holds b' r ↔ (Holds b r ⊎ (r ≡ new))

pub put_block_same : (heap : Heap) (a : ℕ) (b : Mem) → put_block heap a b a ≡ b
put_block_same heap a b = ground arith

pub put_block_ne : (heap : Heap) (a : ℕ) (b : Mem) (x : ℕ) → x ≢ a → put_block heap a b x ≡ heap x
put_block_ne heap a b x h = ground (arith, h)

-- The tree in `heap'` is well formed and holds the records of that in `heap` and `new`.
pub record IsReplaced (size h : ℕ) (heap heap' : Heap) (a : ℕ) (low : List ℕ)
    (high : Option (List ℕ)) (new : Rec) : Type 0 where
  pub tree : IsTree size h heap' a low high
  pub separate : IsSeparate h heap' a
  pub uses : (x : ℕ) → Uses h heap' a x → Uses h heap a x
  pub gains : (r : Rec) → InTree h heap' a r ↔ (InTree h heap a r ⊎ (r ≡ new))

module _ (size : ℕ) (heap : Heap) (key : List ℕ) (leaf : ℕ) (b' : Mem) (new : Rec)
    (page : IsPage size b') (flag : is_leaf b' ≡ true) (new_key : new.key ≡ key)
    (gain : Gains (heap leaf) b' new) where
  abbrev heap' : Heap
  heap' = put_block heap leaf b'

  pub leaf-IsReplaced :
      (low : List ℕ) (high : Option (List ℕ))
      → IsTree size 0 heap leaf low high
      → KeyLe low key
      → Below key high
      → IsReplaced size 0 heap heap' leaf low high new
  leaf-IsReplaced low high t lo hi = record {
    tree = rw (put_block_same heap leaf b') (page, flag, in_range);
    separate = tt;
    uses = λ x u. u;
    gains = λ r. rw (put_block_same heap leaf b') (gain r);
  }
    where
      from_old : (r : Rec) → Holds (heap leaf) r → KeyLe low r.key × Below r.key high
      from_old r (j, l, e) =
          let k : (rec (heap leaf) j).key ≡ r.key = ap (λ (x : Rec). x.key) e in rw k at (t.2 j l)

      from_new : (r : Rec) → r ≡ new → KeyLe low r.key × Below r.key high
      from_new r e = let k : r.key ≡ key = ap (λ (x : Rec). x.key) e ∙ new_key in rw k (lo, hi)

      in_range : (i : ℕ) → i < filled_size b' → KeyLe low (key_of b' i) × Below (key_of b' i) high
      in_range i l = elim ((gain (rec b' i)).0 (i, l, refl)) [
        | inl old ↦ from_old (rec b' i) old
        | inr e ↦ from_new (rec b' i) e
      ]

  -- One level up.
  module _ (h a : ℕ) (low : List ℕ) (high : Option (List ℕ))
      (t : IsTree size (suc h) heap a low high) (s : IsSeparate (suc h) heap a) (i : ℕ)
      (inside : i < filled_size (heap a)) (used : Uses h heap (child (heap a) i) leaf)
      (sub : IsReplaced size h heap heap'
        (child (heap a) i)
        (key_of (heap a) i)
        (upper (heap a) i high)
        new) where
    top_same : heap' a ≡ heap a
    top_same = put_block_ne heap leaf b' a (λ e. s.0 i inside (rw (← e) at used))

    others : (j : ℕ) → j < filled_size (heap a) → j ≢ i → Agrees h heap heap' (child (heap a) j)
    others j l ne x u =
        put_block_ne heap leaf b' x (λ e. ne (s.1 j i leaf l inside (rw e at u) used))

    Uses-child :
        (j x : ℕ)
        → j < filled_size (heap a)
        → Uses h heap' (child (heap a) j) x
        → Uses h heap (child (heap a) j) x
    Uses-child j x l u = elim (ℕ_discrete j i) [
      | yes e ↦ rw e (sub.uses x (rw e at u))
      | no ne ↦ agree-Uses_back h heap heap' (child (heap a) j) x (others j l ne) u
    ]

    pub level-IsReplaced : IsReplaced size (suc h) heap heap' a low high new
    level-IsReplaced = record {
      tree = rw top_same (
        t.0,
        t.1,
        t.2,
        t.3,
        t.4,
        λ j l. elim (ℕ_discrete j i) [
          | yes e ↦ rw e sub.tree
          | no ne ↦
              agree-IsTree h size heap heap' (child (heap a) j) (key_of (heap a) j)
                (upper (heap a) j high) (others j l ne) (t.5 j l)
        ],
      );
      separate = rw top_same (
        λ j l u. s.0 j l (Uses-child j a l u),
        λ j k x l m u v. s.1 j k x l m (Uses-child j x l u) (Uses-child k x m v),
        λ j l. elim (ℕ_discrete j i) [
          | yes e ↦ rw e sub.separate
          | no ne ↦ agree-IsSeparate h heap heap' (child (heap a) j) (others j l ne) (s.2 j l)
        ],
      );
      uses = λ x u. elim u [
        | inl e ↦ inl e
        | inr m ↦ let (j, l, v) = rw top_same at m in inr (j, l, Uses-child j x l v)
      ];
      gains = λ r. (
        λ m.
            let (j, l, v) = rw top_same at m in
            elim (ℕ_discrete j i) [
              | yes e ↦ elim ((sub.gains r).0 (rw e at v)) [
                | inl old ↦ inl (i, inside, old)
                | inr new_rec ↦ inr new_rec
              ]
              | no ne ↦
                  inl (j, l, agree-InTree_back h heap heap' (child (heap a) j) r (others j l ne) v)
            ],
        λ m.
            rw top_same
              (elim m [ inr e ↦ (i, inside, (sub.gains r).1 (inr e)) | inl old ↦ moved r old ]),
      );
    }
      where
        moved :
            (r : Rec)
            → InTree (suc h) heap a r
            → (j : ℕ) × (j < filled_size (heap a)) × InTree h heap' (child (heap a) j) r
        moved r (j, l, v) = elim (ℕ_discrete j i) [
          | yes e ↦ (i, inside, (sub.gains r).1 (inl (rw e at v)))
          | no ne ↦ (j, l, agree-InTree h heap heap' (child (heap a) j) r (others j l ne) v)
        ]
