-- ===== src/Cache/Fill.antt =====
-- An entry that was not in use takes a page: `fill_entry`.
use index_research.Prelude.{
  ℕ, ◌+◌, ◌<◌, ◌≡◌, ◌≢◌, refl, sym, ◌∙◌, ap, none, some, true, false, List, [], ◌∷◌, ◌++◌, length,
  arith, Bool-cases, inl, inr,
}
use index_research.Cache.Pages.{ChgIface, Cache, has, fill_entry}
use index_research.Cache.Order.{append_entry-IsOrder, has-append}
use index_research.Cache.Store.{some-none, IsStore, view-none}
use index_research.Cache.Write.{set_at_same, set_at_ne}
use index_research.Cache.Room.{IsEntered}

length-append : (x : ℕ) (xs : List ℕ) → length (xs ++ x ∷ []) ≡ length xs + 1
length-append x [] = refl
length-append x (y ∷ ys) = ground (arith, length-append x ys)

module _ {Block : Type 0} (iface : ChgIface Block) where
  module _ (c : Cache iface) (xs : List ℕ) (p : ℕ) (store : IsStore iface c xs)
      (absent : c.entry_of p ≡ none) where
    abbrev x : ℕ
    x = c.cache_occupied_size

    unused : has x xs ≡ false
    unused = elim (Bool-cases (has x xs)) [
      | inl e ↦ absurd (omega (arith, store.entries x e))
      | inr e ↦ e
    ]

    below_ne : (y : ℕ) → has y xs ≡ true → y ≢ x
    below_ne y h = λ k. omega (arith, store.entries y h, k)

    below : (y : ℕ) → has y (xs ++ x ∷ []) ≡ true → y < x + 1
    below y h = elim (Bool-cases (has y xs)) [
      | inl e ↦ omega (arith, store.entries y e)
      | inr e ↦ ground (arith, has-append x y xs, e, h)
    ]

    pub fill_entry-IsEntered : IsEntered iface c (fill_entry iface c p) xs (xs ++ x ∷ []) x p
    unfolding fill_entry
    fill_entry-IsEntered = record {
      order = append_entry-IsOrder c.links xs x store.order unused;
      count = length-append x xs ∙ ap (λ n. n + 1) store.count;
      entries = below;
      here = ground (arith, has-append x x xs);
      others = λ y h ne. ground (arith, has-append x y xs, h, ne);
      back = λ y h. ground (arith, has-append x y xs, h);
      loc_here = set_at_same c.cache_loc x x;
      loc_same = λ y ne. set_at_ne c.cache_loc x x y ne;
      page_here = set_at_same c.page_of x p;
      page_same = λ y ne. set_at_ne c.page_of x p y ne;
      absent = absent;
      entry_here = set_at_same c.entry_of p (some x);
      entry_old = λ q y ne e.
          let old : c.entry_of q ≡ some y = sym (set_at_ne c.entry_of p (some x) q ne) ∙ e in
          (old, below_ne y (store.known q y old).0);
      entry_kept = λ q y e ne.
          set_at_ne c.entry_of p (some x) q (λ k. some-none y (sym e ∙ ap c.entry_of k ∙ absent))
          ∙ e;
      gone = λ q ne e. view-none iface c q (sym (set_at_ne c.entry_of p (some x) q ne) ∙ e);
      no_new = λ q y h e. below_ne y (store.known q y e).0;
      slots = refl;
      file = refl;
      new_pages = refl;
      free = store.free;
      root = refl;
      skip = refl;
      page_count = refl;
      size = refl;
    }
