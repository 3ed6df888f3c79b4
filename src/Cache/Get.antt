-- ===== src/Cache/Get.antt =====
-- What a call of `get_disk_page_in_cache` for a page of the file returns.
use index_research.Prelude.{
  ℕ, ◌<◌, ◌≡◌, ◌≢◌, refl, sym, ◌∙◌, ap, Option, none, some, Bool, true, false, List, ◌∷◌, arith,
  ◌==◌, ==_iff, Option-cases, if◌then◌else◌, inl, inr,
}
use index_research.Cache.Pages.{
  ChgIface, Cache, Place, root_block, slot, changed, has, keeps, touch_entry, Got,
  get_disk_page_in_cache,
}
use index_research.Cache.Chain.{erase}
use index_research.Cache.Store.{image, view, view-none, view-some, IsStore, NewChanged}
use index_research.Cache.Choose.{KeepSafe}
use index_research.Cache.Touch.{IsTouched, touch_entry-IsTouched}
use index_research.Cache.Reuse.{has-front}
use native.Mathlib.Decide.{ℕ_discrete}

module _ {Block : Type 0} (iface : ChgIface Block) where
  open iface use {is_block_changed}

  -- What a page holds: the page of the root is not among the entries.
  abbrev pub content : Cache iface → ℕ → Block
  content c p = if p == c.skip_page_count then image iface c.root else view iface c p

  abbrev pub block_at : Cache iface → Place → Block
  block_at c root_block = c.root
  block_at c (slot k) = c.slots k

  -- The place is that of the page.
  abbrev pub IsPlaceOf : Cache iface → ℕ → Place → Type 0
  IsPlaceOf c p root_block = p ≡ c.skip_page_count
  IsPlaceOf c p (slot k) = (p ≢ c.skip_page_count) × (c.entry_of p ≡ some k) × (c.cache_loc k ≡ k)

  -- The cached pages are those of a file of `file_page_count` pages, and the cache is not of size 0.
  pub record IsCache (c : Cache iface) (xs : List ℕ) : Type 0 where
    pub store : IsStore iface c xs
    pub new_changed : NewChanged iface c xs
    pub below : (q x : ℕ) → c.entry_of q ≡ some x → q < c.file_page_count
    pub root_out : c.entry_of c.skip_page_count ≡ none
    pub root_below : c.skip_page_count < c.file_page_count
    pub room : 0 < c.cache_size_in_pages

  -- The block to keep is marked as changed, and is not that of the last entry.
  abbrev pub IsKept : Cache iface → Option Place → Type 0
  IsKept c keep =
      (x : ℕ)
      → x < c.cache_occupied_size
      → keeps keep (c.cache_loc x) ≡ true
      → (changed iface c x ≡ true) × (c.links.last ≢ some x)

  pub keep_safe :
      (c : Cache iface) (xs : List ℕ) (keep : Option Place)
      → IsStore iface c xs
      → IsKept c keep
      → KeepSafe iface c xs keep
  keep_safe c xs keep store kept = λ x h. kept x (store.entries x h)

  -- The call returns the page's block, which holds what the page did, no page changes,
  -- and the block to keep stays.
  pub record IsGot (c : Cache iface) (keep : Option Place) (p : ℕ) (g : Got iface) : Type 0 where
    pub xs' : List ℕ
    pub cache' : IsCache g.cache xs'
    pub place_of : IsPlaceOf g.cache p g.place
    pub holds : image iface (block_at g.cache g.place) ≡ content c p
    pub contents : (q : ℕ) → content g.cache q ≡ content c q
    pub stays :
        (q k : ℕ) → c.entry_of q ≡ some k → keeps keep k ≡ true → g.cache.entry_of q ≡ some k
    pub skip : g.cache.skip_page_count ≡ c.skip_page_count
    pub page_count : g.cache.file_page_count ≡ c.file_page_count

  -- Pages hold the same when their views and the root do.
  pub content_same :
      (c c' : Cache iface)
      → c'.root ≡ c.root
      → c'.skip_page_count ≡ c.skip_page_count
      → (q : ℕ) → (q ≢ c.skip_page_count → view iface c' q ≡ view iface c q)
      → content c' q ≡ content c q
  content_same c c' r s q v = elim (ℕ_discrete q c.skip_page_count) [
    | yes k ↦
        let e : (q == c.skip_page_count) ≡ true = (==_iff q c.skip_page_count).1 k in
        at_skip ∙ rw e (ap (image iface) r)
    | no k ↦ at_skip ∙ (let e : (q == c.skip_page_count) ≡ false = ground (arith, k) in rw e (v k))
  ]
    where
      at_skip :
          content c' q ≡ (if q == c.skip_page_count then image iface c'.root else view iface c' q)
      at_skip = ap (λ (n : ℕ). if q == n then image iface c'.root else view iface c' q) s

  pub content-view :
      (c : Cache iface) (q : ℕ) → q ≢ c.skip_page_count → content c q ≡ view iface c q
  content-view c q k = let e : (q == c.skip_page_count) ≡ false = ground (arith, k) in rw e refl

  module _ (c : Cache iface) (xs : List ℕ) (w : IsCache c xs) (p : ℕ)
      (other : p ≢ c.skip_page_count) where
    store : IsStore iface c xs
    store = w.store

    not_root : (p == c.skip_page_count) ≡ false
    not_root = ground (arith, other)

    -- The page is in the cache.
    module _ (x : ℕ) (cached : c.entry_of p ≡ some x) where
      x_in : has x xs ≡ true
      x_in = (store.known p x cached).0

      get_hit :
          (rounds : ℕ) (keep : Option Place) (is_new : Bool) (c1 : Cache iface)
          → touch_entry iface c x ≡ some c1
          → get_disk_page_in_cache iface rounds c p keep is_new
            ≡ some (record { cache = c1; place = slot (c1.cache_loc x) })
      unfolding get_disk_page_in_cache
      get_hit rounds keep is_new c1 e = ground (arith, not_root, cached, e)

      module _ (c1 : Cache iface) (t : IsTouched iface c xs x store x_in c1) where
        touched_view : (q : ℕ) → view iface c1 q ≡ view iface c q
        touched_view q = elim (Option-cases (c.entry_of q)) [
          | inl k ↦
              view-none iface c1 q (ap (λ (f : ℕ → Option ℕ). f q) t.entry_of ∙ k)
              ∙ ap (λ (f : ℕ → Block). image iface (f q)) t.file
              ∙ sym (view-none iface c q k)
          | inr (y, k) ↦
              view-some iface c1 q y (ap (λ (f : ℕ → Option ℕ). f q) t.entry_of ∙ k)
              ∙ ap (λ (f : ℕ → ℕ). image iface (c1.slots (f y))) t.cache_loc
              ∙ ap (λ (f : ℕ → Block). image iface (f (c.cache_loc y))) t.views
              ∙ sym (view-some iface c q y k)
        ]

        touched_loc : c1.cache_loc x ≡ x
        touched_loc = ap (λ (f : ℕ → ℕ). f x) t.cache_loc ∙ store.loc x x_in

        touched_entry : (q : ℕ) → c1.entry_of q ≡ c.entry_of q
        touched_entry q = ap (λ (f : ℕ → Option ℕ). f q) t.entry_of

        touched_new : NewChanged iface c1 (x ∷ erase x xs)
        touched_new y h k =
            ap (λ (f : ℕ → ℕ). is_block_changed (c1.slots (f y))) t.cache_loc
            ∙ ap (λ (f : ℕ → Block). is_block_changed (f (c.cache_loc y))) t.views
            ∙ w.new_changed y (sym (has-front x y xs x_in) ∙ h) (
                ap (has (c.page_of y)) (sym t.new_pages)
                ∙ ap (λ (f : ℕ → ℕ). has (f y) c1.new_pages) (sym t.page_of)
                ∙ k)

        hit-IsGot :
            (keep : Option Place)
            → IsGot c keep p (record { cache = c1; place = slot (c1.cache_loc x) })
        hit-IsGot keep = record {
          xs' = x ∷ erase x xs;
          cache' = record {
            store = t.store';
            new_changed = touched_new;
            below = λ q y e. rw t.page_count (w.below q y (sym (touched_entry q) ∙ e));
            root_out = ap c1.entry_of t.skip ∙ touched_entry c.skip_page_count ∙ w.root_out;
            root_below = rw t.skip (rw t.page_count w.root_below);
            room = rw t.size w.room;
          };
          place_of = (
            (λ e. other (e ∙ t.skip)),
            touched_entry p ∙ cached ∙ ap some (sym touched_loc),
            ap c1.cache_loc touched_loc,
          );
          holds =
              ap (λ (f : ℕ → Block). image iface (f (c1.cache_loc x))) t.views
              ∙ ap (λ (f : ℕ → ℕ). image iface (c.slots (f x))) t.cache_loc
              ∙ sym (view-some iface c p x cached)
              ∙ sym (content-view c p other);
          contents = λ q. content_same c c1 t.root t.skip q (λ k. touched_view q);
          stays = λ q k m h. touched_entry q ∙ m;
          skip = t.skip;
          page_count = t.page_count;
        }

      pub get_hit-IsGot :
          (rounds : ℕ) (keep : Option Place) (is_new : Bool)
          → (g : Got iface) × (get_disk_page_in_cache iface rounds c p keep is_new ≡ some g)
            × IsGot c keep p g
      get_hit-IsGot rounds keep is_new =
          let (c1, runs, t) = touch_entry-IsTouched iface c xs x store x_in in
          (
            record { cache = c1; place = slot (c1.cache_loc x) },
            get_hit rounds keep is_new c1 runs,
            hit-IsGot c1 t keep,
          )
