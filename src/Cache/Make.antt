-- ===== src/Cache/Make.antt =====
-- Room for a page that is not in the cache.
use index_research.Prelude.{
  ℕ, suc, ◌<◌, ◌≡◌, ◌≢◌, refl, sym, ◌∙◌, ap, Option, none, some, true, false, List, [], ◌∷◌, ◌++◌,
  length, arith, ltb, Bool-cases, if◌then◌else◌, inl, inr,
}
use index_research.Cache.Pages.{
  ChgIface, Cache, Place, has, keeps, calc_flush_count, Chosen, choose_loop, fill_entry,
  reuse_entry, Entered, replace_entry,
}
use index_research.Cache.Chain.{erase, has-last}
use index_research.Cache.Store.{IsStore, NewChanged, Same, Same-refl}
use index_research.Cache.Flush.{inside-prev}
use index_research.Cache.Choose.{true-false, KeepSafe, IsChosen, choose_loop-IsChosen}
use index_research.Cache.Room.{IsEntered}
use index_research.Cache.Fill.{fill_entry-IsEntered}
use index_research.Cache.Reuse.{reuse_entry-IsEntered}

module _ {Block : Type 0} (iface : ChgIface Block) where
  open iface use {is_block_changed}

  -- A page gets an entry in two steps: `before`, in which the pages hold what they held in `c`, and the
  -- cache of `e`, in which the page has the entry.
  pub record HasRoom (c : Cache iface) (xs : List ℕ) (keep : Option Place) (p : ℕ)
      (e : Entered iface) : Type 0 where
    pub before : Cache iface
    pub xs' : List ℕ
    pub store : IsStore iface before xs
    pub same : Same iface c before
    pub new_changed : NewChanged iface before xs
    pub entered : IsEntered iface before e.cache xs xs' e.entry p
    pub stays :
        (q k : ℕ) → c.entry_of q ≡ some k → keeps keep k ≡ true → e.cache.entry_of q ≡ some k

  abbrev pub make_room : ℕ → Cache iface → ℕ → Option Place → Option (Entered iface)
  make_room rounds c p keep =
      if ltb c.cache_occupied_size c.cache_size_in_pages
      then some (record { cache = fill_entry iface c p; entry = c.cache_occupied_size })
      else replace_entry iface rounds c p keep

  module _ (c : Cache iface) (xs : List ℕ) (keep : Option Place) (store : IsStore iface c xs)
      (new : NewChanged iface c xs) (safe : KeepSafe iface c xs keep) (p : ℕ)
      (absent : c.entry_of p ≡ none) where
    has_last :
        (zs : List ℕ) → IsStore iface c zs → 0 < length zs → (z : ℕ) × (c.links.last ≡ some z)
    has_last [] s h = absurd (omega (arith, h))
    has_last (y ∷ ys) s h =
        let (z, e, i) = has-last c.links y ys c.links.last s.order.chain.2 in (z, e)

    counted-IsStore : IsStore iface (calc_flush_count iface c) xs
    counted-IsStore = record {
      order = store.order;
      count = store.count;
      entries = store.entries;
      loc = store.loc;
      known = store.known;
      listed = store.listed;
      new = store.new;
      free = store.free;
      clean = store.clean;
    }

    module _ (v : Chosen iface)
        (w : IsChosen iface (calc_flush_count iface c) xs keep counted-IsStore safe v) where
      abbrev next_free : Option ℕ
      next_free =
          if is_block_changed (v.cache.slots v.block)
          then v.cache.last_free
          else v.cache.links.prev v.entry

      abbrev freed : Cache iface
      freed = record v.cache { last_free = next_free }

      free_in : (x : ℕ) → next_free ≡ some x → has x xs ≡ true
      free_in x e = elim (Bool-cases (is_block_changed (v.cache.slots v.block))) [
        | inl k ↦ w.store'.free x (ground (arith, k, e))
        | inr k ↦ inside-prev iface v.cache xs w.store' v.entry w.inside x (ground (arith, k, e))
      ]

      freed-IsStore : IsStore iface freed xs
      freed-IsStore = record {
        order = w.store'.order;
        count = w.store'.count;
        entries = w.store'.entries;
        loc = w.store'.loc;
        known = w.store'.known;
        listed = w.store'.listed;
        new = w.store'.new;
        free = free_in;
        clean = w.store'.clean;
      }

      freed-Same : Same iface c freed
      freed-Same = record {
        root = w.same.root;
        occupied = w.same.occupied;
        size = w.same.size;
        skip = w.same.skip;
        page_count = w.same.page_count;
        links = w.same.links;
        page_of = w.same.page_of;
        cache_loc = w.same.cache_loc;
        entry_of = w.same.entry_of;
        views = w.same.views;
      }

      replaced :
          (rounds : ℕ) (c2 : Cache iface)
          → choose_loop iface rounds (calc_flush_count iface c) p keep ≡ some v
          → reuse_entry iface freed v.entry p ≡ some c2
          → replace_entry iface rounds c p keep ≡ some (record { cache = c2; entry = v.entry })
      unfolding replace_entry
      replaced rounds c2 e f = rw (replace_entry, e) (rw f refl)

    kept_ne :
        (x k : ℕ)
        → keeps keep (c.cache_loc x) ≡ false
        → c.cache_loc k ≡ k
        → keeps keep k ≡ true
        → k ≢ x
    kept_ne x k e l h same = true-false (sym h ∙ ap (keeps keep) (sym l ∙ ap c.cache_loc same) ∙ e)

    replace_entry-HasRoom :
        (rounds z : ℕ)
        → c.links.last ≡ some z
        → (e : Entered iface) × (replace_entry iface (suc rounds) c p keep ≡ some e)
          × HasRoom c xs keep p e
    replace_entry-HasRoom rounds z at_end =
        let (v, runs, w) =
          choose_loop-IsChosen iface (calc_flush_count iface c) xs keep counted-IsStore safe new p z
            at_end rounds in
        let (c2, reuses, e) =
          reuse_entry-IsEntered iface (freed v w) xs p v.entry (freed-IsStore v w)
            (ap (λ (f : ℕ → Option ℕ). f p) w.same.entry_of ∙ absent) w.inside w.quiet w.no_new in
        (
          record { cache = c2; entry = v.entry },
          replaced v w (suc rounds) c2 runs reuses,
          record {
            before = freed v w;
            xs' = v.entry ∷ erase v.entry xs;
            store = freed-IsStore v w;
            same = freed-Same v w;
            new_changed = w.new_changed;
            entered = e;
            stays = λ q k m h.
                e.entry_kept q k (ap (λ (f : ℕ → Option ℕ). f q) w.same.entry_of ∙ m)
                  (λ same. kept_ne v.entry k w.not_kept (store.loc k (store.known q k m).0) h same);
          },
        )

    -- A cache with room for one block or more finds room for the page.
    pub make_room-HasRoom :
        (rounds : ℕ)
        → 0 < c.cache_size_in_pages
        → (e : Entered iface) × (make_room (suc rounds) c p keep ≡ some e) × HasRoom c xs keep p e
    make_room-HasRoom rounds size =
        elim (Bool-cases (ltb c.cache_occupied_size c.cache_size_in_pages)) [
          | inl k ↦ (
            record { cache = fill_entry iface c p; entry = c.cache_occupied_size },
            ground (arith, k),
            record {
              before = c;
              xs' = xs ++ c.cache_occupied_size ∷ [];
              store = store;
              same = Same-refl iface c;
              new_changed = new;
              entered = fill_entry-IsEntered iface c xs p store absent;
              stays = λ q y m h.
                  (fill_entry-IsEntered iface c xs p store absent).entry_kept q y m
                    (λ same. omega (arith, store.entries y (store.known q y m).0, same));
            },
          )
          | inr k ↦
              let (z, at_end) = has_last xs store (ground (arith, store.count, size, k)) in
              let (e, runs, room) = replace_entry-HasRoom rounds z at_end in (e, rw k runs, room)
        ]
