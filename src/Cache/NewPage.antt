-- ===== src/Cache/NewPage.antt =====
-- `get_new_page`: the new page is in the cache only, until it is written.
use index_research.Prelude.{
  ℕ, suc, ◌+◌, ◌≡◌, ◌≢◌, refl, sym, ◌∙◌, ap, Option, none, some, true, false, List, length, arith,
  ltb, ◌==◌, ==_iff, Bool-cases, Option-cases, if◌then◌else◌, inl, inr,
}
use index_research.Cache.Links.{set_at}
use index_research.Cache.Pages.{
  ChgIface, Cache, Place, slot, has, keeps, insert, Entered, read_entry, flush_pages_in_seq, Got,
  get_disk_page_in_cache,
}
use index_research.Cache.Store.{some_eq, image, view, IsStore, NewChanged}
use index_research.Cache.Flush.{has-insert, has-insert_other}
use index_research.Cache.Flushed.{IsFlushed}
use index_research.Cache.Choose.{true-false}
use index_research.Cache.Write.{set_at_same}
use index_research.Cache.Room.{with_block, entered-IsStore, entered_here, entered_view, entered_new}
use index_research.Cache.Make.{HasRoom, make_room, make_room-HasRoom}
use index_research.Cache.Get.{content, IsCache, IsKept, keep_safe, content_same, content-view}
use index_research.Cache.Miss.{room_loc, room_skip, room_count, room_below, room_root, room_size}
use native.Mathlib.Decide.{ℕ_discrete}

module _ {Block : Type 0} (iface : ChgIface Block) where
  open iface use {is_block_changed}

  -- The caller writes a block through the address of a slot.
  abbrev pub put : Cache iface → ℕ → Block → Cache iface
  put c k b = record c { slots = set_at c.slots k b }

  -- The cache that the new page enters: the pages that are new are written first when they are many.
  abbrev pub flushed_new : Cache iface → Option Place → Option (Cache iface)
  flushed_new c keep =
      if ltb c.last_pages_to_flush (length c.new_pages)
      then flush_pages_in_seq iface c keep
      else some c

  -- The call returns a slot for the page after the last. Once the caller has stored a block that is
  -- marked as changed, the page holds it; no other page changes, and the block to keep stays.
  pub record IsNew (c : Cache iface) (keep : Option Place) (g : Got iface) : Type 0 where
    pub entry : ℕ
    pub xs' : List ℕ
    pub place : g.place ≡ slot entry
    pub page_count : g.cache.file_page_count ≡ c.file_page_count + 1
    pub cached : g.cache.entry_of c.file_page_count ≡ some entry
    pub stays :
        (q k : ℕ) → c.entry_of q ≡ some k → keeps keep k ≡ true → g.cache.entry_of q ≡ some k
    pub cache' : (b : Block) → is_block_changed b ≡ true → IsCache iface (put g.cache entry b) xs'
    pub holds : (b : Block) → content iface (put g.cache entry b) c.file_page_count ≡ image iface b
    pub others :
        (b : Block) (q : ℕ)
        → q ≢ c.file_page_count
        → content iface (put g.cache entry b) q ≡ content iface c q
    pub skip : g.cache.skip_page_count ≡ c.skip_page_count

  pub flushed-IsCache :
      (c c1 : Cache iface) (xs : List ℕ) (keep : Option Place)
      → IsCache iface c xs
      → IsFlushed iface c xs keep c1
      → IsCache iface c1 xs
  flushed-IsCache c c1 xs keep w f = record {
    store = f.store;
    new_changed = f.new_changed w.new_changed;
    below = λ q x e.
        rw f.same.page_count
          (w.below q x (ap (λ (h : ℕ → Option ℕ). h q) (sym f.same.entry_of) ∙ e));
    root_out =
        ap c1.entry_of f.same.skip
        ∙ ap (λ (h : ℕ → Option ℕ). h c.skip_page_count) f.same.entry_of
        ∙ w.root_out;
    root_below = rw f.same.skip (rw f.same.page_count w.root_below);
    room = rw f.same.size w.room;
  }

  module _ (c : Cache iface) (xs : List ℕ) (w : IsCache iface c xs) (keep : Option Place) where
    abbrev p : ℕ
    p = c.file_page_count

    other : p ≢ c.skip_page_count
    other e = omega (arith, w.root_below, e)

    absent : c.entry_of p ≡ none
    absent = elim (Option-cases (c.entry_of p)) [
      | inl e ↦ e
      | inr (x, e) ↦ absurd (omega (arith, w.below p x e))
    ]

    module _ (e : Entered iface) (r : HasRoom iface c xs keep p e) where
      abbrev result : Got iface
      result = record {
        cache = record (e.cache) {
          new_pages = insert e.cache.file_page_count e.cache.new_pages;
          file_page_count = e.cache.file_page_count + 1;
        };
        place = slot (e.cache.cache_loc e.entry);
      }

      new_runs :
          (rounds : ℕ)
          → make_room iface rounds c p keep ≡ some e
          → get_disk_page_in_cache iface rounds c p keep true
            ≡ some (record { cache = e.cache; place = slot (e.cache.cache_loc e.entry) })
      unfolding get_disk_page_in_cache read_entry
      new_runs rounds runs =
          let not_root : (p == c.skip_page_count) ≡ false = ground (arith, other) in
          ground (arith, not_root, absent, runs)

      module _ (b : Block) where
        abbrev stored : Cache iface
        stored = with_block iface e.cache e.entry b

        stored_here : view iface stored p ≡ image iface b
        stored_here = entered_here iface r.before e.cache xs r.xs' e.entry p r.store r.entered b

        stored-view : (q : ℕ) → q ≢ p → view iface stored q ≡ view iface c q
        stored-view q ne =
            entered_view iface r.before e.cache xs r.xs' e.entry p r.store r.entered b q ne
            ∙ r.same.views q

        module _ (marked : is_block_changed b ≡ true) where
          stored-IsStore : IsStore iface stored r.xs'
          stored-IsStore =
              entered-IsStore iface r.before e.cache xs r.xs' e.entry p r.store r.entered b
                (λ k. absurd (true-false (sym marked ∙ k)))

          stored_new : NewChanged iface stored r.xs'
          stored_new =
              entered_new iface r.before e.cache xs r.xs' e.entry p r.store r.entered b
                r.new_changed

          abbrev after : Cache iface
          after = put result.cache (e.cache.cache_loc e.entry) b

          after_new : (q : ℕ) → has q after.new_pages ≡ true → (x : ℕ) × (after.entry_of q ≡ some x)
          after_new q h = elim (Bool-cases (q == e.cache.file_page_count)) [
            | inl k ↦ (
              e.entry,
              ap e.cache.entry_of (
                    (==_iff q e.cache.file_page_count).0 k
                    ∙ room_count iface c xs w p other absent keep e r)
                  ∙ r.entered.entry_here,
            )
            | inr k ↦
                stored-IsStore.new q
                  (ground (arith, has-insert e.cache.file_page_count q e.cache.new_pages, h, k))
          ]

          after-IsStore : IsStore iface after r.xs'
          after-IsStore =
              let s : IsStore iface stored r.xs' = stored-IsStore in
              record {
                order = s.order;
                count = s.count;
                entries = s.entries;
                loc = s.loc;
                known = s.known;
                listed = s.listed;
                new = after_new;
                free = s.free;
                clean = s.clean;
              }

          after_changed : NewChanged iface after r.xs'
          after_changed x h m = elim (ℕ_discrete x e.entry) [
            | yes k ↦
                ap
                  (λ y.
                    is_block_changed
                      (set_at e.cache.slots (e.cache.cache_loc e.entry) b (e.cache.cache_loc y)))
                  k
                ∙ ap is_block_changed here
                ∙ marked
            | no k ↦ stored_new x h (old k)
          ]
            where
              here :
                  set_at e.cache.slots (e.cache.cache_loc e.entry) b (e.cache.cache_loc e.entry) ≡ b
              here = set_at_same e.cache.slots (e.cache.cache_loc e.entry) b

              page : x ≢ e.entry → e.cache.page_of x ≢ e.cache.file_page_count
              page k same = k (
                  some_eq x e.entry (
                    sym (stored-IsStore.listed x h)
                    ∙ ap e.cache.entry_of (same ∙ room_count iface c xs w p other absent keep e r)
                    ∙ r.entered.entry_here))

              old : x ≢ e.entry → has (e.cache.page_of x) e.cache.new_pages ≡ true
              old k =
                  has-insert_other e.cache.file_page_count (e.cache.page_of x) e.cache.new_pages m
                    (page k)

          after-IsCache : IsCache iface after r.xs'
          after-IsCache = record {
            store = after-IsStore;
            new_changed = after_changed;
            below = λ q x k.
                rw (room_count iface c xs w p other absent keep e r) (elim (ℕ_discrete q p) [
                  | yes m ↦ omega (arith, m)
                  | no m ↦ omega (arith, room_below iface c xs w p other absent keep e r q x m k)
                ]);
            root_out = room_root iface c xs w p other absent keep e r;
            root_below = rw (room_skip iface c xs w p other absent keep e r) (
                rw (room_count iface c xs w p other absent keep e r) (omega (arith, w.root_below)));
            room = room_size iface c xs w p other absent keep e r;
          }

      result-IsNew : IsNew c keep result
      result-IsNew = record {
        entry = e.cache.cache_loc e.entry;
        xs' = r.xs';
        place = refl;
        page_count = ap (λ n. n + 1) (room_count iface c xs w p other absent keep e r);
        cached =
            r.entered.entry_here ∙ ap some (sym (room_loc iface c xs w p other absent keep e r));
        stays = r.stays;
        cache' = after-IsCache;
        holds = λ b.
            content-view iface (put result.cache (e.cache.cache_loc e.entry) b) p
              (λ k. other (k ∙ room_skip iface c xs w p other absent keep e r))
            ∙ stored_here b;
        others = λ b q ne.
            content_same iface c (put result.cache (e.cache.cache_loc e.entry) b)
              (r.entered.root ∙ r.same.root) (room_skip iface c xs w p other absent keep e r) q
              (λ k. stored-view b q ne);
        skip = room_skip iface c xs w p other absent keep e r;
      }

    pub new-IsNew :
        (rounds : ℕ)
        → IsKept iface c keep
        → (g : Got iface) × (e : Entered iface) × (get_disk_page_in_cache iface
              (suc rounds)
              c
              p
              keep
              true
            ≡ some (record { cache = e.cache; place = slot (e.cache.cache_loc e.entry) }))
          × (g ≡ record {
            cache = record (e.cache) {
              new_pages = insert e.cache.file_page_count e.cache.new_pages;
              file_page_count = e.cache.file_page_count + 1;
            };
            place = slot (e.cache.cache_loc e.entry);
          })
          × IsNew c keep g
    new-IsNew rounds kept =
        let (e, runs, r) =
          make_room-HasRoom iface c xs keep w.store w.new_changed
            (keep_safe iface c xs keep w.store kept) p absent rounds w.room in
        (result e r, e, new_runs e r (suc rounds) runs, refl, result-IsNew e r)
