-- ===== src/Cache/Miss.antt =====
-- `get_disk_page_in_cache`: a page of the file that is not in the cache, and all cases together.
use index_research.Prelude.{
  ℕ, suc, ◌+◌, ◌<◌, ◌≡◌, ◌≢◌, refl, sym, ◌∙◌, ap, Option, none, some, true, false, List, arith,
  ◌==◌, ==_iff, Bool-cases, Option-cases, inl, inr,
}
use index_research.Cache.Links.{set_at}
use index_research.Cache.Pages.{
  ChgIface, Cache, Place, root_block, slot, has, Entered, read_entry, Got, get_disk_page_in_cache,
}
use index_research.Cache.Store.{some-none, image, view, view-none, IsStore}
use index_research.Cache.Write.{set_at_same}
use index_research.Cache.Room.{with_block, entered-IsStore, entered_here, entered_view, entered_new}
use index_research.Cache.Make.{HasRoom, make_room, make_room-HasRoom}
use index_research.Cache.Get.{
  IsCache, IsKept, keep_safe, IsGot, content_same, content-view, get_hit-IsGot,
}
use native.Mathlib.Decide.{ℕ_discrete}

module _ {Block : Type 0} (iface : ChgIface Block) where
  open iface use {is_block_changed}

  module _ (c : Cache iface) (xs : List ℕ) (w : IsCache iface c xs) (p : ℕ)
      (other : p ≢ c.skip_page_count) (absent : c.entry_of p ≡ none) (keep : Option Place)
      (e : Entered iface) (r : HasRoom iface c xs keep p e) where
    -- The place of the page, which is that of no other entry.
    pub room_loc : e.cache.cache_loc e.entry ≡ e.entry
    room_loc = r.entered.loc_here

    pub room_skip : e.cache.skip_page_count ≡ c.skip_page_count
    room_skip = r.entered.skip ∙ r.same.skip

    pub room_count : e.cache.file_page_count ≡ c.file_page_count
    room_count = r.entered.page_count ∙ r.same.page_count

    pub room_below : (q x : ℕ) → q ≢ p → e.cache.entry_of q ≡ some x → q < c.file_page_count
    room_below q x ne k =
        w.below q x
          (ap (λ (f : ℕ → Option ℕ). f q) (sym r.same.entry_of) ∙ (r.entered.entry_old q x ne k).0)

    pub room_root : e.cache.entry_of e.cache.skip_page_count ≡ none
    room_root = elim (Option-cases (e.cache.entry_of e.cache.skip_page_count)) [
      | inl k ↦ k
      | inr (x, k) ↦ absurd (
          some-none x (
            sym (
              ap (λ (f : ℕ → Option ℕ). f c.skip_page_count) (sym r.same.entry_of)
              ∙ (r.entered.entry_old c.skip_page_count x (λ m. other (sym m))
                  (ap e.cache.entry_of (sym room_skip) ∙ k)).0)
            ∙ w.root_out))
    ]

    pub room_size : 0 < e.cache.cache_size_in_pages
    room_size = rw r.entered.size (rw r.same.size w.room)

    pub room_new : has p e.cache.new_pages ≡ false
    room_new = elim (Bool-cases (has p e.cache.new_pages)) [
      | inl k ↦
          let (x, m) = r.store.new p (ap (has p) (sym r.entered.new_pages) ∙ k) in
          absurd (some-none x (sym m ∙ r.entered.absent))
      | inr k ↦ k
    ]

    -- The page that the file has is the one that the call was for.
    pub room_file : image iface (e.cache.file p) ≡ view iface c p
    room_file =
        ap (λ (f : ℕ → Block). image iface (f p)) r.entered.file
        ∙ sym (view-none iface r.before p r.entered.absent)
        ∙ r.same.views p

    abbrev after : Cache iface
    after = record e.cache {
      slots = set_at e.cache.slots (e.cache.cache_loc e.entry) (e.cache.file p);
      pages_read = e.cache.pages_read + 1;
    }

    abbrev stored : Cache iface
    stored = with_block iface e.cache e.entry (e.cache.file p)

    stored-IsStore : IsStore iface stored r.xs'
    stored-IsStore =
        entered-IsStore iface r.before e.cache xs r.xs' e.entry p r.store r.entered (e.cache.file p)
          (λ k. ap (λ (f : ℕ → Block). image iface (f p)) (sym r.entered.file))

    stored-view : (q : ℕ) → view iface stored q ≡ view iface c q
    stored-view q = elim (ℕ_discrete q p) [
      | yes k ↦
          ap (view iface stored) k
          ∙ entered_here iface r.before e.cache xs r.xs' e.entry p r.store r.entered
              (e.cache.file p)
          ∙ room_file
          ∙ ap (view iface c) (sym k)
      | no k ↦
          entered_view iface r.before e.cache xs r.xs' e.entry p r.store r.entered (e.cache.file p)
            q k
          ∙ r.same.views q
    ]

    after-IsStore : IsStore iface after r.xs'
    after-IsStore =
        let s : IsStore iface stored r.xs' = stored-IsStore in
        record {
          order = s.order;
          count = s.count;
          entries = s.entries;
          loc = s.loc;
          known = s.known;
          listed = s.listed;
          new = s.new;
          free = s.free;
          clean = s.clean;
        }

    miss-IsGot :
        p < c.file_page_count
        → IsGot iface c keep p (record { cache = after; place = slot (e.cache.cache_loc e.entry) })
    miss-IsGot inside = record {
      xs' = r.xs';
      cache' = record {
        store = after-IsStore;
        new_changed =
            entered_new iface r.before e.cache xs r.xs' e.entry p r.store r.entered (e.cache.file p)
              r.new_changed;
        below = λ q x k. rw room_count (elim (ℕ_discrete q p) [
          | yes m ↦ omega (arith, m, inside)
          | no m ↦ room_below q x m k
        ]);
        root_out = room_root;
        root_below = rw room_skip (rw room_count w.root_below);
        room = room_size;
      };
      place_of = (
        (λ k. other (k ∙ room_skip)),
        r.entered.entry_here ∙ ap some (sym room_loc),
        ap e.cache.cache_loc room_loc,
      );
      holds =
          ap (image iface) (set_at_same e.cache.slots (e.cache.cache_loc e.entry) (e.cache.file p))
          ∙ room_file
          ∙ sym (content-view iface c p other);
      contents = λ q.
          content_same iface c after (r.entered.root ∙ r.same.root) room_skip q
            (λ k. stored-view q);
      stays = r.stays;
      skip = room_skip;
      page_count = room_count;
    }

    miss_read :
        (rounds : ℕ)
        → make_room iface rounds c p keep ≡ some e
        → get_disk_page_in_cache iface rounds c p keep false
          ≡ some (record { cache = after; place = slot (e.cache.cache_loc e.entry) })
    unfolding get_disk_page_in_cache read_entry
    miss_read rounds runs =
        let not_root : (p == c.skip_page_count) ≡ false = ground (arith, other) in
        ground (arith, not_root, absent, runs, room_new)

  at_root :
      (c : Cache iface) (p rounds : ℕ) (keep : Option Place)
      → p ≡ c.skip_page_count
      → get_disk_page_in_cache iface rounds c p keep false
        ≡ some (record { cache = c; place = root_block })
  unfolding get_disk_page_in_cache
  at_root c p rounds keep k =
      let e : (p == c.skip_page_count) ≡ true = (==_iff p c.skip_page_count).1 k in
      rw (get_disk_page_in_cache, e) refl

  -- A page of the file is always found, in one round of the search or more, no page changes, and
  -- the block to keep stays.
  pub get_disk_page_in_cache-IsGot :
      (c : Cache iface) (xs : List ℕ) (p rounds : ℕ) (keep : Option Place)
      → IsCache iface c xs
      → IsKept iface c keep
      → p < c.file_page_count
      → (g : Got iface) × (get_disk_page_in_cache iface (suc rounds) c p keep false ≡ some g)
        × IsGot iface c keep p g
  get_disk_page_in_cache-IsGot c xs p rounds keep w kept inside =
      elim (ℕ_discrete p c.skip_page_count) [
        | yes k ↦ (
          record { cache = c; place = root_block },
          at_root c p (suc rounds) keep k,
          root-IsGot k,
        )
        | no k ↦ elim (Option-cases (c.entry_of p)) [
          | inl m ↦
              let (e, runs, r) =
                make_room-HasRoom iface c xs keep w.store w.new_changed
                  (keep_safe iface c xs keep w.store kept) p m rounds w.room in
              (
                record {
                  cache = after c xs w p k m keep e r;
                  place = slot (e.cache.cache_loc e.entry);
                },
                miss_read c xs w p k m keep e r (suc rounds) runs,
                miss-IsGot c xs w p k m keep e r inside,
              )
          | inr (x, m) ↦ get_hit-IsGot iface c xs w p k x m (suc rounds) keep false
        ]
      ]
    where
      root-IsGot :
          p ≡ c.skip_page_count → IsGot iface c keep p (record { cache = c; place = root_block })
      root-IsGot k = record {
        xs' = xs;
        cache' = w;
        place_of = k;
        holds =
            let e : (p == c.skip_page_count) ≡ true = (==_iff p c.skip_page_count).1 k in rw e refl;
        contents = λ q. refl;
        stays = λ q y m h. m;
        skip = refl;
        page_count = refl;
      }
