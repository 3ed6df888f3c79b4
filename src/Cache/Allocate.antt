-- ===== src/Cache/Allocate.antt =====
-- `get_new_page`, with the flush that comes first when many pages are new.
use index_research.Prelude.{
  ℕ, suc, ◌+◌, ◌≡◌, refl, sym, ◌∙◌, ap, Option, some, true, List, length, ltb, Bool-cases, inl, inr,
}
use index_research.Cache.Pages.{
  ChgIface, Cache, Place, slot, insert, Entered, Got, get_disk_page_in_cache, get_new_page,
}
use index_research.Cache.Flushed.{IsFlushed, flush_pages_in_seq-IsFlushed}
use index_research.Cache.Get.{content, IsCache, IsKept, content_same}
use index_research.Cache.NewPage.{put, flushed_new, IsNew, flushed-IsCache, new-IsNew}

module _ {Block : Type 0} (iface : ChgIface Block) where
  flushed_content :
      (c c1 : Cache iface) (xs : List ℕ) (keep : Option Place)
      → IsFlushed iface c xs keep c1
      → (q : ℕ) → content iface c1 q ≡ content iface c q
  flushed_content c c1 xs keep f q =
      content_same iface c c1 f.same.root f.same.skip q (λ k. f.same.views q)

  flushed-IsNew :
      (c c1 : Cache iface) (xs : List ℕ) (keep : Option Place) (g : Got iface)
      → IsFlushed iface c xs keep c1
      → IsNew iface c1 keep g
      → IsNew iface c keep g
  flushed-IsNew c c1 xs keep g f n = record {
    entry = n.entry;
    xs' = n.xs';
    place = n.place;
    page_count = n.page_count ∙ ap (λ m. m + 1) f.same.page_count;
    cached = ap g.cache.entry_of (sym f.same.page_count) ∙ n.cached;
    stays = λ q k e h. n.stays q k (ap (λ (m : ℕ → Option ℕ). m q) f.same.entry_of ∙ e) h;
    cache' = n.cache';
    holds =
        λ b. ap (content iface (put iface g.cache n.entry b)) (sym f.same.page_count) ∙ n.holds b;
    others =
        λ b q ne. n.others b q (λ e. ne (e ∙ f.same.page_count)) ∙ flushed_content c c1 xs keep f q;
    skip = n.skip ∙ f.same.skip;
  }

  new_page_runs :
      (c c1 : Cache iface) (rounds : ℕ) (keep : Option Place) (e : Entered iface)
      → flushed_new iface c keep ≡ some c1
      → get_disk_page_in_cache iface rounds c1 c1.file_page_count keep true
        ≡ some (record { cache = e.cache; place = slot (e.cache.cache_loc e.entry) })
      → get_new_page iface rounds c keep
        ≡ some (record {
          cache = record (e.cache) {
            new_pages = insert e.cache.file_page_count e.cache.new_pages;
            file_page_count = e.cache.file_page_count + 1;
          };
          place = slot (e.cache.cache_loc e.entry);
        })
  unfolding get_new_page
  new_page_runs c c1 rounds keep e f runs = rw (get_new_page, f) (rw runs refl)

  flushed_or_same :
      (c : Cache iface) (xs : List ℕ) (keep : Option Place)
      → IsCache iface c xs
      → (c1 : Cache iface) × (flushed_new iface c keep ≡ some c1)
        × IsCache iface c1 xs
        × ((g : Got iface) → IsNew iface c1 keep g → IsNew iface c keep g)
  flushed_or_same c xs keep w = elim (Bool-cases (ltb c.last_pages_to_flush (length c.new_pages))) [
    | inl e ↦
        let (c1, runs, f) = flush_pages_in_seq-IsFlushed iface c xs keep w.store in
        (
          c1,
          rw e runs,
          flushed-IsCache iface c c1 xs keep w f,
          (λ g n. flushed-IsNew c c1 xs keep g f n),
        )
    | inr e ↦ (c, rw e refl, w, (λ g n. n))
  ]

  -- On a well-formed cache, when the block to keep, if there is one in a slot, is marked as changed
  -- and not that of the last entry after the flush of new pages that the call begins with,
  -- get_new_page, given one round of the search or more, returns a slot for the page after the last
  -- one; once a block that is marked as changed is stored there, the cache is well formed, the page
  -- holds the block and every other page what it held.
  pub get_new_page-IsNew :
      (c : Cache iface) (xs : List ℕ) (rounds : ℕ) (keep : Option Place)
      → IsCache iface c xs
      → ((c1 : Cache iface) → flushed_new iface c keep ≡ some c1 → IsKept iface c1 keep)
      → (g : Got iface) × (get_new_page iface (suc rounds) c keep ≡ some g) × IsNew iface c keep g
  get_new_page-IsNew c xs rounds keep w kept =
      let (c1, flushes, w1, back) = flushed_or_same c xs keep w in
      let (g, e, runs, same, n) = new-IsNew iface c1 xs w1 keep rounds (kept c1 flushes) in
      (g, new_page_runs c c1 (suc rounds) keep e flushes runs ∙ ap some (sym same), back g n)
