-- ===== src/Cache/Edit.antt =====
-- A caller changes the block of a page through the address that it was given.
use index_research.Prelude.{
  ℕ, ◌≡◌, ◌≢◌, refl, sym, ◌∙◌, ap, true, false, List, ◌==◌, ==_iff, Option-cases, inl, inr,
}
use index_research.Cache.Links.{set_at}
use index_research.Cache.Pages.{ChgIface, Cache, slot, changed, has, block_of}
use index_research.Cache.Store.{image, view, view-none, view-some, NewChanged}
use index_research.Cache.Write.{set_at_same, set_at_ne}
use index_research.Cache.Choose.{true-false}
use index_research.Cache.Get.{content, IsCache, IsPlaceOf, content_same, content-view}
use index_research.Cache.NewPage.{put}
use native.Mathlib.Decide.{ℕ_discrete}

module _ {Block : Type 0} (iface : ChgIface Block) where
  open iface use {is_block_changed}

  -- After an edit the page holds the new block, and every other page what it held.
  pub record IsEdited (c c' : Cache iface) (p : ℕ) (b : Block) : Type 0 where
    pub xs' : List ℕ
    pub cache' : IsCache iface c' xs'
    pub holds : content iface c' p ≡ image iface b
    pub others : (q : ℕ) → q ≢ p → content iface c' q ≡ content iface c q
    pub page_count : c'.file_page_count ≡ c.file_page_count

  module _ (c : Cache iface) (xs : List ℕ) (w : IsCache iface c xs) (b : Block) where
    pub root-IsEdited : IsEdited c (record c { root = b }) c.skip_page_count b
    root-IsEdited = record {
      xs' = xs;
      cache' = record {
        store = record {
          order = w.store.order;
          count = w.store.count;
          entries = w.store.entries;
          loc = w.store.loc;
          known = w.store.known;
          listed = w.store.listed;
          new = w.store.new;
          free = w.store.free;
          clean = w.store.clean;
        };
        new_changed = w.new_changed;
        below = w.below;
        root_out = w.root_out;
        root_below = w.root_below;
        room = w.room;
      };
      holds =
          let e : (c.skip_page_count == c.skip_page_count) ≡ true =
            (==_iff c.skip_page_count c.skip_page_count).1 refl in
          rw e refl;
      others =
          λ q ne. content-view iface (record c { root = b }) q ne ∙ sym (content-view iface c q ne);
      page_count = refl;
    }

    module _ (p k : ℕ) (at : IsPlaceOf iface c p (slot k))
        (marked : is_block_changed b ≡ true) where
      abbrev after : Cache iface
      after = put iface c k b

      k_in : has k xs ≡ true
      k_in = (w.store.known p k at.1).0

      block_here : block_of iface after k ≡ b
      block_here = ap (set_at c.slots k b) at.2 ∙ set_at_same c.slots k b

      block_kept : (y : ℕ) → has y xs ≡ true → y ≢ k → block_of iface after y ≡ block_of iface c y
      block_kept y h ne =
          set_at_ne c.slots k b (c.cache_loc y) (λ e. ne (sym (w.store.loc y h) ∙ e))

      kept_unless : (y : ℕ) → has y xs ≡ true → (y ≡ k → changed iface after y ≡ true)
      kept_unless y h e = ap (changed iface after) e ∙ ap is_block_changed block_here ∙ marked

      after_clean :
          (y : ℕ)
          → has y xs ≡ true
          → changed iface after y ≡ false
          → image iface (c.file (c.page_of y)) ≡ image iface (block_of iface after y)
      after_clean y h quiet = elim (ℕ_discrete y k) [
        | yes e ↦ absurd (true-false (sym (kept_unless y h e) ∙ quiet))
        | no e ↦
            w.store.clean y h (ap is_block_changed (sym (block_kept y h e)) ∙ quiet)
            ∙ ap (image iface) (sym (block_kept y h e))
      ]

      after_new : NewChanged iface after xs
      after_new y h n = elim (ℕ_discrete y k) [
        | yes e ↦ kept_unless y h e
        | no e ↦ ap is_block_changed (block_kept y h e) ∙ w.new_changed y h n
      ]

      after_view : (q : ℕ) → q ≢ p → view iface after q ≡ view iface c q
      after_view q ne = elim (Option-cases (c.entry_of q)) [
        | inl e ↦ view-none iface after q e ∙ sym (view-none iface c q e)
        | inr (y, e) ↦
            let (h, page) = w.store.known q y e in
            view-some iface after q y e
            ∙ ap (image iface)
                (block_kept y h (λ m. ne (sym page ∙ ap c.page_of m ∙ (w.store.known p k at.1).1)))
            ∙ sym (view-some iface c q y e)
      ]

      pub put-IsEdited : IsEdited c after p b
      put-IsEdited = record {
        xs' = xs;
        cache' = record {
          store = record {
            order = w.store.order;
            count = w.store.count;
            entries = w.store.entries;
            loc = w.store.loc;
            known = w.store.known;
            listed = w.store.listed;
            new = w.store.new;
            free = w.store.free;
            clean = after_clean;
          };
          new_changed = after_new;
          below = w.below;
          root_out = w.root_out;
          root_below = w.root_below;
          room = w.room;
        };
        holds =
            content-view iface after p at.0
            ∙ view-some iface after p k at.1
            ∙ ap (image iface) block_here;
        others = λ q ne. content_same iface c after refl refl q (λ e. after_view q ne);
        page_count = refl;
      }
