-- ===== src/Cache/Flushed.antt =====
-- What `flush_pages_in_seq` leaves.
use index_research.Prelude.{
  ℕ, suc, ◌+◌, ◌-◌, ◌≡◌, refl, sym, ◌∙◌, ap, Option, none, some, true, false, List, [], arith,
  Bool-cases, Option-cases, inl, inr,
}
use index_research.Cache.Pages.{
  ChgIface, Cache, Place, changed, has, keeps, write_pages, collect_loop, calc_flush_count,
  pages_to_check, flush_pages_in_seq,
}
use index_research.Cache.Store.{some_eq, some-none, IsStore, NewChanged, Same, Same-refl}
use index_research.Cache.Write.{IsWritten, write_pages-IsWritten}
use index_research.Cache.Flush.{collect_loop-Collects, collect_first, inside-last}

module _ {Block : Type 0} (iface : ChgIface Block) where
  -- Every page holds what it held, no page is new, and the last entry is not marked as changed, unless
  -- it is the one to keep.
  pub record IsFlushed (c : Cache iface) (xs : List ℕ) (keep : Option Place) (c' : Cache iface)
      : Type 0 where
    pub store : IsStore iface c' xs
    pub same : Same iface c c'
    pub new_changed : NewChanged iface c xs → NewChanged iface c' xs
    pub no_new : (z : ℕ) → c.links.last ≡ some z → c'.new_pages ≡ []
    pub last_clean :
        (z : ℕ)
        → c.links.last ≡ some z
        → keeps keep (c.cache_loc z) ≡ false
        → changed iface c' z ≡ false

  module _ (c : Cache iface) (xs : List ℕ) (keep : Option Place) (store : IsStore iface c xs) where
    abbrev counted : Cache iface
    counted = calc_flush_count iface (record c { cache_flush_count = c.cache_flush_count + 1 })

    counted-IsStore : IsStore iface counted xs
    counted-IsStore = record {
      order = store.order;
      count = store.count;
      entries = store.entries;
      loc = store.loc;
      known = store.known;
      listed = store.listed;
      new = store.new;
      free = store.free;
      clean = store.clean;
    }

    counted-Same : Same iface c counted
    counted-Same = record {
      root = refl;
      occupied = refl;
      size = refl;
      skip = refl;
      page_count = refl;
      links = refl;
      page_of = refl;
      cache_loc = refl;
      entry_of = refl;
      views = λ p. refl;
    }

    flush_none : c.links.last ≡ none → flush_pages_in_seq iface c keep ≡ some c
    unfolding flush_pages_in_seq
    flush_none e = rw e refl

    some_round : (n : ℕ) × (pages_to_check iface counted ≡ suc n)
    unfolding pages_to_check
    some_round = (pages_to_check iface counted - 1, ground arith)

    module _ (z : ℕ) (at_end : c.links.last ≡ some z) where
      last_in : has z xs ≡ true
      last_in = inside-last iface c xs store z at_end

      abbrev ps : List ℕ
      ps = collect_loop iface counted keep (pages_to_check iface counted) z c.new_pages

      ps_cached : (p : ℕ) → has p ps ≡ true → (x : ℕ) × (c.entry_of p ≡ some x)
      ps_cached p h =
          elim ((collect_loop-Collects iface counted xs counted-IsStore
              (pages_to_check iface counted) keep z c.new_pages last_in).from
            p h) [
              | inl m ↦ store.new p m
              | inr (y, i, e) ↦ (y, ap c.entry_of (sym e) ∙ store.listed y i)
            ]

      collects_last :
          keeps keep (c.cache_loc z) ≡ false
          → changed iface c z ≡ true
          → has (c.page_of z) ps ≡ true
      collects_last free dirty =
          let (n, e) = some_round in
          ap (λ k. has (c.page_of z) (collect_loop iface counted keep k z c.new_pages)) e
          ∙ collect_first iface counted xs counted-IsStore n keep z c.new_pages last_in free dirty

      flush_some :
          (c' : Cache iface)
          → write_pages iface ps counted ≡ some c'
          → flush_pages_in_seq iface c keep
            ≡ some (record c' { new_pages = []; last_free = c'.links.last })
      unfolding flush_pages_in_seq
      flush_some c' e = ground (arith, at_end, e)

      after-IsFlushed :
          (c' : Cache iface)
          → IsWritten iface counted xs ps c'
          → IsFlushed c xs keep (record c' { new_pages = []; last_free = c'.links.last })
      after-IsFlushed c' w = record {
        store = record {
          order = w.store.order;
          count = w.store.count;
          entries = w.store.entries;
          loc = w.store.loc;
          known = w.store.known;
          listed = w.store.listed;
          new = λ p h. absurd (ground arith);
          free = λ x e. inside-last iface c' xs w.store x e;
          clean = w.store.clean;
        };
        same = record {
          root = w.same.root;
          occupied = w.same.occupied;
          size = w.same.size;
          skip = w.same.skip;
          page_count = w.same.page_count;
          links = w.same.links;
          page_of = w.same.page_of;
          cache_loc = w.same.cache_loc;
          entry_of = w.same.entry_of;
          views = w.same.views;
        };
        new_changed = λ n x h k. absurd (ground arith);
        no_new = λ y e. refl;
        last_clean = λ y e free.
            let same : y ≡ z = some_eq y z (sym e ∙ at_end) in
            elim (Bool-cases (changed iface c z)) [
              | inl dirty ↦
                  w.cleaned (c.page_of y) y
                    (ap (λ k. has (c.page_of k) ps) same
                      ∙ collects_last (ap (λ k. keeps keep (c.cache_loc k)) (sym same) ∙ free)
                          dirty)
                    (ap (λ k. c.entry_of (c.page_of k)) same
                      ∙ store.listed z last_in
                      ∙ ap some (sym same))
              | inr quiet ↦
                  w.quiet y (ap (λ k. has k xs) same ∙ last_in) (ap (changed iface c) same ∙ quiet)
            ];
      }

    -- `flush_pages_in_seq` follows no NULL pointer, and every page holds what it held.
    pub flush_pages_in_seq-IsFlushed :
        (c' : Cache iface) × (flush_pages_in_seq iface c keep ≡ some c') × IsFlushed c xs keep c'
    flush_pages_in_seq-IsFlushed = elim (Option-cases (c.links.last)) [
      | inl e ↦ (
        c,
        flush_none e,
        record {
          store = store;
          same = Same-refl iface c;
          new_changed = λ n. n;
          no_new = λ z k. absurd (some-none z (sym k ∙ e));
          last_clean = λ z k free. absurd (some-none z (sym k ∙ e));
        },
      )
      | inr (z, e) ↦
          let (c', runs, w) =
            write_pages-IsWritten iface (ps z e) counted xs counted-IsStore (ps_cached z e) in
          (
            record c' { new_pages = []; last_free = c'.links.last },
            flush_some z e c' runs,
            after-IsFlushed z e c' w,
          )
    ]
