-- ===== src/Cache/Choose.antt =====
-- The entry that gives up its block: its page is in the file.
use index_research.Prelude.{
  ℕ, zero, suc, ◌≡◌, ◌≢◌, refl, sym, ◌∙◌, ap, Option, some, Bool, true, false, not, ◌&&◌, ◌||◌,
  List, length, arith, ltb, Bool-cases, Option-cases, inl, inr,
}
use index_research.Cache.Links.{Links}
use index_research.Cache.Pages.{
  ChgIface, Cache, Place, changed, has, keeps, is_null, or_else, Search, check_loop, Chosen,
  choose_loop, flush_pages_in_seq,
}
use index_research.Cache.Store.{some-none, IsStore, NewChanged, Same}
use index_research.Cache.Flush.{inside-last, inside-prev}
use index_research.Cache.Flushed.{IsFlushed, flush_pages_in_seq-IsFlushed}

pub true-false : true ≡ false → ⊥
true-false e = cc

ends_false : (a b c d : Bool) → (a || b || c || d) ≡ false → (a ≡ false) × (d ≡ false)
ends_false true b c d e = absurd (true-false e)
ends_false false true c d e = absurd (true-false e)
ends_false false false true d e = absurd (true-false e)
ends_false false false false d e = (refl, e)

module _ {Block : Type 0} (iface : ChgIface Block) where
  open iface use {is_block_changed}

  -- The block to keep is marked as changed, and is not the last of the list.
  abbrev pub KeepSafe : Cache iface → List ℕ → Option Place → Type 0
  KeepSafe c xs keep =
      (x : ℕ)
      → has x xs ≡ true
      → keeps keep (c.cache_loc x) ≡ true
      → (changed iface c x ≡ true) × (c.links.last ≢ some x)

  -- The search ends at an entry of the list; if it is not the first one and the block that was looked at
  -- last is not changed, the block of the entry is not.
  record IsFound (c : Cache iface) (xs : List ℕ) (s : Search iface) : Type 0 where
    inside : has s.entry_to_move xs ≡ true
    free : (x : ℕ) → s.free ≡ some x → has x xs ≡ true
    quiet :
        is_block_changed (c.slots s.block) ≡ false
        → is_null (c.links.prev s.entry_to_move) ≡ false
        → changed iface c s.entry_to_move ≡ false

  module _ (c : Cache iface) (xs : List ℕ) (keep : Option Place) (store : IsStore iface c xs)
      (safe : KeepSafe c xs keep) where
    check_loop-IsFound :
        (n block x : ℕ)
        → has x xs ≡ true
        → (n ≡ 0 → is_block_changed (c.slots block) ≡ true)
        → IsFound c xs (check_loop iface c keep n block x)
    unfolding check_loop
    check_loop-IsFound zero block x h dirty = record {
      inside = h;
      free = store.free;
      quiet = λ e k. absurd (ground (arith, dirty refl));
    }
    check_loop-IsFound (suc n) block x h dirty =
        elim (Bool-cases (not (changed iface c x) && not (keeps keep (c.cache_loc x)))) [
          | inl e ↦ rw (check_loop, e) (record { inside = h; free = store.free; quiet = λ a b. a })
          | inr e ↦ elim (Option-cases (c.links.prev x)) [
            | inl k ↦
                rw (check_loop, e, k)
                  (record {
                    inside = h;
                    free = λ y m. absurd (some-none y (sym m));
                    quiet = λ a b. a;
                  })
            | inr (y, k) ↦
                rw (check_loop, e, k)
                  (check_loop-IsFound n (c.cache_loc x) y (inside-prev iface c xs store x h y k)
                    (λ z. marked e))
          ]
        ]
      where
        marked :
            (not (changed iface c x) && not (keeps keep (c.cache_loc x))) ≡ false
            → changed iface c x ≡ true
        marked e = elim (Bool-cases (changed iface c x)) [
          | inl d ↦ d
          | inr d ↦ (safe x h (ground (arith, d, e))).0
        ]

    -- The cache after the choice: the entry is not marked as changed, and its page is not new.
    pub record IsChosen (v : Chosen iface) : Type 0 where
      pub store' : IsStore iface v.cache xs
      pub same : Same iface c v.cache
      pub new_changed : NewChanged iface v.cache xs
      pub inside : has v.entry xs ≡ true
      pub quiet : changed iface v.cache v.entry ≡ false
      pub no_new : has (v.cache.page_of v.entry) v.cache.new_pages ≡ false
      pub not_kept : keeps keep (c.cache_loc v.entry) ≡ false

    module _ (new : NewChanged iface c xs) (p z : ℕ) (at_end : c.links.last ≡ some z) where
      start : (x : ℕ) × (or_else c.last_free c.links.last ≡ some x) × (has x xs ≡ true)
      start = elim (Option-cases (c.last_free)) [
        | inl e ↦ (z, rw e at_end, inside-last iface c xs store z at_end)
        | inr (x, e) ↦ (x, rw e refl, store.free x e)
      ]

      module _ (x : ℕ) (begins : or_else c.last_free c.links.last ≡ some x)
          (x_in : has x xs ≡ true) where
        abbrev s : Search iface
        s = check_loop iface c keep 40 0 x

        found : IsFound c xs s
        found = check_loop-IsFound 40 0 x x_in (λ e. absurd (omega (arith, e)))

        abbrev c1 : Cache iface
        c1 = record c { last_free = s.free }

        c1-IsStore : IsStore iface c1 xs
        c1-IsStore = record {
          order = store.order;
          count = store.count;
          entries = store.entries;
          loc = store.loc;
          known = store.known;
          listed = store.listed;
          new = store.new;
          free = found.free;
          clean = store.clean;
        }

        abbrev must_flush : Bool
        must_flush =
            is_block_changed (c.slots s.block)
            || ltb c.last_pages_to_flush (length c.new_pages)
            || has p c.new_pages
            || is_null (c.links.prev s.entry_to_move)

        chosen_flush :
            (rounds : ℕ) (c2 : Cache iface)
            → must_flush ≡ true
            → flush_pages_in_seq iface c1 keep ≡ some c2
            → c2.links.last ≡ some z
            → choose_loop iface (suc rounds) c p keep
              ≡ some (record { cache = c2; block = s.block; entry = z })
        unfolding choose_loop
        chosen_flush rounds c2 e f g = ground (arith, begins, e, f, g)

        chosen_found :
            (rounds : ℕ)
            → must_flush ≡ false
            → is_block_changed (c.slots s.block) ≡ false
            → choose_loop iface (suc rounds) c p keep
              ≡ some (record { cache = c1; block = s.block; entry = s.entry_to_move })
        unfolding choose_loop
        chosen_found rounds e f = ground (arith, begins, e, f)

        last_not_kept : keeps keep (c.cache_loc z) ≡ false
        last_not_kept = elim (Bool-cases (keeps keep (c.cache_loc z))) [
          | inl k ↦ absurd ((safe z (inside-last iface c xs store z at_end) k).1 at_end)
          | inr k ↦ k
        ]

        flushed-IsChosen :
            (c2 : Cache iface)
            → IsFlushed iface c1 xs keep c2
            → IsChosen (record { cache = c2; block = s.block; entry = z })
        flushed-IsChosen c2 w = record {
          store' = w.store;
          same = record {
            root = w.same.root;
            occupied = w.same.occupied;
            size = w.same.size;
            skip = w.same.skip;
            page_count = w.same.page_count;
            links = w.same.links;
            page_of = w.same.page_of;
            cache_loc = w.same.cache_loc;
            entry_of = w.same.entry_of;
            views = w.same.views;
          };
          new_changed = w.new_changed new;
          no_new = ap (has (c2.page_of z)) (w.no_new z at_end);
          inside = inside-last iface c xs store z at_end;
          quiet = w.last_clean z at_end last_not_kept;
          not_kept = last_not_kept;
        }

        choose_from :
            (rounds : ℕ)
            → (v : Chosen iface) × (choose_loop iface (suc rounds) c p keep ≡ some v) × IsChosen v
        choose_from rounds = elim (Bool-cases must_flush) [
          | inl e ↦
              let (c2, runs, w) = flush_pages_in_seq-IsFlushed iface c1 xs keep c1-IsStore in
              (
                record { cache = c2; block = s.block; entry = z },
                chosen_flush rounds c2 e runs (ap (λ (l : Links). l.last) w.same.links ∙ at_end),
                flushed-IsChosen c2 w,
              )
          | inr e ↦
              let (still, second) =
                ends_false (is_block_changed (c.slots s.block))
                  (ltb c.last_pages_to_flush (length c.new_pages)) (has p c.new_pages)
                  (is_null (c.links.prev s.entry_to_move)) e in
              let quiet : changed iface c s.entry_to_move ≡ false = found.quiet still second in
              (
                record { cache = c1; block = s.block; entry = s.entry_to_move },
                chosen_found rounds e still,
                record {
                  store' = c1-IsStore;
                  same = record {
                    root = refl;
                    occupied = refl;
                    size = refl;
                    skip = refl;
                    page_count = refl;
                    links = refl;
                    page_of = refl;
                    cache_loc = refl;
                    entry_of = refl;
                    views = λ q. refl;
                  };
                  new_changed = new;
                  no_new = elim (Bool-cases (has (c.page_of s.entry_to_move) c.new_pages)) [
                    | inl k ↦ absurd (true-false (sym (new s.entry_to_move found.inside k) ∙ quiet))
                    | inr k ↦ k
                  ];
                  inside = found.inside;
                  quiet = quiet;
                  not_kept = elim (Bool-cases (keeps keep (c.cache_loc s.entry_to_move))) [
                    | inl k ↦
                        absurd (true-false (sym (safe s.entry_to_move found.inside k).0 ∙ quiet))
                    | inr k ↦ k
                  ];
                },
              )
        ]

      -- With one round of the outer loop or more, an entry is chosen.
      pub choose_loop-IsChosen :
          (rounds : ℕ)
          → (v : Chosen iface) × (choose_loop iface (suc rounds) c p keep ≡ some v) × IsChosen v
      choose_loop-IsChosen rounds =
          let (x, begins, x_in) = start in choose_from x begins x_in rounds
