-- ===== src/Cache/Write.antt =====
-- `write_pages` keeps what every page holds.
use index_research.Prelude.{
  ℕ, ◌≡◌, ◌≢◌, refl, sym, ◌∙◌, ap, some, true, false, List, [], ◌∷◌, arith, Option-cases, inl, inr,
  ◌+◌,
}
use index_research.Cache.Links.{set_at}
use index_research.Cache.Pages.{ChgIface, Cache, block_of, changed, has, write_pages}
use index_research.Cache.Store.{
  some_eq, some-none, image, view, IsStore, Same, Same-trans, Same-refl, view-none, view-some,
}
use native.Mathlib.Decide.{ℕ_discrete}

pub set_at_same {ℓ} : {A : Type ℓ} (f : ℕ → A) (p : ℕ) (v : A) → set_at f p v p ≡ v
set_at_same f p v = ground arith

pub set_at_ne {ℓ} : {A : Type ℓ} (f : ℕ → A) (p : ℕ) (v : A) (q : ℕ) → q ≢ p → set_at f p v q ≡ f q
set_at_ne f p v q h = ground (arith, h)

module _ {Block : Type 0} (iface : ChgIface Block) where
  open iface use {set_block_changed, is_block_changed, set_twice, set_false}

  -- One page is written.
  abbrev write_one : Cache iface → ℕ → ℕ → Cache iface
  write_one c p x =
      let block = set_block_changed (block_of iface c x) false in
      record c {
        slots = set_at c.slots (c.cache_loc x) block;
        file = set_at c.file p block;
        pages_written = c.pages_written + 1;
      }

  module _ (c : Cache iface) (xs : List ℕ) (store : IsStore iface c xs) (p x : ℕ)
      (here : c.entry_of p ≡ some x) where
    inside : has x xs ≡ true
    inside = (store.known p x here).0

    block_self : block_of iface (write_one c p x) x ≡ image iface (block_of iface c x)
    block_self = set_at_same c.slots (c.cache_loc x) (image iface (block_of iface c x))

    block_ne :
        (y : ℕ) → has y xs ≡ true → y ≢ x → block_of iface (write_one c p x) y ≡ block_of iface c y
    block_ne y h ne =
        set_at_ne c.slots (c.cache_loc x) (image iface (block_of iface c x)) (c.cache_loc y)
          (λ e. ne (sym (store.loc y h) ∙ e ∙ store.loc x inside))

    one_quiet :
        (y : ℕ)
        → has y xs ≡ true
        → changed iface c y ≡ false
        → changed iface (write_one c p x) y ≡ false
    one_quiet y h e = elim (ℕ_discrete y x) [
      | yes k ↦
          ap (λ z. changed iface (write_one c p x) z) k
          ∙ ap is_block_changed block_self
          ∙ set_false (block_of iface c x)
      | no k ↦ ap is_block_changed (block_ne y h k) ∙ e
    ]

    one_cleaned : changed iface (write_one c p x) x ≡ false
    one_cleaned = ap is_block_changed block_self ∙ set_false (block_of iface c x)

    -- The entry of a page shows the same up to the mark.
    image_same :
        (y : ℕ)
        → has y xs ≡ true
        → image iface (block_of iface (write_one c p x) y) ≡ image iface (block_of iface c y)
    image_same y h = elim (ℕ_discrete y x) [
      | yes k ↦
          ap (λ z. image iface (block_of iface (write_one c p x) z)) k
          ∙ ap (image iface) block_self
          ∙ set_twice (block_of iface c x)
          ∙ ap (λ z. image iface (block_of iface c z)) (sym k)
      | no k ↦ ap (image iface) (block_ne y h k)
    ]

    one_view : (q : ℕ) → view iface (write_one c p x) q ≡ view iface c q
    one_view q = elim (Option-cases (c.entry_of q)) [
      | inl e ↦
          let ne : q ≢ p = λ k. some-none x (sym here ∙ ap c.entry_of (sym k) ∙ e) in
          view-none iface (write_one c p x) q e
          ∙ ap (image iface) (set_at_ne c.file p (image iface (block_of iface c x)) q ne)
          ∙ sym (view-none iface c q e)
      | inr (y, e) ↦
          view-some iface (write_one c p x) q y e
          ∙ image_same y (store.known q y e).0
          ∙ sym (view-some iface c q y e)
    ]

    one_clean :
        (y : ℕ)
        → has y xs ≡ true
        → changed iface (write_one c p x) y ≡ false
        → image iface (set_at c.file p (image iface (block_of iface c x)) (c.page_of y))
          ≡ image iface (block_of iface (write_one c p x) y)
    one_clean y h e = elim (ℕ_discrete y x) [
      | yes k ↦ ap (image iface) (
          ap (set_at c.file p (image iface (block_of iface c x)))
            (ap c.page_of k ∙ (store.known p x here).1)
          ∙ set_at_same c.file p (image iface (block_of iface c x))
          ∙ sym block_self
          ∙ ap (block_of iface (write_one c p x)) (sym k))
      | no k ↦
          let other : c.page_of y ≢ p =
            λ r. k (some_eq y x (sym (store.listed y h) ∙ ap c.entry_of r ∙ here)) in
          ap (image iface)
            (set_at_ne c.file p (image iface (block_of iface c x)) (c.page_of y) other)
          ∙ store.clean y h (sym (ap is_block_changed (block_ne y h k)) ∙ e)
          ∙ sym (ap (image iface) (block_ne y h k))
    ]

    one-IsStore : IsStore iface (write_one c p x) xs
    one-IsStore = record {
      order = store.order;
      count = store.count;
      entries = store.entries;
      loc = store.loc;
      known = store.known;
      listed = store.listed;
      new = store.new;
      free = store.free;
      clean = one_clean;
    }

    one-Same : Same iface c (write_one c p x)
    one-Same = record {
      root = refl;
      occupied = refl;
      size = refl;
      skip = refl;
      page_count = refl;
      links = refl;
      page_of = refl;
      cache_loc = refl;
      entry_of = refl;
      views = one_view;
    }

  -- What writing the pages `ps` leaves.
  pub record IsWritten (c : Cache iface) (xs ps : List ℕ) (c' : Cache iface) : Type 0 where
    pub store : IsStore iface c' xs
    pub same : Same iface c c'
    pub quiet : (y : ℕ) → has y xs ≡ true → changed iface c y ≡ false → changed iface c' y ≡ false
    pub cleaned : (p x : ℕ) → has p ps ≡ true → c.entry_of p ≡ some x → changed iface c' x ≡ false
    pub new_pages : c'.new_pages ≡ c.new_pages
    pub last_pages_to_flush : c'.last_pages_to_flush ≡ c.last_pages_to_flush

  -- Pages of the cache can be written: no NULL pointer is followed, and every page holds what it held.
  pub write_pages-IsWritten :
      (ps : List ℕ) (c : Cache iface) (xs : List ℕ)
      → IsStore iface c xs
      → ((p : ℕ) → has p ps ≡ true → (x : ℕ) × (c.entry_of p ≡ some x))
      → (c' : Cache iface) × (write_pages iface ps c ≡ some c') × IsWritten c xs ps c'
  unfolding write_pages
  write_pages-IsWritten [] c xs store all = (
    c,
    refl,
    record {
      store = store;
      same = Same-refl iface c;
      quiet = λ y h e. e;
      cleaned = λ p x h e. absurd (ground arith);
      new_pages = refl;
      last_pages_to_flush = refl;
    },
  )
  write_pages-IsWritten (p ∷ ps) c xs store all =
      let (x, here) = all p (ground arith) in
      let (c', runs, w) =
        write_pages-IsWritten ps (write_one c p x) xs (one-IsStore c xs store p x here)
          (λ q h. all q (ground arith)) in
      (
        c',
        rw (write_pages, here) runs,
        record {
          store = w.store;
          same = Same-trans iface c (write_one c p x) c' (one-Same c xs store p x here) w.same;
          quiet = λ y h e. w.quiet y h (one_quiet c xs store p x here y h e);
          cleaned = λ q y h e. elim (ℕ_discrete q p) [
            | yes k ↦
                let same : y ≡ x = some_eq y x (sym e ∙ ap c.entry_of k ∙ here) in
                w.quiet y (store.known q y e).0
                  (ap (changed iface (write_one c p x)) same ∙ one_cleaned c xs store p x here)
            | no k ↦ w.cleaned q y (ground (arith, k)) e
          ];
          new_pages = w.new_pages;
          last_pages_to_flush = w.last_pages_to_flush;
        },
      )
