-- ===== src/Cache/Room.antt =====
-- A page that enters the cache at an entry, whose block is then read or written.
use index_research.Prelude.{
  ℕ, ◌<◌, ◌≡◌, ◌≢◌, sym, ◌∙◌, ap, none, some, true, false, List, length, Option-cases, inl, inr,
}
use index_research.Cache.Links.{set_at}
use index_research.Cache.Pages.{ChgIface, Cache, block_of, changed, has}
use index_research.Cache.Chain.{IsOrder}
use index_research.Cache.Store.{
  some_eq, some-none, image, view, IsStore, NewChanged, view-none, view-some,
}
use index_research.Cache.Write.{set_at_same, set_at_ne}
use native.Mathlib.Decide.{ℕ_discrete}

module _ {Block : Type 0} (iface : ChgIface Block) where
  open iface use {is_block_changed}

  -- `c` with the page `p` at the entry `x`, whose former page, if any, is in the file.
  pub record IsEntered (c c2 : Cache iface) (xs xs' : List ℕ) (x p : ℕ) : Type 0 where
    pub order : IsOrder c2.links xs'
    pub count : length xs' ≡ c2.cache_occupied_size
    pub entries : (y : ℕ) → has y xs' ≡ true → y < c2.cache_occupied_size
    pub here : has x xs' ≡ true
    pub others : (y : ℕ) → has y xs' ≡ true → y ≢ x → has y xs ≡ true
    pub back : (y : ℕ) → has y xs ≡ true → has y xs' ≡ true
    pub loc_here : c2.cache_loc x ≡ x
    pub loc_same : (y : ℕ) → y ≢ x → c2.cache_loc y ≡ c.cache_loc y
    pub page_here : c2.page_of x ≡ p
    pub page_same : (y : ℕ) → y ≢ x → c2.page_of y ≡ c.page_of y
    pub absent : c.entry_of p ≡ none
    pub entry_here : c2.entry_of p ≡ some x
    pub entry_old : (q y : ℕ) → q ≢ p → c2.entry_of q ≡ some y → (c.entry_of q ≡ some y) × (y ≢ x)
    pub entry_kept : (q y : ℕ) → c.entry_of q ≡ some y → y ≢ x → c2.entry_of q ≡ some y
    pub gone : (q : ℕ) → q ≢ p → c2.entry_of q ≡ none → view iface c q ≡ image iface (c.file q)
    pub no_new : (q y : ℕ) → has q c.new_pages ≡ true → c.entry_of q ≡ some y → y ≢ x
    pub slots : c2.slots ≡ c.slots
    pub file : c2.file ≡ c.file
    pub new_pages : c2.new_pages ≡ c.new_pages
    pub free : (y : ℕ) → c2.last_free ≡ some y → has y xs ≡ true
    pub root : c2.root ≡ c.root
    pub skip : c2.skip_page_count ≡ c.skip_page_count
    pub page_count : c2.file_page_count ≡ c.file_page_count
    pub size : c2.cache_size_in_pages ≡ c.cache_size_in_pages

  -- The block of the entry is stored.
  abbrev pub with_block : Cache iface → ℕ → Block → Cache iface
  with_block c x b = record c { slots = set_at c.slots (c.cache_loc x) b }

  module _ (c c2 : Cache iface) (xs xs' : List ℕ) (x p : ℕ) (store : IsStore iface c xs)
      (e : IsEntered c c2 xs xs' x p) (b : Block) where
    abbrev after : Cache iface
    after = with_block c2 x b

    block_here : block_of iface after x ≡ b
    block_here = set_at_same c2.slots (c2.cache_loc x) b

    loc_all : (y : ℕ) → has y xs' ≡ true → c2.cache_loc y ≡ y
    loc_all y h = elim (ℕ_discrete y x) [
      | yes k ↦ ap c2.cache_loc k ∙ e.loc_here ∙ sym k
      | no k ↦ e.loc_same y k ∙ store.loc y (e.others y h k)
    ]

    block_kept : (y : ℕ) → has y xs' ≡ true → y ≢ x → block_of iface after y ≡ block_of iface c y
    block_kept y h ne =
        set_at_ne c2.slots (c2.cache_loc x) b (c2.cache_loc y)
          (λ k. ne (sym (loc_all y h) ∙ k ∙ e.loc_here))
        ∙ ap c2.slots (e.loc_same y ne)
        ∙ ap (λ (s : ℕ → Block). s (c.cache_loc y)) e.slots

    after_known : (q y : ℕ) → c2.entry_of q ≡ some y → (has y xs' ≡ true) × (c2.page_of y ≡ q)
    after_known q y m = elim (ℕ_discrete q p) [
      | yes k ↦
          let same : y ≡ x = some_eq y x (sym m ∙ ap c2.entry_of k ∙ e.entry_here) in
          (ap (λ z. has z xs') same ∙ e.here, ap c2.page_of same ∙ e.page_here ∙ sym k)
      | no k ↦
          let (old, ne) = e.entry_old q y k m in
          let (i, page) = store.known q y old in (e.back y i, e.page_same y ne ∙ page)
    ]

    after_listed : (y : ℕ) → has y xs' ≡ true → c2.entry_of (c2.page_of y) ≡ some y
    after_listed y h = elim (ℕ_discrete y x) [
      | yes k ↦
          ap (λ z. c2.entry_of (c2.page_of z)) k
          ∙ ap c2.entry_of e.page_here
          ∙ e.entry_here
          ∙ ap some (sym k)
      | no k ↦
          ap c2.entry_of (e.page_same y k)
          ∙ e.entry_kept (c.page_of y) y (store.listed y (e.others y h k)) k
    ]

    after_new : (q : ℕ) → has q c2.new_pages ≡ true → (y : ℕ) × (c2.entry_of q ≡ some y)
    after_new q h =
        let h' : has q c.new_pages ≡ true = ap (has q) (sym e.new_pages) ∙ h in
        let (y, k) = store.new q h' in (y, e.entry_kept q y k (e.no_new q y h' k))

    after_clean :
        (is_block_changed b ≡ false → image iface (c.file p) ≡ image iface b)
        → (y : ℕ) → has y xs' ≡ true
        → changed iface after y ≡ false
        → image iface (c2.file (c2.page_of y)) ≡ image iface (block_of iface after y)
    after_clean same y h quiet = elim (ℕ_discrete y x) [
      | yes k ↦
          let shown : block_of iface after y ≡ b = ap (block_of iface after) k ∙ block_here in
          ap (λ z. image iface (c2.file (c2.page_of z))) k
          ∙ ap (λ z. image iface (c2.file z)) e.page_here
          ∙ ap (λ (f : ℕ → Block). image iface (f p)) e.file
          ∙ same (ap is_block_changed (sym shown) ∙ quiet)
          ∙ ap (image iface) (sym shown)
      | no k ↦
          ap (λ z. image iface (c2.file z)) (e.page_same y k)
          ∙ ap (λ (f : ℕ → Block). image iface (f (c.page_of y))) e.file
          ∙ store.clean y (e.others y h k) (ap is_block_changed (sym (block_kept y h k)) ∙ quiet)
          ∙ ap (image iface) (sym (block_kept y h k))
    ]

    -- The block has to be that of the file, or marked as changed.
    pub entered-IsStore :
        (is_block_changed b ≡ false → image iface (c.file p) ≡ image iface b)
        → IsStore iface after xs'
    entered-IsStore same = record {
      order = e.order;
      count = e.count;
      entries = e.entries;
      loc = loc_all;
      known = after_known;
      listed = after_listed;
      new = after_new;
      free = λ y k. e.back y (e.free y k);
      clean = after_clean same;
    }

    pub entered_here : view iface after p ≡ image iface b
    entered_here = view-some iface after p x e.entry_here ∙ ap (image iface) block_here

    -- Every other page holds what it held.
    pub entered_view : (q : ℕ) → q ≢ p → view iface after q ≡ view iface c q
    entered_view q ne = elim (Option-cases (c2.entry_of q)) [
      | inl k ↦
          view-none iface after q k
          ∙ ap (λ (f : ℕ → Block). image iface (f q)) e.file
          ∙ sym (e.gone q ne k)
      | inr (y, k) ↦
          let (old, apart) = e.entry_old q y ne k in
          view-some iface after q y k
          ∙ ap (image iface) (block_kept y (e.back y (store.known q y old).0) apart)
          ∙ sym (view-some iface c q y old)
    ]

    pub entered_new : NewChanged iface c xs → NewChanged iface after xs'
    entered_new new y h k = elim (ℕ_discrete y x) [
      | yes m ↦
          let p_new : has p c.new_pages ≡ true =
            ap (has p) (sym e.new_pages)
            ∙ ap (λ z. has z c2.new_pages) (sym (ap c2.page_of m ∙ e.page_here))
            ∙ k in
          let (w, r) = store.new p p_new in absurd (some-none w (sym r ∙ e.absent))
      | no m ↦
          ap is_block_changed (block_kept y h m)
          ∙ new y (e.others y h m) (
              ap (has (c.page_of y)) (sym e.new_pages)
              ∙ ap (λ z. has z c2.new_pages) (sym (e.page_same y m))
              ∙ k)
    ]
