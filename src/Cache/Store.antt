-- ===== src/Cache/Store.antt =====
-- When a cache stands for its pages: the invariant, and what a page holds.
use index_research.Prelude.{ℕ, ◌<◌, ◌≡◌, refl, ◌∙◌, none, some, true, false, List, length}
use index_research.Cache.Pages.{ChgIface, Cache, block_of, changed, has}
use index_research.Cache.Chain.{IsOrder}

pub some_eq {ℓ} : {A : Type ℓ} (a b : A) → some a ≡ some b → a ≡ b
some_eq a b e = cc

pub some-none {ℓ} : {A : Type ℓ} (a : A) → some a ≡ none → ⊥
some-none a e = cc

module _ {Block : Type 0} (iface : ChgIface Block) where
  open iface use {set_block_changed, is_block_changed, set_twice, set_false}

  -- A block up to the mark of a change.
  abbrev pub image : Block → Block
  image b = set_block_changed b false

  -- What the page `p` holds, in the cache or in the file.
  abbrev pub view : Cache iface → ℕ → Block
  view c p = elim (c.entry_of p) [ none ↦ image (c.file p) | some x ↦ image (block_of iface c x) ]

  -- The entries are those of the list `xs`, each with its own slot and page; a block that is not marked
  -- as changed is that of the file; a page that is not in the file yet is in the cache.
  pub record IsStore (c : Cache iface) (xs : List ℕ) : Type 0 where
    pub order : IsOrder c.links xs
    pub count : length xs ≡ c.cache_occupied_size
    pub entries : (x : ℕ) → has x xs ≡ true → x < c.cache_occupied_size
    pub loc : (x : ℕ) → has x xs ≡ true → c.cache_loc x ≡ x
    pub known : (p x : ℕ) → c.entry_of p ≡ some x → (has x xs ≡ true) × (c.page_of x ≡ p)
    pub listed : (x : ℕ) → has x xs ≡ true → c.entry_of (c.page_of x) ≡ some x
    pub new : (p : ℕ) → has p c.new_pages ≡ true → (x : ℕ) × (c.entry_of p ≡ some x)
    pub free : (x : ℕ) → c.last_free ≡ some x → has x xs ≡ true
    pub clean :
        (x : ℕ)
        → has x xs ≡ true
        → changed iface c x ≡ false
        → image (c.file (c.page_of x)) ≡ image (block_of iface c x)

  -- A page that is not in the file yet is marked as changed.
  abbrev pub NewChanged : Cache iface → List ℕ → Type 0
  NewChanged c xs =
      (x : ℕ) → has x xs ≡ true → has (c.page_of x) c.new_pages ≡ true → changed iface c x ≡ true

  pub view-none : (c : Cache iface) (p : ℕ) → c.entry_of p ≡ none → view c p ≡ image (c.file p)
  view-none c p e = rw (view, e) refl

  pub view-some :
      (c : Cache iface) (p x : ℕ) → c.entry_of p ≡ some x → view c p ≡ image (block_of iface c x)
  view-some c p x e = rw (view, e) refl

  -- The parts of a cache that writing to the file leaves alone.
  pub record Same (c c' : Cache iface) : Type 0 where
    pub root : c'.root ≡ c.root
    pub occupied : c'.cache_occupied_size ≡ c.cache_occupied_size
    pub size : c'.cache_size_in_pages ≡ c.cache_size_in_pages
    pub skip : c'.skip_page_count ≡ c.skip_page_count
    pub page_count : c'.file_page_count ≡ c.file_page_count
    pub links : c'.links ≡ c.links
    pub page_of : c'.page_of ≡ c.page_of
    pub cache_loc : c'.cache_loc ≡ c.cache_loc
    pub entry_of : c'.entry_of ≡ c.entry_of
    pub views : (p : ℕ) → view c' p ≡ view c p

  pub Same-refl : (c : Cache iface) → Same c c
  Same-refl c = record {
    root = refl;
    occupied = refl;
    size = refl;
    skip = refl;
    page_count = refl;
    links = refl;
    page_of = refl;
    cache_loc = refl;
    entry_of = refl;
    views = λ p. refl;
  }

  pub Same-trans : (a b c : Cache iface) → Same a b → Same b c → Same a c
  Same-trans a b c s t = record {
    root = t.root ∙ s.root;
    occupied = t.occupied ∙ s.occupied;
    size = t.size ∙ s.size;
    skip = t.skip ∙ s.skip;
    page_count = t.page_count ∙ s.page_count;
    links = t.links ∙ s.links;
    page_of = t.page_of ∙ s.page_of;
    cache_loc = t.cache_loc ∙ s.cache_loc;
    entry_of = t.entry_of ∙ s.entry_of;
    views = λ p. t.views p ∙ s.views p;
  }
