-- ===== src/Cache/Run.antt =====
-- Sequences of calls, against a sequence of pages that nothing ever leaves.
use index_research.Prelude.{
  ℕ, suc, ◌+◌, ◌<◌, ◌≡◌, sym, ◌∙◌, ap, Option, some, true, false, List, [], ◌∷◌,
}
use std.Path.{subst}
use index_research.Cache.Links.{set_at}
use index_research.Cache.Pages.{
  ChgIface, Cache, Place, slot, Got, get_disk_page_in_cache, get_new_page,
}
use index_research.Cache.Store.{some_eq, image}
use index_research.Cache.Write.{set_at_same, set_at_ne}
use index_research.Cache.Get.{content, block_at, IsCache, IsKept, IsPlaceOf, IsGot}
use index_research.Cache.Miss.{get_disk_page_in_cache-IsGot}
use index_research.Cache.NewPage.{put, flushed_new, IsNew}
use index_research.Cache.Allocate.{get_new_page-IsNew}
use index_research.Cache.Edit.{IsEdited, root-IsEdited, put-IsEdited}
use native.Mathlib.Decide.{ℕ_discrete}

-- What a user of the pages asks for: to read one, to have a new one that holds a block, to change one.
pub data Request (Block : Type 0) : Type 0 where
  read : ℕ → Request Block
  allocate : Block → Request Block
  write : ℕ → Block → Request Block

-- The abstract view: the number of pages, and what each one holds.
pub record Pages (Block : Type 0) : Type 0 where
  pub count : ℕ
  pub page : ℕ → Block

abbrev pub apply : {Block : Type 0} → Request Block → Pages Block → Pages Block
apply (read p) s = s
apply (allocate b) s = record { count = s.count + 1; page = set_at s.page s.count b }
apply (write p b) s = record s { page = set_at s.page p b }

abbrev pub replay : {Block : Type 0} → List (Request Block) → Pages Block → Pages Block
replay [] s = s
replay (r ∷ rs) s = replay rs (apply r s)

module _ {Block : Type 0} (iface : ChgIface Block) where
  open iface use {is_block_changed}

  -- A call, and what the caller does with the address it returns. A block that is changed is marked, as
  -- `set_changed` does; that of the root need not be.
  pub data Step : Cache iface → Request Block → Cache iface → Type 0 where
    get_step :
        {c : Cache iface} (rounds p : ℕ) (keep : Option Place) (g : Got iface)
        → p < c.file_page_count
        → IsKept iface c keep
        → get_disk_page_in_cache iface (suc rounds) c p keep false ≡ some g
        → Step c (read p) g.cache
    new_step :
        {c : Cache iface} (rounds k : ℕ) (keep : Option Place) (g : Got iface) (b : Block)
        → ((c1 : Cache iface) → flushed_new iface c keep ≡ some c1 → IsKept iface c1 keep)
        → get_new_page iface (suc rounds) c keep ≡ some g
        → g.place ≡ slot k
        → is_block_changed b ≡ true
        → Step c (allocate b) (put iface g.cache k b)
    put_step :
        {c : Cache iface} (p k : ℕ) (b : Block)
        → IsPlaceOf iface c p (slot k)
        → is_block_changed b ≡ true
        → Step c (write p b) (put iface c k b)
    root_step :
        {c : Cache iface} (b : Block) → Step c (write c.skip_page_count b) (record c { root = b })

  pub data Run : Cache iface → List (Request Block) → Cache iface → Type 0 where
    done : {c : Cache iface} → Run c [] c
    step :
        {c c1 c2 : Cache iface} {r : Request Block} {rs : List (Request Block)}
        → Step c r c1
        → Run c1 rs c2
        → Run c (r ∷ rs) c2

  -- The cache shows the pages.
  pub record Shows (c : Cache iface) (s : Pages Block) : Type 0 where
    pub xs : List ℕ
    pub cache : IsCache iface c xs
    pub count : c.file_page_count ≡ s.count
    pub contents : (q : ℕ) → content iface c q ≡ image iface (s.page q)

  edited-Shows :
      (c c' : Cache iface) (p : ℕ) (b : Block) (s : Pages Block)
      → Shows c s
      → IsEdited iface c c' p b
      → Shows c' (apply (write p b) s)
  edited-Shows c c' p b s w e = record {
    xs = e.xs';
    cache = e.cache';
    count = e.page_count ∙ w.count;
    contents = λ q. elim (ℕ_discrete q p) [
      | yes k ↦
          ap (content iface c') k
          ∙ e.holds
          ∙ ap (image iface) (sym (ap (set_at s.page p b) k ∙ set_at_same s.page p b))
      | no k ↦ e.others q k ∙ w.contents q ∙ ap (image iface) (sym (set_at_ne s.page p b q k))
    ];
  }

  new-Shows :
      (c : Cache iface) (keep : Option Place) (g : Got iface) (b : Block) (s : Pages Block)
      → Shows c s
      → (n : IsNew iface c keep g) → is_block_changed b ≡ true
      → Shows (put iface g.cache n.entry b) (apply (allocate b) s)
  new-Shows c keep g b s w n marked = record {
    xs = n.xs';
    cache = n.cache' b marked;
    count = n.page_count ∙ ap (λ m. m + 1) w.count;
    contents = λ q. elim (ℕ_discrete q c.file_page_count) [
      | yes k ↦
          ap (content iface (put iface g.cache n.entry b)) k
          ∙ n.holds b
          ∙ ap (image iface)
              (sym (ap (set_at s.page s.count b) (k ∙ w.count) ∙ set_at_same s.page s.count b))
      | no k ↦
          n.others b q k
          ∙ w.contents q
          ∙ ap (image iface) (sym (set_at_ne s.page s.count b q (λ e. k (e ∙ sym w.count))))
    ];
  }

  slot_eq : (j k : ℕ) → slot j ≡ slot k → j ≡ k
  slot_eq j k e = cc

  got-Shows :
      (c : Cache iface) (keep : Option Place) (p : ℕ) (g : Got iface) (s : Pages Block)
      → Shows c s
      → IsGot iface c keep p g
      → Shows g.cache s
  got-Shows c keep p g s w n = record {
    xs = n.xs';
    cache = n.cache';
    count = n.page_count ∙ w.count;
    contents = λ q. n.contents q ∙ w.contents q;
  }

  Step-Shows :
      (c c' : Cache iface) (r : Request Block) (s : Pages Block)
      → Shows c s
      → Step c r c'
      → Shows c' (apply r s)
  Step-Shows c c' r s w (get_step rounds p keep g inside kept runs) =
      let (g', runs', n) =
        get_disk_page_in_cache-IsGot iface c w.xs p rounds keep w.cache kept inside in
      let same : g' ≡ g = some_eq g' g (sym runs' ∙ runs) in
      got-Shows c keep p g s w (subst (IsGot iface c keep p) same n)
  Step-Shows c c' r s w (new_step rounds k keep g b kept runs at marked) =
      let (g', runs', n) = get_new_page-IsNew iface c w.xs rounds keep w.cache kept in
      let same : g' ≡ g = some_eq g' g (sym runs' ∙ runs) in
      let n' : IsNew iface c keep g = subst (IsNew iface c keep) same n in
      subst (λ j. Shows (put iface g.cache j b) (apply (allocate b) s))
        (slot_eq n'.entry k (sym n'.place ∙ at)) (new-Shows c keep g b s w n' marked)
  Step-Shows c c' r s w (put_step p k b at marked) =
      edited-Shows c (put iface c k b) p b s w (put-IsEdited iface c w.xs w.cache b p k at marked)
  Step-Shows c c' r s w (root_step b) =
      edited-Shows c (record c { root = b }) c.skip_page_count b s w
        (root-IsEdited iface c w.xs w.cache b)

  -- Any sequence of calls does to the cache what it does to the pages.
  pub Run-Shows :
      (c c' : Cache iface) (rs : List (Request Block)) (s : Pages Block)
      → Shows c s
      → Run c rs c'
      → Shows c' (replay rs s)
  Run-Shows c c' [] s w done = w
  Run-Shows c c' (r ∷ rs) s w (step {c1 = c1} t ts) =
      Run-Shows c1 c' rs (apply r s) (Step-Shows c c1 r s w t) ts

  -- After any sequence of calls, a page is found, and holds what was written to it last.
  pub get-Run :
      (c c' : Cache iface) (rs : List (Request Block)) (s : Pages Block) (p rounds : ℕ)
      (keep : Option Place)
      → Shows c s
      → Run c rs c'
      → p < (replay rs s).count
      → IsKept iface c' keep
      → (g : Got iface) × (get_disk_page_in_cache iface (suc rounds) c' p keep false ≡ some g)
        × (image iface (block_at iface g.cache g.place) ≡ image iface ((replay rs s).page p))
  get-Run c c' rs s p rounds keep w runs inside kept =
      let w' : Shows c' (replay rs s) = Run-Shows c c' rs s w runs in
      let (g, gets, n) =
        get_disk_page_in_cache-IsGot iface c' w'.xs p rounds keep w'.cache kept
          (rw w'.count inside) in
      (g, gets, n.holds ∙ w'.contents p)
