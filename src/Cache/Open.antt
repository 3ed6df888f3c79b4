-- ===== src/Cache/Open.antt =====
-- The constructor of `lru_cache`: the cache of a file, whose first sequence of calls is about to begin.
use index_research.Prelude.{
  ℕ, suc, ◌+◌, ◌*◌, ◌/◌, ◌^◌, ◌||◌, ◌≤◌, ◌<◌, ◌≡◌, refl, sym, ap, Option, none, some, false, List,
  [], arith, leb, ◌==◌, ==_iff, Bool-cases, if◌then◌else◌, inl, inr,
}
use native.Mathlib.Nat.{le-div_iff_mul-le}
use index_research.Cache.Links.{set_at}
use index_research.Cache.Pages.{
  ChgIface, Cache, Place, Got, calc_flush_count, get_disk_page_in_cache,
}
use index_research.Cache.Store.{some-none, image}
use index_research.Cache.Get.{block_at, content, IsCache, IsKept}
use index_research.Cache.Run.{Request, Pages, replay, Run, Shows, get-Run}

module _ {Block : Type 0} (iface : ChgIface Block) where
  -- A file of `file_size` bytes; `fresh` is what the memory for the root holds when it cannot be read.
  abbrev pub filled_cache : ℕ → ℕ → ℕ → ℕ → Block → (ℕ → Block) → Cache iface
  filled_cache page_size cache_size_kb init_page_count file_size fresh file =
      let is_read = leb ((init_page_count + 1) * page_size) file_size in
      let size = cache_size_kb * 1024 / page_size in
      calc_flush_count iface (record {
        root = if is_read then file init_page_count else fresh;
        cache_occupied_size = 0;
        cache_size_in_pages = size;
        skip_page_count = init_page_count;
        file_page_count = if is_read then file_size / page_size else init_page_count + 1;
        links = record { first = none; last = none; prev = λ x. none; next = λ x. none };
        last_free = none;
        page_of = λ x. 0;
        cache_loc = λ x. 0;
        entry_of = λ p. none;
        new_pages = [];
        slots = λ x. fresh;
        file = if is_read then file else set_at file 0 fresh;
        max_pages_to_flush = size / 2;
        last_pages_to_flush = 0;
        total_cache_req = 0;
        total_cache_misses = 0;
        cache_flush_count = 0;
        pages_written = 0;
        pages_read = 0;
      })

  -- `none`: the size of the cache or the place of the root does not fit in an int.
  unfoldable pub open_cache : ℕ → ℕ → ℕ → ℕ → Block → (ℕ → Block) → Option (Cache iface)
  open_cache page_size cache_size_kb init_page_count file_size fresh file =
      if page_size == 0
        || leb (2 ^ 31) (cache_size_kb * 1024)
        || leb (2 ^ 31) (init_page_count * page_size)
      then none
      else some (filled_cache page_size cache_size_kb init_page_count file_size fresh file)

  module _ (page_size cache_size_kb init file_size : ℕ) (fresh : Block) (file : ℕ → Block)
      (some_size : 0 < page_size) (room : page_size ≤ cache_size_kb * 1024)
      (in_int : cache_size_kb * 1024 < 2 ^ 31) (root_in_int : init * page_size < 2 ^ 31) where
    abbrev pub opened : Cache iface
    opened = filled_cache page_size cache_size_kb init file_size fresh file

    root_below :
        init < (if leb ((init + 1) * page_size) file_size then file_size / page_size else init + 1)
    root_below = elim (Bool-cases (leb ((init + 1) * page_size) file_size)) [
      | inl e ↦ rw e (
          omega (
            arith,
            (le-div_iff_mul-le {k = page_size} {x = init + 1} {y = file_size} some_size).1
                (ground (arith, e)),
          ))
      | inr e ↦ rw e (omega arith)
    ]

    pub opened-IsCache : IsCache iface opened []
    opened-IsCache = record {
      store = record {
        order = record { first = refl; chain = refl; distinct = tt };
        count = refl;
        entries = λ x h. absurd (ground arith);
        loc = λ x h. absurd (ground arith);
        known = λ p x e. absurd (some-none x (sym e));
        listed = λ x h. absurd (ground arith);
        new = λ p h. absurd (ground arith);
        free = λ x e. absurd (some-none x (sym e));
        clean = λ x h. absurd (ground arith);
      };
      new_changed = λ x h. absurd (ground arith);
      below = λ q x e. absurd (some-none x (sym e));
      root_out = refl;
      root_below = root_below;
      room =
          (le-div_iff_mul-le {k = page_size} {x = 1} {y = cache_size_kb * 1024} some_size).1
            (omega (arith, room));
    }

    -- What the file holds: its pages, or the page of the root if the file was too short for one.
    abbrev pub opened_pages : Pages Block
    opened_pages =
        if leb ((init + 1) * page_size) file_size
        then record { count = file_size / page_size; page = file }
        else record {
          count = init + 1;
          page = λ q. if q == init then fresh else set_at file 0 fresh q;
        }

    opened-Shows : Shows iface opened opened_pages
    opened-Shows = record { xs = []; cache = opened-IsCache; count = count; contents = contents }
      where
        count : opened.file_page_count ≡ opened_pages.count
        count = elim (Bool-cases (leb ((init + 1) * page_size) file_size)) [
          | inl e ↦ rw e refl
          | inr e ↦ rw e refl
        ]

        contents : (q : ℕ) → content iface opened q ≡ image iface (opened_pages.page q)
        contents q = elim (Bool-cases (leb ((init + 1) * page_size) file_size)) [
          | inl e ↦ elim (Bool-cases (q == init)) [
            | inl k ↦ rw e (rw k (ap (λ r. image iface (file r)) (sym ((==_iff q init).0 k))))
            | inr k ↦ rw e (rw k refl)
          ]
          | inr e ↦ elim (Bool-cases (q == init)) [
            | inl k ↦ rw e (rw k refl)
            | inr k ↦ rw e (rw k refl)
          ]
        ]

    opened_lem : open_cache page_size cache_size_kb init file_size fresh file ≡ some opened
    unfolding open_cache
    opened_lem =
        let a : (page_size == 0) ≡ false = ground (arith, some_size) in
        let b : leb (2 ^ 31) (cache_size_kb * 1024) ≡ false = ground (arith, in_int) in
        let c : leb (2 ^ 31) (init * page_size) ≡ false = ground (arith, root_in_int) in
        rw a (rw b (rw c refl))

    -- When the page size is not 0, the cache is as large as a page, and the size of the cache in bytes
    -- and the place of the root are below 2^31, the constructor makes a cache of a file; after any
    -- sequence of reads, new pages and changes of blocks that are marked then, each block to keep
    -- being marked and not last (for a new page, after the flush that its call begins with), a page of
    -- the file is found in one round of the search or more, and the returned block holds what was last
    -- written to that page, or what the file held, up to the mark.
    pub get-opened :
        (c' : Cache iface) (rs : List (Request Block)) (p rounds : ℕ) (keep : Option Place)
        → Run iface opened rs c'
        → p < (replay rs opened_pages).count
        → IsKept iface c' keep
        → (open_cache page_size cache_size_kb init file_size fresh file ≡ some opened)
          × (g : Got iface) × (get_disk_page_in_cache iface (suc rounds) c' p keep false ≡ some g)
          × (image iface (block_at iface g.cache g.place)
              ≡ image iface ((replay rs opened_pages).page p))
    get-opened c' rs p rounds keep runs inside kept =
        let (g, gets, holds) =
          get-Run iface opened c' rs opened_pages p rounds keep opened-Shows runs inside kept in
        (opened_lem, g, gets, holds)
