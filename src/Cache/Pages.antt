-- ===== src/Cache/Pages.antt =====
-- The operations of `lru_cache`. The block in `page_cache` at `page_size * cache_loc` is the slot
-- `cache_loc`; the file is a sequence of blocks; messages are left out.
use index_research.Prelude.{
  ℕ, zero, suc, ◌+◌, ◌*◌, Option, none, some, Bool, true, false, not, ◌&&◌, ◌||◌, List, [], ◌∷◌,
  length, ltb, leb, ◌==◌, if◌then◌else◌, ◌≡◌,
}
use index_research.Cache.Links.{Links, set_at, is, move_to_front, append_entry}

-- `chg_iface`, with what its implementations promise of blocks of the type `Block`.
pub record ChgIface (Block : Type 0) : Type 0 where
  pub set_block_changed : Block → Bool → Block
  pub is_block_changed : Block → Bool
  pub set_false : (b : Block) → is_block_changed (set_block_changed b false) ≡ false
  pub set_twice :
      (b : Block) → set_block_changed (set_block_changed b false) false ≡ set_block_changed b false

-- The address of a block that a call returns or is given.
pub data Place : Type 0 where
  root_block : Place
  slot : ℕ → Place

-- std::set<size_t> as an ascending list.
unfoldable pub insert : ℕ → List ℕ → List ℕ
insert p [] = p ∷ []
insert p (q ∷ qs) =
    let rest = insert p qs in if ltb p q then p ∷ q ∷ qs else if p == q then q ∷ qs else q ∷ rest

abbrev pub has : ℕ → List ℕ → Bool
has p [] = false
has p (q ∷ qs) = p == q || has p qs

-- `block_to_keep == block`.
abbrev pub keeps : Option Place → ℕ → Bool
keeps none b = false
keeps (some root_block) b = false
keeps (some (slot k)) b = k == b

abbrev pub is_null : Option ℕ → Bool
is_null none = true
is_null (some x) = false

abbrev pub or_else : Option ℕ → Option ℕ → Option ℕ
or_else none y = y
or_else (some x) y = some x

module _ {Block : Type 0} (iface : ChgIface Block) where
  open iface use {set_block_changed, is_block_changed}

  -- The fields of `lru_cache`, its entries and its statistics; `page_of` is `disk_page`, `entry_of` is
  -- `disk_to_cache_map`.
  pub record Cache : Type 0 where
    pub root : Block
    pub cache_occupied_size : ℕ
    pub cache_size_in_pages : ℕ
    pub skip_page_count : ℕ
    pub file_page_count : ℕ
    pub links : Links
    pub last_free : Option ℕ
    pub page_of : ℕ → ℕ
    pub cache_loc : ℕ → ℕ
    pub entry_of : ℕ → Option ℕ
    pub new_pages : List ℕ
    pub slots : ℕ → Block
    pub file : ℕ → Block
    pub max_pages_to_flush : ℕ
    pub last_pages_to_flush : ℕ
    pub total_cache_req : ℕ
    pub total_cache_misses : ℕ
    pub cache_flush_count : ℕ
    pub pages_written : ℕ
    pub pages_read : ℕ

  abbrev pub block_of : Cache → ℕ → Block
  block_of c x = c.slots (c.cache_loc x)

  abbrev pub changed : Cache → ℕ → Bool
  changed c x = is_block_changed (block_of c x)

  -- The loop of `write_pages`; `none`: a page that is not in the cache.
  unfoldable pub write_pages : List ℕ → Cache → Option Cache
  write_pages [] c = some c
  write_pages (p ∷ ps) c = elim (c.entry_of p) [
    | none ↦ none
    | some x ↦
        let block = set_block_changed (block_of c x) false in
        write_pages ps (record c {
          slots = set_at c.slots (c.cache_loc x) block;
          file = set_at c.file p block;
          pages_written = c.pages_written + 1;
        })
  ]

  unfoldable pub flush_count : Cache → ℕ
  flush_count c =
      let most = c.max_pages_to_flush in
      if c.total_cache_req == 0
      then if ltb most 20 then most else 20
      else if ltb 500 most
      then 500
      else if ltb most 2
      then 2
      else most

  abbrev pub calc_flush_count : Cache → Cache
  calc_flush_count c = record c { last_pages_to_flush = flush_count c }

  -- The `do` loop of `flush_pages_in_seq` from the entry `x`.
  unfoldable pub collect_loop : Cache → Option Place → ℕ → ℕ → List ℕ → List ℕ
  unfolding insert
  collect_loop c keep zero x pages = pages
  collect_loop c keep (suc rounds) x pages =
      let kept = keeps keep (c.cache_loc x) in
      let pages' = if not kept && changed c x then insert (c.page_of x) pages else pages in
      let rest : List ℕ = elim (c.links.prev x) [
        | none ↦ pages'
        | some y ↦ collect_loop c keep rounds y pages'
      ] in
      if not kept && ltb (c.last_pages_to_flush + length c.new_pages) (length pages')
      then pages'
      else rest

  -- `--pages_to_check` of 0 is negative: then only the end of the list stops the loop.
  unfoldable pub pages_to_check : Cache → ℕ
  pages_to_check c =
      let n = c.last_pages_to_flush * 3 in if n == 0 then c.cache_size_in_pages + 1 else n

  unfoldable pub flush_pages_in_seq : Cache → Option Place → Option Cache
  unfolding write_pages flush_count collect_loop pages_to_check
  flush_pages_in_seq c keep = elim (c.links.last) [
    | none ↦ some c
    | some z ↦
        let c1 = calc_flush_count (record c { cache_flush_count = c.cache_flush_count + 1 }) in
        elim (write_pages (collect_loop c1 keep (pages_to_check c1) z c1.new_pages) c1) [
          | none ↦ none
          | some c2 ↦ some (record c2 { new_pages = []; last_free = c2.links.last })
        ]
  ]

  -- `block`, `entry_to_move` and `lnklst_last_free` after the search for a block that is not changed.
  pub record Search : Type 0 where
    pub block : ℕ
    pub entry_to_move : ℕ
    pub free : Option ℕ

  -- The inner loop, with `check_count` rounds left after `block` was looked at.
  unfoldable pub check_loop : Cache → Option Place → ℕ → ℕ → ℕ → Search
  check_loop c keep zero block x = record { block = block; entry_to_move = x; free = c.last_free }
  check_loop c keep (suc check_count) block x =
      let b = c.cache_loc x in
      let rest : Search = elim (c.links.prev x) [
        | none ↦ record { block = b; entry_to_move = x; free = none }
        | some y ↦ check_loop c keep check_count b y
      ] in
      if not (is_block_changed (c.slots b)) && not (keeps keep b)
      then record { block = b; entry_to_move = x; free = c.last_free }
      else rest

  -- The entry that gives up its block, and the `block` that was looked at last.
  pub record Chosen : Type 0 where
    pub cache : Cache
    pub block : ℕ
    pub entry : ℕ

  -- The outer `do` loop, at most `rounds` times; `none` also where a NULL pointer is followed.
  unfoldable pub choose_loop : ℕ → Cache → ℕ → Option Place → Option Chosen
  unfolding check_loop flush_pages_in_seq
  choose_loop zero c disk_page keep = none
  choose_loop (suc rounds) c disk_page keep = elim (or_else c.last_free c.links.last) [
    | none ↦ none
    | some x ↦
        let s = check_loop c keep 40 0 x in
        let c1 = record c { last_free = s.free } in
        let again = choose_loop rounds c1 disk_page keep in
        if is_block_changed (c.slots s.block)
          || ltb c.last_pages_to_flush (length c.new_pages)
          || has disk_page c.new_pages
          || is_null (c.links.prev s.entry_to_move)
        then elim (flush_pages_in_seq c1 keep) [
          | none ↦ none
          | some c2 ↦ elim (c2.links.last) [
            | none ↦ none
            | some z ↦ some (record { cache = c2; block = s.block; entry = z })
          ]
        ]
        else if is_block_changed (c.slots s.block)
        then again
        else some (record { cache = c1; block = s.block; entry = s.entry_to_move })
  ]

  -- `none`: the block is not in the cache, and is not full: the entry `cache_occupied_size` gets it.
  unfoldable pub fill_entry : Cache → ℕ → Cache
  unfolding append_entry
  fill_entry c disk_page =
      let x = c.cache_occupied_size in
      record c {
        links = append_entry c.links x;
        page_of = set_at c.page_of x disk_page;
        cache_loc = set_at c.cache_loc x x;
        entry_of = set_at c.entry_of disk_page (some x);
        cache_occupied_size = x + 1;
      }

  -- The entry `x` is moved to the front and given to another page.
  unfoldable pub reuse_entry : Cache → ℕ → ℕ → Option Cache
  unfolding move_to_front
  reuse_entry c x disk_page = elim (move_to_front c.links x) [
    | none ↦ none
    | some links ↦ some (record c {
      links = links;
      page_of = set_at c.page_of x disk_page;
      entry_of = set_at (set_at c.entry_of (c.page_of x) none) disk_page (some x);
      total_cache_misses = c.total_cache_misses + 1;
      total_cache_req = c.total_cache_req + 1;
    })
  ]

  -- The result of a call that finds room for a page: the entry, not yet read.
  pub record Entered : Type 0 where
    pub cache : Cache
    pub entry : ℕ

  -- The cache is full: `rounds` for the search.
  unfoldable pub replace_entry : ℕ → Cache → ℕ → Option Place → Option Entered
  unfolding choose_loop reuse_entry
  replace_entry rounds c disk_page keep =
      elim (choose_loop rounds (calc_flush_count c) disk_page keep) [
        | none ↦ none
        | some v ↦
            let c1 = v.cache in
            let free =
              if is_block_changed (c1.slots v.block) then c1.last_free else c1.links.prev v.entry in
            elim (reuse_entry (record c1 { last_free = free }) v.entry disk_page) [
              | none ↦ none
              | some c2 ↦ some (record { cache = c2; entry = v.entry })
            ]
      ]

  -- `read_page` into the block of the entry, unless the page is new.
  unfoldable pub read_entry : Cache → ℕ → ℕ → Bool → Cache
  read_entry c x disk_page is_new =
      if not is_new && not (has disk_page c.new_pages)
      then record c {
        slots = set_at c.slots (c.cache_loc x) (c.file disk_page);
        pages_read = c.pages_read + 1;
      }
      else c

  -- The page is in the cache.
  unfoldable pub touch_entry : Cache → ℕ → Option Cache
  unfolding move_to_front
  touch_entry c x =
      let free : Option ℕ =
        if is c.last_free x && not (is_null (c.links.prev x))
        then c.links.prev x
        else c.last_free in
      let req =
        if leb c.cache_size_in_pages c.cache_occupied_size
        then c.total_cache_req + 1
        else c.total_cache_req in
      elim (move_to_front c.links x) [
        | none ↦ none
        | some links ↦ some (record c { links = links; last_free = free; total_cache_req = req })
      ]

  -- The cache after a call, and the address it returns.
  pub record Got : Type 0 where
    pub cache : Cache
    pub place : Place

  unfoldable pub get_disk_page_in_cache : ℕ → Cache → ℕ → Option Place → Bool → Option Got
  unfolding fill_entry replace_entry read_entry touch_entry
  get_disk_page_in_cache rounds c disk_page keep is_new =
      if disk_page == c.skip_page_count
      then some (record { cache = c; place = root_block })
      else elim (c.entry_of disk_page) [
        | none ↦
            elim (if ltb c.cache_occupied_size c.cache_size_in_pages
              then some (record { cache = fill_entry c disk_page; entry = c.cache_occupied_size })
              else replace_entry rounds c disk_page keep) [
                | none ↦ none
                | some e ↦ some (record {
                  cache = read_entry e.cache e.entry disk_page is_new;
                  place = slot (e.cache.cache_loc e.entry);
                })
              ]
        | some x ↦ elim (touch_entry c x) [
          | none ↦ none
          | some c1 ↦ some (record { cache = c1; place = slot (c1.cache_loc x) })
        ]
      ]

  unfoldable pub get_new_page : ℕ → Cache → Option Place → Option Got
  unfolding flush_pages_in_seq get_disk_page_in_cache insert
  get_new_page rounds c keep =
      elim (if ltb c.last_pages_to_flush (length c.new_pages)
        then flush_pages_in_seq c keep
        else some c) [
          | none ↦ none
          | some c1 ↦ elim (get_disk_page_in_cache rounds c1 c1.file_page_count keep true) [
            | none ↦ none
            | some g ↦ some (record {
              cache = record (g.cache) {
                new_pages = insert g.cache.file_page_count g.cache.new_pages;
                file_page_count = g.cache.file_page_count + 1;
              };
              place = g.place;
            })
          ]
        ]
