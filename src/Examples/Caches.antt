-- ===== src/Examples/Caches.antt =====
-- The block cache: one slot, whose block is not written yet, and a file of three pages.
use index_research.Prelude.{
  ℕ, ◌≡◌, refl, sym, ◌∙◌, ap, none, some, Bool, true, false, List, [], ◌∷◌, arith, ◌==◌, Bool-cases,
  if◌then◌else◌, inl, inr,
}
use index_research.Cache.Links.{Links, set_at, move_to_front}
use index_research.Cache.Pages.{
  Cache, has, Got, Chosen, flush_pages_in_seq, choose_loop, get_disk_page_in_cache, get_new_page,
}
use index_research.Cache.Chain.{IsOrder, erase}
use index_research.Cache.Order.{move_to_front-IsOrder}
use index_research.Cache.Store.{image, IsStore, NewChanged}
use index_research.Cache.Flushed.{IsFlushed, flush_pages_in_seq-IsFlushed}
use index_research.Cache.Choose.{KeepSafe, IsChosen, choose_loop-IsChosen}
use index_research.Cache.Get.{block_at, IsCache, IsKept, IsGot}
use index_research.Cache.Miss.{get_disk_page_in_cache-IsGot}
use index_research.Cache.NewPage.{put, IsNew}
use index_research.Cache.Allocate.{get_new_page-IsNew}
use index_research.Cache.Run.{allocate, done, step, new_step}
use index_research.Cache.Open.{filled_cache, open_cache, opened-IsCache, get-opened}
use index_research.Cache.Marks.{chg_iface_default}

-- The entries 0, 1, 2 in this order.
abbrev three : Links
three = record {
  first = some 0;
  last = some 2;
  prev = λ x. if x == 1 then some 0 else if x == 2 then some 1 else none;
  next = λ x. if x == 0 then some 1 else if x == 1 then some 2 else none;
}

three-IsOrder : IsOrder three (0 ∷ 1 ∷ 2 ∷ [])
three-IsOrder = record {
  first = refl;
  chain = (refl, refl, (refl, refl, (refl, refl, refl)));
  distinct = (refl, (refl, (refl, tt)));
}

move_to_front-IsOrder_example :
    (l : Links) × (move_to_front three 1 ≡ some l) × IsOrder l (1 ∷ erase 1 (0 ∷ 1 ∷ 2 ∷ []))
move_to_front-IsOrder_example = move_to_front-IsOrder three (0 ∷ 1 ∷ 2 ∷ []) 1 three-IsOrder refl

-- Page 1 in slot 0, marked as changed.
abbrev one_slot : Cache chg_iface_default
one_slot = record {
  root = 0 ∷ 3 ∷ [];
  cache_occupied_size = 1;
  cache_size_in_pages = 1;
  skip_page_count = 0;
  file_page_count = 3;
  links = record { first = some 0; last = some 0; prev = λ x. none; next = λ x. none };
  last_free = none;
  page_of = λ x. 1;
  cache_loc = λ x. x;
  entry_of = set_at (λ q. none) 1 (some 0);
  new_pages = [];
  slots = λ x. 0x40 ∷ 7 ∷ [];
  file = set_at (λ q. []) 2 (0 ∷ 9 ∷ []);
  max_pages_to_flush = 1;
  last_pages_to_flush = 1;
  total_cache_req = 0;
  total_cache_misses = 0;
  cache_flush_count = 0;
  pages_written = 0;
  pages_read = 0;
}

abbrev pub only : List ℕ
only = 0 ∷ []

none-some : (x : ℕ) → none ≡ some x → ⊥
none-some x e = cc

some_0 : (x : ℕ) → some 0 ≡ some x → 0 ≡ x
some_0 x e = cc

true-false : true ≡ false → ⊥
true-false e = cc

only_zero : (x : ℕ) → has x only ≡ true → x ≡ 0
only_zero x h = ground (arith, h)

one_slot_known : (p x : ℕ) → one_slot.entry_of p ≡ some x → (has x only ≡ true) × (1 ≡ p)
one_slot_known p x e = elim (Bool-cases (p == 1)) [
  | inl k ↦
      let same : 0 ≡ x = some_0 x (sym (ap (λ (b : Bool). if b then some 0 else none) k) ∙ e) in
      (ap (λ y. has y only) (sym same), ground (arith, k))
  | inr k ↦ absurd (none-some x (sym (ap (λ (b : Bool). if b then some 0 else none) k) ∙ e))
]

one_slot-IsStore : IsStore chg_iface_default one_slot only
one_slot-IsStore = record {
  order = record { first = refl; chain = (refl, refl, refl); distinct = (refl, tt) };
  count = refl;
  entries = λ x h. omega (arith, only_zero x h);
  loc = λ x h. refl;
  known = one_slot_known;
  listed = λ x h. ap some (sym (only_zero x h));
  new = λ p h. absurd (true-false (sym h));
  free = λ x e. absurd (none-some x e);
  clean = λ x h e. absurd (true-false e);
}

one_slot_new : NewChanged chg_iface_default one_slot only
one_slot_new x h e = refl

one_slot-IsCache : IsCache chg_iface_default one_slot only
one_slot-IsCache = record {
  store = one_slot-IsStore;
  new_changed = one_slot_new;
  below = λ q x e. omega (arith, (one_slot_known q x e).1);
  root_out = refl;
  root_below = omega arith;
  room = omega arith;
}

-- No block is to be kept.
none-IsKept : (c : Cache chg_iface_default) → IsKept chg_iface_default c none
none-IsKept c x h e = absurd (true-false (sym e))

none-KeepSafe : KeepSafe chg_iface_default one_slot only none
none-KeepSafe x h e = absurd (true-false (sym e))

flush_pages_in_seq-IsFlushed_example :
    (c' : Cache chg_iface_default) × (flush_pages_in_seq chg_iface_default one_slot none ≡ some c')
    × IsFlushed chg_iface_default one_slot only none c'
flush_pages_in_seq-IsFlushed_example =
    flush_pages_in_seq-IsFlushed chg_iface_default one_slot only none one_slot-IsStore

choose_loop-IsChosen_example :
    (v : Chosen chg_iface_default) × (choose_loop chg_iface_default 1 one_slot 2 none ≡ some v)
    × IsChosen chg_iface_default one_slot only none one_slot-IsStore none-KeepSafe v
choose_loop-IsChosen_example =
    choose_loop-IsChosen chg_iface_default one_slot only none one_slot-IsStore none-KeepSafe
      one_slot_new 2 0 refl 0

get_disk_page_in_cache-IsGot_example :
    (g : Got chg_iface_default) × (get_disk_page_in_cache chg_iface_default 1 one_slot 2 none false
      ≡ some g)
    × IsGot chg_iface_default one_slot none 2 g
get_disk_page_in_cache-IsGot_example =
    get_disk_page_in_cache-IsGot chg_iface_default one_slot only 2 0 none one_slot-IsCache
      (none-IsKept one_slot) (omega arith)

get_new_page-IsNew_example :
    (g : Got chg_iface_default) × (get_new_page chg_iface_default 1 one_slot none ≡ some g)
    × IsNew chg_iface_default one_slot none g
get_new_page-IsNew_example =
    get_new_page-IsNew chg_iface_default one_slot only 0 none one_slot-IsCache
      (λ c e. none-IsKept c)

-- A file of two pages, and a cache of one slot.
abbrev two_pages : ℕ → List ℕ
two_pages = set_at (set_at (λ q. []) 0 (0 ∷ 3 ∷ [])) 1 (0 ∷ 7 ∷ [])

abbrev start : Cache chg_iface_default
start = filled_cache chg_iface_default 4096 4 0 8192 [] two_pages

start-IsCache : IsCache chg_iface_default start []
start-IsCache =
    opened-IsCache chg_iface_default 4096 4 0 8192 [] two_pages (omega arith) (omega arith)
      (omega arith) (omega arith)

abbrev first_new :
    (g : Got chg_iface_default) × (get_new_page chg_iface_default 1 start none ≡ some g)
    × IsNew chg_iface_default start none g
first_new =
    get_new_page-IsNew chg_iface_default start [] 0 none start-IsCache (λ c e. none-IsKept c)

abbrev page_2 : List ℕ
page_2 = 0x40 ∷ 5 ∷ []

abbrev with_2 : Cache chg_iface_default
with_2 = put chg_iface_default first_new.0.cache first_new.2.entry page_2

-- The slot now has to be given up.
abbrev second_new :
    (g : Got chg_iface_default) × (get_new_page chg_iface_default 1 with_2 none ≡ some g)
    × IsNew chg_iface_default with_2 none g
second_new =
    get_new_page-IsNew chg_iface_default with_2 first_new.2.xs' 0 none
      (first_new.2.cache' page_2 refl) (λ c e. none-IsKept c)

abbrev page_3 : List ℕ
page_3 = 0x40 ∷ 6 ∷ []

abbrev with_3 : Cache chg_iface_default
with_3 = put chg_iface_default second_new.0.cache second_new.2.entry page_3

-- Two pages are added; the second pushes the first out, which is then read.
get-opened_example :
    (open_cache chg_iface_default 4096 4 0 8192 [] two_pages ≡ some start)
    × (g : Got chg_iface_default) × (get_disk_page_in_cache chg_iface_default 1 with_3 2 none false
        ≡ some g)
    × (image chg_iface_default (block_at chg_iface_default g.cache g.place) ≡ 0 ∷ 5 ∷ [])
get-opened_example =
    get-opened chg_iface_default 4096 4 0 8192 [] two_pages (omega arith) (omega arith)
      (omega arith) (omega arith) with_3 (allocate page_2 ∷ allocate page_3 ∷ []) 2 0 none
      (step
        (new_step 0 first_new.2.entry none first_new.0 page_2 (λ c e. none-IsKept c) first_new.1
          first_new.2.place refl)
        (step
          (new_step 0 second_new.2.entry none second_new.0 page_3 (λ c e. none-IsKept c)
            second_new.1 second_new.2.place refl)
          done))
      (omega arith) (none-IsKept with_3)
