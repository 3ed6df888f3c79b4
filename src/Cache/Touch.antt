-- ===== src/Cache/Touch.antt =====
-- A page that is in the cache: `touch_entry`.
use index_research.Prelude.{
  ℕ, ◌+◌, ◌≡◌, refl, sym, ◌∙◌, Option, some, true, not, ◌&&◌, List, ◌∷◌, arith, leb, Bool-cases,
  if◌then◌else◌, inl, inr,
}
use index_research.Cache.Links.{Links, is, move_to_front}
use index_research.Cache.Pages.{ChgIface, Cache, has, is_null, touch_entry}
use index_research.Cache.Chain.{erase}
use index_research.Cache.Order.{move_to_front-IsOrder}
use index_research.Cache.Store.{IsStore}
use index_research.Cache.Flush.{inside-prev}
use index_research.Cache.Reuse.{has-front, length-front}

module _ {Block : Type 0} (iface : ChgIface Block) where
  module _ (c : Cache iface) (xs : List ℕ) (x : ℕ) (store : IsStore iface c xs)
      (x_in : has x xs ≡ true) where
    abbrev moved_free : Option ℕ
    moved_free =
        if is c.last_free x && not (is_null (c.links.prev x)) then c.links.prev x else c.last_free

    abbrev touched : Links → Cache iface
    touched l = record c {
      links = l;
      last_free = moved_free;
      total_cache_req =
          if leb c.cache_size_in_pages c.cache_occupied_size
          then c.total_cache_req + 1
          else c.total_cache_req;
    }

    touch_some :
        (l : Links) → move_to_front c.links x ≡ some l → touch_entry iface c x ≡ some (touched l)
    unfolding touch_entry
    touch_some l e = rw (touch_entry, e) refl

    moved_in : (y : ℕ) → moved_free ≡ some y → has y xs ≡ true
    moved_in y e = elim (Bool-cases (is c.last_free x && not (is_null (c.links.prev x)))) [
      | inl k ↦ inside-prev iface c xs store x x_in y (ground (arith, k, e))
      | inr k ↦ store.free y (ground (arith, k, e))
    ]

    -- A cache in which only the order, the place to search from and the statistics differ.
    pub record IsTouched (c2 : Cache iface) : Type 0 where
      pub store' : IsStore iface c2 (x ∷ erase x xs)
      pub views : c2.slots ≡ c.slots
      pub file : c2.file ≡ c.file
      pub entry_of : c2.entry_of ≡ c.entry_of
      pub cache_loc : c2.cache_loc ≡ c.cache_loc
      pub page_of : c2.page_of ≡ c.page_of
      pub new_pages : c2.new_pages ≡ c.new_pages
      pub root : c2.root ≡ c.root
      pub skip : c2.skip_page_count ≡ c.skip_page_count
      pub page_count : c2.file_page_count ≡ c.file_page_count
      pub size : c2.cache_size_in_pages ≡ c.cache_size_in_pages

    pub touch_entry-IsTouched :
        (c2 : Cache iface) × (touch_entry iface c x ≡ some c2) × IsTouched c2
    touch_entry-IsTouched =
        let (l, runs, o) = move_to_front-IsOrder c.links xs x store.order x_in in
        let same : (y : ℕ) → has y (x ∷ erase x xs) ≡ has y xs = λ y. has-front x y xs x_in in
        (
          touched l,
          touch_some l runs,
          record {
            store' = record {
              order = o;
              count = length-front x xs x_in ∙ store.count;
              entries = λ y h. store.entries y (sym (same y) ∙ h);
              loc = λ y h. store.loc y (sym (same y) ∙ h);
              known = λ p y e. let (i, m) = store.known p y e in (same y ∙ i, m);
              listed = λ y h. store.listed y (sym (same y) ∙ h);
              new = store.new;
              free = λ y e. same y ∙ moved_in y e;
              clean = λ y h. store.clean y (sym (same y) ∙ h);
            };
            views = refl;
            file = refl;
            entry_of = refl;
            cache_loc = refl;
            page_of = refl;
            new_pages = refl;
            root = refl;
            skip = refl;
            page_count = refl;
            size = refl;
          },
        )
