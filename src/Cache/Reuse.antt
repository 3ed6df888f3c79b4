-- ===== src/Cache/Reuse.antt =====
-- An entry whose page is in the file takes another page: `reuse_entry`.
use index_research.Prelude.{
  ℕ, ◌+◌, ◌≡◌, ◌≢◌, refl, sym, ◌∙◌, ap, Option, none, some, true, false, List, [], ◌∷◌, length,
  arith, ◌==◌, Bool-cases, inl, inr,
}
use index_research.Cache.Links.{Links, set_at, move_to_front}
use index_research.Cache.Pages.{ChgIface, Cache, changed, has, reuse_entry}
use index_research.Cache.Chain.{IsOrder, erase}
use index_research.Cache.Order.{move_to_front-IsOrder}
use index_research.Cache.Store.{some_eq, some-none, IsStore, image, view, view-some, view-none}
use index_research.Cache.Write.{set_at_same, set_at_ne}
use index_research.Cache.Room.{IsEntered}
use native.Mathlib.Decide.{ℕ_discrete}

-- Moving an entry to the front keeps the entries and their number.
pub has-front : (x y : ℕ) (xs : List ℕ) → has x xs ≡ true → has y (x ∷ erase x xs) ≡ has y xs
has-front x y [] h = absurd (ground arith)
has-front x y (z ∷ zs) h = elim (Bool-cases (z == x)) [
  | inl e ↦ ground (arith, e)
  | inr e ↦ ground (arith, e, has-front x y zs (ground arith))
]

pub length-front : (x : ℕ) (xs : List ℕ) → has x xs ≡ true → length (x ∷ erase x xs) ≡ length xs
length-front x [] h = absurd (ground arith)
length-front x (z ∷ zs) h = elim (Bool-cases (z == x)) [
  | inl e ↦ ground (arith, e)
  | inr e ↦ ground (arith, e, length-front x zs (ground arith))
]

module _ {Block : Type 0} (iface : ChgIface Block) where
  module _ (c : Cache iface) (xs : List ℕ) (p x : ℕ) (store : IsStore iface c xs)
      (absent : c.entry_of p ≡ none) (x_in : has x xs ≡ true) (quiet : changed iface c x ≡ false)
      (no_new : has (c.page_of x) c.new_pages ≡ false) where
    abbrev old : ℕ
    old = c.page_of x

    abbrev without : ℕ → Option ℕ
    without = set_at c.entry_of old none

    abbrev entered : Links → Cache iface
    entered l = record c {
      links = l;
      page_of = set_at c.page_of x p;
      entry_of = set_at without p (some x);
      total_cache_misses = c.total_cache_misses + 1;
      total_cache_req = c.total_cache_req + 1;
    }

    reuse_some :
        (l : Links) → move_to_front c.links x ≡ some l → reuse_entry iface c x p ≡ some (entered l)
    unfolding reuse_entry
    reuse_some l e = rw (reuse_entry, e) refl

    entry_past :
        (q y : ℕ) → q ≢ p → set_at without p (some x) q ≡ some y → (c.entry_of q ≡ some y) × (y ≢ x)
    entry_past q y ne e =
        let e' : without q ≡ some y = sym (set_at_ne without p (some x) q ne) ∙ e in
        elim (ℕ_discrete q old) [
          | yes k ↦ absurd (some-none y (sym e' ∙ ap without k ∙ set_at_same c.entry_of old none))
          | no k ↦
              let e'' : c.entry_of q ≡ some y = sym (set_at_ne c.entry_of old none q k) ∙ e' in
              (e'', λ m. k (sym (store.known q y e'').1 ∙ ap c.page_of m))
        ]

    entry_stays : (q y : ℕ) → c.entry_of q ≡ some y → y ≢ x → set_at without p (some x) q ≡ some y
    entry_stays q y e ne =
        set_at_ne without p (some x) q (λ k. some-none y (sym e ∙ ap c.entry_of k ∙ absent))
        ∙ set_at_ne c.entry_of old none q
            (λ k. ne (some_eq y x (sym e ∙ ap c.entry_of k ∙ store.listed x x_in)))
        ∙ e

    -- The page that leaves the cache is in the file.
    left :
        (q : ℕ)
        → q ≢ p
        → set_at without p (some x) q ≡ none
        → view iface c q ≡ image iface (c.file q)
    left q ne e = elim (ℕ_discrete q old) [
      | yes k ↦
          view-some iface c q x (ap c.entry_of k ∙ store.listed x x_in)
          ∙ sym (store.clean x x_in quiet)
          ∙ ap (λ r. image iface (c.file r)) (sym k)
      | no k ↦
          view-none iface c q
            (sym (set_at_ne c.entry_of old none q k) ∙ sym (set_at_ne without p (some x) q ne) ∙ e)
    ]

    not_new : (q y : ℕ) → has q c.new_pages ≡ true → c.entry_of q ≡ some y → y ≢ x
    not_new q y h e = λ k.
        let same : q ≡ old = sym (store.known q y e).1 ∙ ap c.page_of k in
        ground (arith, same, h, no_new)

    reuse_IsEntered :
        (l : Links)
        → IsOrder l (x ∷ erase x xs)
        → IsEntered iface c (entered l) xs (x ∷ erase x xs) x p
    reuse_IsEntered l o = record {
      order = o;
      count = length-front x xs x_in ∙ store.count;
      entries = λ y h. store.entries y (sym (has-front x y xs x_in) ∙ h);
      here = has-front x x xs x_in ∙ x_in;
      others = λ y h ne. sym (has-front x y xs x_in) ∙ h;
      back = λ y h. has-front x y xs x_in ∙ h;
      loc_here = store.loc x x_in;
      loc_same = λ y ne. refl;
      page_here = set_at_same c.page_of x p;
      page_same = λ y ne. set_at_ne c.page_of x p y ne;
      absent = absent;
      entry_here = set_at_same without p (some x);
      entry_old = entry_past;
      entry_kept = entry_stays;
      gone = left;
      no_new = not_new;
      slots = refl;
      file = refl;
      new_pages = refl;
      free = store.free;
      root = refl;
      skip = refl;
      page_count = refl;
      size = refl;
    }

    pub reuse_entry-IsEntered :
        (c2 : Cache iface) × (reuse_entry iface c x p ≡ some c2)
        × IsEntered iface c c2 xs (x ∷ erase x xs) x p
    reuse_entry-IsEntered =
        let (l, runs, o) = move_to_front-IsOrder c.links xs x store.order x_in in
        (entered l, reuse_some l runs, reuse_IsEntered l o)
