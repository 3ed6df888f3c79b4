-- ===== src/Cache/Flush.antt =====
-- `flush_pages_in_seq` keeps what every page holds, and the last entry can be reused after it.
use index_research.Prelude.{
  ℕ, zero, suc, ◌+◌, ◌≡◌, ◌≢◌, refl, sym, ◌∙◌, ap, ◌⊎◌, Option, some, true, false, not, ◌&&◌, ◌||◌,
  List, [], ◌∷◌, length, arith, ltb, ◌==◌, ==_iff, Bool-cases, Option-cases, if◌then◌else◌, inl,
  inr,
}
use index_research.Cache.Pages.{ChgIface, Cache, Place, changed, has, keeps, insert, collect_loop}
use index_research.Cache.Chain.{IsOrder, has-last, has-prev}
use index_research.Cache.Store.{some_eq, some-none, IsStore}

pub has-insert : (p q : ℕ) (qs : List ℕ) → has q (insert p qs) ≡ (q == p || has q qs)
unfolding insert
has-insert p q [] = refl
has-insert p q (r ∷ rs) = ground (arith, has-insert p q rs)

pub has-insert_other :
    (p q : ℕ) (qs : List ℕ) → has q (insert p qs) ≡ true → q ≢ p → has q qs ≡ true
has-insert_other p q qs h ne = ground (arith, has-insert p q qs, h, ne)

has-insert_self : (p : ℕ) (qs : List ℕ) → has p (insert p qs) ≡ true
has-insert_self p qs = has-insert p p qs ∙ ground arith

-- The neighbours of an entry of a store.
module _ {Block : Type 0} (iface : ChgIface Block) (c : Cache iface) (xs : List ℕ)
    (store : IsStore iface c xs) where
  pub inside-prev : (x : ℕ) → has x xs ≡ true → (y : ℕ) → c.links.prev x ≡ some y → has y xs ≡ true
  inside-prev x h y e = prev_in xs store.order h
    where
      prev_in : (zs : List ℕ) → IsOrder c.links zs → has x zs ≡ true → has y zs ≡ true
      prev_in [] o m = absurd (ground arith)
      prev_in (f ∷ fs) o m = elim (Bool-cases (x == f)) [
        | inl k ↦ absurd (some-none y (sym e ∙ ap c.links.prev ((==_iff x f).0 k) ∙ o.chain.0))
        | inr k ↦
            let (u, p, i) = has-prev c.links f fs c.links.last x o.chain.2 (ground arith) in
            ap (λ z. has z (f ∷ fs)) (some_eq y u (sym e ∙ p)) ∙ i
      ]

  pub inside-last : (z : ℕ) → c.links.last ≡ some z → has z xs ≡ true
  inside-last z e = last_in xs store.order
    where
      last_in : (zs : List ℕ) → IsOrder c.links zs → has z zs ≡ true
      last_in [] o = absurd (some-none z (sym e ∙ o.chain))
      last_in (f ∷ fs) o =
          let (t, k, i) = has-last c.links f fs c.links.last o.chain.2 in
          ap (λ w. has w (f ∷ fs)) (some_eq z t (sym e ∙ k)) ∙ i

  -- What the loop collects: the pages it started with, and pages of the cache.
  pub record Collects (keep : Option Place) (x : ℕ) (pages ps : List ℕ) : Type 0 where
    pub old : (p : ℕ) → has p pages ≡ true → has p ps ≡ true
    pub from :
        (p : ℕ)
        → has p ps ≡ true
        → (has p pages ≡ true) ⊎ ((y : ℕ) × (has y xs ≡ true) × (c.page_of y ≡ p))

  abbrev step_pages : Option Place → ℕ → List ℕ → List ℕ
  step_pages keep x pages =
      if not (keeps keep (c.cache_loc x)) && changed iface c x
      then insert (c.page_of x) pages
      else pages

  step-Collects :
      (keep : Option Place) (x : ℕ) (pages : List ℕ)
      → has x xs ≡ true
      → Collects keep x pages (step_pages keep x pages)
  step-Collects keep x pages h =
      elim (Bool-cases (not (keeps keep (c.cache_loc x)) && changed iface c x)) [
        | inl e ↦
            rw (step_pages, e)
              (record {
                old = λ p k. ground (arith, has-insert (c.page_of x) p pages);
                from = λ p k. elim (Bool-cases (p == c.page_of x)) [
                  | inl s ↦ inr (x, h, sym ((==_iff p (c.page_of x)).0 s))
                  | inr s ↦ inl (ground (arith, has-insert (c.page_of x) p pages))
                ];
              })
        | inr e ↦ rw (step_pages, e) (record { old = λ p k. k; from = λ p k. inl k })
      ]

  join :
      (keep : Option Place) (x y : ℕ) (ps qs rs : List ℕ)
      → Collects keep x ps qs
      → Collects keep y qs rs
      → Collects keep x ps rs
  join keep x y ps qs rs s t = record {
    old = λ p k. t.old p (s.old p k);
    from = λ p k. elim (t.from p k) [ inl m ↦ s.from p m | inr m ↦ inr m ];
  }

  stay : (keep : Option Place) (x : ℕ) (pages : List ℕ) → Collects keep x pages pages
  stay keep x pages = record { old = λ p k. k; from = λ p k. inl k }

  -- One more round, where the rest of the loop collects.
  round-Collects :
      (rounds : ℕ) (keep : Option Place) (x : ℕ) (pages : List ℕ)
      → has x xs ≡ true
      → ((y : ℕ)
          → has y xs ≡ true
          → Collects keep y
              (step_pages keep x pages)
              (collect_loop iface c keep rounds y (step_pages keep x pages)))
      → Collects keep x (step_pages keep x pages) (collect_loop iface c keep (suc rounds) x pages)
  unfolding collect_loop
  round-Collects rounds keep x pages h rest =
      let next = step_pages keep x pages in
      elim (Bool-cases (
        not (keeps keep (c.cache_loc x))
        && ltb (c.last_pages_to_flush + length c.new_pages) (length next))) [
          | inl e ↦ rw (collect_loop, e) (stay keep x next)
          | inr e ↦ elim (Option-cases (c.links.prev x)) [
            | inl k ↦ rw (collect_loop, e, k) (stay keep x next)
            | inr (y, k) ↦
                rw (collect_loop, e, k)
                  (join keep x y next next (collect_loop iface c keep rounds y next)
                    (stay keep x next) (rest y (inside-prev x h y k)))
          ]
        ]

  pub collect_loop-Collects :
      (rounds : ℕ) (keep : Option Place) (x : ℕ) (pages : List ℕ)
      → has x xs ≡ true
      → Collects keep x pages (collect_loop iface c keep rounds x pages)
  unfolding collect_loop
  collect_loop-Collects zero keep x pages h = stay keep x pages
  collect_loop-Collects (suc rounds) keep x pages h =
      let next = step_pages keep x pages in
      join keep x x pages next (collect_loop iface c keep (suc rounds) x pages)
        (step-Collects keep x pages h)
        (round-Collects rounds keep x pages h (λ y k. collect_loop-Collects rounds keep y next k))

  -- The page of the first entry that is looked at is collected if it is changed and not to be kept.
  pub collect_first :
      (rounds : ℕ) (keep : Option Place) (x : ℕ) (pages : List ℕ)
      → has x xs ≡ true
      → keeps keep (c.cache_loc x) ≡ false
      → changed iface c x ≡ true
      → has (c.page_of x) (collect_loop iface c keep (suc rounds) x pages) ≡ true
  collect_first rounds keep x pages h free dirty =
      (round-Collects rounds keep x pages h
          (λ y k. collect_loop-Collects rounds keep y (step_pages keep x pages) k)).old
        (c.page_of x) (rw (step_pages, free, dirty) (has-insert_self (c.page_of x) pages))
