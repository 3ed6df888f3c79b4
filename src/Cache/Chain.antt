-- ===== src/Cache/Chain.antt =====
-- The list that the links stand for, and what happens to it.
use index_research.Prelude.{
  ℕ, ◌≡◌, ◌≢◌, ◌⊎◌, refl, sym, ◌∙◌, ap, Option, none, some, true, false, List, [], ◌∷◌, arith, ◌==◌,
  ==_iff, Bool-cases, if◌then◌else◌, inl, inr,
}
use index_research.Cache.Links.{set_if, is, Links, unlink}
use index_research.Cache.Pages.{has}

abbrev pub head : List ℕ → Option ℕ
head [] = none
head (x ∷ xs) = some x

abbrev pub erase : ℕ → List ℕ → List ℕ
erase x [] = []
erase x (y ∷ ys) = if y == x then ys else y ∷ erase x ys

abbrev pub Distinct : List ℕ → Type 0
Distinct [] = Unit {0}
Distinct (x ∷ xs) = (has x xs ≡ false) × Distinct xs

-- From an entry whose predecessor is `before`, the pointers lead through `xs` in both directions, and
-- `last` is the last entry.
abbrev pub Chain : Links → Option ℕ → List ℕ → Option ℕ → Type 0
Chain l before [] last = last ≡ before
Chain l before (x ∷ xs) last = (l.prev x ≡ before) × (l.next x ≡ head xs) × Chain l (some x) xs last

pub record IsOrder (l : Links) (xs : List ℕ) : Type 0 where
  pub first : l.first ≡ head xs
  pub chain : Chain l none xs l.last
  pub distinct : Distinct xs

-- Only the pointers of the entries themselves count.
pub Chain-frame :
    (l l' : Links) (before : Option ℕ) (xs : List ℕ) (last : Option ℕ)
    → ((q : ℕ) → has q xs ≡ true → (l'.prev q ≡ l.prev q) × (l'.next q ≡ l.next q))
    → Chain l before xs last
    → Chain l' before xs last
Chain-frame l l' before [] last same c = c
Chain-frame l l' before (x ∷ xs) last same c = (
  (same x (ground arith)).0 ∙ c.0,
  (same x (ground arith)).1 ∙ c.1,
  Chain-frame l l' (some x) xs last (λ q h. same q (ground arith)) c.2,
)

-- The last entry is one of the list.
pub has-last :
    (l : Links) (b : ℕ) (xs : List ℕ) (last : Option ℕ)
    → Chain l (some b) xs last
    → (z : ℕ) × (last ≡ some z) × (has z (b ∷ xs) ≡ true)
has-last l b [] last c = (b, c, ground arith)
has-last l b (x ∷ xs) last c = let (z, e, h) = has-last l x xs last c.2 in (z, e, ground arith)

pub has-erase : (x y : ℕ) (ys : List ℕ) → has y ys ≡ false → has y (erase x ys) ≡ false
has-erase x y [] h = refl
has-erase x y (z ∷ zs) h = ground (arith, has-erase x y zs)

pub erase-Distinct :
    (x : ℕ) (ys : List ℕ) → Distinct ys → Distinct (erase x ys) × (has x (erase x ys) ≡ false)
erase-Distinct x [] d = (tt, refl)
erase-Distinct x (y ∷ ys) d = elim (Bool-cases (y == x)) [
  | inl e ↦ rw e (d.1, ground arith)
  | inr e ↦ let (r, out) = erase-Distinct x ys d.1 in rw e ((has-erase x y ys d.0, r), ground arith)
]

-- The predecessor of an entry of the list.
pub has-prev :
    (l : Links) (b : ℕ) (xs : List ℕ) (last : Option ℕ) (x : ℕ)
    → Chain l (some b) xs last
    → has x xs ≡ true
    → (u : ℕ) × (l.prev x ≡ some u) × (has u (b ∷ xs) ≡ true)
has-prev l b [] last x c h = absurd (ground arith)
has-prev l b (y ∷ ys) last x c h = elim (Bool-cases (y == x)) [
  | inl e ↦ (b, ground (arith, c.0), ground arith)
  | inr e ↦ let (u, p, m) = has-prev l y ys last x c.2 (ground arith) in (u, p, ground arith)
]

-- The successor of an entry is an entry of the list, or there is none.
pub has-next :
    (l : Links) (before : Option ℕ) (xs : List ℕ) (last : Option ℕ) (x : ℕ)
    → Chain l before xs last
    → has x xs ≡ true
    → (l.next x ≡ none) ⊎ ((n : ℕ) × (l.next x ≡ some n) × (has n xs ≡ true))
has-next l before [] last x c h = absurd (ground arith)
has-next l before (y ∷ []) last x c h = inl (ground (arith, c.1))
has-next l before (y ∷ z ∷ zs) last x c h = elim (Bool-cases (y == x)) [
  | inl e ↦ inr (z, ground (arith, c.1), ground arith)
  | inr e ↦ elim (has-next l (some y) (z ∷ zs) last x c.2 (ground arith)) [
    | inl k ↦ inl k
    | inr (n, k, m) ↦ inr (n, k, ground arith)
  ]
]

pub some_eq : (p q : ℕ) → some p ≡ some q → p ≡ q
some_eq p q e = cc

false-true : false ≡ true → ⊥
false-true e = cc

pub set_if_ne : (f : ℕ → Option ℕ) (o v : Option ℕ) (q : ℕ) → o ≢ some q → set_if f o v q ≡ f q
set_if_ne f none v q h = refl
set_if_ne f (some p) v q h = elim (Bool-cases (q == p)) [
  | inl e ↦ absurd (h (ap some (sym ((==_iff q p).0 e))))
  | inr e ↦ rw e refl
]

-- The pointers that taking `x` out from behind `u` changes.
module _ (l : Links) (x u : ℕ) where
  next-unlink : (q : ℕ) → q ≢ u → (unlink l x u).next q ≡ l.next q
  unfolding unlink
  next-unlink q h = ground arith

  next-unlink_self : (unlink l x u).next u ≡ l.next x
  unfolding unlink
  next-unlink_self = ground arith

  prev-unlink : (q : ℕ) → l.next x ≢ some q → (unlink l x u).prev q ≡ l.prev q
  unfolding unlink
  prev-unlink q h = set_if_ne l.prev (l.next x) (some u) q h

  prev-unlink_next : (n : ℕ) → l.next x ≡ some n → (unlink l x u).prev n ≡ some u
  unfolding unlink
  prev-unlink_next n e = rw e (ground arith)

  last-unlink : is l.last x ≡ false → (unlink l x u).last ≡ l.last
  unfolding unlink
  last-unlink h = rw h refl

  last-unlink_self : is l.last x ≡ true → (unlink l x u).last ≡ l.prev x
  unfolding unlink
  last-unlink_self h = rw h refl

pub has_ne : (xs : List ℕ) (p q : ℕ) → has p xs ≡ true → has q xs ≡ false → q ≢ p
has_ne xs p q h k e = absurd (false-true (sym k ∙ ap (λ z. has z xs) e ∙ h))

pub some_ne : (p q : ℕ) → p ≢ q → some p ≢ some q
some_ne p q h e = h (some_eq p q e)

pub none_ne : (o : Option ℕ) (q : ℕ) → o ≡ none → o ≢ some q
none_ne o q h e = absurd (cc)

-- The entry before a list in which `x` stands keeps its predecessor.
pub prev-unlink_before :
    (l : Links) (x u y : ℕ) (ys : List ℕ) (last : Option ℕ)
    → Chain l (some y) ys last
    → has x ys ≡ true
    → has y ys ≡ false
    → (unlink l x u).prev y ≡ l.prev y
prev-unlink_before l x u y ys last c h d =
    prev-unlink l x u y (elim (has-next l (some y) ys last x c h) [
      | inl k ↦ none_ne (l.next x) y k
      | inr (z, k, i) ↦ λ r. has_ne ys z y i d (some_eq y z (sym r ∙ k))
    ])

-- The entry is the one behind `b`.
unlink_here :
    (l : Links) (b : ℕ) (ys : List ℕ) (x u : ℕ)
    → Chain l (some b) (x ∷ ys) l.last
    → Distinct (b ∷ x ∷ ys)
    → l.prev x ≡ some u
    → ((unlink l x u).next b ≡ head ys) × Chain (unlink l x u) (some b) ys (unlink l x u).last
unlink_here l b [] x u c d p =
    let same : u ≡ b = some_eq u b (sym p ∙ c.0) in
    (
      ap (unlink l x u).next (sym same) ∙ next-unlink_self l x u ∙ c.1,
      last-unlink_self l x u (rw c.2 (ground arith)) ∙ c.0,
    )
unlink_here l b (z ∷ zs) x u c d p =
    let same : u ≡ b = some_eq u b (sym p ∙ c.0) in
    let (t, e, m) = has-last l z zs l.last c.2.2 in
    let z_ne_u : z ≢ u = λ k. has_ne (z ∷ zs) z b (ground arith) (ground arith) (sym (k ∙ same)) in
    (
      ap (unlink l x u).next (sym same) ∙ next-unlink_self l x u ∙ c.1,
      (
        prev-unlink_next l x u z c.1 ∙ ap some same,
        next-unlink l x u z z_ne_u ∙ c.2.1,
        rw (last-unlink l x u (rw e (ground (arith, has_ne (z ∷ zs) t x m d.1.0)))) (
            Chain-frame l (unlink l x u) (some z) zs l.last
              (λ q h. (
                prev-unlink l x u q (λ k. has_ne zs q z h d.1.1.0 (some_eq z q (sym c.1 ∙ k))),
                next-unlink l x u q (λ k. has_ne zs q b h (ground arith) (sym (k ∙ same))),
              ))
              c.2.2),
      ),
    )

-- An entry is taken out, and the others stay in order.
pub unlink_lem :
    (l : Links) (b : ℕ) (ys : List ℕ) (x u : ℕ)
    → l.next b ≡ head ys
    → Chain l (some b) ys l.last
    → Distinct (b ∷ ys)
    → has x ys ≡ true
    → l.prev x ≡ some u
    → ((unlink l x u).next b ≡ head (erase x ys))
      × Chain (unlink l x u) (some b) (erase x ys) (unlink l x u).last
unlink_lem l b [] x u n c d h p = absurd (ground arith)
unlink_lem l b (y ∷ ys) x u n c d h p = elim (Bool-cases (y == x)) [
  | inl e ↦
      let same : y ≡ x = (==_iff y x).0 e in
      rw e (unlink_here l b ys x u (rw same at c) (rw same at d) p)
  | inr e ↦
      let (v, q, m) = has-prev l y ys l.last x c.2 (ground arith) in
      let v_eq_u : v ≡ u = some_eq v u (sym q ∙ p) in
      let (next, rest) = unlink_lem l y ys x u c.1 c.2 d.1 (ground arith) p in
      rw e (
        next-unlink l x u b (λ k. has_ne (y ∷ ys) v b m d.0 (k ∙ sym v_eq_u)) ∙ n,
        (prev-unlink_before l x u y ys l.last c.2 (ground arith) d.1.0 ∙ c.0, next, rest),
      )
]
