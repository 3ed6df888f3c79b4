-- ===== src/Cache/Order.antt =====
-- `move_to_front` and the entry of a page that comes in, as operations on the list of entries.
use index_research.Prelude.{
  ℕ, ◌≡◌, ◌≢◌, refl, sym, ◌∙◌, ap, Option, none, some, true, false, ◌||◌, List, [], ◌∷◌, ◌++◌,
  arith, ◌==◌, ==_iff, Bool-cases, inl, inr,
}
use index_research.Cache.Links.{Links, unlink, push, move_to_front, append_entry}
use index_research.Cache.Pages.{has}
use index_research.Cache.Chain.{
  head, erase, Distinct, Chain, IsOrder, Chain-frame, has-last, has-erase, erase-Distinct, has-prev,
  has_ne, unlink_lem, some_ne, set_if_ne, some_eq, prev-unlink_before,
}

-- The first entry stays where it is.
front_here : (l : Links) (x : ℕ) (ys : List ℕ) → l.first ≡ some x → move_to_front l x ≡ some l
unfolding move_to_front
front_here l x ys e = rw e (ground arith)

front_moved :
    (l : Links) (x f u : ℕ)
    → l.first ≡ some f
    → (f == x) ≡ false
    → l.prev x ≡ some u
    → move_to_front l x ≡ some (push (unlink l x u) x f)
unfolding move_to_front
front_moved l x f u e h p = ground (arith, e, h, p)

first-unlink : (l : Links) (x u : ℕ) → (unlink l x u).first ≡ l.first
unfolding unlink
first-unlink l x u = refl

-- A pushed entry stands before the first.
push-IsOrder :
    (l : Links) (x f : ℕ) (es : List ℕ)
    → Chain l none (f ∷ es) l.last
    → Distinct (x ∷ f ∷ es)
    → IsOrder (push l x f) (x ∷ f ∷ es)
unfolding push
push-IsOrder l x f es c d = record {
  first = refl;
  chain = (
    ground (arith, d),
    ground (arith, d),
    (
      ground (arith, d),
      ground (arith, d, c.1),
      Chain-frame l (push l x f) (some f) es l.last
          (λ q h.
            let q_ne_x : q ≢ x = λ k. has_ne es q x h (ground arith) (sym k) in
            let q_ne_f : q ≢ f = λ k. has_ne es q f h d.1.0 (sym k) in (ground arith, ground arith))
          c.2,
    ),
  );
  distinct = d;
}

-- `move_to_front` follows no NULL pointer and moves the entry to the front of the list, the others in
-- the order they had.
pub move_to_front-IsOrder :
    (l : Links) (xs : List ℕ) (x : ℕ)
    → IsOrder l xs
    → has x xs ≡ true
    → (l' : Links) × (move_to_front l x ≡ some l') × IsOrder l' (x ∷ erase x xs)
move_to_front-IsOrder l [] x o h = absurd (ground arith)
move_to_front-IsOrder l (f ∷ ys) x o h = elim (Bool-cases (f == x)) [
  | inl e ↦
      let same : f ≡ x = (==_iff f x).0 e in
      (l, front_here l x ys (o.first ∙ ap some same), rw e (rw same at o))
  | inr e ↦
      let (u, p, m) = has-prev l f ys l.last x o.chain.2 (ground arith) in
      let (next, rest) = unlink_lem l f ys x u o.chain.1 o.chain.2 o.distinct (ground arith) p in
      let (d, out) = erase-Distinct x ys o.distinct.1 in
      (
        push (unlink l x u) x f,
        front_moved l x f u o.first e p,
        rw e (
            push-IsOrder (unlink l x u) x f (erase x ys)
              (
                prev-unlink_before l x u f ys l.last o.chain.2 (ground arith) o.distinct.0
                    ∙ o.chain.0,
                next,
                rest,
              )
              (ground arith, (has-erase x f ys o.distinct.0, d))),
      )
]

last_ne :
    (l : Links) (xs : List ℕ) (before last : Option ℕ) (x : ℕ)
    → Chain l before xs last
    → before ≢ some x
    → has x xs ≡ false
    → last ≢ some x
last_ne l [] before last x c b h = λ e. b (sym c ∙ e)
last_ne l (y ∷ ys) before last x c b h =
    last_ne l ys (some y) last x c.2 (some_ne y x (ground arith)) (ground arith)

append_lem :
    (l : Links) (before : Option ℕ) (xs : List ℕ) (x : ℕ)
    → Chain l before xs l.last
    → Distinct xs
    → before ≢ some x
    → has x xs ≡ false
    → Chain (append_entry l x) before (xs ++ x ∷ []) (some x)
unfolding append_entry
append_lem l before [] x c d b h =
    (ground (arith, c), set_if_ne _ l.last (some x) x (rw c b) ∙ ground arith, refl)
append_lem l before (y ∷ []) x c d b h = (
  ground (arith, c.0),
  rw c.2 (ground arith),
  append_lem l (some y) [] x c.2 tt (some_ne y x (ground arith)) refl,
)
append_lem l before (y ∷ z ∷ zs) x c d b h =
    let (t, e, m) = has-last l z zs l.last c.2.2 in
    let last_ne_y : l.last ≢ some y = λ k. has_ne (z ∷ zs) t y m d.0 (some_eq y t (sym k ∙ e)) in
    (
      ground (arith, c.0),
      set_if_ne _ l.last (some x) y last_ne_y ∙ ground (arith, c.1),
      append_lem l (some y) (z ∷ zs) x c.2 d.1 (some_ne y x (ground arith)) (ground arith),
    )

pub has-append : (x y : ℕ) (xs : List ℕ) → has y (xs ++ x ∷ []) ≡ (has y xs || (y == x))
has-append x y [] = ground arith
has-append x y (z ∷ zs) = ground (arith, has-append x y zs)

append-Distinct : (xs : List ℕ) (x : ℕ) → Distinct xs → has x xs ≡ false → Distinct (xs ++ x ∷ [])
append-Distinct [] x d h = (refl, tt)
append-Distinct (y ∷ ys) x d h =
    (ground (arith, d.0, has-append x y ys), append-Distinct ys x d.1 (ground arith))

first-append :
    (l : Links) (xs : List ℕ) (x : ℕ)
    → l.first ≡ head xs
    → (append_entry l x).first ≡ head (xs ++ x ∷ [])
unfolding append_entry
first-append l [] x e = rw e refl
first-append l (y ∷ ys) x e = rw e refl

-- An entry that is not in the list becomes its last.
pub append_entry-IsOrder :
    (l : Links) (xs : List ℕ) (x : ℕ)
    → IsOrder l xs
    → has x xs ≡ false
    → IsOrder (append_entry l x) (xs ++ x ∷ [])
unfolding append_entry
append_entry-IsOrder l xs x o h = record {
  first = first-append l xs x o.first;
  chain = append_lem l none xs x o.chain o.distinct (λ e. cc) h;
  distinct = append-Distinct xs x o.distinct h;
}
