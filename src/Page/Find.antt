-- ===== src/Page/Find.antt =====
-- `search_current_block` is a correct binary search: it ends, finds the key when the block holds
-- it, and otherwise gives the position where the key belongs.
use index_research.Prelude.{ℕ, zero, suc, ◌+◌, ◌/◌, ◌≤◌, ◌<◌, ◌≡◌, refl, List, arith}
use index_research.Prelude.{lt→ltb, le→not_ltb, tri, inl, inr}
use native.Mathlib.Decide.{dec_lt}
use index_research.Prelude.Int.{ℤ, pos, negsuc}
use index_research.Prelude.Memory.{Mem, read_bytes}
use index_research.Util.Compare.{compare}
use index_research.Util.Compare.Order.{KeyLt, KeyLt-trans, KeyLt-irrefl, Decides, compare-Decides}
use index_research.Page.{Cursor, filled_size, get_key}
use index_research.Page.View.{rec, IsPage}
use index_research.Page.Search.{Found, search_loop, search_current_block}

-- `i` is the position of the key, or `~i` of where it belongs.
abbrev pub Locates : Mem → List ℕ → ℤ → Type 0
Locates b key (pos i) = (i < filled_size b) × ((rec b i).key ≡ key)
Locates b key (negsuc i) =
    (i ≤ filled_size b)
    × ((j : ℕ) → j < i → KeyLt (rec b j).key key)
    × ((j : ℕ) → i ≤ j → j < filled_size b → KeyLt key (rec b j).key)

-- After a hit `key_at` and `key_at_len` stand at the key that was found.
abbrev pub PointsAt : Mem → ℤ → Cursor → Type 0
PointsAt b (pos i) at = at ≡ get_key b i
PointsAt b (negsuc i) at = Unit {0}

abbrev pub key_read : Mem → ℕ → List ℕ
key_read b i = read_bytes b (get_key b i).key_at (get_key b i).key_at_len

pub key_read-eq-rec : (b : Mem) (i : ℕ) → key_read b i ≡ (rec b i).key
unfolding get_key rec
key_read-eq-rec b i = refl

module _ (b : Mem) (key : List ℕ)
    (sorted : (i j : ℕ) → i < j → j < filled_size b → KeyLt (rec b i).key (rec b j).key) where
  pub record Bracket (first last : ℕ) : Type 0 where
    pub ordered : first ≤ last
    pub inside : last ≤ filled_size b
    pub below : (j : ℕ) → j < first → KeyLt (rec b j).key key
    pub above : (j : ℕ) → last ≤ j → j < filled_size b → KeyLt key (rec b j).key

  order :
      (first last : ℕ)
      → let mid = (first + last) / 2 in Decides (rec b mid).key key (compare (key_read b mid) key)
  order first last = rw key_read-eq-rec (compare-Decides (rec b ((first + last) / 2)).key key)

  go_right :
      {first last : ℕ} (mid : ℕ)
      → Bracket first last
      → mid < last
      → KeyLt (rec b mid).key key
      → Bracket (mid + 1) last
  go_right mid br h k = record {
    ordered = omega arith;
    inside = br.inside;
    below = λ j p. elim (dec_lt j mid) [
      | yes q ↦
          KeyLt-trans (rec b j).key (rec b mid).key key (sorted j mid q (omega (arith, br.inside)))
            k
      | no q ↦ let e : j ≡ mid = omega arith in rw e k
    ];
    above = br.above;
  }

  go_left :
      {first last : ℕ} (mid : ℕ)
      → Bracket first last
      → first ≤ mid
      → mid < last
      → KeyLt key (rec b mid).key
      → Bracket first mid
  go_left mid br g h k = record {
    ordered = g;
    inside = omega (arith, br.inside);
    below = br.below;
    above = λ j p q. elim (dec_lt mid j) [
      | yes r ↦ KeyLt-trans key (rec b mid).key (rec b j).key k (sorted mid j r q)
      | no r ↦ let e : j ≡ mid = omega arith in rw e k
    ];
  }

  abbrev pub Good : Found → Type 0
  Good r = Locates b key r.result × PointsAt b r.result r.cursor

  ended :
      (first last : ℕ) (at : Cursor)
      → last ≤ first
      → Bracket first last
      → Locates b key (negsuc last)
  ended first last at f br =
      let e : last ≡ first = omega (arith, br.ordered) in (br.inside, rw e br.below, br.above)

  -- One round of the loop, from what the next rounds give.
  round :
      (fuel first last : ℕ) (at : Cursor)
      → first < last
      → Bracket first last
      → let mid = (first + last) / 2 in
        (Bracket (mid + 1) last → Good (search_loop b key fuel (mid + 1) last (get_key b mid)))
        → (Bracket first mid → Good (search_loop b key fuel first mid (get_key b mid)))
        → (c : ℤ) → compare (key_read b mid) key ≡ c
        → Good (search_loop b key (suc fuel) first last at)
  unfolding search_loop
  round fuel first last at h br right left (negsuc k) e =
      rw (lt→ltb first last h, e, search_loop)
        (right (go_right ((first + last) / 2) br (omega arith) (rw e at (order first last))))
  round fuel first last at h br right left (pos (suc k)) e =
      rw (lt→ltb first last h, e, search_loop)
        (left (
          go_left ((first + last) / 2) br (omega arith) (omega arith) (rw e at (order first last))))
  round fuel first last at h br right left (pos zero) e =
      rw (lt→ltb first last h, e, search_loop)
        ((omega (arith, br.inside), rw e at (order first last)), refl)

  pub search_loop-Good :
      (fuel first last : ℕ) (at : Cursor)
      → last ≤ first + fuel
      → Bracket first last
      → Good (search_loop b key fuel first last at)
  search_loop-Good zero first last at f br =
      unfold search_loop in (ended first last at (omega arith) br, tt)
  search_loop-Good (suc fuel) first last at f br = elim (dec_lt first last) [
    | no h ↦
        unfold search_loop in
        rw (le→not_ltb first last (omega arith), search_loop)
          (ended first last at (omega arith) br, tt)
    | yes h ↦
        let mid = (first + last) / 2 in
        round fuel first last at h br
          (search_loop-Good fuel (mid + 1) last (get_key b mid) (omega arith))
          (search_loop-Good fuel first mid (get_key b mid) (omega arith))
          (compare (key_read b mid) key) refl
  ]

-- On a well-formed block the search ends with the position of the key, `key_at` standing at it,
-- or with `~i` where `i` is the one position at which the key keeps the order.
pub search_current_block-Locates :
    {size : ℕ} {b : Mem} (page : IsPage size b) (key : List ℕ) (at : Cursor)
    → let r = search_current_block b key at in Locates b key r.result × PointsAt b r.result r.cursor
unfolding search_current_block
search_current_block-Locates {b} page key at =
    search_loop-Good b key page.sorted (filled_size b) 0 (filled_size b) at (omega arith) (record {
      ordered = omega arith;
      inside = omega arith;
      below = λ j h. absurd (omega arith);
      above = λ j h k. absurd (omega arith);
    })

-- Keys stand once: a key is at one position at most.
pub rec_unique :
    {size : ℕ} {b : Mem} (page : IsPage size b) (i j : ℕ)
    → i < filled_size b
    → j < filled_size b
    → (rec b i).key ≡ (rec b j).key
    → i ≡ j
rec_unique {b} page i j h k e = elim (tri i j) [
  | inl l ↦ absurd (KeyLt-irrefl (rec b j).key (rw e at (page.sorted i j l k)))
  | inr (inl g) ↦ absurd (KeyLt-irrefl (rec b j).key (rw e at (page.sorted j i g h)))
  | inr (inr r) ↦ r
]
