-- ===== src/Page/PutGet.antt =====
-- The block as a map: what a search finds after a record is added at the place that the search
-- for its key gave.
use index_research.Prelude.{ℕ, ◌+◌, ◌-◌, ◌≤◌, ◌<◌, ◌≡◌, sym, ap, ◌∙◌, ◌⊎◌, ◌↔◌, inl, inr}
use index_research.Prelude.{List, length, IsBytes, some, false, arith, tri}
use index_research.Prelude.Int.{ℤ, pos, negsuc}
use index_research.Prelude.Memory.{Mem}
use index_research.Util.Compare.Order.{KeyLt-irrefl}
use index_research.Page.{Cursor, filled_size}
use index_research.Page.View.{Rec, rec, IsPage}
use index_research.Page.Update.{is_full, add_data}
use index_research.Page.Search.{search_current_block}
use index_research.Page.Find.{Locates, search_current_block-Locates, rec_unique}
use index_research.Page.Add.Block.{CanAdd, added_flags}
use index_research.Page.Add.{after_add, added-IsInserted, added-IsPage, added-eq}
use native.Mathlib.Decide.{dec_lt}

-- Some record of the block is `r`.
abbrev pub Holds : Mem → Rec → Type 0
Holds b r = (i : ℕ) × (i < filled_size b) × (rec b i ≡ r)

-- A record is in the block exactly when the search for its key stops at it.
pub search_current_block_iff :
    {size : ℕ} {b : Mem} (page : IsPage size b) (r : Rec) (i : ℕ) (at : Cursor)
    → ((search_current_block b r.key at).result ≡ pos i)
      ↔ ((i < filled_size b) × ((rec b i).key ≡ r.key))
search_current_block_iff {b} page r i at = (
  λ e. (rw e at (search_current_block-Locates page r.key at)).0,
  λ h.
      found (search_current_block b r.key at).result (search_current_block-Locates page r.key at).0
        h.0 h.1,
)
  where
    found : (z : ℤ) → Locates b r.key z → i < filled_size b → (rec b i).key ≡ r.key → z ≡ pos i
    found (pos j) l h e = ap pos (rec_unique page j i l.0 h (l.1 ∙ sym e))
    found (negsuc j) l h e = elim (dec_lt i j) [
      | yes q ↦ absurd (KeyLt-irrefl r.key (rw e at (l.1 i q)))
      | no q ↦ absurd (KeyLt-irrefl r.key (rw e at (l.2 i (omega arith) h)))
    ]

module _ {size : ℕ} {b : Mem} {at : ℕ} {key value : List ℕ} (add : CanAdd size b at key value) where
  abbrev new : Rec
  new = record { key = key; value = value }

  held_before : (r : Rec) → Holds b r → Holds (after_add add) r
  held_before r (i, h, e) = elim (dec_lt i at) [
    | yes q ↦
        (i, omega (arith, (added-IsInserted add).count), (added-IsInserted add).before i q ∙ e)
    | no q ↦ (
      i + 1,
      omega (arith, (added-IsInserted add).count),
      (added-IsInserted add).after (i + 1) (omega arith) (omega arith)
          ∙ ap (rec b) (omega arith)
          ∙ e,
    )
  ]

  held_after : (r : Rec) → Holds (after_add add) r → Holds b r ⊎ (r ≡ new)
  held_after r (i, h, e) = elim (tri i at) [
    | inl q ↦ inl (i, omega (arith, add.inside), sym ((added-IsInserted add).before i q) ∙ e)
    | inr (inl q) ↦
        let k : i ≤ filled_size b = omega (arith, (added-IsInserted add).count) in
        inl (i - 1, omega arith, sym ((added-IsInserted add).after i q k) ∙ e)
    | inr (inr q) ↦ inr (sym e ∙ ap (rec (after_add add)) q ∙ (added-IsInserted add).here)
  ]

  held_new : (r : Rec) → r ≡ new → Holds (after_add add) r
  held_new r e = (
    at,
    omega (arith, add.inside, (added-IsInserted add).count),
    (added-IsInserted add).here ∙ sym e,
  )

-- Adding a record where the search for its key ended, in a block that is not full, writes inside
-- of the block, keeps it well formed, keeps its flags, and adds this record to those that the block holds and no other.
pub add_data-Holds :
    {size : ℕ} {b : Mem} (page : IsPage size b) (key value : List ℕ) (at : ℕ) (cursor : Cursor)
    → (search_current_block b key cursor).result ≡ negsuc at
    → is_full b key value ≡ false
    → length key < 256
    → length value < 256
    → IsBytes key
    → IsBytes value
    → (b' : Mem) × (add_data b at key value ≡ some b')
      × IsPage size b'
      × (b' 0 ≡ b 0)
      × ((r : Rec) → Holds b' r ↔ (Holds b r ⊎ (r ≡ record { key = key; value = value })))
add_data-Holds {size} {b} page key value at cursor missed free hk hv bk bv = (
  after_add add,
  added-eq add,
  added-IsPage add place.1 place.2 bk bv,
  added_flags add,
  λ r. (
    held_after add r,
    λ h. elim h [ inl old ↦ held_before add r old | inr e ↦ held_new add r e ],
  ),
)
  where
    place : Locates b key (negsuc at)
    place = rw missed at (search_current_block-Locates page key cursor).0

    add : CanAdd size b at key value
    add = record { page = page; inside = place.0; key_len = hk; value_len = hv; free = free }
