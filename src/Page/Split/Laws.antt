-- ===== src/Page/Split/Laws.antt =====
-- `split` leaves two well-formed blocks that together hold the records of the old one, in order.
use index_research.Prelude.{
  ℕ, zero, suc, ◌+◌, ◌-◌, ◌/◌, ◌≤◌, ◌<◌, ◌≡◌, ◌≢◌, refl, sym, ap, ◌∙◌, ◌⊎◌, inl, inr, Bool,
  Bool-cases, true, false, List, length, Option, none, some, arith,
}
use index_research.Prelude.Memory.{Mem, IsMem, length-read_bytes}
use index_research.Page.{is_leaf, get_ptr, filled_size, get_kv_last_pos}
use index_research.Page.View.{IsPage, Rec, rec}
use index_research.Page.Flags.{same_count, same_last, same_size, same_rec, same-IsPage}
use index_research.Page.Separator.{split_key}
use index_research.Page.Separator.Laws.{
  FirstDiffer, Separates, split_key-Separates, split_key_inner,
}
use index_research.Page.Split.{
  Halves, Break, Copying, split, bump_max_key_len, new_block_for, copy_loop, keep_first,
  keep_second,
}
use index_research.Page.Split.Starts.{start, start_zero, start_suc, FitsPacked}
use index_research.Page.Split.Fresh.{empty_count, empty-IsMem}
use index_research.Page.Split.Rounds.{HasCopies, IsCopying, BreaksAt, copy_loop-IsCopying}
use index_research.Page.Split.Parts.First.{first_count, rec-first, first-IsPage}
use index_research.Page.Split.Parts.Second.{second_count, rec-second, second-IsPage}

-- Half of the bytes that the records take up, as `split` computes it.
abbrev pub half_of : ℕ → Mem → ℕ
half_of size b = (size - get_kv_last_pos b + 1) / 2

-- The first `k` records of `b` in the old block, the others in the new one. The break is where the
-- records before it first take more than half of the bytes, and after the middle one at the latest.
pub record IsSplit (size fuel : ℕ) (b : Mem) (k : ℕ) (h : Halves) : Type 0 where
  pub some_first : 1 ≤ k
  pub middle : k ≤ filled_size b / 2 + 1
  pub below : start b (get_kv_last_pos b) (k - 1) ≤ get_kv_last_pos b + half_of size b
  pub reached :
      (get_kv_last_pos b + half_of size b < start b (get_kv_last_pos b) k)
      ⊎ (k ≡ filled_size b / 2 + 1)
  pub old_page : IsPage size h.old_block
  pub new_page : IsPage size h.new_block
  pub old_count : filled_size h.old_block ≡ k
  pub new_count : filled_size h.new_block ≡ filled_size b - k
  pub old_rec : (j : ℕ) → j < k → rec h.old_block j ≡ rec b j
  pub new_rec : (j : ℕ) → j < filled_size b - k → rec h.new_block j ≡ rec b (k + j)
  pub both : k < filled_size b
  pub key : split_key (bump_max_key_len b) fuel (k - 1) ≡ some h.first_key
  pub separates : is_leaf b ≡ true → Separates (rec b (k - 1)).key (rec b k).key h.first_key
  pub whole_key : is_leaf b ≡ false → h.first_key ≡ (rec b k).key

true-false : true ≡ false → ⊥
true-false e = cc

bump_same : (b : Mem) (q : ℕ) → 0 < q → q ≢ 5 → bump_max_key_len b q ≡ b q
unfolding bump_max_key_len
bump_same b q h k = ground arith

bump-IsMem : (b : Mem) → IsMem b → IsMem (bump_max_key_len b)
unfolding bump_max_key_len
bump-IsMem b h q = ground (arith, h q)

module _ {size : ℕ} {b fresh : Mem} (page : IsPage size b) (cached : Bool) (fuel : ℕ)
    (fits : FitsPacked size b) (bytes : IsMem fresh) (three_records : 3 ≤ filled_size b)
    (room : 255 ≤ fuel)
    (differ : is_leaf b ≡ true
      → (j : ℕ) → j ≤ filled_size b / 2
      → FirstDiffer (rec b j).key (rec b (j + 1)).key) where
  abbrev current : Mem
  current = bump_max_key_len b

  same : (q : ℕ) → 0 < q → q ≢ 5 → current q ≡ b q
  same q h k = bump_same b q h k

  start_same :
      (j : ℕ)
      → j ≤ filled_size b
      → start current (get_kv_last_pos current) j ≡ start b (get_kv_last_pos b) j
  start_same zero h = start_zero _ _ ∙ same_last b current same ∙ sym (start_zero _ _)
  start_same (suc j) h = omega (
    arith,
    start_suc current (get_kv_last_pos current) j,
    start_suc b (get_kv_last_pos b) j,
    start_same j (omega arith),
    same_size b current same page j h,
  )

  current-IsPage : IsPage size current
  current-IsPage = same-IsPage b current same page (bump-IsMem b page.bytes)

  current-FitsPacked : FitsPacked size current
  current-FitsPacked = omega (
    arith,
    ap (start current (get_kv_last_pos current)) (same_count b current same),
    start_same (filled_size b) (omega arith),
    fits,
  )

  abbrev half : ℕ
  half = half_of size current

  abbrev begun : Copying
  begun = record {
    block = new_block_for fresh cached size b;
    kv_last_pos = get_kv_last_pos current;
    tot_len = 0;
    brk = none;
  }

  abbrev finished : Copying
  finished = copy_loop current fuel half (filled_size current) 0 begun

  begun-IsCopying : IsCopying current-IsPage current-FitsPacked fuel half 0 begun
  begun-IsCopying = record {
    copies = record {
      bytes = empty-IsMem fresh cached size b bytes;
      count = empty_count fresh cached size b;
      ptrs = λ j h. absurd (omega arith);
      body = λ j q h. absurd (omega arith);
    };
    here = sym (start_zero _ _);
    total = omega (arith, start_zero current (get_kv_last_pos current));
    broken = (omega arith, omega arith);
  }

  finished-IsCopying :
      IsCopying current-IsPage current-FitsPacked fuel half (filled_size current) finished
  finished-IsCopying =
      copy_loop-IsCopying current-IsPage current-FitsPacked fuel half (filled_size current) 0 begun
        (omega arith) begun-IsCopying

  -- What the separator after the record `j` is.
  record IsFirstKey (j : ℕ) (sep : List ℕ) : Type 0 where
    found : split_key current fuel j ≡ some sep
    separates : is_leaf b ≡ true → Separates (rec b j).key (rec b (j + 1)).key sep
    whole_key : is_leaf b ≡ false → sep ≡ (rec b (j + 1)).key

  current_leaf : is_leaf current ≡ is_leaf b
  unfolding is_leaf bump_max_key_len
  current_leaf = ground arith

  key_short : (j : ℕ) → length (rec b j).key < 256
  unfolding rec
  key_short j =
      omega
        (arith, length-read_bytes b (get_ptr b j + 1) (b (get_ptr b j)), page.bytes (get_ptr b j))

  first_key_lem : (j : ℕ) → j ≤ filled_size b / 2 → (sep : List ℕ) × IsFirstKey j sep
  first_key_lem j h =
      let e0 : rec current j ≡ rec b j =
        same_rec b current same page j (omega (arith, three_records)) in
      let e1 : rec current (j + 1) ≡ rec b (j + 1) =
        same_rec b current same page (j + 1) (omega (arith, three_records)) in
      elim (Bool-cases (is_leaf b)) [
        | inr inner ↦ (
          (rec b (j + 1)).key,
          record {
            found =
                split_key_inner current fuel j (current_leaf ∙ inner)
                ∙ ap (λ (r : Rec). some r.key) e1;
            separates = λ leaf. absurd (true-false (sym leaf ∙ inner));
            whole_key = λ e. refl;
          },
        )
        | inl leaf ↦
            let (i, inside0, inside1, agree, less) = differ leaf j h in
            let (sep, found, sep_len, lies) =
              split_key-Separates current j (current_leaf ∙ leaf) i fuel (rw e0 inside0)
                (rw e1 inside1) (rw e0 (rw e1 agree)) (rw e0 (rw e1 less))
                (omega (arith, inside0, key_short j, room)) in
            (
              sep,
              record {
                found = found;
                separates = λ e. rw e0 at (rw e1 at lies);
                whole_key = λ inner. absurd (true-false (sym leaf ∙ inner));
              },
            )
      ]

  abbrev parts : Break → List ℕ → Halves
  parts k sep = record {
    old_block = keep_first size finished.block current k;
    new_block = keep_second (filled_size current) finished.block k;
    first_key = sep;
  }

  parts-IsSplit :
      (k : Break) (sep : List ℕ)
      → k.idx ≤ filled_size current
      → BreaksAt current-IsPage current-FitsPacked fuel half k
      → IsFirstKey (k.idx - 1) sep
      → IsSplit size fuel b k.idx (parts k sep)
  parts-IsSplit k sep inside at first = record {
    some_first = at.some_first;
    middle = omega (arith, at.middle, n_same);
    below = omega (
      arith,
      at.below,
      start_zero current (get_kv_last_pos current),
      start_same (k.idx - 1) (omega (arith, inside, n_same)),
      last_same,
    );
    reached = omega (
      arith,
      at.reached,
      start_zero current (get_kv_last_pos current),
      start_same k.idx (omega (arith, inside, n_same)),
      last_same,
      n_same,
    );
    old_page =
        first-IsPage current-IsPage current-FitsPacked copies k at.some_first inside at.place;
    new_page = second-IsPage current-IsPage current-FitsPacked copies k inside at.place;
    old_count =
        first_count current-IsPage current-FitsPacked copies k at.some_first inside at.place;
    new_count =
        second_count current-IsPage current-FitsPacked copies k inside at.place
        ∙ omega (arith, n_same);
    old_rec = λ j h.
        rec-first current-IsPage current-FitsPacked copies k at.some_first inside at.place j h
        ∙ same_rec b current same page j (omega (arith, inside, n_same));
    new_rec = λ j h.
        rec-second current-IsPage current-FitsPacked copies k inside at.place j
          (omega (arith, n_same))
        ∙ same_rec b current same page (k.idx + j) (omega arith);
    both = omega (arith, at.middle, n_same, three_records);
    key = first.found;
    separates = λ leaf. rw next at (first.separates leaf);
    whole_key = λ inner. first.whole_key inner ∙ ap (λ j. (rec b j).key) next;
  }
    where
      n_same : filled_size current ≡ filled_size b
      n_same = same_count b current same

      next : k.idx - 1 + 1 ≡ k.idx
      next = omega (arith, at.some_first)

      last_same : get_kv_last_pos current ≡ get_kv_last_pos b
      last_same = same_last b current same

      copies : HasCopies current-IsPage current-FitsPacked (filled_size current) finished.block
      copies = finished-IsCopying.copies

  split_of :
      (brk : Option Break)
      → finished.brk ≡ brk
      → (k : ℕ) × (h : Halves) × (split fresh cached size fuel b ≡ some h) × IsSplit size fuel b k h
  unfolding split
  split_of none e = absurd (
      omega
        (arith, three_records, same_count b current same, (rw e at (finished-IsCopying.broken)).0))
  split_of (some k) e =
      let inside : k.idx ≤ filled_size current = (rw e at (finished-IsCopying.broken)).0 in
      let at : BreaksAt current-IsPage current-FitsPacked fuel half k =
        (rw e at (finished-IsCopying.broken)).1 in
      let (sep, first) =
        first_key_lem (k.idx - 1)
          (omega (arith, at.middle, at.some_first, same_count b current same)) in
      let key : k.first_key ≡ some sep = at.key ∙ first.found in
      (k.idx, parts k sep, ground (arith, e, key), parts-IsSplit k sep inside at first)

  -- Let a well-formed block have at least three records, which fit in it when they are packed, let
  -- first_key have room for 255 bytes, and in a leaf let the keys of neighbouring records of the first
  -- half, and the one after it, differ first in a byte that both have, the earlier key in the smaller
  -- one. Then split ends and leaves two well-formed blocks with records, the first k and the others,
  -- in order; k is where the records take more than half of the bytes, or one past the middle, and
  -- first_key separates the two halves: in an inner block it is the first key of the second.
  pub split-IsSplit :
      (k : ℕ) × (h : Halves) × (split fresh cached size fuel b ≡ some h) × IsSplit size fuel b k h
  split-IsSplit = split_of (finished.brk) refl
