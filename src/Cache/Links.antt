-- ===== src/Cache/Links.antt =====
-- The doubly linked list of `lru_cache`. A pointer to an entry is its index in `llarr`, NULL is `none`.
use index_research.Prelude.{ℕ, Option, none, some, Bool, false, ◌==◌, if◌then◌else◌}

-- `f[p] = v`.
abbrev pub set_at {ℓ} : {A : Type ℓ} → (ℕ → A) → ℕ → A → ℕ → A
set_at f p v q = if q == p then v else f q

-- `if (p != NULL) f[p] = v`.
abbrev pub set_if : (ℕ → Option ℕ) → Option ℕ → Option ℕ → ℕ → Option ℕ
set_if f none v = f
set_if f (some p) v = set_at f p v

-- `p == x`, for a pointer that may be NULL and one that is not.
abbrev pub is : Option ℕ → ℕ → Bool
is none x = false
is (some p) x = p == x

-- lnklst_first_entry, lnklst_last_entry, and the fields `prev` and `next` of the entries.
pub record Links : Type 0 where
  pub first : Option ℕ
  pub last : Option ℕ
  pub prev : ℕ → Option ℕ
  pub next : ℕ → Option ℕ

-- The entry after `u` is taken out of its place.
unfoldable pub unlink : Links → ℕ → ℕ → Links
unlink l x u = record l {
  last = if is l.last x then l.prev x else l.last;
  next = set_at l.next u (l.next x);
  prev = set_if l.prev (l.next x) (some u);
}

-- The entry is put before the first one, `f`.
unfoldable pub push : Links → ℕ → ℕ → Links
push l x f = record l {
  first = some x;
  next = set_at l.next x (some f);
  prev = set_at (set_at l.prev x none) f (some x);
}

-- `none`: a NULL pointer is followed.
unfoldable pub move_to_front : Links → ℕ → Option Links
unfolding unlink push
move_to_front l x = if is l.first x then some l else elim (l.prev x) [
  | none ↦ none
  | some u ↦ elim (l.first) [ none ↦ none | some f ↦ some (push (unlink l x u) x f) ]
]

-- An entry that was not in use becomes the last one.
unfoldable pub append_entry : Links → ℕ → Links
append_entry l x = record {
  first = elim (l.first) [ none ↦ some x | some f ↦ some f ];
  last = some x;
  prev = set_at l.prev x l.last;
  next = set_if (set_at l.next x none) l.last (some x);
}
