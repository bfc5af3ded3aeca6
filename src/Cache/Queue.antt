-- ===== src/Cache/Queue.antt =====
-- The cache as a queue of entries, from the least to the most recently used.
use vector_database.Prelude.{
  ℕ, ◌+◌, ◌≤◌, ◌≡◌, refl, true, false, not, ◌&&◌, ◌||◌, none, some, List, [], ◌∷◌, ◌++◌, length,
  nat_beq, nat_eq, nat_beq_iff, if◌then◌else◌, arith, ◌==◌,
}
use vector_database.Prelude.Map.{Map, find, erase, contains, IsMap}
use vector_database.Prelude.Set.{member, delete, filter, member-filter}
use vector_database.Cache.{LruCache}

-- No element stands twice.
abbrev pub IsDistinct : List ℕ → Type 0
IsDistinct [] = Unit
IsDistinct (x ∷ xs) = (member x xs ≡ false) × IsDistinct xs

pub delete_absent : (k : ℕ) (xs : List ℕ) → member k xs ≡ false → delete k xs ≡ xs
unfolding member filter
delete_absent k [] h = refl
delete_absent k (x ∷ xs) h = ground (arith, delete_absent k xs)

pub IsDistinct-delete : (k : ℕ) (xs : List ℕ) → IsDistinct xs → IsDistinct (delete k xs)
unfolding filter
IsDistinct-delete k [] h = h
IsDistinct-delete k (x ∷ xs) h =
    ground (arith, IsDistinct-delete k xs h.1, member-filter x (λ y. not (y == k)) xs)

pub length-delete :
    (k : ℕ) (xs : List ℕ)
    → IsDistinct xs
    → member k xs ≡ true
    → length (delete k xs) + 1 ≡ length xs
unfolding member filter
length-delete k [] d h = cc
length-delete k (x ∷ xs) d h =
    ground (arith, nat_beq_iff x k, length-delete k xs d.1, delete_absent k xs, d.0)

pub member-append : (k : ℕ) (xs ys : List ℕ) → member k (xs ++ ys) ≡ (member k xs || member k ys)
unfolding member
member-append k [] ys = refl
member-append k (x ∷ xs) ys = ground (arith, member-append k xs ys)

pub IsDistinct-append_new :
    (k : ℕ) (xs : List ℕ) → IsDistinct xs → member k xs ≡ false → IsDistinct (xs ++ k ∷ [])
unfolding member
IsDistinct-append_new k [] d h = (refl, tt)
IsDistinct-append_new k (x ∷ xs) d h = ground (
  arith,
  IsDistinct-append_new k xs d.1,
  member-append x xs (k ∷ []),
  nat_beq_iff k x,
  nat_beq_iff x k,
)

pub member-delete :
    (k j : ℕ) (xs : List ℕ) → member j (delete k xs) ≡ (member j xs && not (nat_beq j k))
member-delete k j xs = member-filter j (λ y. not (y == k)) xs

module _ {E : Type 0} where
  pub record IsCache (s : LruCache E) : Type 0 where
    pub keyed : IsMap s.cache
    pub distinct : IsDistinct s.keys
    pub same : (k : ℕ) → member k s.keys ≡ contains k s.cache
    pub counted : length s.keys ≡ length s.cache
    pub bounded : length s.cache ≤ s.max_cache_size

  -- the entries of the keys, in their order
  unfoldable pub pairs : Map ℕ E → List ℕ → Map ℕ E
  pairs m [] = []
  pairs m (k ∷ ks) =
      let rest = pairs m ks in elim (find k m) [ none ↦ rest | some entry ↦ (k, entry) ∷ rest ]

  pub pairs-append : (m : Map ℕ E) (xs ys : List ℕ) → pairs m (xs ++ ys) ≡ pairs m xs ++ pairs m ys
  unfolding pairs
  pairs-append m [] ys = refl
  pairs-append m (x ∷ xs) ys = ground (arith, pairs-append m xs ys)

  pub pairs-delete :
      (m : Map ℕ E) (k : ℕ) (xs : List ℕ) → pairs m (delete k xs) ≡ erase k (pairs m xs)
  unfolding pairs filter erase
  pairs-delete m k [] = refl
  pairs-delete m k (x ∷ xs) = ground (arith, pairs-delete m k xs)

  -- An entry of a key that is not among the keys does not matter.
  pub pairs-ext :
      (m n : Map ℕ E) (xs : List ℕ)
      → ((k : ℕ) → member k xs ≡ true → find k m ≡ find k n)
      → pairs m xs ≡ pairs n xs
  unfolding pairs member
  pairs-ext m n [] h = refl
  pairs-ext m n (x ∷ xs) h =
      ground (arith, h x, nat_beq_iff x x, pairs-ext m n xs (λ k mk. h k (ground arith)))

  pub find-pairs :
      (m : Map ℕ E) (k : ℕ) (xs : List ℕ)
      → find k (pairs m xs) ≡ (if member k xs then find k m else none)
  unfolding pairs member find
  find-pairs m k [] = refl
  find-pairs m k (x ∷ xs) = ground (arith, find-pairs m k xs, nat_beq_iff x k)

  pub length-pairs :
      (m : Map ℕ E) (xs : List ℕ)
      → ((k : ℕ) → member k xs ≡ true → contains k m ≡ true)
      → length (pairs m xs) ≡ length xs
  unfolding pairs member
  length-pairs m [] h = refl
  length-pairs m (x ∷ xs) h =
      ground (arith, h x, nat_beq_iff x x, length-pairs m xs (λ k mk. h k (ground arith)))

  -- the cache as a queue, the least recently used entry first
  abbrev pub queue : LruCache E → Map ℕ E
  queue s = pairs s.cache s.keys
