-- ===== src/Cache/Laws.antt =====
-- The cache is a bounded queue of entries, from the least to the most recently used.
use vector_database.Prelude.{
  ℕ, ◌-◌, ◌≡◌, refl, sym, ap, ◌∙◌, true, false, none, some, List, [], ◌∷◌, ◌++◌, length, drop,
  length-append, nat_beq, nat_eq, nat_beq_iff, arith, Option-cases, inl, inr,
}
use vector_database.Prelude.Map.{
  Map, find, erase, contains, IsMap, find-erase, IsMap-erase, length-erase, erase_absent,
}
use vector_database.Prelude.Set.{member, delete}
use vector_database.Cache.{LruCache, create, get, invalidate, invalidate_all}
use vector_database.Cache.Queue.{
  IsDistinct-delete, length-delete, member-append, IsDistinct-append_new, member-delete, IsCache,
  pairs, pairs-append, pairs-delete, pairs-ext, find-pairs, length-pairs, queue,
}

module _ {E : Type 0} where
  -- the newest entries of a queue
  abbrev pub newest : ℕ → Map ℕ E → Map ℕ E
  newest n q = drop (length q - n) q

  -- A new cache is empty.
  pub create-IsCache : (n : ℕ) → IsCache {E = E} (create n)
  unfolding create member find
  create-IsCache n = record {
    keyed = tt;
    distinct = tt;
    same = λ k. refl;
    counted = refl;
    bounded = omega arith;
  }

  -- What holds of the keys when one of them moves to the end.
  pub touched-IsCache :
      (s : LruCache E) (key : ℕ) (m : Map ℕ E)
      → IsCache s
      → contains key s.cache ≡ true
      → IsMap m
      → length m ≡ length s.cache
      → ((k : ℕ) → contains k m ≡ contains k s.cache)
      → IsCache (record s { keys = delete key s.keys ++ key ∷ []; cache = m })
  unfolding member
  touched-IsCache s key m h found keyed len has = record {
    keyed = keyed;
    distinct =
        IsDistinct-append_new key (delete key s.keys) (IsDistinct-delete key s.keys h.distinct)
          (ground (arith, member-delete key key s.keys, nat_beq_iff key key));
    same = λ k. ground (
      arith,
      has k,
      h.same k,
      member-append k (delete key s.keys) (key ∷ []),
      member-delete key k s.keys,
      nat_beq_iff key k,
      nat_beq_iff k key,
    );
    counted = omega (
      arith,
      len,
      h.counted,
      length-append (delete key s.keys) (key ∷ []),
      length-delete key s.keys h.distinct (h.same key ∙ found),
    );
    bounded = omega (arith, len, h.bounded);
  }

  pub find-queue : (s : LruCache E) (k : ℕ) → IsCache s → find k (queue s) ≡ find k s.cache
  find-queue s k h = ground (arith, find-pairs s.cache k s.keys, h.same k)

  pub length-queue : (s : LruCache E) → IsCache s → length (queue s) ≡ length s.cache
  length-queue s h = length-pairs s.cache s.keys (λ k m. sym (h.same k) ∙ m) ∙ h.counted

  pub pairs-last :
      (m : Map ℕ E) (key : ℕ) (entry : E) (xs : List ℕ)
      → find key m ≡ some entry
      → pairs m (xs ++ key ∷ []) ≡ pairs m xs ++ (key, entry) ∷ []
  unfolding pairs
  pairs-last m key entry xs e = pairs-append m xs (key ∷ []) ∙ ap (λ ys. pairs m xs ++ ys) cc

  -- The queue when a key moves to the end, with a new entry or the old one.
  pub queue-touched :
      (s : LruCache E) (key : ℕ) (m : Map ℕ E) (entry : E)
      → find key m ≡ some entry
      → ((k : ℕ) → nat_beq key k ≡ false → find k m ≡ find k s.cache)
      → pairs m (delete key s.keys ++ key ∷ []) ≡ erase key (queue s) ++ (key, entry) ∷ []
  queue-touched s key m entry e same =
      pairs-last m key entry (delete key s.keys) e
      ∙ ap (λ q. q ++ (key, entry) ∷ [])
          (pairs-ext m s.cache (delete key s.keys) (λ k mk.
              same k
                (ground (arith, member-delete key k s.keys, nat_beq_iff key k, nat_beq_iff k key)))
            ∙ pairs-delete s.cache key s.keys)

  get_missing : (s : LruCache E) (key : ℕ) → find key s.cache ≡ none → get s key ≡ (s, none)
  unfolding get
  get_missing s key e = cc

  get_found :
      (s : LruCache E) (key : ℕ) (entry : E)
      → find key s.cache ≡ some entry
      → get s key ≡ (record s { keys = delete key s.keys ++ key ∷ [] }, some entry)
  unfolding get
  get_found s key entry e = cc

  -- Get answers what the queue has under the key, and moves it to the end.
  pub get-queue :
      (s : LruCache E) (key : ℕ)
      → IsCache s
      → IsCache (get s key).0
        × ((get s key).1 ≡ find key (queue s))
        × (queue (get s key).0 ≡ elim (find key (queue s)) [
          | none ↦ queue s
          | some entry ↦ erase key (queue s) ++ (key, entry) ∷ []
        ])
  get-queue s key h = elim (Option-cases (find key s.cache)) [
    | inl missing ↦ rw (get_missing s key missing, find-queue s key h, missing) (h, refl, refl)
    | inr (entry, found) ↦
        rw (get_found s key entry found, find-queue s key h, found)
          (
            touched-IsCache s key s.cache h (ground arith) h.keyed refl (λ k. refl),
            refl,
            queue-touched s key s.cache entry found (λ k _. refl),
          )
  ]

  invalidate_missing : (s : LruCache E) (key : ℕ) → find key s.cache ≡ none → invalidate s key ≡ s
  unfolding invalidate
  invalidate_missing s key e = cc

  invalidate_found :
      (s : LruCache E) (key : ℕ) (entry : E)
      → find key s.cache ≡ some entry
      → invalidate s key ≡ record s { keys = delete key s.keys; cache = erase key s.cache }
  unfolding invalidate
  invalidate_found s key entry e = cc

  -- Invalidate takes the entry of the key out of the queue.
  pub invalidate-queue :
      (s : LruCache E) (key : ℕ)
      → IsCache s
      → IsCache (invalidate s key) × (queue (invalidate s key) ≡ erase key (queue s))
  invalidate-queue s key h = elim (Option-cases (find key s.cache)) [
    | inl missing ↦
        rw (invalidate_missing s key missing)
          (h, sym (erase_absent key (queue s) (ground (arith, find-queue s key h))))
    | inr (entry, found) ↦ rw (invalidate_found s key entry found) (
      record {
        keyed = IsMap-erase key s.cache h.keyed;
        distinct = IsDistinct-delete key s.keys h.distinct;
        same = λ k. ground (
          arith,
          h.same k,
          member-delete key k s.keys,
          find-erase key k s.cache,
          nat_beq_iff key k,
          nat_beq_iff k key,
        );
        counted = omega (
          arith,
          h.counted,
          length-delete key s.keys h.distinct (ground (arith, h.same key)),
          length-erase key s.cache h.keyed (ground arith),
        );
        bounded = omega (arith, h.bounded, length-erase key s.cache h.keyed (ground arith));
      },
      pairs-ext (erase key s.cache) s.cache (delete key s.keys) (λ k mk. ground (
        arith,
        find-erase key k s.cache,
        member-delete key k s.keys,
        nat_beq_iff key k,
        nat_beq_iff k key,
      ))
          ∙ pairs-delete s.cache key s.keys,
    )
  ]

  -- InvalidateAll leaves the empty queue.
  pub invalidate_all-queue :
      (s : LruCache E) → IsCache (invalidate_all s) × (queue (invalidate_all s) ≡ [])
  unfolding invalidate_all pairs member find
  invalidate_all-queue s = (
    record { keyed = tt; distinct = tt; same = λ k. refl; counted = refl; bounded = omega arith },
    refl,
  )
