-- ===== src/Cache/Store.antt =====
-- Store puts an entry at the end of the queue, and where the cache is full the oldest entry goes.
use vector_database.Prelude.{
  ℕ, ◌+◌, ◌-◌, ◌<◌, ◌≡◌, refl, sym, ap, subst, ◌∙◌, true, false, none, some, List, [], ◌∷◌, ◌++◌,
  length, drop, length-append, nat_beq, nat_eq, nat_beq_iff, arith, Bool-cases, Option-cases,
  List-cases, inl, inr,
}
use vector_database.Prelude.Map.{
  Map, find, assign, erase, contains, find-assign, find-erase, IsMap-assign, IsMap-erase,
  length-assign_new, length-assign_old, length-erase, erase_absent,
}
use vector_database.Prelude.Set.{member, delete}
use vector_database.Cache.{LruCache, evict, store}
use vector_database.Cache.Queue.{
  IsDistinct, length-delete, member-append, IsDistinct-append_new, member-delete, IsCache, pairs,
  pairs-delete, pairs-ext, length-pairs, queue,
}
use vector_database.Cache.Laws.{
  newest, touched-IsCache, find-queue, length-queue, queue-touched, pairs-last,
}

module _ {E : Type 0} where
  newest_short :
      (n : ℕ) (q : Map ℕ E) (p : ℕ × E) → length q < n → newest n (q ++ p ∷ []) ≡ q ++ p ∷ []
  newest_short n q p h =
      let e : length (q ++ p ∷ []) - n ≡ 0 = omega (arith, length-append q (p ∷ [])) in rw e

  drop-append_one :
      (q : Map ℕ E) (p : ℕ × E) → 0 < length q → drop 1 (q ++ p ∷ []) ≡ drop 1 q ++ p ∷ []
  drop-append_one [] p h = absurd (omega arith)
  drop-append_one (x ∷ q) p h = refl

  newest_full :
      (n : ℕ) (q : Map ℕ E) (p : ℕ × E)
      → length q ≡ n
      → 0 < n
      → newest n (q ++ p ∷ []) ≡ drop 1 q ++ p ∷ []
  newest_full n q p h pos =
      let e : length (q ++ p ∷ []) - n ≡ 1 = omega (arith, length-append q (p ∷ [])) in
      rw e (drop-append_one q p (omega arith))

  first_pair :
      (m : Map ℕ E) (k : ℕ) (ks : List ℕ)
      → contains k m ≡ true
      → drop 1 (pairs m (k ∷ ks)) ≡ pairs m ks
  unfolding pairs
  first_pair m k ks h = ground arith

  store_old :
      (s : LruCache E) (key : ℕ) (entry old : E)
      → find key s.cache ≡ some old
      → store s key entry
        ≡ some (record s { keys = delete key s.keys ++ key ∷ []; cache = assign key entry s.cache })
  unfolding store
  store_old s key entry old e = cc

  store_free :
      (s : LruCache E) (key : ℕ) (entry : E)
      → find key s.cache ≡ none
      → nat_beq (length s.cache) s.max_cache_size ≡ false
      → store s key entry
        ≡ some (record s { keys = s.keys ++ key ∷ []; cache = assign key entry s.cache })
  unfolding store
  store_free s key entry e room = cc

  evict-none : (s : LruCache E) → s.keys ≡ [] → evict s ≡ none
  unfolding evict
  evict-none s h = cc

  store_none :
      (s : LruCache E) (key : ℕ) (entry : E)
      → find key s.cache ≡ none
      → nat_beq (length s.cache) s.max_cache_size ≡ true
      → evict s ≡ none
      → store s key entry ≡ none
  unfolding store
  store_none s key entry e full h = cc

  store_empty :
      (s : LruCache E) (key : ℕ) (entry : E)
      → s.cache ≡ []
      → s.keys ≡ []
      → s.max_cache_size ≡ 0
      → store s key entry ≡ none
  unfolding store evict find
  store_empty s key entry empty bare none_left =
      store_none s key entry (ap (find key) empty) (ground (arith, ap length empty))
        (evict-none s bare)

  store_full :
      (s : LruCache E) (key : ℕ) (entry : E) (t : LruCache E)
      → find key s.cache ≡ none
      → nat_beq (length s.cache) s.max_cache_size ≡ true
      → evict s ≡ some t
      → store s key entry
        ≡ some (record t { keys = t.keys ++ key ∷ []; cache = assign key entry t.cache })
  unfolding store
  store_full s key entry t e full he = cc

  -- A new key at the end.
  added-IsCache :
      (s : LruCache E) (key : ℕ) (entry : E)
      → IsCache s
      → contains key s.cache ≡ false
      → length s.cache < s.max_cache_size
      → IsCache (record s { keys = s.keys ++ key ∷ []; cache = assign key entry s.cache })
  unfolding member
  added-IsCache s key entry h new room = record {
    keyed = IsMap-assign key entry s.cache h.keyed;
    distinct = IsDistinct-append_new key s.keys h.distinct (h.same key ∙ new);
    same = λ k. ground (
      arith,
      h.same k,
      member-append k s.keys (key ∷ []),
      find-assign key k entry s.cache,
      nat_beq_iff key k,
    );
    counted = omega (
      arith,
      h.counted,
      length-append s.keys (key ∷ []),
      length-assign_new key entry s.cache new,
    );
    bounded = omega (arith, length-assign_new key entry s.cache new);
  }

  queue-added :
      (s : LruCache E) (key : ℕ) (entry : E)
      → IsCache s
      → contains key s.cache ≡ false
      → pairs (assign key entry s.cache) (s.keys ++ key ∷ []) ≡ queue s ++ (key, entry) ∷ []
  queue-added s key entry h new =
      pairs-last (assign key entry s.cache) key entry s.keys
        (ground (arith, find-assign key key entry s.cache, nat_beq_iff key key))
      ∙ ap (λ q. q ++ (key, entry) ∷ [])
          (pairs-ext (assign key entry s.cache) s.cache s.keys
            (λ k mk. ground (arith, find-assign key k entry s.cache, h.same k, nat_beq_iff key k)))

  -- What holds of the cache without its oldest entry.
  evicted-IsCache :
      (s : LruCache E) (oldest : ℕ) (rest : List ℕ)
      → IsCache s
      → s.keys ≡ oldest ∷ rest
      → IsCache (record s { keys = rest; cache = erase oldest s.cache })
        × (length (erase oldest s.cache) + 1 ≡ length s.cache)
  unfolding member
  evicted-IsCache s oldest rest h e =
      let d : IsDistinct (oldest ∷ rest) = subst IsDistinct e h.distinct in
      let same : (k : ℕ) → member k (oldest ∷ rest) ≡ contains k s.cache =
        λ k. ap (member k) (sym e) ∙ h.same k in
      let shorter : length (erase oldest s.cache) + 1 ≡ length s.cache =
        length-erase oldest s.cache h.keyed
          (ground (arith, same oldest, nat_beq_iff oldest oldest)) in
      (
        record {
          keyed = IsMap-erase oldest s.cache h.keyed;
          distinct = d.1;
          same =
              λ k. ground (arith, same k, d.0, find-erase oldest k s.cache, nat_beq_iff oldest k);
          counted = omega (arith, shorter, h.counted, ap length e);
          bounded = omega (arith, shorter, h.bounded);
        },
        shorter,
      )

  queue-evicted :
      (s : LruCache E) (oldest : ℕ) (rest : List ℕ)
      → IsCache s
      → s.keys ≡ oldest ∷ rest
      → pairs (erase oldest s.cache) rest ≡ drop 1 (queue s)
  unfolding pairs member
  queue-evicted s oldest rest h e =
      let d : IsDistinct (oldest ∷ rest) = subst IsDistinct e h.distinct in
      let same : (k : ℕ) → member k (oldest ∷ rest) ≡ contains k s.cache =
        λ k. ap (member k) (sym e) ∙ h.same k in
      let kept : pairs (erase oldest s.cache) rest ≡ pairs s.cache rest =
        pairs-ext (erase oldest s.cache) s.cache rest
          (λ k mk. ground (arith, find-erase oldest k s.cache, d.0, nat_beq_iff oldest k)) in
      kept
      ∙ sym (
          ap (λ ks. drop 1 (pairs s.cache ks)) e
          ∙ first_pair s.cache oldest rest (ground (arith, same oldest, nat_beq_iff oldest oldest)))

  evict_total :
      (s : LruCache E)
      → IsCache s
      → 0 < length s.cache
      → (t : LruCache E) × (evict s ≡ some t)
        × IsCache t
        × (queue t ≡ drop 1 (queue s))
        × (length t.cache + 1 ≡ length s.cache)
        × (t.max_cache_size ≡ s.max_cache_size)
        × ((k : ℕ) → contains k s.cache ≡ false → contains k t.cache ≡ false)
  unfolding evict
  evict_total s h pos = elim (List-cases s.keys) [
    | inl empty ↦ absurd (omega (arith, h.counted, ap length empty))
    | inr (oldest, rest, e) ↦
        let (ht, shorter) = evicted-IsCache s oldest rest h e in
        (
          record s { keys = rest; cache = erase oldest s.cache },
          cc,
          ht,
          queue-evicted s oldest rest h e,
          shorter,
          refl,
          λ k absent. ground (arith, find-erase oldest k s.cache),
        )
  ]

  absent-queue :
      (s : LruCache E) (key : ℕ)
      → IsCache s
      → find key s.cache ≡ none
      → erase key (queue s) ≡ queue s
  absent-queue s key h missing = erase_absent key (queue s) (ground (arith, find-queue s key h))

  length-erase-queue :
      (s : LruCache E) (key : ℕ)
      → IsCache s
      → contains key s.cache ≡ true
      → length (erase key (queue s)) + 1 ≡ length (queue s)
  length-erase-queue s key h found = omega (
    arith,
    ap length (pairs-delete s.cache key s.keys),
    length-pairs s.cache (delete key s.keys)
        (λ k m. ground (arith, h.same k, member-delete key k s.keys)),
    length-delete key s.keys h.distinct (h.same key ∙ found),
    length-queue s h,
    h.counted,
  )

  -- On a cache that has room for one entry, Store throws nothing, and puts the entry at the end of
  -- the queue in place of the old one of its key. Of the queue that makes, the newest are kept.
  pub store-queue :
      (s : LruCache E) (key : ℕ) (entry : E)
      → IsCache s
      → 0 < s.max_cache_size
      → (t : LruCache E) × (store s key entry ≡ some t)
        × IsCache t
        × (t.max_cache_size ≡ s.max_cache_size)
        × (queue t ≡ newest s.max_cache_size (erase key (queue s) ++ (key, entry) ∷ []))
  store-queue s key entry h pos = elim (Option-cases (find key s.cache)) [
    | inr (old, found) ↦
        let m = assign key entry s.cache in
        (
          record s { keys = delete key s.keys ++ key ∷ []; cache = m },
          store_old s key entry old found,
          touched-IsCache s key m h (ground arith) (IsMap-assign key entry s.cache h.keyed)
              (length-assign_old key entry s.cache (ground arith))
              (λ k. ground (arith, find-assign key k entry s.cache, nat_beq_iff key k)),
          refl,
          queue-touched s key m entry
                (ground (arith, find-assign key key entry s.cache, nat_beq_iff key key))
                (λ k ne. ground (arith, find-assign key k entry s.cache))
              ∙ sym (
                  newest_short s.max_cache_size (erase key (queue s)) (key, entry)
                    (omega (
                      arith,
                      length-erase-queue s key h (ground arith),
                      length-queue s h,
                      h.bounded,
                    ))),
        )
    | inl missing ↦ elim (Bool-cases (nat_beq (length s.cache) s.max_cache_size)) [
      | inr room ↦ (
        record s { keys = s.keys ++ key ∷ []; cache = assign key entry s.cache },
        store_free s key entry missing room,
        added-IsCache s key entry h (ground arith) (ground (arith, h.bounded)),
        refl,
        queue-added s key entry h (ground arith)
            ∙ sym (
                ap (λ q. newest s.max_cache_size (q ++ (key, entry) ∷ []))
                  (absent-queue s key h missing)
                ∙ newest_short s.max_cache_size (queue s) (key, entry)
                    (ground (arith, length-queue s h, h.bounded))),
      )
      | inl full ↦
          let (t, e, ht, q, shorter, cap, gone) = evict_total s h (ground arith) in
          (
            record t { keys = t.keys ++ key ∷ []; cache = assign key entry t.cache },
            store_full s key entry t missing full e,
            added-IsCache t key entry ht (gone key (ground arith)) (ground arith),
            cap,
            queue-added t key entry ht (gone key (ground arith))
                ∙ ap (λ l. l ++ (key, entry) ∷ []) q
                ∙ sym (
                    ap (λ l. newest s.max_cache_size (l ++ (key, entry) ∷ []))
                      (absent-queue s key h missing)
                    ∙ newest_full s.max_cache_size (queue s) (key, entry)
                        (ground (arith, length-queue s h)) pos),
          )
    ]
  ]

  -- On a cache of size 0, Store reads the front of an empty list.
  pub store-zero :
      (s : LruCache E) (key : ℕ) (entry : E)
      → IsCache s
      → s.max_cache_size ≡ 0
      → store s key entry ≡ none
  unfolding store evict find
  store-zero s key entry h zero' = elim (List-cases s.cache) [
    | inr (p, rest, e) ↦ absurd (omega (arith, h.bounded, ap length e))
    | inl empty ↦ elim (List-cases s.keys) [
      | inr (k, ks, e) ↦ absurd (omega (arith, h.counted, ap length e, ap length empty))
      | inl none' ↦ store_empty s key entry empty none' zero'
    ]
  ]
