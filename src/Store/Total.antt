-- ===== src/Store/Total.antt =====
-- The operations of the vector store over any index that keeps the laws throw nothing.
use vector_database.Prelude.{
  ℕ, ◌≤◌, ◌≡◌, refl, sym, ap, ◌∙◌, Bool, true, false, not, ◌&&◌, none, some, List, [], length,
  length-map, map, All, nat_beq, nat_eq, nat_beq_iff, if◌then◌else◌, arith, Text, Bool-cases, inl,
  inr,
}
use vector_database.Prelude.Map.{find, assign, contains, find-assign, find-erase}
use vector_database.Float.{Vector}
use vector_database.Index.{VectorIndex}
use vector_database.Index.Laws.{IndexView, IndexLaws, is_some}
use vector_database.Index.Nearest.Count.{occurrences}
use vector_database.Store.{Data, VectorStore, insert, remove, search, cleanup, gather}
use vector_database.Store.Indexed.{
  accepts, IsIndexed, inserted-IsIndexed, removed-IsIndexed, rebuilt-IsIndexed, gather-found,
  gather-All,
}

module _ {R I : Type 0} ⦃index : VectorIndex R I⦄ ⦃view : IndexView R I⦄
    (laws : IndexLaws R I) where
  pub insert_refused :
      (s : VectorStore R I) (id : ℕ) (v : Vector R) (content : Text)
      → accepts s id v ≡ false
      → insert s id v content ≡ some (s, false)
  unfolding insert
  insert_refused s id v content h = ground arith

  pub insert_taken :
      (s : VectorStore R I) (id : ℕ) (v : Vector R) (content : Text) (i : I)
      → accepts s id v ≡ true
      → index.insert s.index id v ≡ some i
      → insert s id v content
        ≡ some (
          record s {
            store = assign id (record { id = id; vector = v; content = content }) s.store;
            index = i;
          },
          true,
        )
  unfolding insert
  insert_taken s id v content i h e = ground arith

  -- Insert throws nothing. It answers whether the identifier was free and the dimension fits; then,
  -- only then, the entry is stored, and the vector is in the index, unless the index refuses its
  -- identifier or its dimension. What else the store and the index have stays.
  pub insert-vector_at :
      (s : VectorStore R I) (id : ℕ) (v : Vector R) (content : Text)
      → IsIndexed s
      → (t : VectorStore R I) × (insert s id v content ≡ some (t, accepts s id v))
        × IsIndexed t
        × ((x : ℕ)
            → find x t.store ≡ (
                if accepts s id v && nat_beq id x
                then some (record { id = id; vector = v; content = content })
                else find x s.store))
        × ((x : ℕ)
            → view.vector_at t.index x ≡ (
                if accepts s id v
                  && (nat_beq (length v) (view.dimension s.index)
                      && (not (view.taken s.index id) && nat_beq id x))
                then some v
                else view.vector_at s.index x))
  insert-vector_at s id v content h = elim (Bool-cases (accepts s id v)) [
    | inr refused ↦
        (s, rw refused (insert_refused s id v content refused), h, λ x. rw refused, λ x. rw refused)
    | inl taken ↦
        let (i, e, hi, _, at, _) = laws.insert_law s.index id v h.sound in
        (
          record s {
            store = assign id (record { id = id; vector = v; content = content }) s.store;
            index = i;
          },
          rw taken (insert_taken s id v content i taken e),
          inserted-IsIndexed s id v content i
              (nat_beq (length v) (view.dimension s.index) && not (view.taken s.index id)) h
              (ground arith) hi (λ x. at x ∙ ground arith),
          λ x.
              rw taken
                (find-assign id x (record { id = id; vector = v; content = content }) s.store),
          λ x. rw taken (at x),
        )
  ]

  -- An insertion keeps the store in order.
  pub insert-IsIndexed :
      (s : VectorStore R I) (id : ℕ) (v : Vector R) (content : Text)
      → IsIndexed s
      → (t : VectorStore R I) × (insert s id v content ≡ some (t, accepts s id v))
        × IsIndexed t
        × ((x : ℕ)
            → find x t.store ≡ (
                if accepts s id v && nat_beq id x
                then some (record { id = id; vector = v; content = content })
                else find x s.store))
  insert-IsIndexed s id v content h =
      let (t, e, ht, at, _) = insert-vector_at s id v content h in (t, e, ht, at)

  -- Remove answers whether the identifier was stored, and takes its entry alone.
  pub remove-IsIndexed :
      (s : VectorStore R I) (id : ℕ)
      → IsIndexed s
      → ((remove s id).1 ≡ contains id s.store)
        × IsIndexed (remove s id).0
        × ((x : ℕ) → find x (remove s id).0.store ≡ (if nat_beq id x then none else find x s.store))
  unfolding remove
  remove-IsIndexed s id h = elim (Bool-cases (contains id s.store)) [
    | inr absent ↦ rw absent (refl, h, λ x. ground (arith, nat_beq_iff id x))
    | inl present ↦
        let (hi, _, at, _) = laws.remove_law s.index id h.sound in
        rw present (
          refl,
          removed-IsIndexed s id (index.remove s.index id) h hi at,
          λ x. find-erase id x s.store,
        )
  ]

  -- Search throws nothing and gives at most k stored entries, for distinct identifiers.
  pub search-stored :
      (s : VectorStore R I) (query : Vector R) (k search_param : ℕ)
      → IsIndexed s
      → (found : List (Data R)) × (search s query k search_param ≡ some found)
        × (length found ≤ k)
        × All (λ entry. find entry.id s.store ≡ some entry) found
        × ((id : ℕ) → occurrences id (map (λ entry. entry.id) found) ≤ 1)
  unfolding search
  search-stored s query k search_param h =
      elim (Bool-cases (nat_beq (length query) s.vector_dimensionality)) [
        | inr refused ↦ ([], rw refused, omega arith, tt, λ id. omega arith)
        | inl taken ↦
            let (ids, e, few, known, once) = laws.search_law s.index query k search_param h.sound in
            let same = gather-found s ids h known in
            (
              gather s.store ids,
              rw (taken, e),
              omega (
                arith,
                ap length same,
                length-map (λ (entry : Data R). entry.id) (gather s.store ids),
                few,
              ),
              gather-All s ids h,
              λ id. rw same (once id),
            )
      ]

  -- Cleanup, with or without a rebuild of the index, throws nothing and keeps the entries.
  pub cleanup-IsIndexed :
      (s : VectorStore R I) (reindex : Bool)
      → IsIndexed s
      → (t : VectorStore R I) × (cleanup s reindex ≡ some t)
        × IsIndexed t
        × (t.store ≡ s.store)
        × ((x : ℕ) → view.taken t.index x ≡ is_some (view.vector_at s.index x))
  unfolding cleanup
  cleanup-IsIndexed s false h =
      let (hi, _, at, free) = laws.cleanup_law s.index h.sound in
      (
        record s { index = index.cleanup s.index },
        refl,
        rebuilt-IsIndexed s (index.cleanup s.index) h hi at,
        refl,
        free,
      )
  cleanup-IsIndexed s true h =
      let (hi, _, at, free) = laws.cleanup_law s.index h.sound in
      let (i, e, hi', _, at', free') =
        laws.reindex_law (index.cleanup s.index) hi (λ x. free x ∙ ap is_some (sym (at x))) in
      (
        record s { index = i },
        rw e,
        rebuilt-IsIndexed s i h hi' (λ x. at' x ∙ at x),
        refl,
        λ x. free' x ∙ ap is_some (at x),
      )
