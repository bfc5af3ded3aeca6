-- ===== src/Store/Complete.antt =====
-- When the index knows all that the store has, and the identifiers for which that gets lost.
use vector_database.Prelude.{
  ℕ, ◌≡◌, refl, sym, ap, ◌∙◌, Bool, true, false, not, ◌&&◌, ◌||◌, none, some, length, nat_beq,
  nat_eq, nat_beq_iff, if◌then◌else◌, arith, Text, Bool-cases, Option-cases, inl, inr,
}
use vector_database.Prelude.Map.{assign, contains, find-assign, find-assign_self, find-erase}
use vector_database.Float.{Vector}
use vector_database.Index.{VectorIndex}
use vector_database.Index.Laws.{IndexView, IndexLaws, is_some}
use vector_database.Store.{VectorStore, insert, remove, cleanup}
use vector_database.Store.Indexed.{
  stored, accepts, IsIndexed, inserted-IsIndexed, removed-IsIndexed, rebuilt-IsIndexed,
}
use vector_database.Store.Total.{insert_taken, insert_refused}

refused_none :
    {A : Type 0} (taken fits same : Bool) (new old : A)
    → taken ≡ true
    → (if fits && (not taken && same) then new else old) ≡ old
refused_none taken fits same new old h = ground arith

module _ {R I : Type 0} ⦃view : IndexView R I⦄ where
  -- The index of the same dimension has each stored vector, and would take each identifier that
  -- is not stored and not among the `stale` ones.
  pub record IsComplete (s : VectorStore R I) (stale : ℕ → Bool) : Type 0 where
    pub indexed : IsIndexed s
    pub same_dimension : view.dimension s.index ≡ s.vector_dimensionality
    pub all : (x : ℕ) → view.vector_at s.index x ≡ stored s x
    pub free : (x : ℕ) → contains x s.store ≡ false → stale x ≡ false → view.taken s.index x ≡ false

  -- The index has no vector that the store does not have.
  unknown :
      (s : VectorStore R I) (id : ℕ)
      → IsIndexed s
      → contains id s.store ≡ false
      → view.vector_at s.index id ≡ none
  unknown s id h absent = elim (Option-cases (view.vector_at s.index id)) [
    | inl gone ↦ gone
    | inr (v, e) ↦ absurd (ground (arith, h.known id v e))
  ]

  rebuilt-IsComplete :
      (s : VectorStore R I) (i : I) (stale : ℕ → Bool)
      → IsComplete s stale
      → view.IsSound i
      → view.dimension i ≡ view.dimension s.index
      → ((x : ℕ) → view.vector_at i x ≡ view.vector_at s.index x)
      → ((x : ℕ) → view.taken i x ≡ is_some (view.vector_at s.index x))
      → IsComplete (record s { index = i }) (λ x. false)
  rebuilt-IsComplete s i stale h hi hd at free = record {
    indexed = rebuilt-IsIndexed s i h.indexed hi at;
    same_dimension = hd ∙ h.same_dimension;
    all = λ x. at x ∙ h.all x;
    free = λ x absent _. free x ∙ ap is_some (unknown s x h.indexed absent);
  }

  inserted-IsComplete :
      (s : VectorStore R I) (id : ℕ) (v : Vector R) (content : Text) (stale : ℕ → Bool) (i : I)
      → stale id ≡ false
      → accepts s id v ≡ true
      → IsComplete s stale
      → IsIndexed (record s {
        store = assign id (record { id = id; vector = v; content = content }) s.store;
        index = i;
      })
      → view.dimension i ≡ view.dimension s.index
      → ((x : ℕ)
          → view.vector_at i x ≡ (
              if nat_beq (length v) (view.dimension s.index)
                && (not (view.taken s.index id) && nat_beq id x)
              then some v
              else view.vector_at s.index x))
      → ((x : ℕ)
          → view.taken i x ≡ (
              (nat_beq (length v) (view.dimension s.index)
                && (not (view.taken s.index id) && nat_beq id x))
              || view.taken s.index x))
      → IsComplete
          (record s {
            store = assign id (record { id = id; vector = v; content = content }) s.store;
            index = i;
          })
          stale
  inserted-IsComplete s id v content stale i fresh taken h ht hd at has = record {
    indexed = ht;
    same_dimension = hd ∙ h.same_dimension;
    all = λ x. ground (
      arith,
      at x,
      h.all x,
      h.same_dimension,
      h.free id,
      find-assign id x (record { id = id; vector = v; content = content }) s.store,
    );
    free = λ x absent new. ground (
      arith,
      has x,
      h.free x,
      nat_beq_iff id x,
      find-assign id x (record { id = id; vector = v; content = content }) s.store,
    );
  }

module _ {R I : Type 0} ⦃index : VectorIndex R I⦄ ⦃view : IndexView R I⦄
    (laws : IndexLaws R I) where
  -- Insert of an identifier that is not stale keeps the index complete.
  pub insert-IsComplete :
      (s : VectorStore R I) (id : ℕ) (v : Vector R) (content : Text) (stale : ℕ → Bool)
      → stale id ≡ false
      → IsComplete s stale
      → (t : VectorStore R I) × (insert s id v content ≡ some (t, accepts s id v))
        × IsComplete t stale
  insert-IsComplete s id v content stale fresh h = elim (Bool-cases (accepts s id v)) [
    | inr refused ↦ (s, rw refused (insert_refused laws s id v content refused), h)
    | inl taken ↦
        let (i, e, hi, hd, at, has) = laws.insert_law s.index id v h.indexed.sound in
        (
          record s {
            store = assign id (record { id = id; vector = v; content = content }) s.store;
            index = i;
          },
          rw taken (insert_taken laws s id v content i taken e),
          inserted-IsComplete s id v content stale i fresh taken h
              (inserted-IsIndexed s id v content i
                (nat_beq (length v) (view.dimension s.index) && not (view.taken s.index id))
                h.indexed (ground arith) hi (λ x. at x ∙ ground arith))
              hd at has,
        )
  ]

  -- Remove keeps the index complete, where the identifier becomes stale.
  pub remove-IsComplete :
      (s : VectorStore R I) (id : ℕ) (stale : ℕ → Bool)
      → IsComplete s stale
      → IsComplete (remove s id).0 (λ x. stale x || nat_beq id x)
  unfolding remove
  remove-IsComplete s id stale h = elim (Bool-cases (contains id s.store)) [
    | inr absent ↦ rw absent (record {
      indexed = h.indexed;
      same_dimension = h.same_dimension;
      all = h.all;
      free = λ x gone new. ground (arith, h.free x);
    })
    | inl present ↦
        let (hi, hd, at, has) = laws.remove_law s.index id h.indexed.sound in
        rw present (record {
          indexed = removed-IsIndexed s id (index.remove s.index id) h.indexed hi at;
          same_dimension = hd ∙ h.same_dimension;
          all = λ x. ground (arith, at x, h.all x, find-erase id x s.store);
          free = λ x gone new. ground (arith, h.free x, has x, find-erase id x s.store);
        })
  ]

  -- Cleanup keeps the index complete, and no identifier is stale after it.
  pub cleanup-IsComplete :
      (s : VectorStore R I) (reindex : Bool) (stale : ℕ → Bool)
      → IsComplete s stale
      → (t : VectorStore R I) × (cleanup s reindex ≡ some t) × IsComplete t (λ x. false)
  unfolding cleanup
  cleanup-IsComplete s false stale h =
      let (hi, hd, at, free) = laws.cleanup_law s.index h.indexed.sound in
      (
        record s { index = index.cleanup s.index },
        refl,
        rebuilt-IsComplete s (index.cleanup s.index) stale h hi hd at free,
      )
  cleanup-IsComplete s true stale h =
      let (hi, hd, at, free) = laws.cleanup_law s.index h.indexed.sound in
      let (i, e, hi', hd', at', free') =
        laws.reindex_law (index.cleanup s.index) hi (λ x. free x ∙ ap is_some (sym (at x))) in
      (
        record s { index = i },
        rw e,
        rebuilt-IsComplete s i stale h hi' (hd' ∙ hd) (λ x. at' x ∙ at x)
            (λ x. free' x ∙ ap is_some (at x)),
      )

  -- An identifier that the index keeps although it was removed: Insert answers true and stores the
  -- entry, and the index stands for no vector under it.
  pub insert_unsearchable :
      (s : VectorStore R I) (id : ℕ) (v : Vector R) (content : Text)
      → IsIndexed s
      → accepts s id v ≡ true
      → view.taken s.index id ≡ true
      → (t : VectorStore R I) × (insert s id v content ≡ some (t, true))
        × (contains id t.store ≡ true)
        × (view.vector_at t.index id ≡ none)
  insert_unsearchable s id v content h taken stale =
      let (i, e, _, _, at, _) = laws.insert_law s.index id v h.sound in
      (
        record s {
          store = assign id (record { id = id; vector = v; content = content }) s.store;
          index = i;
        },
        insert_taken laws s id v content i taken e,
        ground (
          arith,
          find-assign_self id (record { id = id; vector = v; content = content }) s.store,
        ),
        at id
            ∙ refused_none (view.taken s.index id) (nat_beq (length v) (view.dimension s.index))
                (nat_beq id id) (some v) (view.vector_at s.index id) stale
            ∙ unknown s id h (ground arith),
      )
