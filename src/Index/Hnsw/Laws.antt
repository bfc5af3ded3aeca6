-- ===== src/Index/Hnsw/Laws.antt =====
-- The graph index keeps the laws of an index.
use vector_database.Prelude.{
  ℕ, ◌≡◌, refl, sym, ap, ◌∙◌, true, false, ◌&&◌, none, some, All-weaken, nat_beq, nat_eq,
  if◌then◌else◌, arith,
}
use vector_database.Prelude.Map.{contains}
use vector_database.Float.{Float, Vector}
use vector_database.Index.Laws.{IndexView, IndexLaws, is_some}
use vector_database.Index.Hnsw.{HnswIndex, LevelSource, is_live}
use vector_database.Index.Hnsw.Update.{remove, cleanup, hnsw_index}
use vector_database.Index.Hnsw.Valid.{IsValid, vector_at}
use vector_database.Index.Hnsw.Valid.Insert.{insert_total, accepts}
use vector_database.Index.Hnsw.Valid.Remove.{
  remove-IsValid, remove-vector_at, remove-config, remove-contains,
}
use vector_database.Index.Hnsw.Valid.Search.{search_total}
use vector_database.Index.Hnsw.Valid.Cleanup.{cleanup-IsValid, cleanup-vector_at, contains-cleanup}
use vector_database.Index.Hnsw.Valid.Reindex.{fits, reindex_total, revived-live}

module _ {R : Type 0} ⦃f : Float R⦄ ⦃source : LevelSource R⦄ where
  -- A valid index whose vectors fit.
  pub record IsSound (s : HnswIndex R) : Type 0 where
    pub valid : IsValid s
    pub sized : (x : ℕ) (w : Vector R) → vector_at s x ≡ some w → fits s.config w ≡ true

  some_of_live :
      (s : HnswIndex R) (x : ℕ) → is_live s.nodes x ≡ true → is_some (vector_at s x) ≡ true
  some_of_live s x h = ground arith

  none_of_absent : (s : HnswIndex R) (x : ℕ) → contains x s.nodes ≡ false → vector_at s x ≡ none
  none_of_absent s x h = ground arith

  contains-cleaned :
      (s : HnswIndex R) (x : ℕ) → IsValid s → contains x (cleanup s).nodes ≡ is_some (vector_at s x)
  contains-cleaned s x v = ground (arith, contains-cleanup s x v.keyed)

  config-cleanup : (s : HnswIndex R) → (cleanup s).config ≡ s.config
  unfolding cleanup
  config-cleanup s = refl

  sized-insert :
      (s : HnswIndex R) (id : ℕ) (v w : Vector R) (x : ℕ) (t : HnswIndex R)
      → IsSound s
      → t.config ≡ s.config
      → vector_at t x ≡ (if accepts s id v && nat_beq id x then some v else vector_at s x)
      → vector_at t x ≡ some w
      → fits t.config w ≡ true
  sized-insert s id v w x t h hc at e =
      ground (arith, h.sized x w, ap (λ c. c.vector_dimensionality) hc)

  sized_of :
      (s t : HnswIndex R) (x : ℕ) (w : Vector R)
      → IsSound s
      → t.config ≡ s.config
      → (vector_at t x ≡ some w → vector_at s x ≡ some w)
      → vector_at t x ≡ some w
      → fits t.config w ≡ true
  sized_of s t x w h hc less e = ap (λ c. fits c w) hc ∙ h.sized x w (less e)

  instance abbrev pub hnsw_view : IndexView R (HnswIndex R)
  hnsw_view = record {
    IsSound = IsSound;
    dimension = λ s. s.config.vector_dimensionality;
    vector_at = vector_at;
    taken = λ s x. contains x s.nodes;
  }

  -- The graph index keeps the laws.
  pub hnsw_laws : IndexLaws R (HnswIndex R)
  hnsw_laws = record {
    insert_law = λ s id v h.
        let (t, e, ht, hc, at, has) = insert_total s id v h.valid in
        (
          t,
          e,
          record { valid = ht; sized = λ x w ew. sized-insert s id v w x t h hc (at x) ew },
          ap (λ c. c.vector_dimensionality) hc,
          λ x. at x ∙ ground arith,
          λ x. has x ∙ ground arith,
        );
    remove_law = λ s id h.
        let hc = remove-config s id h.valid in
        (
          record {
            valid = remove-IsValid s id h.valid;
            sized = λ x w.
                sized_of s (remove s id) x w h hc
                  (λ e. ground (arith, remove-vector_at s id x h.valid));
          },
          ap (λ c. c.vector_dimensionality) hc,
          λ x. remove-vector_at s id x h.valid,
          λ x _. remove-contains s id x h.valid,
        );
    taken_law = λ s x h free. none_of_absent s x free;
    search_law = λ s query k ef h.
        let (ids, e, few, live, once, _) = search_total s query k ef h.valid in
        (ids, e, omega arith, All-weaken _ _ (λ x hx. some_of_live s x hx) ids live, once);
    cleanup_law = λ s h. (
      record {
        valid = cleanup-IsValid s h.valid;
        sized = λ x w.
            sized_of s (cleanup s) x w h (config-cleanup s)
              (λ e. sym (cleanup-vector_at s x h.valid) ∙ e);
      },
      ap (λ c. c.vector_dimensionality) (config-cleanup s),
      λ x. cleanup-vector_at s x h.valid,
      λ x. contains-cleaned s x h.valid,
    );
    reindex_law = λ s h all.
        let (t, e, ht, hc, at, all') = reindex_total s h.valid.keyed in
        let same : (x : ℕ) → vector_at t x ≡ vector_at s x =
          λ x. at x ∙ revived-live s x (all x) (h.sized x) in
        (
          t,
          e,
          record { valid = ht; sized = λ x w. sized_of s t x w h hc (λ e'. sym (same x) ∙ e') },
          ap (λ c. c.vector_dimensionality) hc,
          same,
          λ x. all' x ∙ ap is_some (same x),
        );
  }
