-- ===== src/Index/Any.antt =====
-- The index of a store: a pointer to `VectorIndex`, which is one of the two classes.
use vector_database.Prelude.{
  ℕ, ◌≤◌, ◌≡◌, ap, Bool, true, false, not, ◌&&◌, ◌||◌, Option, none, some, List, length, All,
  nat_beq, if◌then◌else◌, ◌>>=◌,
}
use vector_database.Float.{Float, Vector}
use vector_database.Index.{VectorIndex}
use vector_database.Index.Laws.{IndexView, IndexLaws, is_some}
use vector_database.Index.Nearest.Count.{occurrences}
use vector_database.Index.Flat.{FlatIndex, flat_index}
use vector_database.Index.Flat.Laws.{flat_view, flat_laws}
use vector_database.Index.Hnsw.{HnswIndex, LevelSource}
use vector_database.Index.Hnsw.Update.{hnsw_index}
use vector_database.Index.Hnsw.Laws.{hnsw_view, hnsw_laws}

pub data AnyIndex (R : Type 0) : Type 0 where
  hnsw : HnswIndex R → AnyIndex R
  flat : FlatIndex R → AnyIndex R

module _ {R : Type 0} ⦃f : Float R⦄ ⦃source : LevelSource R⦄ where
  abbrev pub any_insert : AnyIndex R → ℕ → Vector R → Option (AnyIndex R)
  any_insert (hnsw s) id v = do t ← (hnsw_index {R = R}).insert s id v; some (hnsw t)
  any_insert (flat s) id v = do t ← (flat_index {R = R}).insert s id v; some (flat t)

  abbrev pub any_remove : AnyIndex R → ℕ → AnyIndex R
  any_remove (hnsw s) id = hnsw ((hnsw_index {R = R}).remove s id)
  any_remove (flat s) id = flat ((flat_index {R = R}).remove s id)

  abbrev pub any_search : AnyIndex R → Vector R → ℕ → ℕ → Option (List ℕ)
  any_search (hnsw s) = (hnsw_index {R = R}).search s
  any_search (flat s) = (flat_index {R = R}).search s

  abbrev pub any_cleanup : AnyIndex R → AnyIndex R
  any_cleanup (hnsw s) = hnsw ((hnsw_index {R = R}).cleanup s)
  any_cleanup (flat s) = flat ((flat_index {R = R}).cleanup s)

  abbrev pub any_reindex : AnyIndex R → Option (AnyIndex R)
  any_reindex (hnsw s) = do t ← (hnsw_index {R = R}).reindex s; some (hnsw t)
  any_reindex (flat s) = do t ← (flat_index {R = R}).reindex s; some (flat t)

  instance abbrev pub any_index : VectorIndex R (AnyIndex R)
  any_index = record {
    insert = any_insert;
    remove = any_remove;
    search = any_search;
    cleanup = any_cleanup;
    reindex = any_reindex;
  }

  abbrev pub AnySound : AnyIndex R → Type 0
  AnySound (hnsw s) = (hnsw_view {R = R}).IsSound s
  AnySound (flat s) = (flat_view {R = R}).IsSound s

  abbrev pub any_dimension : AnyIndex R → ℕ
  any_dimension (hnsw s) = (hnsw_view {R = R}).dimension s
  any_dimension (flat s) = (flat_view {R = R}).dimension s

  abbrev pub any_vector_at : AnyIndex R → ℕ → Option (Vector R)
  any_vector_at (hnsw s) = (hnsw_view {R = R}).vector_at s
  any_vector_at (flat s) = (flat_view {R = R}).vector_at s

  abbrev pub any_taken : AnyIndex R → ℕ → Bool
  any_taken (hnsw s) = (hnsw_view {R = R}).taken s
  any_taken (flat s) = (flat_view {R = R}).taken s

  instance abbrev pub any_view : IndexView R (AnyIndex R)
  any_view = record {
    IsSound = AnySound;
    dimension = any_dimension;
    vector_at = any_vector_at;
    taken = any_taken;
  }

  insert_any :
      (s : AnyIndex R) (id : ℕ) (v : Vector R)
      → AnySound s
      → (t : AnyIndex R) × (any_index.insert s id v ≡ some t)
        × AnySound t
        × (any_dimension t ≡ any_dimension s)
        × ((x : ℕ)
            → any_vector_at t x ≡ (
                if nat_beq (length v) (any_dimension s) && (not (any_taken s id) && nat_beq id x)
                then some v
                else any_vector_at s x))
        × ((x : ℕ)
            → any_taken t x ≡ (
                (nat_beq (length v) (any_dimension s) && (not (any_taken s id) && nat_beq id x))
                || any_taken s x))
  insert_any (hnsw s) id v h =
      let (t, e, h0, h1, h2, h3) = (hnsw_laws {R = R}).insert_law s id v h in
      (hnsw t, ap (λ o. o >>= (λ u. some (hnsw u))) e, h0, h1, h2, h3)
  insert_any (flat s) id v h =
      let (t, e, h0, h1, h2, h3) = (flat_laws {R = R}).insert_law s id v h in
      (flat t, ap (λ o. o >>= (λ u. some (flat u))) e, h0, h1, h2, h3)

  remove_any :
      (s : AnyIndex R) (id : ℕ)
      → AnySound s
      → AnySound (any_index.remove s id)
        × (any_dimension (any_index.remove s id) ≡ any_dimension s)
        × ((x : ℕ)
            → any_vector_at (any_index.remove s id) x
              ≡ (if nat_beq id x then none else any_vector_at s x))
        × ((x : ℕ) → nat_beq id x ≡ false → any_taken (any_index.remove s id) x ≡ any_taken s x)
  remove_any (hnsw s) id h = (hnsw_laws {R = R}).remove_law s id h
  remove_any (flat s) id h = (flat_laws {R = R}).remove_law s id h

  taken_any :
      (s : AnyIndex R) (x : ℕ) → AnySound s → any_taken s x ≡ false → any_vector_at s x ≡ none
  taken_any (hnsw s) x h free = (hnsw_laws {R = R}).taken_law s x h free
  taken_any (flat s) x h free = (flat_laws {R = R}).taken_law s x h free

  search_any :
      (s : AnyIndex R) (query : Vector R) (k search_param : ℕ)
      → AnySound s
      → (ids : List ℕ) × (any_index.search s query k search_param ≡ some ids)
        × (length ids ≤ k)
        × All (λ id. is_some (any_vector_at s id) ≡ true) ids
        × ((id : ℕ) → occurrences id ids ≤ 1)
  search_any (hnsw s) query k p h = (hnsw_laws {R = R}).search_law s query k p h
  search_any (flat s) query k p h = (flat_laws {R = R}).search_law s query k p h

  cleanup_any :
      (s : AnyIndex R)
      → AnySound s
      → AnySound (any_index.cleanup s)
        × (any_dimension (any_index.cleanup s) ≡ any_dimension s)
        × ((x : ℕ) → any_vector_at (any_index.cleanup s) x ≡ any_vector_at s x)
        × ((x : ℕ) → any_taken (any_index.cleanup s) x ≡ is_some (any_vector_at s x))
  cleanup_any (hnsw s) h = (hnsw_laws {R = R}).cleanup_law s h
  cleanup_any (flat s) h = (flat_laws {R = R}).cleanup_law s h

  reindex_any :
      (s : AnyIndex R)
      → AnySound s
      → ((x : ℕ) → any_taken s x ≡ is_some (any_vector_at s x))
      → (t : AnyIndex R) × (any_index.reindex s ≡ some t)
        × AnySound t
        × (any_dimension t ≡ any_dimension s)
        × ((x : ℕ) → any_vector_at t x ≡ any_vector_at s x)
        × ((x : ℕ) → any_taken t x ≡ is_some (any_vector_at s x))
  reindex_any (hnsw s) h all =
      let (t, e, h0, h1, h2, h3) = (hnsw_laws {R = R}).reindex_law s h all in
      (hnsw t, ap (λ o. o >>= (λ u. some (hnsw u))) e, h0, h1, h2, h3)
  reindex_any (flat s) h all =
      let (t, e, h0, h1, h2, h3) = (flat_laws {R = R}).reindex_law s h all in
      (flat t, ap (λ o. o >>= (λ u. some (flat u))) e, h0, h1, h2, h3)

  -- Either index keeps the laws.
  pub any_laws : IndexLaws R (AnyIndex R)
  any_laws = record {
    insert_law = insert_any;
    remove_law = remove_any;
    taken_law = taken_any;
    search_law = search_any;
    cleanup_law = cleanup_any;
    reindex_law = reindex_any;
  }
