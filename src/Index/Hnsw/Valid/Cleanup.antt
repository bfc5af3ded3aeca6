-- ===== src/Index/Hnsw/Valid/Cleanup.antt =====
-- Cleanup keeps the index valid and what it stands for.
use vector_database.Prelude.{ℕ, ◌≡◌, true, ◌&&◌, [], if◌then◌else◌, nat_eq, arith}
use vector_database.Prelude.Map.{contains, IsMap}
use vector_database.Prelude.Set.{member, filter, member-filter, length-filter-le}
use vector_database.Float.{Float}
use vector_database.Index.Hnsw.{HnswIndex, links, is_live, node_or_blank}
use vector_database.Index.Hnsw.Update.{cleanup}
use vector_database.Index.Hnsw.Valid.{IsValid, level_of, vector_at}
use vector_database.Index.Hnsw.Update.Clean.{
  cleanup-keyed, find-cleaned, set_at-keep_sets, set_at_nil,
}

module _ {R : Type 0} ⦃f : Float R⦄ where
  -- What Cleanup leaves of the links: the active ones of the active nodes.
  links-cleanup :
      (s : HnswIndex R) (k x : ℕ)
      → IsMap s.nodes
      → links (cleanup s) k x
        ≡ (if is_live s.nodes x then filter (is_live s.nodes) (links s k x) else [])
  unfolding links
  links-cleanup s k x h = ground (
    arith,
    find-cleaned s x h,
    set_at-keep_sets (is_live s.nodes) k (node_or_blank s x).neighbors,
    set_at_nil k,
  )

  member-links-cleanup :
      (s : HnswIndex R) (k x y : ℕ)
      → IsMap s.nodes
      → member y (links (cleanup s) k x)
        ≡ (is_live s.nodes x && (is_live s.nodes y && member y (links s k x)))
  unfolding member
  member-links-cleanup s k x y h =
      ground (arith, links-cleanup s k x h, member-filter y (is_live s.nodes) (links s k x))

  -- Only active nodes are left.
  pub contains-cleanup :
      (s : HnswIndex R) (x : ℕ) → IsMap s.nodes → contains x (cleanup s).nodes ≡ is_live s.nodes x
  contains-cleanup s x h = ground (arith, find-cleaned s x h)

  is_live-cleanup :
      (s : HnswIndex R) (x : ℕ) → IsMap s.nodes → is_live (cleanup s).nodes x ≡ is_live s.nodes x
  is_live-cleanup s x h = ground (arith, find-cleaned s x h)

  level_of-cleanup :
      (s : HnswIndex R) (x : ℕ)
      → IsMap s.nodes
      → is_live s.nodes x ≡ true
      → level_of (cleanup s) x ≡ level_of s x
  level_of-cleanup s x h live = ground (arith, find-cleaned s x h)

  pub cleanup-vector_at :
      (s : HnswIndex R) (x : ℕ) → IsValid s → vector_at (cleanup s) x ≡ vector_at s x
  cleanup-vector_at s x v = ground (arith, find-cleaned s x v.keyed)

  -- Cleanup on a valid index leaves a valid index.
  pub cleanup-IsValid : (s : HnswIndex R) → IsValid s → IsValid (cleanup s)
  unfolding cleanup
  cleanup-IsValid s v =
      let h = v.keyed in
      record {
        keyed = cleanup-keyed s h;
        graph = record {
          closed =
              λ k x y m. ground (arith, member-links-cleanup s k x y h, contains-cleanup s y h);
          symmetric = λ k x y. ground (
            arith,
            member-links-cleanup s k x y h,
            member-links-cleanup s k y x h,
            v.graph.symmetric k x y,
          );
          irreflexive =
              λ k x. ground (arith, member-links-cleanup s k x x h, v.graph.irreflexive k x);
        };
        bounded = λ k x. ground (
          arith,
          links-cleanup s k x h,
          length-filter-le (is_live s.nodes) (links s k x),
          v.bounded k x,
        );
        entry_live = λ e he. ground (arith, is_live-cleanup s e h, v.entry_live e he);
        entry_level =
            λ e he. ground (arith, level_of-cleanup s e h, v.entry_live e he, v.entry_level e he);
        no_entry = λ he x. ground (arith, is_live-cleanup s x h, v.no_entry he x);
        no_levels = v.no_levels;
        below = λ x live. ground (arith, is_live-cleanup s x h, level_of-cleanup s x h, v.below x);
        filed = λ l x. ground (arith, v.filed l x, is_live-cleanup s x h, level_of-cleanup s x h);
        no_empty = v.no_empty;
      }
