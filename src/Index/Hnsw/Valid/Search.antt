-- ===== src/Index/Hnsw/Valid/Search.antt =====
-- Search on a valid index.
use vector_database.Prelude.{
  ℕ, zero, suc, ◌-◌, ◌≤◌, ◌<◌, ◌≡◌, true, some, List, [], ◌∷◌, length, take, min, is_empty, arith,
  All, All-take, All-weaken, length-take, Bool-cases, Option-cases, inl, inr,
}
use vector_database.Float.{Float, Vector}
use vector_database.Index.Hnsw.{HnswIndex, is_live}
use vector_database.Index.Hnsw.SearchLevel.{search_level}
use vector_database.Index.Nearest.Count.{occurrences}
use vector_database.Index.Hnsw.SearchLevel.Total.{search_level_total}
use vector_database.Index.Hnsw.Update.{search_down, search, first_or}
use vector_database.Index.Hnsw.Update.Levels.{first_or_lem}
use vector_database.Index.Hnsw.Valid.{IsValid}

occurrences-take-le : (id n : ℕ) (xs : List ℕ) → occurrences id (take n xs) ≤ occurrences id xs
occurrences-take-le id zero xs = omega arith
occurrences-take-le id (suc n) [] = omega arith
occurrences-take-le id (suc n) (x ∷ xs) = ground (arith, occurrences-take-le id n xs)

module _ {R : Type 0} ⦃f : Float R⦄ where
  -- Distinct active nodes, at most `room`, and some where there is room.
  pub record IsAnswer (s : HnswIndex R) (room : ℕ) (ids : List ℕ) : Type 0 where
    pub few : length ids ≤ room
    pub live : All (λ id. is_live s.nodes id ≡ true) ids
    pub once : (id : ℕ) → occurrences id ids ≤ 1
    pub some_found : 0 < room → 0 < length ids

  one_level :
      (s : HnswIndex R) (query : Vector R) (ef level entry_point : ℕ)
      → IsValid s
      → is_live s.nodes entry_point ≡ true
      → (ids : List ℕ) × (search_level s query (some entry_point) ef level ≡ some ids)
        × IsAnswer s ef ids
  one_level s query ef level entry_point v live =
      let (ids, e, few, good, once, found) =
        search_level_total s query (λ _. Unit) ef v.graph.closed level entry_point (λ a b _ _. tt)
          tt live in
      (
        ids,
        e,
        record {
          few = few;
          live = All-weaken _ _ (λ id (h : (is_live s.nodes id ≡ true) × Unit). h.0) ids good;
          once = once;
          some_found = found;
        },
      )

  search_down_total :
      (s : HnswIndex R) (query : Vector R) (ef level entry_point : ℕ)
      → IsValid s
      → is_live s.nodes entry_point ≡ true
      → (ids : List ℕ) × (search_down s query ef level entry_point ≡ some ids) × IsAnswer s ef ids
  unfolding search_down
  search_down_total s query ef zero entry_point v live = one_level s query ef 0 entry_point v live
  search_down_total s query ef (suc l) entry_point v live =
      let (nearest, e, h) = one_level s query ef (suc l) entry_point v live in
      elim (Bool-cases (is_empty nearest)) [
        | inl empty ↦ (
          [],
          rw (e, empty),
          record {
            few = omega arith;
            live = tt;
            once = λ id. omega arith;
            some_found = λ pos. ground (arith, h.some_found pos);
          },
        )
        | inr more ↦
            let (ids, e', h') =
              search_down_total s query ef l (first_or nearest entry_point) v
                (first_or_lem (λ id. is_live s.nodes id ≡ true) nearest entry_point h.live live) in
            (ids, rw (e, more) e', h')
      ]

  -- Search on a valid index throws nothing. It returns distinct active nodes, at most k and at most
  -- ef_search; where neither is 0 and a node is active, it returns one at least.
  pub search_total :
      (s : HnswIndex R) (query : Vector R) (k ef_search : ℕ)
      → IsValid s
      → (ids : List ℕ) × (search s query k ef_search ≡ some ids)
        × (length ids ≤ min k ef_search)
        × All (λ id. is_live s.nodes id ≡ true) ids
        × ((id : ℕ) → occurrences id ids ≤ 1)
        × ((id : ℕ) → is_live s.nodes id ≡ true → 0 < min k ef_search → 0 < length ids)
  unfolding search
  search_total s query k ef_search v = elim (Option-cases s.entry_point) [
    | inl empty ↦ (
      [],
      rw empty,
      omega arith,
      tt,
      λ id. omega arith,
      λ id live _. absurd (ground (arith, v.no_entry empty id)),
    )
    | inr (entry_point, he) ↦
        let (ids, e, h) =
          search_down_total s query ef_search (s.levels - 1) entry_point v
            (v.entry_live entry_point he) in
        (
          take k ids,
          ground arith,
          omega (arith, length-take k ids, h.few),
          All-take _ k ids h.live,
          λ id. omega (arith, occurrences-take-le id k ids, h.once id),
          λ id _ pos. omega (arith, length-take k ids, h.some_found (omega arith)),
        )
  ]
