-- ===== src/Tests/Graph.antt =====
-- The theorems of the graph index at an index of three nodes, one of them removed.
use vector_database.Prelude.{
  ℕ, ◌≤◌, ◌<◌, ◌≡◌, sym, ap, subst, true, ◌&&◌, ◌||◌, Option, none, some, List, [], ◌∷◌, length,
  All, min, nat_beq, nat_eq, if◌then◌else◌,
}
use vector_database.Prelude.Map.{find, contains}
use vector_database.Float.{Vector}
use vector_database.Index.Laws.{is_some}
use vector_database.Index.Nearest.Count.{occurrences}
use vector_database.Index.Distance.{DistanceMetric}
use vector_database.Index.Hnsw.{HnswIndexConfig, HnswIndex, create, is_live}
use vector_database.Index.Hnsw.Update.{insert, remove, search, cleanup, reindex}
use vector_database.Index.Hnsw.Update.Clean.{cleaned, cleanup-cleaned}
use vector_database.Index.Hnsw.Valid.{IsValid, vector_at}
use vector_database.Index.Hnsw.Valid.Insert.{insert_total, accepts}
use vector_database.Index.Hnsw.Valid.Remove.{remove-IsValid, remove-vector_at}
use vector_database.Index.Hnsw.Valid.Search.{search_total}
use vector_database.Index.Hnsw.Valid.Cleanup.{cleanup-IsValid}
use vector_database.Index.Hnsw.Valid.Reindex.{create-IsValid, reindex_total, rebuilt_total, revived}
use vector_database.Index.Hnsw.Laws.{IsSound, hnsw_laws}
use vector_database.Tests.Whole.{whole, thirds}

abbrev pub graph_config : HnswIndexConfig ℕ
graph_config = record {
  m = 2;
  m0 = 4;
  ef_construction = 16;
  ml = 1;
  metric = DistanceMetric.l2;
  vector_dimensionality = 2;
}

-- the index after an insertion, which throws nothing
abbrev pub after : Option (HnswIndex ℕ) → HnswIndex ℕ
after none = create graph_config
after (some s) = s

after-some : (o : Option (HnswIndex ℕ)) (t : HnswIndex ℕ) → o ≡ some t → after o ≡ t
after-some o t e = ap after e

pub insert-IsSound :
    (s : HnswIndex ℕ) (id : ℕ) (v : Vector ℕ) → IsSound s → IsSound (after (insert s id v))
insert-IsSound s id v h =
    let (t, e, ht, _, _, _) = (hnsw_laws {R = ℕ}).insert_law s id v h in
    subst IsSound (sym (after-some (insert s id v) t e)) ht

pub create-IsSound : IsSound (create graph_config)
unfolding create find
create-IsSound = record { valid = create-IsValid graph_config; sized = λ x w e. cc }

abbrev pub three : HnswIndex ℕ
three = after (
    insert (after (insert (after (insert (create graph_config) 1 (5 ∷ 4 ∷ []))) 2 (1 ∷ 1 ∷ []))) 3
      (9 ∷ 9 ∷ []))

pub three-IsSound : IsSound three
three-IsSound = insert-IsSound _ 3 (9 ∷ 9 ∷ []) (
    insert-IsSound _ 2 (1 ∷ 1 ∷ [])
      (insert-IsSound (create graph_config) 1 (5 ∷ 4 ∷ []) create-IsSound))

abbrev pub two : HnswIndex ℕ
two = remove three 3

two-IsValid : IsValid two
two-IsValid = remove-IsValid three 3 three-IsSound.valid

insert_total_example :
    (t : HnswIndex ℕ) × (insert two 4 (2 ∷ 7 ∷ []) ≡ some t)
    × IsValid t
    × (t.config ≡ two.config)
    × ((x : ℕ)
        → vector_at t x ≡ (
            if accepts two 4 (2 ∷ 7 ∷ []) && nat_beq 4 x
            then some (2 ∷ 7 ∷ [])
            else vector_at two x))
    × ((x : ℕ)
        → contains x t.nodes
          ≡ ((accepts two 4 (2 ∷ 7 ∷ []) && nat_beq 4 x) || contains x two.nodes))
insert_total_example = insert_total two 4 (2 ∷ 7 ∷ []) two-IsValid

remove-IsValid_example : IsValid (remove three 3)
remove-IsValid_example = remove-IsValid three 3 three-IsSound.valid

remove-vector_at_example :
    vector_at (remove three 3) 3 ≡ (if nat_beq 3 3 then none else vector_at three 3)
remove-vector_at_example = remove-vector_at three 3 3 three-IsSound.valid

search_total_example :
    (ids : List ℕ) × (search two (5 ∷ 5 ∷ []) 2 10 ≡ some ids)
    × (length ids ≤ min 2 10)
    × All (λ id. is_live two.nodes id ≡ true) ids
    × ((id : ℕ) → occurrences id ids ≤ 1)
    × ((id : ℕ) → is_live two.nodes id ≡ true → 0 < min 2 10 → 0 < length ids)
search_total_example = search_total two (5 ∷ 5 ∷ []) 2 10 two-IsValid

cleanup-cleaned_example : cleanup two ≡ cleaned two
cleanup-cleaned_example = cleanup-cleaned two two-IsValid.keyed

cleanup-IsValid_example : IsValid (cleanup two)
cleanup-IsValid_example = cleanup-IsValid two two-IsValid

reindex_total_example :
    (t : HnswIndex ℕ) × (reindex two ≡ some t)
    × IsValid t
    × (t.config ≡ two.config)
    × ((x : ℕ) → vector_at t x ≡ revived two.config two.nodes x)
    × ((x : ℕ) → contains x t.nodes ≡ is_some (vector_at t x))
reindex_total_example = reindex_total two two-IsValid.keyed

rebuilt_total_example :
    (t : HnswIndex ℕ) × (reindex (cleanup three) ≡ some t)
    × IsValid t
    × (t.config ≡ three.config)
    × ((x : ℕ) → vector_at t x ≡ vector_at three x)
rebuilt_total_example = rebuilt_total three three-IsSound.valid three-IsSound.sized
