-- ===== src/Store.antt =====
-- engine/src/store/vector_store.cc: the vector store, over an index. Its lock makes each operation
-- one step. A call that throws is `none`.
pub mod Indexed
pub mod Total
pub mod Complete
pub mod Checksum
use vector_database.Prelude.{
  ℕ, ◌+◌, ◌*◌, ◌%◌, ◌^◌, Bool, true, false, not, ◌||◌, Option, none, some, List, [], ◌∷◌, map,
  foldl, length, leb, nat_beq, nat_eq, if◌then◌else◌, Text, ◌>>=◌,
}
use vector_database.Prelude.Map.{Map, find, assign, erase, contains}
use vector_database.Float.{Vector}
use vector_database.Index.{VectorIndex}

pub data IndexType : Type 0 where
  hnsw : IndexType
  flat : IndexType

pub record Data (R : Type 0) : Type 0 where
  pub id : ℕ
  pub vector : Vector R
  pub content : Text

pub record VectorStore (R I : Type 0) : Type 0 where
  pub index_type : IndexType
  pub store : Map ℕ (Data R)
  pub index : I
  pub vector_dimensionality : ℕ

-- std::sort
abbrev pub sort_into : ℕ → List ℕ → List ℕ
sort_into id [] = id ∷ []
sort_into id (x ∷ xs) = if leb id x then id ∷ x ∷ xs else x ∷ sort_into id xs

unfoldable pub sort : List ℕ → List ℕ
sort [] = []
sort (id ∷ ids) = sort_into id (sort ids)

-- One round of the hash, on 64 bits.
abbrev pub roll : ℕ → ℕ → ℕ
roll checksum c = (checksum * 71 + c) % 2 ^ 64

module _ {R : Type 0} where
  -- the loop of ComputeChecksum
  unfoldable pub hash_ids : Map ℕ (Data R) → ℕ → List ℕ → Option ℕ
  hash_ids store checksum [] = some checksum
  hash_ids store checksum (id ∷ ids) = do
    entry ← find id store
    hash_ids store (foldl roll (roll checksum id) entry.content) ids

  -- the loop of Search over the results of the index
  unfoldable pub gather : Map ℕ (Data R) → List ℕ → List (Data R)
  gather store [] = []
  gather store (id ∷ ids) =
      let rest = gather store ids in
      elim (find id store) [ none ↦ rest | some entry ↦ entry ∷ rest ]

module _ {R I : Type 0} where
  -- the two constructors
  unfoldable pub create : IndexType → I → ℕ → VectorStore R I
  create index_type index vector_dimensionality = record {
    index_type = index_type;
    store = [];
    index = index;
    vector_dimensionality = vector_dimensionality;
  }

  unfoldable pub load : IndexType → I → ℕ → Map ℕ (Data R) → VectorStore R I
  load index_type index vector_dimensionality store = record {
    index_type = index_type;
    store = store;
    index = index;
    vector_dimensionality = vector_dimensionality;
  }

  unfoldable pub compute_checksum : VectorStore R I → Option ℕ
  compute_checksum s = hash_ids s.store 0 (sort (map (λ p. p.0) s.store))

module _ {R I : Type 0} ⦃vector_index : VectorIndex R I⦄ where
  unfoldable pub insert : VectorStore R I → ℕ → Vector R → Text → Option (VectorStore R I × Bool)
  insert s id vector content =
      if contains id s.store || not (nat_beq (length vector) s.vector_dimensionality)
      then some (s, false)
      else do
        index ← vector_index.insert s.index id vector
        some (
          record s {
            store = assign id (record { id = id; vector = vector; content = content }) s.store;
            index = index;
          },
          true,
        )

  unfoldable pub remove : VectorStore R I → ℕ → VectorStore R I × Bool
  remove s id =
      if contains id s.store
      then (record s { store = erase id s.store; index = vector_index.remove s.index id }, true)
      else (s, false)

  unfoldable pub search : VectorStore R I → Vector R → ℕ → ℕ → Option (List (Data R))
  search s query k search_param =
      if nat_beq (length query) s.vector_dimensionality
      then (do
        result_ids ← vector_index.search s.index query k search_param
        some (gather s.store result_ids))
      else some []

  unfoldable pub cleanup : VectorStore R I → Bool → Option (VectorStore R I)
  cleanup s reindex =
      let index = vector_index.cleanup s.index in
      if reindex
      then (do index' ← vector_index.reindex index; some (record s { index = index' }))
      else some (record s { index = index })
