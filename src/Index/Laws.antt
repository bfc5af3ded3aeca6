-- ===== src/Index/Laws.antt =====
-- What the vector store relies on of an index, over what the index stands for: a partial function
-- from identifiers to vectors.
use vector_database.Prelude.{
  ℕ, ◌≤◌, ◌≡◌, Bool, true, false, not, ◌&&◌, ◌||◌, Option, none, some, List, length, All, nat_beq,
  if◌then◌else◌,
}
use vector_database.Float.{Vector}
use vector_database.Index.{VectorIndex}
use vector_database.Index.Nearest.Count.{occurrences}

abbrev pub is_some {ℓ} : {A : Type ℓ} → Option A → Bool
is_some none = false
is_some (some _) = true

-- What an index stands for.
pub record IndexView (R I : Type 0) : Type 1 where
  -- a state that the operations reach
  pub IsSound : I → Type 0
  pub dimension : I → ℕ
  pub vector_at : I → ℕ → Option (Vector R)
  -- the identifiers that Insert refuses
  pub taken : I → ℕ → Bool

pub record IndexLaws (R I : Type 0) ⦃index : VectorIndex R I⦄ ⦃view : IndexView R I⦄ : Type 0 where
  pub insert_law :
      (s : I) (id : ℕ) (v : Vector R)
      → view.IsSound s
      → (t : I) × (index.insert s id v ≡ some t)
        × view.IsSound t
        × (view.dimension t ≡ view.dimension s)
        × ((x : ℕ)
            → view.vector_at t x ≡ (
                if nat_beq (length v) (view.dimension s) && (not (view.taken s id) && nat_beq id x)
                then some v
                else view.vector_at s x))
        × ((x : ℕ)
            → view.taken t x ≡ (
                (nat_beq (length v) (view.dimension s) && (not (view.taken s id) && nat_beq id x))
                || view.taken s x))
  pub remove_law :
      (s : I) (id : ℕ)
      → view.IsSound s
      → view.IsSound (index.remove s id)
        × (view.dimension (index.remove s id) ≡ view.dimension s)
        × ((x : ℕ)
            → view.vector_at (index.remove s id) x
              ≡ (if nat_beq id x then none else view.vector_at s x))
        × ((x : ℕ) → nat_beq id x ≡ false → view.taken (index.remove s id) x ≡ view.taken s x)
  pub taken_law :
      (s : I) (x : ℕ) → view.IsSound s → view.taken s x ≡ false → view.vector_at s x ≡ none
  pub search_law :
      (s : I) (query : Vector R) (k search_param : ℕ)
      → view.IsSound s
      → (ids : List ℕ) × (index.search s query k search_param ≡ some ids)
        × (length ids ≤ k)
        × All (λ id. is_some (view.vector_at s id) ≡ true) ids
        × ((id : ℕ) → occurrences id ids ≤ 1)
  pub cleanup_law :
      (s : I)
      → view.IsSound s
      → view.IsSound (index.cleanup s)
        × (view.dimension (index.cleanup s) ≡ view.dimension s)
        × ((x : ℕ) → view.vector_at (index.cleanup s) x ≡ view.vector_at s x)
        × ((x : ℕ) → view.taken (index.cleanup s) x ≡ is_some (view.vector_at s x))
  pub reindex_law :
      (s : I)
      → view.IsSound s
      → ((x : ℕ) → view.taken s x ≡ is_some (view.vector_at s x))
      → (t : I) × (index.reindex s ≡ some t)
        × view.IsSound t
        × (view.dimension t ≡ view.dimension s)
        × ((x : ℕ) → view.vector_at t x ≡ view.vector_at s x)
        × ((x : ℕ) → view.taken t x ≡ is_some (view.vector_at s x))
