-- ===== src/Index/Nearest.antt =====
-- std::pair<float, Id> with its order, and std::priority_queue over it: the list of the elements in
-- the order in which top and pop give them.
pub mod Order
pub mod Sort
pub mod Count
use vector_database.Prelude.{
  ℕ, ◌≡◌, refl, Bool, true, false, not, ◌&&◌, ◌||◌, List, [], ◌∷◌, ltb, if◌then◌else◌, arith,
}
use vector_database.Float.{Float, Ordered}

abbrev pub Pair : Type 0 → Type 0
Pair R = R × ℕ

module _ {R : Type 0} ⦃f : Float R⦄ where
  -- operator<
  unfoldable pub less : Pair R → Pair R → Bool
  less p q = f.lt p.0 q.0 || (not (f.lt q.0 p.0) && ltb p.1 q.1)

  -- emplace into a queue whose top is the greatest
  unfoldable pub push : Pair R → List (Pair R) → List (Pair R)
  push p [] = p ∷ []
  push p (q ∷ rest) = if less q p then p ∷ q ∷ rest else q ∷ push p rest

  -- emplace into a queue whose top is the least
  unfoldable pub push_least : Pair R → List (Pair R) → List (Pair R)
  push_least p [] = p ∷ []
  push_least p (q ∷ rest) = if less q p then q ∷ push_least p rest else p ∷ q ∷ rest

  abbrev pub sort_into : List (Pair R) → List (Pair R) → List (Pair R)
  sort_into sorted [] = sorted
  sort_into sorted (p ∷ rest) = sort_into (push_least p sorted) rest

  -- std::sort, as an insertion sort
  unfoldable pub sort : List (Pair R) → List (Pair R)
  sort l = sort_into [] l
