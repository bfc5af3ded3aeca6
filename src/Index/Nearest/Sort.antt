-- ===== src/Index/Nearest/Sort.antt =====
-- Sorting loses and invents no pair.
use mathlib.Core.List.{Perm, perm_middle, append-nil}
use mathlib.Core.List.Perm
use vector_database.Prelude.{◌+◌, ◌≡◌, List, [], ◌∷◌, ◌++◌, length, arith, Bool-cases, inl, inr}
use vector_database.Float.{Float}
use vector_database.Index.Nearest.{Pair, less, push_least, sort_into, sort}

module _ {R : Type 0} ⦃f : Float R⦄ where
  push_least-perm : (p : Pair R) (l : List (Pair R)) → Perm (push_least p l) (p ∷ l)
  unfolding push_least
  push_least-perm p [] = Perm.refl (p ∷ [])
  push_least-perm p (q ∷ l) = elim (Bool-cases (less q p)) [
    | inl below ↦ rw below (Perm.trans (Perm.cons q (push_least-perm p l)) (Perm.swap p q l))
    | inr above ↦ rw above (Perm.refl (p ∷ q ∷ l))
  ]

  length-push_least : (p : Pair R) (l : List (Pair R)) → length (push_least p l) ≡ length l + 1
  unfolding push_least
  length-push_least p [] = omega arith
  length-push_least p (q ∷ l) = ground (arith, length-push_least p l)

  sort_into-perm : (acc l : List (Pair R)) → Perm (sort_into acc l) (l ++ acc)
  sort_into-perm acc [] = Perm.refl acc
  sort_into-perm acc (p ∷ l) =
      Perm.trans (sort_into-perm (push_least p acc) l)
        (Perm.trans (Perm.append (Perm.refl l) (push_least-perm p acc)) (perm_middle l acc))

  pub sort-perm : (l : List (Pair R)) → Perm (sort l) l
  unfolding sort
  sort-perm l = rw (append-nil l) at (sort_into-perm [] l)

  length-sort_into : (acc l : List (Pair R)) → length (sort_into acc l) ≡ length l + length acc
  length-sort_into acc [] = omega arith
  length-sort_into acc (p ∷ l) =
      omega (arith, length-sort_into (push_least p acc) l, length-push_least p acc)

  pub length-sort : (l : List (Pair R)) → length (sort l) ≡ length l
  unfolding sort
  length-sort l = omega (arith, length-sort_into [] l)
