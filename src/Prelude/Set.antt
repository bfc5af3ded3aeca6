-- ===== src/Prelude/Set.antt =====
-- std::unordered_set as the list of its elements: a new one comes last.
use mathlib.Core.Path.{◌≡◌, refl, subst}
use mathlib.Core.Bool.{Bool, true, false, not, ◌&&◌, ◌||◌}
use mathlib.Core.List.{List, [], ◌∷◌}
use native.Mathlib.Omega.{arith}
use Prim.Native.Nat.{◌+◌, ◌≤◌}
use vector_database.Prelude.Tests.{if◌then◌else◌, Bool-cases}
use mathlib.Core.Logic.{inl, inr}
use vector_database.Prelude.Lists.{length, is_empty, All}
use vector_database.Prelude.Equality.{Eq, ◌==◌}

module _ {ℓ} {A : Type ℓ} where
  unfoldable pub filter : (A → Bool) → List A → List A
  filter p [] = []
  filter p (x ∷ xs) = let rest = filter p xs in if p x then x ∷ rest else rest

  pub length-filter-le : (p : A → Bool) (xs : List A) → length (filter p xs) ≤ length xs
  unfolding filter
  length-filter-le p [] = omega arith
  length-filter-le p (x ∷ xs) = ground (arith, length-filter-le p xs)

module _ {ℓ} {A : Type ℓ} ⦃e : Eq A⦄ where
  -- contains
  unfoldable pub member : A → List A → Bool
  member a [] = false
  member a (x ∷ xs) = x == a || member a xs

  unfoldable pub insert : A → List A → List A
  insert a [] = a ∷ []
  insert a (x ∷ xs) = if x == a then x ∷ xs else x ∷ insert a xs

  -- erase
  abbrev pub delete : A → List A → List A
  delete a = filter (λ x. not (x == a))

  -- clear, and insert of each
  unfoldable pub insert_all : List A → List A → List A
  insert_all s [] = s
  insert_all s (x ∷ xs) = insert_all (insert x s) xs

module _ {ℓ} {A : Type ℓ} ⦃e : Eq A⦄ where
  pub member-filter :
      (a : A) (p : A → Bool) (xs : List A) → member a (filter p xs) ≡ (member a xs && p a)
  unfolding member filter
  member-filter a p [] = refl
  member-filter a p (x ∷ xs) = ground (arith, e.beq_iff x a, member-filter a p xs)

  pub member-insert : (a b : A) (xs : List A) → member b (insert a xs) ≡ (a == b || member b xs)
  unfolding member insert
  member-insert a b [] = refl
  member-insert a b (x ∷ xs) =
      ground (arith, e.beq_iff x a, e.beq_iff x b, e.beq_iff a b, member-insert a b xs)

  pub length-insert :
      (a : A) (xs : List A)
      → length (insert a xs) ≡ (if member a xs then length xs else length xs + 1)
  unfolding member insert
  length-insert a [] = omega arith
  length-insert a (x ∷ xs) = ground (arith, length-insert a xs)

  pub member-insert_all :
      (b : A) (s xs : List A) → member b (insert_all s xs) ≡ (member b s || member b xs)
  unfolding member insert_all
  member-insert_all b s [] = ground arith
  member-insert_all b s (x ∷ xs) =
      ground (arith, member-insert x b s, member-insert_all b (insert x s) xs)

  pub length-insert_all-le : (s xs : List A) → length (insert_all s xs) ≤ length s + length xs
  unfolding insert_all
  length-insert_all-le s [] = omega arith
  length-insert_all-le s (x ∷ xs) =
      ground (arith, length-insert x s, length-insert_all-le (insert x s) xs)

  -- What holds of all holds of a member.
  pub All-member {κ} : (P : A → Type κ) (a : A) (xs : List A) → All P xs → member a xs ≡ true → P a
  unfolding member
  All-member P a [] h m = cc
  All-member P a (x ∷ xs) h m = elim (Bool-cases (x == a)) [
    | inl here ↦ subst P ((e.beq_iff x a).0 here) h.0
    | inr later ↦ All-member P a xs h.1 (ground arith)
  ]

  pub member_of_empty : (a : A) (xs : List A) → length xs ≡ 0 → member a xs ≡ false
  unfolding member
  member_of_empty a [] h = refl
  member_of_empty a (x ∷ xs) h = absurd (omega arith)

  pub is_empty-insert : (a : A) (xs : List A) → is_empty (insert a xs) ≡ false
  unfolding insert
  is_empty-insert a [] = refl
  is_empty-insert a (x ∷ xs) = ground arith
