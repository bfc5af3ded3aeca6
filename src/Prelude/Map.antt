-- ===== src/Prelude/Map.antt =====
-- std::unordered_map as an association list in its order of iteration, which the standard leaves
-- open: a new key comes last. std::unordered_set is a list of its elements.
use Prim.Native.Nat.{◌+◌}
use mathlib.Core.Path.{◌≡◌, refl}
use mathlib.Core.Bool.{Bool, true, false}
use mathlib.Core.Option.{Option, none, some}
use mathlib.Core.List.{List, [], ◌∷◌}
use native.Mathlib.Omega.{arith}
use vector_database.Prelude.Tests.{if◌then◌else◌}
use vector_database.Prelude.Lists.{length}
use vector_database.Prelude.Equality.{Eq, ◌==◌, ==_refl}

abbrev pub Map {ℓ κ} : Type ℓ → Type κ → Type (ℓ ⊔ κ)
Map K V = List (K × V)

module _ {ℓ κ} {K : Type ℓ} {V : Type κ} ⦃e : Eq K⦄ where
  -- find; at, whose exception is `none`
  unfoldable pub find : K → Map K V → Option V
  find k [] = none
  find k ((j, v) ∷ m) = if j == k then some v else find k m

  -- m[k] = v
  unfoldable pub assign : K → V → Map K V → Map K V
  assign k v [] = (k, v) ∷ []
  assign k v ((j, w) ∷ m) = if j == k then (j, v) ∷ m else (j, w) ∷ assign k v m

  unfoldable pub erase : K → Map K V → Map K V
  erase k [] = []
  erase k ((j, v) ∷ m) = let rest = erase k m in if j == k then rest else (j, v) ∷ rest

  abbrev pub contains : K → Map K V → Bool
  contains k m = elim (find k m) [ none ↦ false | some _ ↦ true ]

  -- No key stands twice.
  abbrev pub IsMap : Map K V → Type 0
  IsMap [] = Unit
  IsMap ((k, v) ∷ m) = (contains k m ≡ false) × IsMap m

module _ {ℓ κ} {K : Type ℓ} {V : Type κ} ⦃e : Eq K⦄ where
  pub find-assign :
      (k j : K) (v : V) (m : Map K V)
      → find j (assign k v m) ≡ (if k == j then some v else find j m)
  unfolding find assign
  find-assign k j v [] = refl
  find-assign k j v ((i, w) ∷ m) =
      ground (arith, e.beq_iff i k, e.beq_iff i j, e.beq_iff k j, find-assign k j v m)

  pub find-erase :
      (k j : K) (m : Map K V) → find j (erase k m) ≡ (if k == j then none else find j m)
  unfolding find erase
  find-erase k j [] = ground arith
  find-erase k j ((i, w) ∷ m) =
      ground (arith, e.beq_iff i k, e.beq_iff i j, e.beq_iff k j, find-erase k j m)

  pub find-assign_self : (k : K) (v : V) (m : Map K V) → find k (assign k v m) ≡ some v
  find-assign_self k v m = simp (find-assign, ==_refl)

  pub IsMap-assign : (k : K) (v : V) (m : Map K V) → IsMap m → IsMap (assign k v m)
  unfolding find assign
  IsMap-assign k v [] h = ground arith
  IsMap-assign k v ((i, w) ∷ m) h =
      ground (arith, e.beq_iff i k, e.beq_iff k i, find-assign k i v m, IsMap-assign k v m)

  pub IsMap-erase : (k : K) (m : Map K V) → IsMap m → IsMap (erase k m)
  unfolding find erase
  IsMap-erase k [] h = h
  IsMap-erase k ((i, w) ∷ m) h = ground (arith, e.beq_iff i k, find-erase k i m, IsMap-erase k m)

  pub length-assign_new :
      (k : K) (v : V) (m : Map K V) → contains k m ≡ false → length (assign k v m) ≡ length m + 1
  unfolding find assign
  length-assign_new k v [] h = omega arith
  length-assign_new k v ((i, w) ∷ m) h = ground (arith, length-assign_new k v m)

  pub length-assign_old :
      (k : K) (v : V) (m : Map K V) → contains k m ≡ true → length (assign k v m) ≡ length m
  unfolding find assign
  length-assign_old k v [] h = cc
  length-assign_old k v ((i, w) ∷ m) h = ground (arith, length-assign_old k v m)

  pub erase_absent : (k : K) (m : Map K V) → contains k m ≡ false → erase k m ≡ m
  unfolding find erase
  erase_absent k [] h = refl
  erase_absent k ((i, w) ∷ m) h = ground (arith, erase_absent k m)

  pub length-erase :
      (k : K) (m : Map K V) → IsMap m → contains k m ≡ true → length (erase k m) + 1 ≡ length m
  unfolding find erase
  length-erase k [] d h = cc
  length-erase k ((i, w) ∷ m) d h =
      ground (arith, e.beq_iff i k, length-erase k m, erase_absent k m)

pub ruleset map_laws = (find-assign, find-erase, find-assign_self, ==_refl)
