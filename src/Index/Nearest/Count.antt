-- ===== src/Index/Nearest/Count.antt =====
-- How often an identifier stands in a list and in a queue.
use vector_database.Prelude.{
  ℕ, suc, ◌+◌, ◌≤◌, ◌≡◌, refl, List, [], ◌∷◌, ◌++◌, map, reverse, length, drop, if◌then◌else◌,
  arith, nat_beq, reverse-cons,
}
use vector_database.Float.{Float}
use vector_database.Index.Nearest.{Pair, push, push_least}

abbrev pub occurrences : ℕ → List ℕ → ℕ
occurrences id [] = 0
occurrences id (x ∷ xs) = if nat_beq x id then suc (occurrences id xs) else occurrences id xs

abbrev pub occ : {R : Type 0} → ℕ → List (Pair R) → ℕ
occ id [] = 0
occ id (p ∷ ps) = if nat_beq p.1 id then suc (occ id ps) else occ id ps

occurrences-append :
    (id : ℕ) (xs ys : List ℕ) → occurrences id (xs ++ ys) ≡ occurrences id xs + occurrences id ys
occurrences-append id [] ys = omega arith
occurrences-append id (x ∷ xs) ys = ground (arith, occurrences-append id xs ys)

occurrences-reverse : (id : ℕ) (xs : List ℕ) → occurrences id (reverse xs) ≡ occurrences id xs
occurrences-reverse id [] = refl
occurrences-reverse id (x ∷ xs) =
    rw (reverse-cons x xs)
      (ground (arith, occurrences-append id (reverse xs) (x ∷ []), occurrences-reverse id xs))

module _ {R : Type 0} where
  occurrences-map : (id : ℕ) (ps : List (Pair R)) → occurrences id (map (λ p. p.1) ps) ≡ occ id ps
  occurrences-map id [] = refl
  occurrences-map id (p ∷ ps) = ground (arith, occurrences-map id ps)

  pub occurrences-results :
      (id : ℕ) (ps : List (Pair R)) → occurrences id (reverse (map (λ p. p.1) ps)) ≡ occ id ps
  occurrences-results id ps =
      rw (occurrences-reverse id (map (λ p. p.1) ps)) (occurrences-map id ps)

  pub occ-tail-le : (id : ℕ) (ps : List (Pair R)) → occ id (drop 1 ps) ≤ occ id ps
  occ-tail-le id [] = omega arith
  occ-tail-le id (p ∷ ps) = ground arith

module _ {R : Type 0} ⦃f : Float R⦄ where
  pub occ-push : (id : ℕ) (p : Pair R) (ps : List (Pair R)) → occ id (push p ps) ≡ occ id (p ∷ ps)
  unfolding push
  occ-push id p [] = refl
  occ-push id p (q ∷ ps) = ground (arith, occ-push id p ps)

  pub occ-push_least :
      (id : ℕ) (p : Pair R) (ps : List (Pair R)) → occ id (push_least p ps) ≡ occ id (p ∷ ps)
  unfolding push_least
  occ-push_least id p [] = refl
  occ-push_least id p (q ∷ ps) = ground (arith, occ-push_least id p ps)

  pub length-push : (p : Pair R) (l : List (Pair R)) → length (push p l) ≡ length l + 1
  unfolding push
  length-push p [] = omega arith
  length-push p (q ∷ l) = ground (arith, length-push p l)

  pub length-push_least : (p : Pair R) (l : List (Pair R)) → length (push_least p l) ≡ length l + 1
  unfolding push_least
  length-push_least p [] = omega arith
  length-push_least p (q ∷ l) = ground (arith, length-push_least p l)
