-- ===== src/Index/Hnsw/Update/Clean.antt =====
-- Cleanup, which edits the nodes while it walks over them, against one simultaneous step.
use vector_database.Prelude.{
  ℕ, ◌≡◌, refl, sym, subst, ap, ◌∙◌, Bool, true, false, none, some, List, [], ◌∷◌, ◌++◌,
  if◌then◌else◌, nat_eq, nat_beq_iff, arith, Bool-cases, inl, inr,
}
use mathlib.Core.List.{append_assoc, append-nil}
use vector_database.Prelude.Map.{Map, find, contains, IsMap}
use vector_database.Prelude.Set.{filter}
use vector_database.Float.{Float}
use vector_database.Index.Hnsw.{Node, HnswIndex, set_at, is_live}
use vector_database.Index.Hnsw.Update.{clean_neighbors, clean, cleanup}

-- all sets without the elements that fail the test
unfoldable pub keep_sets : (ℕ → Bool) → Map ℕ (List ℕ) → Map ℕ (List ℕ)
keep_sets p [] = []
keep_sets p ((level, ids) ∷ rest) = (level, filter p ids) ∷ keep_sets p rest

pub set_at-keep_sets :
    (p : ℕ → Bool) (l : ℕ) (sets : Map ℕ (List ℕ))
    → set_at l (keep_sets p sets) ≡ filter p (set_at l sets)
unfolding set_at find keep_sets filter
set_at-keep_sets p l [] = refl
set_at-keep_sets p l ((k, ids) ∷ rest) = ground (arith, set_at-keep_sets p l rest)

pub set_at_nil : (k : ℕ) → set_at k [] ≡ []
unfolding set_at find
set_at_nil k = refl

module _ {R : Type 0} where
  -- the active nodes, with the neighbors that pass the test
  unfoldable pub keep : (ℕ → Bool) → Map ℕ (Node R) → Map ℕ (Node R)
  keep p [] = []
  keep p ((id, node) ∷ rest) =
      let later = keep p rest in
      if node.active
      then (id, record node { neighbors = keep_sets p node.neighbors }) ∷ later
      else later

  -- Cleanup as one step: the active nodes, and of their neighbors the active ones.
  unfoldable pub cleaned : HnswIndex R → HnswIndex R
  unfolding keep
  cleaned s = record s { nodes = keep (is_live s.nodes) s.nodes }

  clean_neighbors-keep_sets :
      (nodes : Map ℕ (Node R)) (p : ℕ → Bool) (sets : Map ℕ (List ℕ))
      → is_live nodes ≡ p
      → clean_neighbors nodes sets ≡ keep_sets p sets
  unfolding clean_neighbors keep_sets
  clean_neighbors-keep_sets nodes p [] h = refl
  clean_neighbors-keep_sets nodes p ((level, ids) ∷ rest) h =
      let later = clean_neighbors-keep_sets nodes p rest h in
      λ i. (level, filter (h i) ids) ∷ later i

  find-append :
      (x : ℕ) (m n : Map ℕ (Node R))
      → find x (m ++ n) ≡ elim (find x m) [ none ↦ find x n | some node ↦ some node ]
  unfolding find
  find-append x [] n = refl
  find-append x ((k, node) ∷ m) n = ground (arith, find-append x m n)

  -- What stands after a node is not that node.
  absent_after :
      (done rest : Map ℕ (Node R)) (id : ℕ) (node : Node R)
      → IsMap (done ++ ((id, node) ∷ rest))
      → (contains id done ≡ false) × (contains id rest ≡ false)
  unfolding find
  absent_after [] rest id node h = (refl, h.0)
  absent_after ((k, v) ∷ done) rest id node h = ground (
    arith,
    absent_after done rest id node h.1,
    find-append k done ((id, node) ∷ rest),
    nat_beq_iff id k,
    nat_beq_iff k id,
  )

  IsMap-skip :
      (done rest : Map ℕ (Node R)) (id : ℕ) (node : Node R)
      → IsMap (done ++ ((id, node) ∷ rest))
      → IsMap (done ++ rest)
  unfolding find
  IsMap-skip [] rest id node h = h.1
  IsMap-skip ((k, v) ∷ done) rest id node h = (
    ground (arith, find-append k done rest, find-append k done ((id, node) ∷ rest)),
    IsMap-skip done rest id node h.1,
  )

  IsMap-change :
      (done rest : Map ℕ (Node R)) (id : ℕ) (node node' : Node R)
      → IsMap (done ++ ((id, node) ∷ rest))
      → IsMap (done ++ ((id, node') ∷ rest))
  unfolding find
  IsMap-change [] rest id node node' h = h
  IsMap-change ((k, v) ∷ done) rest id node node' h = (
    ground (arith, find-append k done ((id, node') ∷ rest), find-append k done ((id, node) ∷ rest)),
    IsMap-change done rest id node node' h.1,
  )

module _ {R : Type 0} ⦃f : Float R⦄ where
  live-skip :
      (done rest : Map ℕ (Node R)) (id : ℕ) (node : Node R)
      → IsMap (done ++ ((id, node) ∷ rest))
      → node.active ≡ false
      → (x : ℕ) → is_live (done ++ rest) x ≡ is_live (done ++ ((id, node) ∷ rest)) x
  unfolding find
  live-skip done rest id node h dead x = ground (
    arith,
    find-append x done rest,
    find-append x done ((id, node) ∷ rest),
    absent_after done rest id node h,
    nat_beq_iff id x,
  )

  live-change :
      (done rest : Map ℕ (Node R)) (id : ℕ) (node node' : Node R) (x : ℕ)
      → node'.active ≡ node.active
      → is_live (done ++ ((id, node') ∷ rest)) x ≡ is_live (done ++ ((id, node) ∷ rest)) x
  unfolding find
  live-change done rest id node node' x e =
      ground
        (arith, find-append x done ((id, node') ∷ rest), find-append x done ((id, node) ∷ rest))

  clean-keep :
      (p : ℕ → Bool) (done rest : Map ℕ (Node R))
      → IsMap (done ++ rest)
      → ((x : ℕ) → is_live (done ++ rest) x ≡ p x)
      → clean done rest ≡ done ++ keep p rest
  unfolding clean keep
  clean-keep p done [] h live = sym (append-nil done)
  clean-keep p done ((id, node) ∷ rest) h live = elim (Bool-cases node.active) [
    | inr dead ↦ rw dead (
        clean-keep p done rest (IsMap-skip done rest id node h)
          (λ x. live-skip done rest id node h dead x ∙ live x))
    | inl active ↦
        simp
          (
            active,
            clean_neighbors-keep_sets (done ++ ((id, node) ∷ rest)) p node.neighbors
                (λ i x. live x i),
          )
          (let kept : Node R = record node {
            neighbors = keep_sets p node.neighbors;
            active = true;
          } in
            let passed : Map ℕ (Node R) = done ++ ((id, kept) ∷ []) in
            let e : passed ++ rest ≡ done ++ ((id, kept) ∷ rest) =
              append_assoc done ((id, kept) ∷ []) rest in
            clean-keep p passed rest (subst IsMap (sym e) (IsMap-change done rest id node kept h))
              (λ x.
                ap (λ m. is_live m x) e
                ∙ live-change done rest id node kept x (sym active)
                ∙ live x)
            ∙ append_assoc done ((id, kept) ∷ []) (keep p rest))
  ]

  -- The walk of Cleanup over distinct nodes, each edit of which may be seen by the next, does what one
  -- simultaneous step does, in whatever order the nodes stand.
  pub cleanup-cleaned : (s : HnswIndex R) → IsMap s.nodes → cleanup s ≡ cleaned s
  unfolding cleanup cleaned
  cleanup-cleaned s h =
      ap (λ m. record s { nodes = m }) (clean-keep (is_live s.nodes) [] s.nodes h (λ x. refl))

  find-keep :
      (p : ℕ → Bool) (nodes : Map ℕ (Node R)) (x : ℕ)
      → IsMap nodes
      → find x (keep p nodes) ≡ elim (find x nodes) [
        | none ↦ none
        | some node ↦
            if node.active
            then some (record node { neighbors = keep_sets p node.neighbors })
            else none
      ]
  unfolding find keep
  find-keep p [] x h = refl
  find-keep p ((k, node) ∷ rest) x h = ground (arith, find-keep p rest x h.1, nat_beq_iff k x)

  pub find-cleaned :
      (s : HnswIndex R) (x : ℕ)
      → IsMap s.nodes
      → find x (cleanup s).nodes ≡ elim (find x s.nodes) [
        | none ↦ none
        | some node ↦
            if node.active
            then some (record node { neighbors = keep_sets (is_live s.nodes) node.neighbors })
            else none
      ]
  unfolding cleaned
  find-cleaned s x h =
      ap (λ t. find x t.nodes) (cleanup-cleaned s h) ∙ find-keep (is_live s.nodes) s.nodes x h

  IsMap-keep : (p : ℕ → Bool) (nodes : Map ℕ (Node R)) → IsMap nodes → IsMap (keep p nodes)
  unfolding keep
  IsMap-keep p [] h = h
  IsMap-keep p ((k, node) ∷ rest) h = ground (arith, IsMap-keep p rest h.1, find-keep p rest k h.1)

  pub cleanup-keyed : (s : HnswIndex R) → IsMap s.nodes → IsMap (cleanup s).nodes
  unfolding cleaned
  cleanup-keyed s h =
      subst (λ t. IsMap t.nodes) (sym (cleanup-cleaned s h))
        (IsMap-keep (is_live s.nodes) s.nodes h)
