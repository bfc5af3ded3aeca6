-- ===== src/Index/Hnsw/Update/Prune.antt =====
-- Pruning the links of a node down to the maximum.
use vector_database.Prelude.{
  ℕ, ◌≤◌, ◌≡◌, ◌∙◌, true, not, ◌&&◌, some, List, [], ◌∷◌, length, if◌then◌else◌, nat_eq, nat_beq,
  nat_beq_iff, arith, Bool-cases, inl, inr, ltb,
}
use vector_database.Prelude.Map.{contains}
use vector_database.Prelude.Set.{
  member, insert_all, delete, member-filter, length-filter-le, member-insert_all,
  length-insert_all-le, All-member,
}
use vector_database.Float.{Float}
use vector_database.Index.Hnsw.{HnswIndex, links, set_links, node_or_blank}
use vector_database.Index.Hnsw.Links.{
  links-set_links, SameNodes, SameNodes-refl, SameNodes-trans, contains-SameNodes,
  set_links-SameNodes,
}
use vector_database.Index.Hnsw.SearchLevel.{max_neighbors}
use vector_database.Index.Hnsw.Update.{unlink, prune}
use vector_database.Index.Hnsw.Update.Graph.{IsGraph}
use vector_database.Index.Hnsw.SearchLevel.Select.{select_neighbors_total}

module _ {R : Type 0} ⦃f : Float R⦄ where
  -- What the loop over the old neighbors takes away.
  member-unlink :
      (s : HnswIndex R) (l b : ℕ) (kept olds : List ℕ) (k x y : ℕ)
      → member y (links (unlink s l b kept olds) k x) ≡ (
          member y (links s k x)
          && not (nat_beq l k && (member x olds && (not (member x kept) && nat_beq y b))))
  unfolding unlink member
  member-unlink s l b kept [] k x y = ground arith
  member-unlink s l b kept (old ∷ olds) k x y = elim (Bool-cases (member old kept)) [
    | inl stays ↦ rw stays (ground (arith, member-unlink s l b kept olds k x y, nat_beq_iff old x))
    | inr goes ↦ rw goes (
        ground (
          arith,
          member-unlink (set_links s l old (delete b (links s l old))) l b kept olds k x y,
          links-set_links s l old k x (delete b (links s l old)),
          member-filter y (λ z. not (nat_beq z b)) (links s l old),
          nat_beq_iff old x,
          nat_beq_iff l k,
        ))
  ]

  length-unlink-le :
      (s : HnswIndex R) (l b : ℕ) (kept olds : List ℕ) (k x : ℕ)
      → length (links (unlink s l b kept olds) k x) ≤ length (links s k x)
  unfolding unlink
  length-unlink-le s l b kept [] k x = omega arith
  length-unlink-le s l b kept (old ∷ olds) k x = elim (Bool-cases (member old kept)) [
    | inl stays ↦ rw stays (length-unlink-le s l b kept olds k x)
    | inr goes ↦ rw goes (
        ground (
          arith,
          length-unlink-le (set_links s l old (delete b (links s l old))) l b kept olds k x,
          links-set_links s l old k x (delete b (links s l old)),
          length-filter-le (λ z. not (nat_beq z b)) (links s l old),
          nat_beq_iff old x,
          nat_beq_iff l k,
        ))
  ]

  unlink-SameNodes :
      (s : HnswIndex R) (l b : ℕ) (kept olds : List ℕ)
      → ((x : ℕ) → member x olds ≡ true → contains x s.nodes ≡ true)
      → SameNodes s (unlink s l b kept olds)
  unfolding unlink member
  unlink-SameNodes s l b kept [] present = SameNodes-refl s
  unlink-SameNodes s l b kept (old ∷ olds) present = elim (Bool-cases (member old kept)) [
    | inl stays ↦ simp stays (unlink-SameNodes s l b kept olds (λ x m. present x (ground arith)))
    | inr goes ↦
        let first =
          set_links-SameNodes s l old (delete b (links s l old)) (present old (ground arith)) in
        simp goes (
          SameNodes-trans first (
            unlink-SameNodes (set_links s l old (delete b (links s l old))) l b kept olds
              (λ x m. contains-SameNodes s _ x first ∙ present x (ground arith))))
  ]

  -- the index after pruning, where the set was too large
  abbrev pruned : HnswIndex R → ℕ → ℕ → List ℕ → HnswIndex R
  pruned s l b kept = set_links (unlink s l b kept (links s l b)) l b (insert_all [] kept)

  member-pruned :
      (s : HnswIndex R) (l b : ℕ) (kept : List ℕ) (k x y : ℕ)
      → member y (links (pruned s l b kept) k x) ≡ (
          if nat_beq b x && nat_beq l k
          then member y kept
          else (member y (links s k x)
              && not (
                  nat_beq l k && (member x (links s l b) && (not (member x kept) && nat_beq y b)))))
  unfolding member
  member-pruned s l b kept k x y = ground (
    arith,
    links-set_links (unlink s l b kept (links s l b)) l b k x (insert_all [] kept),
    member-unlink s l b kept (links s l b) k x y,
    member-insert_all y [] kept,
  )

  pruned-SameNodes :
      (s : HnswIndex R) (l b : ℕ) (kept : List ℕ)
      → IsGraph s
      → contains b s.nodes ≡ true
      → SameNodes s (pruned s l b kept)
  pruned-SameNodes s l b kept g h =
      let first = unlink-SameNodes s l b kept (links s l b) (g.closed l b) in
      SameNodes-trans first (
        set_links-SameNodes (unlink s l b kept (links s l b)) l b (insert_all [] kept)
          (contains-SameNodes s _ b first ∙ h))

  pruned-IsGraph :
      (s : HnswIndex R) (l b : ℕ) (kept : List ℕ)
      → IsGraph s
      → contains b s.nodes ≡ true
      → ((x : ℕ) → member x kept ≡ true → member x (links s l b) ≡ true)
      → IsGraph (pruned s l b kept)
  pruned-IsGraph s l b kept g h within = record {
    closed = λ k x y m.
        contains-SameNodes s (pruned s l b kept) y (pruned-SameNodes s l b kept g h)
        ∙ ground (arith, member-pruned s l b kept k x y, g.closed k x y, g.closed l b y, within y);
    symmetric = λ k x y. ground (
      arith,
      member-pruned s l b kept k x y,
      member-pruned s l b kept k y x,
      g.symmetric k x y,
      g.irreflexive l b,
      within x,
      within y,
      nat_beq_iff b x,
      nat_beq_iff b y,
      nat_beq_iff l k,
      nat_beq_iff x b,
      nat_beq_iff y b,
    );
    irreflexive = λ k x. ground (
      arith,
      member-pruned s l b kept k x x,
      g.irreflexive k x,
      within x,
      nat_beq_iff b x,
      nat_beq_iff l k,
    );
  }

  length-pruned-le :
      (s : HnswIndex R) (l b : ℕ) (kept : List ℕ) (k x : ℕ)
      → length kept ≤ max_neighbors s l
      → max_neighbors s l ≤ length (links s l b)
      → (length (links (pruned s l b kept) k x) ≤ length (links s k x))
        × (length (links (pruned s l b kept) l b) ≤ max_neighbors s l)
  length-pruned-le s l b kept k x few many = ground (
    arith,
    links-set_links (unlink s l b kept (links s l b)) l b k x (insert_all [] kept),
    links-set_links (unlink s l b kept (links s l b)) l b l b (insert_all [] kept),
    length-unlink-le s l b kept (links s l b) k x,
    length-insert_all-le [] kept,
    nat_beq_iff b x,
    nat_beq_iff l k,
    nat_beq_iff b b,
    nat_beq_iff l l,
  )

  -- What pruning the set of b at level l gives.
  pub record IsPruned (s : HnswIndex R) (l b : ℕ) (t : HnswIndex R) : Type 0 where
    pub graph : IsGraph t
    pub same : SameNodes s t
    pub shorter : (k x : ℕ) → length (links t k x) ≤ length (links s k x)
    pub bounded : length (links t l b) ≤ max_neighbors s l

  pub prune_total :
      (s : HnswIndex R) (l b : ℕ)
      → IsGraph s
      → contains b s.nodes ≡ true
      → (t : HnswIndex R) × (prune s l b ≡ some t) × IsPruned s l b t
  unfolding prune
  prune_total s l b g h = elim (Bool-cases (ltb (max_neighbors s l) (length (links s l b)))) [
    | inr small ↦ (
      s,
      rw small,
      record {
        graph = g;
        same = SameNodes-refl s;
        shorter = λ k x. omega arith;
        bounded = ground arith;
      },
    )
    | inl large ↦
        let (kept, e, few, chosen) =
          select_neighbors_total s (node_or_blank s b).vector (links s l b) l (g.closed l b) in
        let within = λ (x : ℕ) (m : member x kept ≡ true). (All-member _ x kept chosen m).1 in
        let many : max_neighbors s l ≤ length (links s l b) = ground arith in
        (
          pruned s l b kept,
          rw (large, e),
          record {
            graph = pruned-IsGraph s l b kept g h within;
            same = pruned-SameNodes s l b kept g h;
            shorter = λ k x. (length-pruned-le s l b kept k x few many).0;
            bounded = (length-pruned-le s l b kept l b few many).1;
          },
        )
  ]
