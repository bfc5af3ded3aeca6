-- ===== src/Index/Hnsw/Update/Connect.antt =====
-- ConnectNeighbors, and the rounds of Insert over the levels, on a well-formed graph.
use vector_database.Prelude.{
  ℕ, suc, ◌+◌, ◌≤◌, ◌≡◌, refl, ap, ◌∙◌, true, false, ◌&&◌, ◌||◌, some, List, [], ◌∷◌, length,
  if◌then◌else◌, nat_eq, nat_beq, nat_beq_iff, arith, All, All-weaken, Option-cases, inl, inr,
}
use vector_database.Prelude.Map.{find, contains}
use vector_database.Prelude.Set.{insert as insert_element, length-insert}
use vector_database.Float.{Float}
use vector_database.Index.Hnsw.{HnswIndex, links, is_live}
use vector_database.Index.Hnsw.Links.{
  links-set_links, SameNodes, SameNodes-refl, SameNodes-trans, contains-SameNodes,
  is_live-SameNodes,
}
use vector_database.Index.Hnsw.SearchLevel.{max_neighbors}
use vector_database.Index.Hnsw.Update.{add_link, connect_neighbor, connect_neighbors}
use vector_database.Index.Hnsw.Update.Graph.{
  IsGraph, add_links, add_links-IsGraph, add_links-SameNodes,
}
use vector_database.Index.Hnsw.Update.Prune.{IsPruned, prune_total}

module _ {R : Type 0} where
  -- While node n is being linked at level l, with `budget` more neighbors to come.
  pub record IsConnecting (s : HnswIndex R) (l n budget : ℕ) : Type 0 where
    pub graph : IsGraph s
    pub others :
        (k x : ℕ) → (nat_beq x n && nat_beq k l) ≡ false → length (links s k x) ≤ max_neighbors s k
    pub own : length (links s l n) + budget ≤ max_neighbors s l

  -- Links changed at level l at most, and nothing else did.
  pub record Rewires (s : HnswIndex R) (l : ℕ) (t : HnswIndex R) : Type 0 where
    pub same : SameNodes s t
    pub frame : (k x : ℕ) → nat_beq k l ≡ false → length (links t k x) ≤ length (links s k x)

  Rewires-refl : (s : HnswIndex R) (l : ℕ) → Rewires s l s
  Rewires-refl s l = record { same = SameNodes-refl s; frame = λ k x h. omega arith }

  Rewires-trans :
      (s : HnswIndex R) (l : ℕ) (t u : HnswIndex R) → Rewires s l t → Rewires t l u → Rewires s l u
  Rewires-trans s l t u h k = record {
    same = SameNodes-trans h.same k.same;
    frame = λ j x e. ground (arith, h.frame j x e, k.frame j x e);
  }

  pub max_neighbors-SameNodes :
      (s t : HnswIndex R) (k : ℕ) → SameNodes s t → max_neighbors t k ≡ max_neighbors s k
  max_neighbors-SameNodes s t k h = ap (λ c. if nat_beq k 0 then c.m0 else c.m) h.config

module _ {R : Type 0} ⦃f : Float R⦄ where
  length-add_links-le :
      (s : HnswIndex R) (l a b k x : ℕ)
      → nat_beq a b ≡ false
      → length (links (add_links s l a b) k x)
        ≤ length (links s k x) + (if nat_beq k l && (nat_beq x a || nat_beq x b) then 1 else 0)
  unfolding add_link
  length-add_links-le s l a b k x ne = ground (
    arith,
    links-set_links s l a k x (insert_element b (links s l a)),
    links-set_links s l a l b (insert_element b (links s l a)),
    links-set_links (add_link s l a b) l b k x (insert_element a (links (add_link s l a b) l b)),
    length-insert b (links s l a),
    length-insert a (links (add_link s l a b) l b),
    nat_beq_iff a b,
    nat_beq_iff a x,
    nat_beq_iff b x,
    nat_beq_iff x a,
    nat_beq_iff x b,
    nat_beq_iff l k,
    nat_beq_iff k l,
  )

  -- The two new links, after the set of the neighbor was pruned.
  pruned-IsConnecting :
      (s : HnswIndex R) (l n b budget : ℕ) (t : HnswIndex R)
      → IsConnecting s l n (suc budget)
      → nat_beq n b ≡ false
      → SameNodes s (add_links s l n b)
      → IsPruned (add_links s l n b) l b t
      → IsConnecting t l n budget
  pruned-IsConnecting s l n b budget t c ne same p =
      let s' = add_links s l n b in
      let fits = λ (k : ℕ). max_neighbors-SameNodes s t k (SameNodes-trans same p.same) in
      let fits' = max_neighbors-SameNodes s s' l same in
      record {
        graph = p.graph;
        others = λ k x h. ground (
          arith,
          fits k,
          fits',
          c.others k x,
          p.shorter k x,
          p.bounded,
          length-add_links-le s l n b k x ne,
          nat_beq_iff x b,
          nat_beq_iff k l,
        );
        own = ground (arith, fits l, c.own, p.shorter l n, length-add_links-le s l n b l n ne);
      }

  connect_neighbor_total :
      (s : HnswIndex R) (l n b budget : ℕ)
      → IsConnecting s l n (suc budget)
      → contains n s.nodes ≡ true
      → is_live s.nodes b ≡ true
      → nat_beq n b ≡ false
      → (t : HnswIndex R) × (connect_neighbor s n l b ≡ some t)
        × IsConnecting t l n budget
        × Rewires s l t
  unfolding connect_neighbor
  connect_neighbor_total s l n b budget c hn hb ne = elim (Option-cases (find b s.nodes)) [
    | inl missing ↦ absurd (ground arith)
    | inr (node, found) ↦
        let active : node.active ≡ true = ground arith in
        let here : contains b s.nodes ≡ true = ground arith in
        let s' = add_links s l n b in
        let same = add_links-SameNodes s l n b hn here in
        let (t, e, p) =
          prune_total s' l b (add_links-IsGraph s l n b hn here ne c.graph)
            (contains-SameNodes s s' b same ∙ here) in
        (
          t,
          rw (found, active) e,
          pruned-IsConnecting s l n b budget t c ne same p,
          record {
            same = SameNodes-trans same p.same;
            frame = λ k x h. ground (arith, p.shorter k x, length-add_links-le s l n b k x ne);
          },
        )
  ]

  pub connect_neighbors_total :
      (s : HnswIndex R) (l n : ℕ) (bs : List ℕ)
      → IsConnecting s l n (length bs)
      → contains n s.nodes ≡ true
      → All (λ b. (is_live s.nodes b ≡ true) × (nat_beq n b ≡ false)) bs
      → (t : HnswIndex R) × (connect_neighbors s n bs l ≡ some t)
        × IsConnecting t l n 0
        × Rewires s l t
  unfolding connect_neighbors
  connect_neighbors_total s l n [] c hn h = (s, refl, c, Rewires-refl s l)
  connect_neighbors_total s l n (b ∷ bs) c hn h =
      let (t, et, ct, st) = connect_neighbor_total s l n b (length bs) c hn h.0.0 h.0.1 in
      let (u, eu, cu, su) =
        connect_neighbors_total t l n bs ct (contains-SameNodes s t n st.same ∙ hn) (
          All-weaken _ _
            (λ (x : ℕ) (hx : (is_live s.nodes x ≡ true) × (nat_beq n x ≡ false)).
              let r : (is_live t.nodes x ≡ true) × (nat_beq n x ≡ false) =
                (is_live-SameNodes s t x st.same ∙ hx.0, hx.1) in
              r)
            bs h.1) in
      (u, rw et eu, cu, Rewires-trans s l t u st su)
