-- ===== src/Index/Hnsw/Update/Levels.antt =====
-- The rounds of Insert over the levels, on a well-formed graph.
use vector_database.Prelude.{
  ℕ, zero, suc, ◌+◌, ◌≤◌, ◌<◌, ◌≡◌, refl, ◌∙◌, true, false, some, List, [], ◌∷◌, length, nat_eq,
  nat_beq, nat_beq_iff, arith, All, All-weaken,
}
use vector_database.Prelude.Map.{contains}
use vector_database.Prelude.Set.{member, All-member, member_of_empty}
use vector_database.Float.{Float, Vector}
use vector_database.Index.Hnsw.{HnswIndex, links, is_live}
use vector_database.Index.Hnsw.Links.{
  SameNodes, SameNodes-refl, SameNodes-trans, contains-SameNodes, is_live-SameNodes,
}
use vector_database.Index.Hnsw.SearchLevel.{max_neighbors}
use vector_database.Index.Hnsw.SearchLevel.Select.{select_neighbors_total}
use vector_database.Index.Hnsw.SearchLevel.Total.{search_level_total}
use vector_database.Index.Hnsw.Update.{connect_levels, descend, first_or}
use vector_database.Index.Hnsw.Update.Graph.{IsGraph}
use vector_database.Index.Hnsw.Update.Connect.{IsConnecting, Rewires, connect_neighbors_total}

pub first_or_lem :
    (P : ℕ → Type 0) (nearest : List ℕ) (entry_point : ℕ)
    → All P nearest
    → P entry_point
    → P (first_or nearest entry_point)
first_or_lem P [] entry_point h he = he
first_or_lem P (x ∷ xs) entry_point h he = h.0

module _ {R : Type 0} ⦃f : Float R⦄ where
  -- While node n is being linked at the levels below `above`.
  pub record IsInserting (s : HnswIndex R) (n above : ℕ) : Type 0 where
    pub graph : IsGraph s
    pub bounded : (k x : ℕ) → length (links s k x) ≤ max_neighbors s k
    pub unlinked : (k : ℕ) → k < above → length (links s k n) ≡ 0

  -- No link of the level leads to the node that is not linked yet.
  unreached :
      (s : HnswIndex R) (n l : ℕ)
      → IsInserting s n (suc l)
      → (a b : ℕ) → member b (links s l a) ≡ true
      → nat_beq n b ≡ false
  unreached s n l h a b m = ground (
    arith,
    nat_beq_iff n b,
    h.graph.symmetric l a b,
    member_of_empty a (links s l n) (h.unlinked l (omega arith)),
  )

  live_contains :
      (s : HnswIndex R) (id : ℕ) → is_live s.nodes id ≡ true → contains id s.nodes ≡ true
  live_contains s id h = ground arith

  next_level :
      (s : HnswIndex R) (n l : ℕ) (t : HnswIndex R)
      → IsInserting s n (suc l)
      → IsConnecting t l n 0
      → Rewires s l t
      → IsInserting t n l
  next_level s n l t h c r = record {
    graph = c.graph;
    bounded = λ k x. ground (arith, c.others k x, c.own, nat_beq_iff x n, nat_beq_iff k l);
    unlinked = λ k lt. ground (arith, h.unlinked k, r.frame k n, nat_beq_iff k l);
  }

  pub connect_levels_total :
      (s : HnswIndex R) (n : ℕ) (vector : Vector R) (entry_point above : ℕ)
      → IsInserting s n above
      → contains n s.nodes ≡ true
      → is_live s.nodes entry_point ≡ true
      → nat_beq n entry_point ≡ false
      → (t : HnswIndex R) × (connect_levels s n vector entry_point above ≡ some t)
        × IsInserting t n 0
        × SameNodes s t
  unfolding connect_levels
  connect_levels_total s n vector entry_point zero h hn he ne = (s, refl, h, SameNodes-refl s)
  connect_levels_total s n vector entry_point (suc l) h hn he ne =
      let (nearest, e₁, _, good, _, _) =
        search_level_total s vector (λ b. nat_beq n b ≡ false) s.config.ef_construction
          h.graph.closed l entry_point (λ a b _ m. unreached s n l h a b m) ne he in
      let (chosen, e₂, few, picked) =
        select_neighbors_total s vector nearest l
          (λ id m. live_contains s id (All-member _ id nearest good m).0) in
      let c : IsConnecting s l n (length chosen) = record {
        graph = h.graph;
        others = λ k x _. h.bounded k x;
        own = omega (arith, h.unlinked l (omega arith), few);
      } in
      let (t, e₃, ct, rt) = connect_neighbors_total s l n chosen c hn (
        All-weaken _ _
          (λ (x : ℕ) (hx : (is_live s.nodes x ≡ true) × (member x nearest ≡ true)).
            let r : (is_live s.nodes x ≡ true) × (nat_beq n x ≡ false) =
              (hx.0, (All-member _ x nearest good hx.1).1) in
            r)
          chosen picked) in
      let (u, e₄, hu, su) =
        connect_levels_total t n vector entry_point l (next_level s n l t h ct rt)
          (contains-SameNodes s t n rt.same ∙ hn) (is_live-SameNodes s t entry_point rt.same ∙ he)
          ne in
      (u, rw (e₁, e₂, e₃) e₄, hu, SameNodes-trans {s = s} {t = t} {u = u} rt.same su)

  -- The greedy descent ends at an active node with the property.
  pub descend_total :
      (s : HnswIndex R) (vector : Vector R) (P : ℕ → Type 0) (new_level count entry_point : ℕ)
      → IsGraph s
      → ((l a b : ℕ) → member b (links s l a) ≡ true → P b)
      → P entry_point
      → is_live s.nodes entry_point ≡ true
      → (lower : ℕ) × (descend s vector new_level count entry_point ≡ some lower)
        × (is_live s.nodes lower ≡ true)
        × P lower
  unfolding descend
  descend_total s vector P new_level zero entry_point g step pe he = (entry_point, refl, he, pe)
  descend_total s vector P new_level (suc count) entry_point g step pe he =
      let (nearest, e, _, good, _, _) =
        search_level_total s vector P 1 g.closed (new_level + suc count) entry_point
          (λ a b _ m. step (new_level + suc count) a b m) pe he in
      let (hl, hp) =
        first_or_lem (λ id. (is_live s.nodes id ≡ true) × P id) nearest entry_point good (he, pe) in
      let (lower, e', hl', hp') =
        descend_total s vector P new_level count (first_or nearest entry_point) g step hp hl in
      (lower, rw e e', hl', hp')
