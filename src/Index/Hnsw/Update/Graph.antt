-- ===== src/Index/Hnsw/Update/Graph.antt =====
-- The links of the index form an undirected graph without loops on its nodes, at every level, and
-- linking and pruning keep that.
use vector_database.Prelude.{
  ℕ, ◌≡◌, ◌∙◌, true, false, ◌&&◌, ◌||◌, nat_eq, nat_beq, nat_beq_iff, arith,
}
use vector_database.Prelude.Map.{contains}
use vector_database.Prelude.Set.{member, insert as insert_element, member-insert}
use vector_database.Float.{Float}
use vector_database.Index.Hnsw.{HnswIndex, links}
use vector_database.Index.Hnsw.Links.{
  IsClosed, links-set_links, contains-set_links, SameNodes, SameNodes-trans, contains-SameNodes,
  set_links-SameNodes,
}
use vector_database.Index.Hnsw.Update.{add_link}

module _ {R : Type 0} where
  pub record IsGraph (s : HnswIndex R) : Type 0 where
    pub closed : IsClosed s
    pub symmetric : (l a b : ℕ) → member b (links s l a) ≡ member a (links s l b)
    pub irreflexive : (l a : ℕ) → member a (links s l a) ≡ false

module _ {R : Type 0} ⦃f : Float R⦄ where
  -- Both links of a pair.
  abbrev pub add_links : HnswIndex R → ℕ → ℕ → ℕ → HnswIndex R
  add_links s l a b = add_link (add_link s l a b) l b a

  pub member-add_links :
      (s : HnswIndex R) (l a b k x y : ℕ)
      → member y (links (add_links s l a b) k x) ≡ (
          member y (links s k x)
          || (nat_beq l k && ((nat_beq a x && nat_beq b y) || (nat_beq b x && nat_beq a y))))
  unfolding add_link
  member-add_links s l a b k x y = ground (
    arith,
    links-set_links s l a k x (insert_element b (links s l a)),
    links-set_links s l a l b (insert_element b (links s l a)),
    links-set_links (add_link s l a b) l b k x (insert_element a (links (add_link s l a b) l b)),
    member-insert b y (links s l a),
    member-insert a y (links (add_link s l a b) l b),
    nat_beq_iff a b,
    nat_beq_iff a x,
    nat_beq_iff b x,
    nat_beq_iff l k,
  )

  pub contains-add_links :
      (s : HnswIndex R) (l a b y : ℕ)
      → contains y (add_links s l a b).nodes ≡ (nat_beq b y || (nat_beq a y || contains y s.nodes))
  unfolding add_link
  contains-add_links s l a b y = ground (
    arith,
    contains-set_links s l a y (insert_element b (links s l a)),
    contains-set_links (add_link s l a b) l b y (insert_element a (links (add_link s l a b) l b)),
  )

  pub add_links-IsGraph :
      (s : HnswIndex R) (l a b : ℕ)
      → contains a s.nodes ≡ true
      → contains b s.nodes ≡ true
      → nat_beq a b ≡ false
      → IsGraph s
      → IsGraph (add_links s l a b)
  add_links-IsGraph s l a b ha hb ne g = record {
    closed = λ k x y m. ground (
      arith,
      member-add_links s l a b k x y,
      contains-add_links s l a b y,
      g.closed k x y,
      nat_beq_iff a y,
      nat_beq_iff b y,
    );
    symmetric = λ k x y.
        ground (
          arith,
          member-add_links s l a b k x y,
          member-add_links s l a b k y x,
          g.symmetric k x y,
        );
    irreflexive = λ k x. ground (
      arith,
      member-add_links s l a b k x x,
      g.irreflexive k x,
      nat_beq_iff a x,
      nat_beq_iff b x,
    );
  }

  pub add_links-SameNodes :
      (s : HnswIndex R) (l a b : ℕ)
      → contains a s.nodes ≡ true
      → contains b s.nodes ≡ true
      → SameNodes s (add_links s l a b)
  unfolding add_link
  add_links-SameNodes s l a b ha hb =
      let first = set_links-SameNodes s l a (insert_element b (links s l a)) ha in
      SameNodes-trans first (
        set_links-SameNodes (add_link s l a b) l b (insert_element a (links (add_link s l a b) l b))
          (contains-SameNodes s (add_link s l a b) b first ∙ hb))
