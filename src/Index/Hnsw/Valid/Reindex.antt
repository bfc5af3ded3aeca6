-- ===== src/Index/Hnsw/Valid/Reindex.antt =====
-- Reindex, which builds the graph again from its nodes.
use vector_database.Prelude.{
  ℕ, ◌≡◌, refl, sym, ap, ◌∙◌, Bool, true, false, ◌&&◌, ◌||◌, Option, none, some, [], ◌∷◌, length,
  if◌then◌else◌, nat_eq, nat_beq, nat_beq_iff, arith, Option-cases, inl, inr,
}
use vector_database.Prelude.Map.{Map, find, contains, IsMap}
use vector_database.Prelude.Set.{member}
use vector_database.Float.{Float, Vector}
use vector_database.Index.Laws.{is_some}
use vector_database.Index.Hnsw.{
  HnswIndexConfig, Node, HnswIndex, LevelSource, create, set_at, links,
}
use vector_database.Index.Hnsw.Update.{insert, insert_each, reindex, cleanup}
use vector_database.Index.Hnsw.Update.Clean.{cleanup-keyed, find-cleaned}
use vector_database.Index.Hnsw.Valid.{IsValid, vector_at}
use vector_database.Index.Hnsw.Valid.Insert.{insert_total, accepts}

module _ {R : Type 0} ⦃f : Float R⦄ where
  -- The empty index is valid.
  pub create-IsValid : (config : HnswIndexConfig R) → IsValid (create config)
  unfolding create links set_at find member
  create-IsValid config = record {
    keyed = tt;
    graph = record {
      closed = λ k x y m. ground arith;
      symmetric = λ k x y. refl;
      irreflexive = λ k x. refl;
    };
    bounded = λ k x. omega arith;
    entry_live = λ e h. cc;
    entry_level = λ e h. cc;
    no_entry = λ h x. refl;
    no_levels = λ h. refl;
    below = λ x h. cc;
    filed = λ l x. refl;
    no_empty = λ l ids h. cc;
  }

  abbrev pub fits : HnswIndexConfig R → Vector R → Bool
  fits config vector = nat_beq (length vector) config.vector_dimensionality

  -- What Reindex takes from the old nodes: each one that fits, active or not.
  abbrev pub revived : HnswIndexConfig R → Map ℕ (Node R) → ℕ → Option (Vector R)
  revived config nodes x = elim (find x nodes) [
    | none ↦ none
    | some node ↦ if fits config node.vector then some node.vector else none
  ]

  contains-create : (config : HnswIndexConfig R) (x : ℕ) → contains x (create config).nodes ≡ false
  unfolding find create
  contains-create config x = refl

  revived_nil :
      (config : HnswIndexConfig R) (nodes : Map ℕ (Node R)) (x : ℕ)
      → (if contains x nodes then revived config nodes x else vector_at (create config) x)
        ≡ revived config nodes x
  unfolding find create
  revived_nil config nodes x = ground arith

  pub revived-live :
      (s : HnswIndex R) (x : ℕ)
      → contains x s.nodes ≡ is_some (vector_at s x)
      → ((w : Vector R) → vector_at s x ≡ some w → fits s.config w ≡ true)
      → revived s.config s.nodes x ≡ vector_at s x
  revived-live s x live sized = elim (Option-cases (find x s.nodes)) [
    | inl absent ↦ ground arith
    | inr (node, found) ↦ ground (arith, sized node.vector)
  ]

  revived-cleanup :
      (s : HnswIndex R) (x : ℕ)
      → IsValid s
      → ((w : Vector R) → vector_at s x ≡ some w → fits s.config w ≡ true)
      → revived s.config (cleanup s).nodes x ≡ vector_at s x
  revived-cleanup s x v sized = elim (Option-cases (find x s.nodes)) [
    | inl absent ↦ ground (arith, find-cleaned s x v.keyed)
    | inr (node, found) ↦ ground (arith, find-cleaned s x v.keyed, sized node.vector)
  ]

  if_live :
      (b c : Bool) (v : Vector R) (o : Option (Vector R))
      → c ≡ is_some o
      → (b || c) ≡ is_some (if b then some v else o)
  if_live true c v o h = refl
  if_live false c v o h = h

module _ {R : Type 0} ⦃f : Float R⦄ ⦃source : LevelSource R⦄ where
  revived-step :
      (s u : HnswIndex R) (id : ℕ) (node : Node R) (rest : Map ℕ (Node R)) (x : ℕ)
      → u.config ≡ s.config
      → contains id rest ≡ false
      → contains id s.nodes ≡ false
      → vector_at u x
        ≡ (if accepts s id node.vector && nat_beq id x then some node.vector else vector_at s x)
      → (if contains x rest then revived u.config rest x else vector_at u x) ≡ (
          if contains x ((id, node) ∷ rest)
          then revived s.config ((id, node) ∷ rest) x
          else vector_at s x)
  unfolding find
  revived-step s u id node rest x hc absent new at =
      ground (arith, at, ap (λ c. c.vector_dimensionality) hc, nat_beq_iff id x)

  live-step :
      (s u : HnswIndex R) (id : ℕ) (vector : Vector R) (x : ℕ)
      → vector_at u x ≡ (if accepts s id vector && nat_beq id x then some vector else vector_at s x)
      → contains x u.nodes ≡ ((accepts s id vector && nat_beq id x) || contains x s.nodes)
      → contains x s.nodes ≡ is_some (vector_at s x)
      → contains x u.nodes ≡ is_some (vector_at u x)
  live-step s u id vector x at has h =
      has
      ∙ if_live (accepts s id vector && nat_beq id x) (contains x s.nodes) vector (vector_at s x) h
      ∙ ap is_some (sym at)

  insert_each_total :
      (s : HnswIndex R) (nodes : Map ℕ (Node R))
      → IsValid s
      → IsMap nodes
      → ((x : ℕ) → contains x nodes ≡ true → contains x s.nodes ≡ false)
      → (t : HnswIndex R) × (insert_each s nodes ≡ some t)
        × IsValid t
        × (t.config ≡ s.config)
        × ((x : ℕ)
            → vector_at t x
              ≡ (if contains x nodes then revived s.config nodes x else vector_at s x))
        × (((x : ℕ) → contains x s.nodes ≡ is_some (vector_at s x))
            → (x : ℕ) → contains x t.nodes ≡ is_some (vector_at t x))
  unfolding insert_each find insert
  insert_each_total s [] v m fresh = (s, refl, v, refl, λ x. refl, λ h. h)
  insert_each_total s ((id, node) ∷ rest) v m fresh =
      let (u, e, hu, cu, at, has) = insert_total s id node.vector v in
      let (t, e', ht, ct, at', all') =
        insert_each_total u rest hu m.1
          (λ x h. ground (arith, has x, fresh x, m.0, nat_beq_iff id x)) in
      (
        t,
        rw e e',
        ht,
        ct ∙ cu,
        λ x.
            at' x
            ∙ revived-step s u id node rest x cu m.0 (fresh id (ground (arith, nat_beq_iff id id)))
                (at x),
        λ h. all' (λ x. live-step s u id node.vector x (at x) (has x) (h x)),
      )

  -- Reindex on an index of distinct nodes throws nothing and leaves a valid index with the same
  -- configuration and each old node whose dimension fits, also one that was removed.
  pub reindex_total :
      (s : HnswIndex R)
      → IsMap s.nodes
      → (t : HnswIndex R) × (reindex s ≡ some t)
        × IsValid t
        × (t.config ≡ s.config)
        × ((x : ℕ) → vector_at t x ≡ revived s.config s.nodes x)
        × ((x : ℕ) → contains x t.nodes ≡ is_some (vector_at t x))
  unfolding reindex create
  reindex_total s m =
      let (t, e, ht, ct, at, all) =
        insert_each_total (create s.config) s.nodes (create-IsValid s.config) m
          (λ x h. contains-create s.config x) in
      (
        t,
        e,
        ht,
        ct,
        λ x. at x ∙ revived_nil s.config s.nodes x,
        all (λ x. ground (arith, contains-create s.config x)),
      )

  -- Cleanup and then Reindex, on a valid index whose vectors fit: nothing throws, the index stays
  -- valid, and it stands for the same vectors.
  pub rebuilt_total :
      (s : HnswIndex R)
      → IsValid s
      → ((x : ℕ) (w : Vector R) → vector_at s x ≡ some w → fits s.config w ≡ true)
      → (t : HnswIndex R) × (reindex (cleanup s) ≡ some t)
        × IsValid t
        × (t.config ≡ s.config)
        × ((x : ℕ) → vector_at t x ≡ vector_at s x)
  unfolding cleanup
  rebuilt_total s v sized =
      let (t, e, ht, ct, at, _) = reindex_total (cleanup s) (cleanup-keyed s v.keyed) in
      (t, e, ht, ct, λ x. at x ∙ revived-cleanup s x v (sized x))
