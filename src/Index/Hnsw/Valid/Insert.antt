-- ===== src/Index/Hnsw/Valid/Insert.antt =====
-- Insert never throws on a valid index and keeps it valid.
use vector_database.Prelude.{
  ℕ, ◌+◌, ◌-◌, ◌≤◌, ◌<◌, ◌≡◌, refl, sym, subst, ap, ◌∙◌, Bool, true, false, not, ◌&&◌, ◌||◌, some,
  List, [], length, min, is_empty, if◌then◌else◌, nat_eq, nat_beq, nat_beq_iff, ltb, arith,
  Bool-cases, Option-cases, inl, inr,
}
use vector_database.Prelude.Map.{find, contains, find-assign, IsMap-assign}
use vector_database.Prelude.Set.{member, insert as insert_element, member-insert, is_empty-insert}
use vector_database.Float.{Float, Vector}
use vector_database.Index.Hnsw.{Node, HnswIndex, LevelSource, set_at, links, is_live}
use vector_database.Index.Hnsw.Links.{
  SameNodes, SameNodes-refl, set_at-assign, contains-SameNodes, is_live-SameNodes,
}
use vector_database.Index.Hnsw.SearchLevel.{max_neighbors}
use vector_database.Index.Hnsw.Update.{
  add_node, raise_entry, insert_at, insert_no_lock, insert, descend, connect_levels,
}
use vector_database.Index.Hnsw.Update.Graph.{IsGraph}
use vector_database.Index.Hnsw.Update.Levels.{IsInserting, connect_levels_total, descend_total}
use vector_database.Index.Hnsw.Valid.{IsValid, level_of, vector_at}

module _ {R : Type 0} ⦃f : Float R⦄ where
  raise_entry-above :
      (t : HnswIndex R) (id level : ℕ)
      → ltb t.levels (level + 1) ≡ true
      → raise_entry t id level ≡ record t { levels = level + 1; entry_point = some id }
  unfolding raise_entry
  raise_entry-above t id level h =
      ap (λ b. if b then record t { levels = level + 1; entry_point = some id } else t) h

  raise_entry-below :
      (t : HnswIndex R) (id level : ℕ)
      → ltb t.levels (level + 1) ≡ false
      → raise_entry t id level ≡ t
  unfolding raise_entry
  raise_entry-below t id level h =
      ap (λ b. if b then record t { levels = level + 1; entry_point = some id } else t) h

  raise_entry-config : (t : HnswIndex R) (id level : ℕ) → (raise_entry t id level).config ≡ t.config
  unfolding raise_entry
  raise_entry-config t id level = ground arith

  raise_entry-vector_at :
      (t : HnswIndex R) (id level x : ℕ) → vector_at (raise_entry t id level) x ≡ vector_at t x
  unfolding raise_entry
  raise_entry-vector_at t id level x = ground arith

  raise_entry-contains :
      (t : HnswIndex R) (id level x : ℕ)
      → contains x (raise_entry t id level).nodes ≡ contains x t.nodes
  unfolding raise_entry
  raise_entry-contains t id level x = ground arith

  vector_at_SameNodes : (s t : HnswIndex R) (x : ℕ) → SameNodes s t → vector_at t x ≡ vector_at s x
  vector_at_SameNodes s t x h = ground (arith, h.cores x)

  module _ (s : HnswIndex R) (id : ℕ) (vector : Vector R) (level : ℕ) where
    abbrev new_node : Node R
    new_node = record { vector = vector; level = level; neighbors = []; active = true }

    abbrev added : HnswIndex R
    added = add_node s id vector level

    added-levels : added.levels ≡ s.levels
    unfolding add_node
    added-levels = refl

    added-config : added.config ≡ s.config
    unfolding add_node
    added-config = refl

    vector_at-added :
        (x : ℕ) → vector_at added x ≡ (if nat_beq id x then some vector else vector_at s x)
    unfolding add_node
    vector_at-added x = ground (arith, find-assign id x new_node s.nodes)

    contains-added : (x : ℕ) → contains x added.nodes ≡ (nat_beq id x || contains x s.nodes)
    unfolding add_node
    contains-added x = ground (arith, find-assign id x new_node s.nodes)

    -- The steps of Insert below an entry point.
    insert_at_steps :
        (e lower : ℕ) (t : HnswIndex R)
        → s.entry_point ≡ some e
        → descend added vector level (s.levels - 1 - level) e ≡ some lower
        → connect_levels added id vector lower (min s.levels (level + 1)) ≡ some t
        → insert_at s id vector level ≡ some (raise_entry t id level)
    unfolding insert_at
    insert_at_steps e lower t he e₁ e₂ = cc

    find-add_node :
        (x : ℕ) → find x added.nodes ≡ (if nat_beq id x then some new_node else find x s.nodes)
    unfolding add_node
    find-add_node x = find-assign id x new_node s.nodes

    links-add_node : contains id s.nodes ≡ false → (k x : ℕ) → links added k x ≡ links s k x
    unfolding links set_at find
    links-add_node absent k x = ground (arith, find-add_node x, nat_beq_iff id x)

    unlinked-add_node : (k : ℕ) → length (links added k id) ≡ 0
    unfolding links set_at find
    unlinked-add_node k = ground (arith, find-add_node id, nat_beq_iff id id)

    filed-add_node :
        (l x : ℕ)
        → member x (set_at l added.node_levels)
          ≡ (member x (set_at l s.node_levels) || (nat_beq id x && nat_beq level l))
    unfolding add_node
    filed-add_node l x = ground (
      arith,
      set_at-assign level l (insert_element id (set_at level s.node_levels)) s.node_levels,
      member-insert id x (set_at level s.node_levels),
      nat_beq_iff level l,
    )

    add_node-IsGraph : contains id s.nodes ≡ false → IsGraph s → IsGraph added
    add_node-IsGraph absent g = record {
      closed =
          λ k x y m. ground (arith, links-add_node absent k x, g.closed k x y, find-add_node y);
      symmetric = λ k x y.
          ground (arith, links-add_node absent k x, links-add_node absent k y, g.symmetric k x y);
      irreflexive = λ k x. ground (arith, links-add_node absent k x, g.irreflexive k x);
    }

    add_node-IsInserting :
        contains id s.nodes ≡ false → IsValid s → (above : ℕ) → IsInserting added id above
    unfolding add_node
    add_node-IsInserting absent v above = record {
      graph = add_node-IsGraph absent v.graph;
      bounded = λ k x. ground (arith, links-add_node absent k x, v.bounded k x);
      unlinked = λ k _. unlinked-add_node k;
    }

    -- What linking the new node leaves: the nodes of `added`, in a well-formed graph.
    module _ (absent : contains id s.nodes ≡ false) (v : IsValid s) (t : HnswIndex R)
        (same : SameNodes added t) (graph : IsGraph t)
        (bounded : (k x : ℕ) → length (links t k x) ≤ max_neighbors t k) where
      is_live-linked : (x : ℕ) → is_live t.nodes x ≡ (nat_beq id x || is_live s.nodes x)
      is_live-linked x = is_live-SameNodes added t x same ∙ ground (arith, find-add_node x)

      level_of-linked : (x : ℕ) → level_of t x ≡ (if nat_beq id x then level else level_of s x)
      level_of-linked x = ground (arith, same.cores x, find-add_node x)

      filed-linked :
          (l x : ℕ)
          → member x (set_at l t.node_levels) ≡ (is_live t.nodes x && nat_beq (level_of t x) l)
      filed-linked l x = ground (
        arith,
        ap (set_at l) same.node_levels,
        filed-add_node l x,
        v.filed l x,
        is_live-linked x,
        level_of-linked x,
        nat_beq_iff id x,
        absent,
      )

      no_empty-linked :
          (l : ℕ) (ids : List ℕ) → find l t.node_levels ≡ some ids → is_empty ids ≡ false
      unfolding add_node
      no_empty-linked l ids e = ground (
        arith,
        ap (find l) same.node_levels,
        find-assign level l (insert_element id (set_at level s.node_levels)) s.node_levels,
        is_empty-insert id (set_at level s.node_levels),
        v.no_empty l ids,
      )

      -- The new node stands above all others.
      raised-IsValid :
          s.levels ≤ level → IsValid (record t { levels = level + 1; entry_point = some id })
      unfolding links add_node
      raised-IsValid above = record {
        keyed = same.keyed (IsMap-assign id new_node s.nodes v.keyed);
        graph = record {
          closed = graph.closed;
          symmetric = graph.symmetric;
          irreflexive = graph.irreflexive;
        };
        bounded = bounded;
        entry_live = λ e h. ground (arith, is_live-linked e, nat_beq_iff id e);
        entry_level = λ e h. ground (arith, level_of-linked e, nat_beq_iff id e);
        no_entry = λ h. cc;
        no_levels = λ h. cc;
        below = λ x h. ground (arith, is_live-linked x, level_of-linked x, v.below x);
        filed = filed-linked;
        no_empty = no_empty-linked;
      }

      -- The entry point stays.
      kept-IsValid : (e : ℕ) → s.entry_point ≡ some e → level < s.levels → IsValid t
      unfolding add_node
      kept-IsValid e he low = record {
        keyed = same.keyed (IsMap-assign id new_node s.nodes v.keyed);
        graph = graph;
        bounded = bounded;
        entry_live = λ e' h. ground (arith, same.entry_point, is_live-linked e', v.entry_live e');
        entry_level = λ e' h. ground (
          arith,
          same.entry_point,
          same.levels,
          level_of-linked e',
          v.entry_live e',
          v.entry_level e',
          nat_beq_iff id e',
          absent,
        );
        no_entry = λ h. absurd (ground (arith, same.entry_point));
        no_levels = λ h. absurd (ground (arith, same.entry_point));
        below = λ x h. ground (arith, same.levels, is_live-linked x, level_of-linked x, v.below x);
        filed = filed-linked;
        no_empty = no_empty-linked;
      }

      -- The end of Insert.
      finished-IsValid : (e : ℕ) → s.entry_point ≡ some e → IsValid (raise_entry t id level)
      finished-IsValid e he = elim (Bool-cases (ltb t.levels (level + 1))) [
        | inl above ↦
            subst IsValid (sym (raise_entry-above t id level above))
              (raised-IsValid (ground (arith, added-levels, same.levels)))
        | inr below ↦
            subst IsValid (sym (raise_entry-below t id level below))
              (kept-IsValid e he (ground (arith, added-levels, same.levels)))
      ]

    entry-live-added : (e : ℕ) → is_live s.nodes e ≡ true → is_live added.nodes e ≡ true
    entry-live-added e h = ground (arith, find-add_node e)

    new-differs :
        (e : ℕ) → contains id s.nodes ≡ false → is_live s.nodes e ≡ true → nat_beq id e ≡ false
    new-differs e absent h = ground (arith, nat_beq_iff id e)

    new-unreached :
        (a b l : ℕ)
        → contains id s.nodes ≡ false
        → IsValid s
        → member b (links added l a) ≡ true
        → nat_beq id b ≡ false
    new-unreached a b l absent v m =
        ground (arith, nat_beq_iff id b, links-add_node absent l a, v.graph.closed l a b)

    -- Insert after its test.
    insert_at_total :
        contains id s.nodes ≡ false
        → IsValid s
        → (t : HnswIndex R) × (insert_at s id vector level ≡ some t)
          × IsValid t
          × (t.config ≡ s.config)
          × ((x : ℕ) → vector_at t x ≡ (if nat_beq id x then some vector else vector_at s x))
          × ((x : ℕ) → contains x t.nodes ≡ (nat_beq id x || contains x s.nodes))
    unfolding insert_at
    insert_at_total absent v = elim (Option-cases s.entry_point) [
      | inl empty ↦ (
        record added { levels = level + 1; entry_point = some id },
        rw empty,
        raised-IsValid absent v added (SameNodes-refl added) (add_node-IsGraph absent v.graph)
            (add_node-IsInserting absent v 0).bounded (omega (arith, v.no_levels empty)),
        added-config,
        vector_at-added,
        contains-added,
      )
      | inr (e, he) ↦
          let start = add_node-IsInserting absent v (min s.levels (level + 1)) in
          let (lower, e₁, hl, ne) =
            descend_total added vector (λ b. nat_beq id b ≡ false) level (s.levels - 1 - level) e
              start.graph (λ l a b m. new-unreached a b l absent v m)
              (new-differs e absent (v.entry_live e he)) (entry-live-added e (v.entry_live e he)) in
          let (t, e₂, ht, same) =
            connect_levels_total added id vector lower (min s.levels (level + 1)) start
              (ground (arith, find-add_node id, nat_beq_iff id id)) hl ne in
          (
            raise_entry t id level,
            insert_at_steps e lower t he e₁ e₂,
            finished-IsValid absent v t same ht.graph ht.bounded e he,
            raise_entry-config t id level ∙ same.config ∙ added-config,
            λ x.
                raise_entry-vector_at t id level x
                ∙ vector_at_SameNodes added t x same
                ∙ vector_at-added x,
            λ x.
                raise_entry-contains t id level x
                ∙ contains-SameNodes added t x same
                ∙ contains-added x,
          )
    ]

module _ {R : Type 0} ⦃f : Float R⦄ ⦃source : LevelSource R⦄ where
  -- What Insert tests.
  abbrev pub accepts : HnswIndex R → ℕ → Vector R → Bool
  accepts s id vector =
      nat_beq (length vector) s.config.vector_dimensionality && not (contains id s.nodes)

  -- Insert on a valid index throws nothing and leaves a valid index with the same configuration,
  -- whose vectors are the old ones and, when the dimension fits and no node has the identifier,
  -- the new one.
  pub insert_total :
      (s : HnswIndex R) (id : ℕ) (vector : Vector R)
      → IsValid s
      → (t : HnswIndex R) × (insert s id vector ≡ some t)
        × IsValid t
        × (t.config ≡ s.config)
        × ((x : ℕ)
            → vector_at t x
              ≡ (if accepts s id vector && nat_beq id x then some vector else vector_at s x))
        × ((x : ℕ)
            → contains x t.nodes ≡ ((accepts s id vector && nat_beq id x) || contains x s.nodes))
  unfolding insert insert_no_lock
  insert_total s id vector v = elim (Bool-cases (accepts s id vector)) [
    | inl taken ↦
        let level = source.random_level s.config.ml id in
        let (t, e, h, c, at, has) = insert_at_total s id vector level (ground arith) v in
        (t, ground arith, h, c, λ x. rw taken (at x), λ x. rw taken (has x))
    | inr refused ↦ (s, ground arith, v, refl, λ x. rw refused, λ x. rw refused)
  ]
