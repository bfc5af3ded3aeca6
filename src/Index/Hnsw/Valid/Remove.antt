-- ===== src/Index/Hnsw/Valid/Remove.antt =====
-- Remove keeps the graph index valid, and finds a new entry point where it takes the old one.
use vector_database.Prelude.{
  ℕ, zero, suc, ◌≤◌, ◌<◌, ◌≡◌, refl, sym, subst, ap, true, false, not, ◌&&◌, none, some, List, [],
  ◌∷◌, length, is_empty, if◌then◌else◌, nat_eq, nat_beq, nat_beq_iff, arith, Bool-cases,
  Option-cases, inl, inr, ◌⊎◌,
}
use vector_database.Prelude.Map.{
  find, erase, contains, find-assign, find-erase, IsMap, IsMap-assign,
}
use vector_database.Prelude.Set.{member, delete, member-filter}
use vector_database.Float.{Float}
use vector_database.Index.Hnsw.{Node, HnswIndex, set_at, links, is_live}
use vector_database.Index.Hnsw.Links.{set_at-assign}
use vector_database.Index.Hnsw.SearchLevel.{max_neighbors}
use vector_database.Index.Hnsw.Update.{first_active, choose_entry, deactivate, remove}
use vector_database.Index.Hnsw.Update.Graph.{IsGraph}
use vector_database.Index.Hnsw.Valid.{IsValid, level_of, vector_at}

set_at-erase :
    (l k : ℕ) (sets : List (ℕ × List ℕ))
    → set_at k (erase l sets) ≡ (if nat_beq l k then [] else set_at k sets)
unfolding set_at
set_at-erase l k sets = ground (arith, find-erase l k sets)

module _ {R : Type 0} ⦃f : Float R⦄ where
  -- IsValid without what it says of the entry point.
  record IsFiled (s : HnswIndex R) : Type 0 where
    keyed : IsMap s.nodes
    graph : IsGraph s
    bounded : (k x : ℕ) → length (links s k x) ≤ max_neighbors s k
    filed :
        (l id : ℕ)
        → member id (set_at l s.node_levels) ≡ (is_live s.nodes id && nat_beq (level_of s id) l)
    no_empty : (l : ℕ) (ids : List ℕ) → find l s.node_levels ≡ some ids → is_empty ids ≡ false

  -- A node of a filed set is active and of its level.
  filed_of_found :
      (s : HnswIndex R) (l a : ℕ) (rest : List ℕ)
      → IsFiled s
      → find l s.node_levels ≡ some (a ∷ rest)
      → (is_live s.nodes a ≡ true) × (level_of s a ≡ l)
  unfolding set_at member
  filed_of_found s l a rest h e =
      ground (arith, h.filed l a, nat_beq_iff a a, nat_beq_iff (level_of s a) l)

  first_active_of_live :
      (s : HnswIndex R) (a : ℕ) (rest : List ℕ)
      → is_live s.nodes a ≡ true
      → first_active s.nodes (a ∷ rest) ≡ some a
  unfolding first_active
  first_active_of_live s a rest h = ground arith

  choose_entry-bare :
      (s : HnswIndex R) (l : ℕ)
      → find l s.node_levels ≡ none
      → choose_entry s (suc l) ≡ choose_entry s l
  unfolding choose_entry
  choose_entry-bare s l e = cc

  choose_entry-found :
      (s : HnswIndex R) (l a : ℕ) (rest : List ℕ)
      → IsFiled s
      → find l s.node_levels ≡ some (a ∷ rest)
      → choose_entry s (suc l) ≡ record s { levels = suc l; entry_point = some a }
  unfolding choose_entry
  choose_entry-found s l a rest h e =
      let chosen = first_active_of_live s a rest (filed_of_found s l a rest h e).0 in cc

  below-bare :
      (s : HnswIndex R) (l : ℕ)
      → IsFiled s
      → find l s.node_levels ≡ none
      → ((x : ℕ) → is_live s.nodes x ≡ true → level_of s x < suc l)
      → (x : ℕ) → is_live s.nodes x ≡ true
      → level_of s x < l
  unfolding set_at member
  below-bare s l h e below x live =
      ground (arith, below x live, h.filed l x, nat_beq_iff (level_of s x) l)

  found-IsValid :
      (s : HnswIndex R) (l a : ℕ) (rest : List ℕ)
      → IsFiled s
      → find l s.node_levels ≡ some (a ∷ rest)
      → ((x : ℕ) → is_live s.nodes x ≡ true → level_of s x < suc l)
      → IsValid (record s { levels = suc l; entry_point = some a })
  unfolding links
  found-IsValid s l a rest h e below = record {
    keyed = h.keyed;
    graph = record {
      closed = h.graph.closed;
      symmetric = h.graph.symmetric;
      irreflexive = h.graph.irreflexive;
    };
    bounded = h.bounded;
    entry_live = λ x hx. ground (arith, filed_of_found s l a rest h e);
    entry_level = λ x hx. ground (arith, filed_of_found s l a rest h e);
    no_entry = λ hx. cc;
    no_levels = λ hx. cc;
    below = below;
    filed = h.filed;
    no_empty = h.no_empty;
  }

  -- The search for an entry point finds an active node of the highest level that has any.
  choose_entry-IsValid :
      (s : HnswIndex R) (n : ℕ)
      → IsFiled s
      → ((x : ℕ) → is_live s.nodes x ≡ true → level_of s x < n)
      → IsValid (choose_entry s n)
  unfolding choose_entry links
  choose_entry-IsValid s zero h below = record {
    keyed = h.keyed;
    graph = record {
      closed = h.graph.closed;
      symmetric = h.graph.symmetric;
      irreflexive = h.graph.irreflexive;
    };
    bounded = h.bounded;
    entry_live = λ e h. cc;
    entry_level = λ e h. cc;
    no_entry = λ _ x. ground (arith, below x);
    no_levels = λ _. refl;
    below = below;
    filed = h.filed;
    no_empty = h.no_empty;
  }
  choose_entry-IsValid s (suc l) h below = elim (Option-cases (find l s.node_levels)) [
    | inl bare ↦
        subst IsValid (sym (choose_entry-bare s l bare))
          (choose_entry-IsValid s l h (below-bare s l h bare below))
    | inr ([], e) ↦ absurd (ground (arith, h.no_empty l [] e))
    | inr (a ∷ rest, e) ↦
        subst IsValid (sym (choose_entry-found s l a rest h e)) (found-IsValid s l a rest h e below)
  ]

  module _ (s : HnswIndex R) (id : ℕ) (node : Node R) (found : find id s.nodes ≡ some node)
      (active : node.active ≡ true) where
    abbrev left : HnswIndex R
    left = deactivate s id node

    find-deactivate :
        (x : ℕ)
        → find x left.nodes
          ≡ (if nat_beq id x then some (record node { active = false }) else find x s.nodes)
    unfolding deactivate
    find-deactivate x = find-assign id x (record node { active = false }) s.nodes

    links-deactivate : (k x : ℕ) → links left k x ≡ links s k x
    unfolding links
    links-deactivate k x = ground (arith, find-deactivate x, nat_beq_iff id x)

    level_of-deactivate : (x : ℕ) → level_of left x ≡ level_of s x
    level_of-deactivate x = ground (arith, find-deactivate x, nat_beq_iff id x)

    is_live-deactivate : (x : ℕ) → is_live left.nodes x ≡ (not (nat_beq id x) && is_live s.nodes x)
    is_live-deactivate x = ground (arith, find-deactivate x)

    sets-deactivate :
        (l x : ℕ)
        → member x (set_at l left.node_levels)
          ≡ (member x (set_at l s.node_levels) && not (nat_beq node.level l && nat_beq id x))
    unfolding deactivate member
    sets-deactivate l x = ground (
      arith,
      set_at-assign node.level l (delete id (set_at node.level s.node_levels)) s.node_levels,
      set_at-erase node.level l s.node_levels,
      member-filter x (λ y. not (nat_beq y id)) (set_at node.level s.node_levels),
      nat_beq_iff node.level l,
      nat_beq_iff id x,
      nat_beq_iff x id,
    )

    deactivate-IsFiled : IsValid s → IsFiled left
    unfolding deactivate
    deactivate-IsFiled v = record {
      keyed = IsMap-assign id (record node { active = false }) s.nodes v.keyed;
      graph = record {
        closed = λ k x y m.
            ground (arith, links-deactivate k x, v.graph.closed k x y, find-deactivate y);
        symmetric = λ k x y.
            ground (arith, links-deactivate k x, links-deactivate k y, v.graph.symmetric k x y);
        irreflexive = λ k x. ground (arith, links-deactivate k x, v.graph.irreflexive k x);
      };
      bounded = λ k x. ground (arith, links-deactivate k x, v.bounded k x);
      filed = λ l x. ground (
        arith,
        sets-deactivate l x,
        v.filed l x,
        is_live-deactivate x,
        level_of-deactivate x,
        nat_beq_iff id x,
      );
      no_empty = λ l ids e. ground (
        arith,
        find-assign node.level l (delete id (set_at node.level s.node_levels)) s.node_levels,
        find-erase node.level l s.node_levels,
        v.no_empty l ids,
      );
    }

    below-deactivate :
        IsValid s → (x : ℕ) → is_live left.nodes x ≡ true → level_of left x < s.levels
    below-deactivate v x live =
        ground (arith, is_live-deactivate x, level_of-deactivate x, v.below x)

    deactivate-IsValid :
        (e : ℕ) → s.entry_point ≡ some e → nat_beq id e ≡ false → IsValid s → IsValid left
    unfolding deactivate
    deactivate-IsValid e he ne v =
        let h = deactivate-IsFiled v in
        record {
          keyed = h.keyed;
          graph = h.graph;
          bounded = h.bounded;
          entry_live = λ x hx. ground (arith, is_live-deactivate x, v.entry_live x);
          entry_level = λ x hx. ground (arith, level_of-deactivate x, v.entry_level x);
          no_entry = λ hx. absurd cc;
          no_levels = λ hx. absurd cc;
          below = below-deactivate v;
          filed = h.filed;
          no_empty = h.no_empty;
        }

    vector_at-deactivate :
        (x : ℕ) → vector_at left x ≡ (if nat_beq id x then none else vector_at s x)
    vector_at-deactivate x = ground (arith, find-deactivate x)

  vector_at-choose_entry :
      (s : HnswIndex R) (n x : ℕ) → vector_at (choose_entry s n) x ≡ vector_at s x
  unfolding choose_entry
  vector_at-choose_entry s zero x = refl
  vector_at-choose_entry s (suc l) x = ground (arith, vector_at-choose_entry s l x)

  config-choose_entry : (s : HnswIndex R) (n : ℕ) → (choose_entry s n).config ≡ s.config
  unfolding choose_entry
  config-choose_entry s zero = refl
  config-choose_entry s (suc l) = ground (arith, config-choose_entry s l)

  -- A node that is not active is left alone.
  remove_dead : (s : HnswIndex R) (id : ℕ) → is_live s.nodes id ≡ false → remove s id ≡ s
  unfolding remove
  remove_dead s id h = ground arith

  remove_live :
      (s : HnswIndex R) (id e : ℕ) (node : Node R)
      → s.entry_point ≡ some e
      → find id s.nodes ≡ some node
      → node.active ≡ true
      → remove s id ≡ (
          if nat_beq id e
          then choose_entry (deactivate s id node) s.levels
          else deactivate s id node)
  unfolding remove
  remove_live s id e node he found active = ground arith

  live-found :
      (s : HnswIndex R) (id : ℕ)
      → is_live s.nodes id ≡ true
      → (node : Node R) × (find id s.nodes ≡ some node) × (node.active ≡ true)
  live-found s id h = elim (Option-cases (find id s.nodes)) [
    | inl absent ↦ absurd (ground arith)
    | inr (node, found) ↦ (node, found, ground arith)
  ]

  -- On a valid index, Remove does nothing or takes an active node.
  remove-cases :
      (s : HnswIndex R) (id : ℕ)
      → IsValid s
      → ((is_live s.nodes id ≡ false) × (remove s id ≡ s))
        ⊎ ((e : ℕ) × (node : Node R) × (s.entry_point ≡ some e)
            × (find id s.nodes ≡ some node)
            × (node.active ≡ true))
  remove-cases s id v = elim (Bool-cases (is_live s.nodes id)) [
    | inr dead ↦ inl (dead, remove_dead s id dead)
    | inl live ↦
        let (node, found, active) = live-found s id live in
        elim (Option-cases s.entry_point) [
          | inl empty ↦ absurd (ground (arith, v.no_entry empty id))
          | inr (e, he) ↦ inr (e, node, he, found, active)
        ]
  ]

  -- Remove on a valid index leaves a valid index.
  pub remove-IsValid : (s : HnswIndex R) (id : ℕ) → IsValid s → IsValid (remove s id)
  remove-IsValid s id v = elim (remove-cases s id v) [
    | inl (_, kept) ↦ subst IsValid (sym kept) v
    | inr (e, node, he, found, active) ↦
        subst IsValid (sym (remove_live s id e node he found active))
          (elim (Bool-cases (nat_beq id e)) [
            | inl entry ↦ rw entry (
                choose_entry-IsValid (deactivate s id node) s.levels
                  (deactivate-IsFiled s id node found active v)
                  (below-deactivate s id node found active v))
            | inr other ↦ rw other (deactivate-IsValid s id node found active e he other v)
          ])
  ]

  -- Remove on a valid index takes the vector of the identifier and no other.
  pub remove-vector_at :
      (s : HnswIndex R) (id x : ℕ)
      → IsValid s
      → vector_at (remove s id) x ≡ (if nat_beq id x then none else vector_at s x)
  remove-vector_at s id x v = elim (remove-cases s id v) [
    | inl (dead, kept) ↦ rw kept (ground (arith, nat_beq_iff id x))
    | inr (e, node, he, found, active) ↦ rw (remove_live s id e node he found active) (
        ground (
          arith,
          vector_at-deactivate s id node found active x,
          vector_at-choose_entry (deactivate s id node) s.levels x,
        ))
  ]

  pub remove-config : (s : HnswIndex R) (id : ℕ) → IsValid s → (remove s id).config ≡ s.config
  unfolding deactivate
  remove-config s id v = elim (remove-cases s id v) [
    | inl (_, kept) ↦ ap (λ t. t.config) kept
    | inr (e, node, he, found, active) ↦
        rw (remove_live s id e node he found active)
          (ground (arith, config-choose_entry (deactivate s id node) s.levels))
  ]

  contains-choose_entry :
      (s : HnswIndex R) (n x : ℕ) → contains x (choose_entry s n).nodes ≡ contains x s.nodes
  unfolding choose_entry
  contains-choose_entry s zero x = refl
  contains-choose_entry s (suc l) x = ground (arith, contains-choose_entry s l x)

  contains-deactivate :
      (s : HnswIndex R) (id x : ℕ) (node : Node R)
      → find id s.nodes ≡ some node
      → contains x (deactivate s id node).nodes ≡ contains x s.nodes
  unfolding deactivate
  contains-deactivate s id x node found =
      ground (arith, find-assign id x (record node { active = false }) s.nodes, nat_beq_iff id x)

  -- The removed node stays, no longer active.
  pub remove-contains :
      (s : HnswIndex R) (id x : ℕ) → IsValid s → contains x (remove s id).nodes ≡ contains x s.nodes
  remove-contains s id x v = elim (remove-cases s id v) [
    | inl (_, kept) ↦ ap (λ t. contains x t.nodes) kept
    | inr (e, node, he, found, active) ↦ rw (remove_live s id e node he found active) (
        ground (
          arith,
          contains-deactivate s id x node found,
          contains-choose_entry (deactivate s id node) s.levels x,
        ))
  ]
