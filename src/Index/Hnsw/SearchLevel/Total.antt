-- ===== src/Index/Hnsw/SearchLevel/Total.antt =====
-- SearchLevel on a graph whose links lead to nodes: no read throws, the loop ends, and what it
-- returns are distinct active nodes, no more than asked for.
use vector_database.Prelude.{
  ℕ, zero, suc, ◌+◌, ◌≤◌, ◌<◌, ◌≡◌, refl, subst, ap, List-cases, length-drop, length-reverse,
  length-map, All-reverse, All-map, All-weaken, true, false, ◌&&◌, some, List, [], ◌∷◌, map,
  reverse, length, drop, if◌then◌else◌, nat_eq, arith, All, All-drop, Bool-cases, Option-cases, inl,
  inr, nat_beq,
}
use vector_database.Prelude.Map.{find, contains}
use vector_database.Prelude.Set.{member, insert, member-insert}
use vector_database.Float.{Float, Vector}
use vector_database.Index.Nearest.{Pair, push, push_least}
use vector_database.Index.Nearest.Order.{All-push, All-push_least}
use vector_database.Index.Hnsw.{Node, HnswIndex, set_at, links, is_live}
use vector_database.Index.Hnsw.Links.{IsClosed, links_of_find}
use vector_database.Index.Hnsw.SearchLevel.{
  Exploration, measured, visit, visit_all, is_farther, explore, begin, search_level,
}
use vector_database.Index.Hnsw.SearchLevel.Count.{unvisited, unvisited-insert, unvisited-le}
use vector_database.Index.Nearest.Count.{
  occ, occurrences, occurrences-results, occ-push, occ-push_least, occ-tail-le, length-push,
  length-push_least,
}

module _ {R : Type 0} ⦃f : Float R⦄ (s : HnswIndex R) (query : Vector R) where
  -- p is an active node with its distance to the query, and has the property.
  abbrev pub IsFound : (ℕ → Type 0) → Pair R → Type 0
  IsFound P p =
      (node : Node R) × (find p.1 s.nodes ≡ some node)
      × (node.active ≡ true)
      × (p ≡ measured s query p.1 node)
      × P p.1

  pub record IsExploration (P : ℕ → Type 0) (ef : ℕ) (x : Exploration R) : Type 0 where
    pub waiting : All (IsFound P) x.candidates
    pub kept : All (IsFound P) x.top_ef
    pub once :
        (id : ℕ) → occ id x.candidates + occ id x.top_ef ≤ (if member id x.visited then 1 else 0)
    pub room : length x.top_ef ≤ ef
    pub some_left : 0 < length x.candidates + length x.top_ef

  abbrev pub work : Exploration R → ℕ
  work x = unvisited s.nodes x.visited + length x.candidates

module _ {R : Type 0} ⦃f : Float R⦄ (s : HnswIndex R) (query : Vector R) (P : ℕ → Type 0)
    (ef : ℕ) where
  -- A neighbor that was not visited and is active becomes a candidate.
  visit_new :
      (x : Exploration R) (n : ℕ) (node : Node R)
      → IsExploration s query P ef x
      → find n s.nodes ≡ some node
      → node.active ≡ true
      → member n x.visited ≡ false
      → P n
      → IsExploration s query P ef (record x {
        candidates = push_least (measured s query n node) x.candidates;
        visited = insert n x.visited;
      })
  visit_new x n node h found active fresh pn = record {
    waiting =
        All-push_least (IsFound s query P) (measured s query n node) x.candidates
          (node, found, active, refl, pn) h.waiting;
    kept = h.kept;
    once = λ id. ground (
      arith,
      h.once id,
      occ-push_least id (measured s query n node) x.candidates,
      member-insert n id x.visited,
    );
    room = h.room;
    some_left = omega (arith, length-push_least (measured s query n node) x.candidates);
  }

  visit_total :
      (x : Exploration R) (n : ℕ)
      → IsExploration s query P ef x
      → contains n s.nodes ≡ true
      → P n
      → (x' : Exploration R) × (visit s query x n ≡ some x')
        × IsExploration s query P ef x'
        × (work s query x' ≤ work s query x)
  unfolding visit
  visit_total x n h present pn = elim (Bool-cases (member n x.visited)) [
    | inl old ↦ (x, rw old, h, omega arith)
    | inr fresh ↦ elim (Option-cases (find n s.nodes)) [
      | inl missing ↦ absurd (ground arith)
      | inr (node, found) ↦ elim (Bool-cases node.active) [
        | inr inactive ↦ (x, rw (fresh, found, inactive), h, omega arith)
        | inl active ↦ (
          record x {
            candidates = push_least (measured s query n node) x.candidates;
            visited = insert n x.visited;
          },
          rw (fresh, found, active),
          visit_new x n node h found active fresh pn,
          omega (
            arith,
            unvisited-insert n s.nodes x.visited present fresh,
            length-push_least (measured s query n node) x.candidates,
          ),
        )
      ]
    ]
  ]

  visit_all_total :
      (x : Exploration R) (ns : List ℕ)
      → IsExploration s query P ef x
      → ((b : ℕ) → member b ns ≡ true → (contains b s.nodes ≡ true) × P b)
      → (x' : Exploration R) × (visit_all s query x ns ≡ some x')
        × IsExploration s query P ef x'
        × (work s query x' ≤ work s query x)
  unfolding visit_all member
  visit_all_total x [] h present = (x, refl, h, omega arith)
  visit_all_total x (n ∷ ns) h present =
      let (y, ey, hy, wy) =
        visit_total x n h (present n (ground arith)).0 (present n (ground arith)).1 in
      let (z, ez, hz, wz) = visit_all_total y ns hy (λ b m. present b (ground arith)) in
      (z, rw ey ez, hz, omega arith)

  -- the queue of the best, with room for one more
  abbrev pub with_room : List (Pair R) → List (Pair R)
  with_room top_ef = if nat_beq (length top_ef) ef then drop 1 top_ef else top_ef

  with_room-All :
      (top_ef : List (Pair R))
      → All (IsFound s query P) top_ef
      → All (IsFound s query P) (with_room top_ef)
  with_room-All top_ef h = elim (Bool-cases (nat_beq (length top_ef) ef)) [
    | inl full ↦ rw full (All-drop (IsFound s query P) 1 top_ef h)
    | inr free ↦ rw free h
  ]

  occ-with_room-le : (id : ℕ) (top_ef : List (Pair R)) → occ id (with_room top_ef) ≤ occ id top_ef
  occ-with_room-le id top_ef = ground (arith, occ-tail-le id top_ef)

  length-with_room-lt :
      (top_ef : List (Pair R)) → 0 < ef → length top_ef ≤ ef → length (with_room top_ef) < ef
  length-with_room-lt top_ef pos h = ground (arith, length-drop 1 top_ef)

  -- The least candidate moves into the queue of the best, where the worst makes room.
  take_candidate :
      (x : Exploration R) (p : Pair R) (rest : List (Pair R))
      → 0 < ef
      → x.candidates ≡ p ∷ rest
      → IsExploration s query P ef x
      → IsExploration s query P ef
          (record x { candidates = rest; top_ef = push p (with_room x.top_ef) })
  take_candidate x p rest pos e h =
      let waiting : All (IsFound s query P) (p ∷ rest) =
        subst (All (IsFound s query P)) e h.waiting in
      record {
        waiting = waiting.1;
        kept =
            All-push (IsFound s query P) p (with_room x.top_ef) waiting.0
              (with_room-All x.top_ef h.kept);
        once = λ id. ground (
          arith,
          h.once id,
          ap (occ id) e,
          occ-push id p (with_room x.top_ef),
          occ-with_room-le id x.top_ef,
        );
        room =
            omega
              (arith, length-push p (with_room x.top_ef), length-with_room-lt x.top_ef pos h.room);
        some_left = omega (arith, length-push p (with_room x.top_ef));
      }

  -- a candidate that is dropped with the loop
  drop_candidate :
      (x : Exploration R) (p : Pair R) (rest : List (Pair R))
      → x.candidates ≡ p ∷ rest
      → 0 < length x.top_ef
      → IsExploration s query P ef x
      → IsExploration s query P ef (record x { candidates = rest })
  drop_candidate x p rest e left h = record {
    waiting = (subst (All (IsFound s query P)) e h.waiting).1;
    kept = h.kept;
    once = λ id. ground (arith, h.once id, ap (occ id) e);
    room = h.room;
    some_left = omega arith;
  }

  abbrev IsResult : ℕ → Type 0
  IsResult id = (is_live s.nodes id ≡ true) × P id

  IsFound-IsResult : (p : Pair R) → IsFound s query P p → IsResult p.1
  IsFound-IsResult p (node, found, active, _, pa) = (ground arith, pa)

  start :
      (entry_point : ℕ) (node : Node R)
      → find entry_point s.nodes ≡ some node
      → node.active ≡ true
      → P entry_point
      → IsExploration s query P ef (begin s query entry_point node)
  unfolding member
  start entry_point node found active pe = record {
    waiting = ((node, found, active, refl, pe), tt);
    kept = tt;
    once = λ id. ground arith;
    room = omega arith;
    some_left = omega arith;
  }

  module _ (closed : IsClosed s) where
    explore_total :
        (level fuel : ℕ) (x : Exploration R)
        → ((a b : ℕ) → P a → member b (links s level a) ≡ true → P b)
        → 0 < ef
        → IsExploration s query P ef x
        → work s query x < fuel
        → (x' : Exploration R) × (explore s query ef level fuel x ≡ some x')
          × IsExploration s query P ef x'
          × (0 < length x'.top_ef)
    unfolding explore
    explore_total level zero x step pos h w = absurd (omega arith)
    explore_total level (suc fuel) x step pos h w = elim (List-cases x.candidates) [
      | inl empty ↦ (x, simp (empty, explore), h, omega (arith, h.some_left, ap length empty))
      | inr (p, rest, e) ↦
          elim (Bool-cases (nat_beq (length x.top_ef) ef && is_farther s query p x.top_ef)) [
            | inl far ↦ (
              record x { candidates = rest },
              simp (e, far, explore),
              drop_candidate x p rest e (ground arith) h,
              ground arith,
            )
            | inr near ↦
                let (node, found, _, _, pa) = (subst (All (IsFound s query P)) e h.waiting).0 in
                let x' = record x { candidates = rest; top_ef = push p (with_room x.top_ef) } in
                let (y, ey, hy, wy) =
                  visit_all_total x' (set_at level node.neighbors) (take_candidate x p rest pos e h)
                    (λ b m.
                      let m' : member b (links s level p.1) ≡ true =
                        rw (links_of_find s level p.1 node found) m in
                      let r : (contains b s.nodes ≡ true) × P b =
                        (closed level p.1 b m', step p.1 b pa m') in
                      r) in
                let (z, ez, hz, lz) =
                  explore_total level fuel y step pos hy (omega (arith, ap length e)) in
                (z, simp (e, near, explore, found, ey) ez, hz, lz)
          ]
    ]

    -- SearchLevel from an active node: P holds of it, and goes along the links of the level.
    pub search_level_total :
        (level entry_point : ℕ)
        → ((a b : ℕ) → P a → member b (links s level a) ≡ true → P b)
        → P entry_point
        → is_live s.nodes entry_point ≡ true
        → (results : List ℕ) × (search_level s query (some entry_point) ef level ≡ some results)
          × (length results ≤ ef)
          × All (λ id. (is_live s.nodes id ≡ true) × P id) results
          × ((id : ℕ) → occurrences id results ≤ 1)
          × (0 < ef → 0 < length results)
    unfolding search_level
    search_level_total level entry_point step pe live = elim (Bool-cases (nat_beq ef 0)) [
      | inl nothing ↦ ([], rw nothing, omega arith, tt, λ id. omega arith, ground arith)
      | inr some_room ↦ elim (Option-cases (find entry_point s.nodes)) [
        | inl missing ↦ absurd (ground arith)
        | inr (node, found) ↦
            let x = begin s query entry_point node in
            let active : node.active ≡ true = ground arith in
            let (y, ey, hy, ly) =
              explore_total level (suc (suc (length s.nodes))) x step (ground arith)
                (start entry_point node found active pe)
                (omega (arith, unvisited-le s.nodes (entry_point ∷ []))) in
            (
              reverse (map (λ p. p.1) y.top_ef),
              rw (some_room, found, ey),
              omega (
                arith,
                length-reverse (map (λ p. p.1) y.top_ef),
                length-map (λ (p : Pair R). p.1) y.top_ef,
                hy.room,
              ),
              All-reverse IsResult (map (λ p. p.1) y.top_ef) (
                  All-map IsResult (λ p. p.1) y.top_ef
                    (All-weaken (IsFound s query P) (λ p. IsResult p.1) IsFound-IsResult y.top_ef
                      hy.kept)),
              λ id. ground (arith, hy.once id, occurrences-results id y.top_ef),
              λ _. omega (
                arith,
                length-reverse (map (λ p. p.1) y.top_ef),
                length-map (λ (p : Pair R). p.1) y.top_ef,
              ),
            )
      ]
    ]
