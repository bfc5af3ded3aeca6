-- ===== src/Index/Flat/Laws.antt =====
-- The exhaustive index keeps the laws of an index, whatever its distances are.
use vector_database.Prelude.{
  ℕ, ◌+◌, ◌≤◌, ◌≡◌, refl, ap, true, not, ◌&&◌, some, List, [], ◌∷◌, map, foldl, length, All,
  All-map, All-reverse, All-drop, All-weaken, nat_beq, nat_eq, nat_beq_iff, if◌then◌else◌, arith,
  ltb, Bool-cases, inl, inr, length-map, length-reverse, length-drop,
}
use vector_database.Prelude.Map.{
  Map, find, contains, IsMap, IsMap-assign, IsMap-erase, find-assign, find-erase,
}
use vector_database.Float.{Float, Vector}
use vector_database.Index.Laws.{IndexView, IndexLaws, is_some}
use vector_database.Index.Nearest.{Pair, push}
use vector_database.Index.Nearest.Order.{All-push}
use vector_database.Index.Nearest.Count.{
  occurrences, occ, occurrences-results, occ-push, occ-tail-le, length-push,
}
use vector_database.Index.Flat.{FlatIndex, insert, remove, search, offer, measured, flat_index}

later :
    {V : Type 0} (x k : ℕ) (v : V) (m : Map ℕ V)
    → is_some (find x m) ≡ true
    → is_some (find x ((k, v) ∷ m)) ≡ true
unfolding find
later x k v m h = ground arith

module _ {R : Type 0} ⦃f : Float R⦄ where
  -- The vectors have distinct identifiers and fit.
  pub record IsSound (s : FlatIndex R) : Type 0 where
    pub keyed : IsMap s.vectors
    pub sized :
        (x : ℕ) (w : Vector R)
        → find x s.vectors ≡ some w
        → nat_beq (length w) s.config.vector_dimensionality ≡ true

  offer-All :
      (P : Pair R → Type 0) (k : ℕ) (l : List (Pair R)) (p : Pair R)
      → All P l
      → P p
      → All P (offer k l p)
  unfolding offer
  offer-All P k l p h hp = elim (Bool-cases (ltb k (length (push p l)))) [
    | inl over ↦ rw over (All-drop P 1 (push p l) (All-push P p l hp h))
    | inr fits ↦ rw fits (All-push P p l hp h)
  ]

  foldl-offer-All :
      (P : Pair R → Type 0) (k : ℕ) (l ps : List (Pair R))
      → All P l
      → All P ps
      → All P (foldl (offer k) l ps)
  foldl-offer-All P k l [] h hp = h
  foldl-offer-All P k l (p ∷ ps) h hp =
      foldl-offer-All P k (offer k l p) ps (offer-All P k l p h hp.0) hp.1

  length-foldl-offer :
      (k : ℕ) (l ps : List (Pair R)) → length l ≤ k → length (foldl (offer k) l ps) ≤ k
  unfolding offer
  length-foldl-offer k l [] h = h
  length-foldl-offer k l (p ∷ ps) h =
      length-foldl-offer k (offer k l p) ps
        (ground (arith, length-push p l, length-drop 1 (push p l)))

  occ-foldl-offer :
      (id k : ℕ) (l ps : List (Pair R)) → occ id (foldl (offer k) l ps) ≤ occ id l + occ id ps
  unfolding offer
  occ-foldl-offer id k l [] = omega arith
  occ-foldl-offer id k l (p ∷ ps) =
      ground
        (arith, occ-foldl-offer id k (offer k l p) ps, occ-push id p l, occ-tail-le id (push p l))

  occ-measured :
      (s : FlatIndex R) (query : Vector R) (id : ℕ) (m : Map ℕ (Vector R))
      → IsMap m
      → occ id (map (measured s query) m) ≤ (if contains id m then 1 else 0)
  unfolding measured find
  occ-measured s query id [] h = omega arith
  occ-measured s query id ((k, v) ∷ m) h =
      ground (arith, occ-measured s query id m h.1, nat_beq_iff k id)

  measured-All :
      (s : FlatIndex R) (query : Vector R) (m : Map ℕ (Vector R))
      → IsMap m
      → All (λ p. is_some (find p.1 m) ≡ true) (map (measured s query) m)
  unfolding measured find
  measured-All s query [] h = tt
  measured-All s query ((k, v) ∷ m) h = (
    ground (arith, nat_beq_iff k k),
    All-weaken _ _ (λ p (hp : is_some (find p.1 m) ≡ true). later p.1 k v m hp)
        (map (measured s query) m) (measured-All s query m h.1),
  )

  abbrev best : FlatIndex R → Vector R → ℕ → List (Pair R)
  best s query k = foldl (offer k) [] (map (measured s query) s.vectors)

  search_total :
      (s : FlatIndex R) (query : Vector R) (k : ℕ)
      → IsMap s.vectors
      → (length (search s query k) ≤ k)
        × All (λ id. is_some (find id s.vectors) ≡ true) (search s query k)
        × ((id : ℕ) → occurrences id (search s query k) ≤ 1)
  unfolding search
  search_total s query k m =
      elim (Bool-cases (nat_beq (length query) s.config.vector_dimensionality)) [
        | inr refused ↦ rw refused (omega arith, tt, λ id. omega arith)
        | inl taken ↦ rw taken (
          omega (
            arith,
            length-reverse (map (λ p. p.1) (best s query k)),
            length-map (λ (p : Pair R). p.1) (best s query k),
            length-foldl-offer k [] (map (measured s query) s.vectors) (omega arith),
          ),
          All-reverse _ (map (λ p. p.1) (best s query k)) (
              All-map _ (λ p. p.1) (best s query k)
                (foldl-offer-All _ k [] (map (measured s query) s.vectors) tt
                  (measured-All s query s.vectors m))),
          λ id. ground (
            arith,
            occurrences-results id (best s query k),
            occ-foldl-offer id k [] (map (measured s query) s.vectors),
            occ-measured s query id s.vectors m,
          ),
        )
      ]

  instance abbrev pub flat_view : IndexView R (FlatIndex R)
  flat_view = record {
    IsSound = IsSound;
    dimension = λ s. s.config.vector_dimensionality;
    vector_at = λ s x. find x s.vectors;
    taken = λ s x. contains x s.vectors;
  }

  insert-find :
      (s : FlatIndex R) (id : ℕ) (v : Vector R) (x : ℕ)
      → find x (insert s id v).vectors ≡ (
          if nat_beq (length v) s.config.vector_dimensionality
            && (not (contains id s.vectors) && nat_beq id x)
          then some v
          else find x s.vectors)
  unfolding insert
  insert-find s id v x = ground (arith, find-assign id x v s.vectors)

  insert-config : (s : FlatIndex R) (id : ℕ) (v : Vector R) → (insert s id v).config ≡ s.config
  unfolding insert
  insert-config s id v = ground arith

  insert-IsSound : (s : FlatIndex R) (id : ℕ) (v : Vector R) → IsSound s → IsSound (insert s id v)
  unfolding insert
  insert-IsSound s id v h = record {
    keyed = ground (arith, IsMap-assign id v s.vectors h.keyed, h.keyed);
    sized = λ x w e. ground (arith, insert-find s id v x, insert-config s id v, h.sized x w);
  }

  remove-IsSound : (s : FlatIndex R) (id : ℕ) → IsSound s → IsSound (remove s id)
  unfolding remove
  remove-IsSound s id h = record {
    keyed = IsMap-erase id s.vectors h.keyed;
    sized = λ x w e. ground (arith, find-erase id x s.vectors, h.sized x w);
  }

  -- The exhaustive index keeps the laws.
  pub flat_laws : IndexLaws R (FlatIndex R)
  unfolding remove
  flat_laws = record {
    insert_law = λ s id v h. (
      insert s id v,
      refl,
      insert-IsSound s id v h,
      ap (λ c. c.vector_dimensionality) (insert-config s id v),
      λ x. insert-find s id v x,
      λ x. ground (arith, insert-find s id v x),
    );
    remove_law = λ s id h. (
      remove-IsSound s id h,
      refl,
      λ x. find-erase id x s.vectors,
      λ x ne. ground (arith, find-erase id x s.vectors),
    );
    taken_law = λ s x h free. ground arith;
    search_law = λ s query k _ h.
        let (few, known, once) = search_total s query k h.keyed in
        (search s query k, refl, few, known, once);
    cleanup_law = λ s h. (h, refl, λ x. refl, λ x. refl);
    reindex_law = λ s h all. (s, refl, h, refl, λ x. refl, all);
  }
