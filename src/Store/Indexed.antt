-- ===== src/Store/Indexed.antt =====
-- The vector store and its index: the index never knows more than the store.
use vector_database.Prelude.{
  ℕ, ◌≡◌, refl, sym, ap, subst, ◌∙◌, Bool, true, false, not, ◌&&◌, Option, none, some, List, [],
  ◌∷◌, length, map, All, nat_beq, nat_eq, nat_beq_iff, if◌then◌else◌, arith, Text, Option-cases,
  inl, inr,
}
use vector_database.Prelude.Map.{
  Map, find, assign, erase, contains, IsMap, IsMap-assign, IsMap-erase, find-assign, find-erase,
}
use vector_database.Float.{Vector}
use vector_database.Index.Laws.{IndexView, is_some}
use vector_database.Store.{Data, VectorStore, gather}

module _ {R : Type 0} where
  gather-cons :
      (store : Map ℕ (Data R)) (id : ℕ) (ids : List ℕ) (entry : Data R)
      → find id store ≡ some entry
      → gather store (id ∷ ids) ≡ entry ∷ gather store ids
  unfolding gather
  gather-cons store id ids entry e = cc

  gather-skip :
      (store : Map ℕ (Data R)) (id : ℕ) (ids : List ℕ)
      → find id store ≡ none
      → gather store (id ∷ ids) ≡ gather store ids
  unfolding gather
  gather-skip store id ids e = cc

module _ {R I : Type 0} where
  -- the vector that is stored under an identifier
  abbrev pub stored : VectorStore R I → ℕ → Option (Vector R)
  stored s x = elim (find x s.store) [ none ↦ none | some entry ↦ some entry.vector ]

  -- whether Insert takes a vector
  abbrev pub accepts : VectorStore R I → ℕ → Vector R → Bool
  accepts s id v = not (contains id s.store) && nat_beq (length v) s.vector_dimensionality

module _ {R I : Type 0} ⦃view : IndexView R I⦄ where
  -- The entries lie under their identifiers, and the index has no other vectors.
  pub record IsIndexed (s : VectorStore R I) : Type 0 where
    pub sound : view.IsSound s.index
    pub keyed : IsMap s.store
    pub own : (x : ℕ) (entry : Data R) → find x s.store ≡ some entry → entry.id ≡ x
    pub known : (x : ℕ) (v : Vector R) → view.vector_at s.index x ≡ some v → stored s x ≡ some v

  -- A new entry, in an index that took it or refused it.
  pub inserted-IsIndexed :
      (s : VectorStore R I) (id : ℕ) (v : Vector R) (content : Text) (i : I) (b : Bool)
      → IsIndexed s
      → contains id s.store ≡ false
      → view.IsSound i
      → ((x : ℕ)
          → view.vector_at i x ≡ (if b && nat_beq id x then some v else view.vector_at s.index x))
      → IsIndexed (record s {
        store = assign id (record { id = id; vector = v; content = content }) s.store;
        index = i;
      })
  inserted-IsIndexed s id v content i b h free hi at = record {
    sound = hi;
    keyed = IsMap-assign id (record { id = id; vector = v; content = content }) s.store h.keyed;
    own = λ x d e. ground (
      arith,
      find-assign id x (record { id = id; vector = v; content = content }) s.store,
      h.own x d,
      nat_beq_iff id x,
    );
    known = λ x w e. ground (
      arith,
      find-assign id x (record { id = id; vector = v; content = content }) s.store,
      at x,
      h.known x w,
      nat_beq_iff id x,
    );
  }

  pub removed-IsIndexed :
      (s : VectorStore R I) (id : ℕ) (i : I)
      → IsIndexed s
      → view.IsSound i
      → ((x : ℕ) → view.vector_at i x ≡ (if nat_beq id x then none else view.vector_at s.index x))
      → IsIndexed (record s { store = erase id s.store; index = i })
  removed-IsIndexed s id i h hi at = record {
    sound = hi;
    keyed = IsMap-erase id s.store h.keyed;
    own = λ x d e. ground (arith, find-erase id x s.store, h.own x d);
    known = λ x w e. ground (arith, find-erase id x s.store, at x, h.known x w);
  }

  pub rebuilt-IsIndexed :
      (s : VectorStore R I) (i : I)
      → IsIndexed s
      → view.IsSound i
      → ((x : ℕ) → view.vector_at i x ≡ view.vector_at s.index x)
      → IsIndexed (record s { index = i })
  rebuilt-IsIndexed s i h hi at = record {
    sound = hi;
    keyed = h.keyed;
    own = h.own;
    known = λ x w e. h.known x w (sym (at x) ∙ e);
  }

  known-entry :
      (s : VectorStore R I) (id : ℕ)
      → IsIndexed s
      → is_some (view.vector_at s.index id) ≡ true
      → (entry : Data R) × (find id s.store ≡ some entry)
  known-entry s id h live = elim (Option-cases (view.vector_at s.index id)) [
    | inl gone ↦ absurd (ground arith)
    | inr (v, e) ↦ elim (Option-cases (find id s.store)) [
      | inl absent ↦ absurd (ground (arith, h.known id v e))
      | inr found ↦ found
    ]
  ]

  pub gather-found :
      (s : VectorStore R I) (ids : List ℕ)
      → IsIndexed s
      → All (λ id. is_some (view.vector_at s.index id) ≡ true) ids
      → map (λ entry. entry.id) (gather s.store ids) ≡ ids
  unfolding gather
  gather-found s [] h live = refl
  gather-found s (id ∷ ids) h live =
      let (entry, e) = known-entry s id h live.0 in
      ap (map (λ entry. entry.id)) (gather-cons s.store id ids entry e)
      ∙ (λ i. h.own id entry e i ∷ gather-found s ids h live.1 i)

  -- What Search gathers lies in the store under its identifier.
  pub gather-All :
      (s : VectorStore R I) (ids : List ℕ)
      → IsIndexed s
      → All (λ entry. find entry.id s.store ≡ some entry) (gather s.store ids)
  unfolding gather
  gather-All s [] h = tt
  gather-All s (id ∷ ids) h = elim (Option-cases (find id s.store)) [
    | inl absent ↦ subst (All _) (sym (gather-skip s.store id ids absent)) (gather-All s ids h)
    | inr (entry, e) ↦
        subst (All _) (sym (gather-cons s.store id ids entry e))
          (ap (λ x. find x s.store) (h.own id entry e) ∙ e, gather-All s ids h)
  ]
