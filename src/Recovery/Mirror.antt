-- ===== src/Recovery/Mirror.antt =====
-- What ReplayWAL makes of a store, and stores that agree up to the six digits of the log.
use vector_database.Prelude.{
  ℕ, ◌≡◌, sym, ap, subst, ◌∙◌, Bool, true, false, ◌&&◌, Option, none, some, List, [], ◌∷◌, ◌++◌,
  length-map, map, nat_beq, nat_eq, ◌⊎◌, if◌then◌else◌, arith, Text, Option-cases, inl, inr, ◌>>=◌,
}
use vector_database.Prelude.Map.{find, contains}
use vector_database.Float.{Float, Vector}
use vector_database.Index.Any.{AnyIndex, any_index, any_view, any_laws}
use vector_database.Index.Hnsw.{LevelSource}
use vector_database.Store.{Data, VectorStore, insert, remove}
use vector_database.Store.Indexed.{IsIndexed, accepts}
use vector_database.Store.Total.{insert-IsIndexed, remove-IsIndexed}
use vector_database.Engine.Tables.{WalEntry}

pub some-injective : {A : Type 0} {a b : A} → some a ≡ some b → a ≡ b
some-injective e = cc

-- an entry with its vector as the log has it
abbrev pub rounded : {R : Type 0} → (R → R) → Option (Data R) → Option (Data R)
rounded six none = none
rounded six (some d) = some (record d { vector = map six d.vector })

-- an entry that was written to both, or to none of them
same_inserted :
    {R : Type 0} (six : R → R) (written : Bool) (d : Data R) {o o' p p' : Option (Data R)}
    → o' ≡ (if written then some d else o)
    → p' ≡ (if written then some (record d { vector = map six d.vector }) else p)
    → (p ≡ o) ⊎ (p ≡ rounded six o)
    → (p' ≡ o') ⊎ (p' ≡ rounded six o')
same_inserted six true d e e' h = inr (e' ∙ ap (rounded six) (sym e))
same_inserted six false d e e' (inl h) = inl (e' ∙ h ∙ sym e)
same_inserted six false d e e' (inr h) = inr (e' ∙ h ∙ ap (rounded six) (sym e))

same_removed :
    {R : Type 0} (six : R → R) (gone : Bool) {o o' p p' : Option (Data R)}
    → o' ≡ (if gone then none else o)
    → p' ≡ (if gone then none else p)
    → (p ≡ o) ⊎ (p ≡ rounded six o)
    → (p' ≡ o') ⊎ (p' ≡ rounded six o')
same_removed six true e e' h = inl (e' ∙ sym e)
same_removed six false e e' (inl h) = inl (e' ∙ h ∙ sym e)
same_removed six false e e' (inr h) = inr (e' ∙ h ∙ ap (rounded six) (sym e))

module _ {R : Type 0} ⦃f : Float R⦄ ⦃source : LevelSource R⦄ where
  -- what an entry of the log does to the store of its table; `none` where replay does not return
  unfoldable pub replay_step :
      VectorStore R (AnyIndex R) → WalEntry R → Option (VectorStore R (AnyIndex R))
  replay_step s (WalEntry.insert table id v content) = do r ← insert s id v content; some r.0
  replay_step s (WalEntry.remove table id) = some (remove s id).0
  replay_step s (WalEntry.create table dimensionality config cache_size) = some s
  replay_step s (WalEntry.drop table) = none

  pub replay_step-insert :
      (a a' : VectorStore R (AnyIndex R)) (n : Text) (id : ℕ) (v : Vector R) (content : Text)
      → IsIndexed a
      → replay_step a (WalEntry.insert n id v content) ≡ some a'
      → (ok : Bool) × (insert a id v content ≡ some (a', ok)) × IsIndexed a'
  unfolding replay_step
  replay_step-insert a a' n id v content h e =
      let (b, e', hb, _) = insert-IsIndexed any_laws a id v content h in
      let step : replay_step a (WalEntry.insert n id v content) ≡ some b = rw e' in
      let same = some-injective (sym step ∙ e) in
      (accepts a id v, e' ∙ ap (λ x. some (x, accepts a id v)) same, subst IsIndexed same hb)

  unfoldable pub replay_all :
      VectorStore R (AnyIndex R) → List (WalEntry R) → Option (VectorStore R (AnyIndex R))
  replay_all s [] = some s
  replay_all s (entry ∷ rest) = do s' ← replay_step s entry; replay_all s' rest

  pub replay_all-append :
      (s t : VectorStore R (AnyIndex R)) (xs : List (WalEntry R)) (entry : WalEntry R)
      → replay_all s xs ≡ some t
      → replay_all s (xs ++ entry ∷ []) ≡ replay_step t entry
  unfolding replay_all
  replay_all-append s t [] entry e = ground arith
  replay_all-append s t (x ∷ xs) entry e = elim (Option-cases (replay_step s x)) [
    | inl gone ↦ absurd (ground arith)
    | inr (u, e') ↦ rw e' (replay_all-append u t xs entry (ground arith))
  ]

  -- A store `a` has the entries of `b`, each with its vector or with what the log has of it.
  pub record Mirrors (six : R → R) (b a : VectorStore R (AnyIndex R)) : Type 0 where
    pub indexed : IsIndexed a
    pub same_dimension : a.vector_dimensionality ≡ b.vector_dimensionality
    pub same :
        (x : ℕ)
        → (find x a.store ≡ find x b.store) ⊎ (find x a.store ≡ rounded six (find x b.store))

  pub Mirrors-contains :
      (six : R → R) (b a : VectorStore R (AnyIndex R)) (x : ℕ)
      → Mirrors six b a
      → contains x a.store ≡ contains x b.store
  Mirrors-contains six b a x m = elim (m.same x) [ inl e ↦ ground arith | inr e ↦ ground arith ]

  insert-vector_dimensionality :
      (s t : VectorStore R (AnyIndex R)) (id : ℕ) (v : Vector R) (content : Text) (ok : Bool)
      → insert s id v content ≡ some (t, ok)
      → t.vector_dimensionality ≡ s.vector_dimensionality
  unfolding insert
  insert-vector_dimensionality s t id v content ok e = ground arith

  remove-vector_dimensionality :
      (s : VectorStore R (AnyIndex R)) (id : ℕ)
      → (remove s id).0.vector_dimensionality ≡ s.vector_dimensionality
  unfolding remove
  remove-vector_dimensionality s id = ground arith

  Mirrors-accepts :
      (six : R → R) (b a : VectorStore R (AnyIndex R)) (id : ℕ) (v : Vector R)
      → Mirrors six b a
      → accepts a id (map six v) ≡ accepts b id v
  Mirrors-accepts six b a id v m =
      ground (arith, Mirrors-contains six b a id m, m.same_dimension, length-map six v)

  pub Mirrors-insert :
      (six : R → R) (b a : VectorStore R (AnyIndex R)) (id : ℕ) (v : Vector R) (content : Text)
      → IsIndexed b
      → Mirrors six b a
      → (b' a' : VectorStore R (AnyIndex R)) × (insert b id v content ≡ some (b', accepts b id v))
        × (insert a id (map six v) content ≡ some (a', accepts b id v))
        × Mirrors six b' a'
  Mirrors-insert six b a id v content h m =
      let (b', e, _, at) = insert-IsIndexed any_laws b id v content h in
      let (a', e', ha, at') = insert-IsIndexed any_laws a id (map six v) content m.indexed in
      (
        b',
        a',
        e,
        e' ∙ ap (λ ok. some (a', ok)) (Mirrors-accepts six b a id v m),
        record {
          indexed = ha;
          same_dimension =
              insert-vector_dimensionality a a' id (map six v) content _ e'
              ∙ m.same_dimension
              ∙ sym (insert-vector_dimensionality b b' id v content _ e);
          same = λ x.
              same_inserted six (accepts b id v && nat_beq id x)
                (record { id = id; vector = v; content = content }) (at x)
                (at' x
                  ∙ ap
                      (λ ok.
                        if ok && nat_beq id x
                        then some (record { id = id; vector = map six v; content = content })
                        else find x a.store)
                      (Mirrors-accepts six b a id v m))
                (m.same x);
        },
      )

  pub Mirrors-remove :
      (six : R → R) (b a : VectorStore R (AnyIndex R)) (id : ℕ)
      → IsIndexed b
      → Mirrors six b a
      → Mirrors six (remove b id).0 (remove a id).0
  Mirrors-remove six b a id h m =
      let (_, _, at) = remove-IsIndexed any_laws b id h in
      let (_, ha, at') = remove-IsIndexed any_laws a id m.indexed in
      record {
        indexed = ha;
        same_dimension =
            remove-vector_dimensionality a id
            ∙ m.same_dimension
            ∙ sym (remove-vector_dimensionality b id);
        same = λ x. same_removed six (nat_beq id x) (at x) (at' x) (m.same x);
      }
