-- ===== src/Engine/Accounted.antt =====
-- The counters of a table against its store.
use vector_database.Prelude.{
  ℕ, ◌+◌, ◌%◌, ◌^◌, ◌<◌, ◌≡◌, sym, ap, subst, ◌∙◌, Bool, true, false, Option, some, length,
  if◌then◌else◌, Text, nat_eq, arith, Bool-cases, Option-cases, inl, inr,
}
use vector_database.Prelude.Map.{assign, contains, IsMap, length-assign_new, length-erase}
use vector_database.Float.{Vector}
use vector_database.Index.{VectorIndex}
use vector_database.Index.Laws.{IndexView, IndexLaws}
use vector_database.Store.{VectorStore, insert, remove, cleanup}
use vector_database.Store.Indexed.{IsIndexed, accepts}
use vector_database.Store.Total.{
  insert-IsIndexed, insert_refused, remove-IsIndexed, cleanup-IsIndexed,
}
use vector_database.Stats.{
  StatType, StatsManager, increment, set, reset, adjust_for_deletions, set_removed_flag,
  set_modified_flag,
}

-- The vector count is the number of entries and of those that were removed since the last cleanup.
pub record IsCounting (n : ℕ) (s : StatsManager) : Type 0 where
  pub counted : s.stats.vector_count ≡ (n + s.stats.deleted_count) % 2 ^ 64
  pub small : s.stats.deleted_count < 2 ^ 64

-- What Engine::Insert does to the counters.
unfoldable pub note_insert : StatsManager → StatsManager
unfolding increment set_modified_flag
note_insert s = increment (set_modified_flag s true) StatType.vector

unfoldable pub note_remove : StatsManager → StatsManager
unfolding increment set_modified_flag set_removed_flag
note_remove s =
    increment (increment (set_removed_flag (set_modified_flag s true) true) StatType.deleted)
      StatType.stale

unfoldable pub note_cleanup : StatsManager → StatsManager
unfolding set reset set_removed_flag adjust_for_deletions
note_cleanup s = reset (adjust_for_deletions (set_removed_flag s false)) StatType.deleted

inserted-IsCounting :
    (n : ℕ) (s : StatsManager) → IsCounting n s → IsCounting (n + 1) (note_insert s)
unfolding note_insert increment set_modified_flag
inserted-IsCounting n s h = record { counted = omega (arith, h.counted); small = h.small }

removed-IsCounting :
    (n : ℕ) (s : StatsManager) → IsCounting (n + 1) s → IsCounting n (note_remove s)
unfolding note_remove increment set_modified_flag set_removed_flag
removed-IsCounting n s h = record {
  counted = omega (arith, h.counted);
  small = omega (arith, h.small);
}

-- After a cleanup the vector count is the number of entries.
cleaned-IsCounting :
    (n : ℕ) (s : StatsManager)
    → IsCounting n s
    → IsCounting n (note_cleanup s) × ((note_cleanup s).stats.vector_count ≡ n % 2 ^ 64)
unfolding note_cleanup set reset set_removed_flag adjust_for_deletions
cleaned-IsCounting n s h = (
  record { counted = omega (arith, h.counted, h.small); small = omega arith },
  omega (arith, h.counted, h.small),
)

count_if :
    (b : Bool) (n m : ℕ) (s : StatsManager)
    → IsCounting n s
    → m ≡ (if b then n + 1 else n)
    → IsCounting m (if b then note_insert s else s)
count_if true n m s h e = rw e (inserted-IsCounting n s h)
count_if false n m s h e = rw e h

uncount_if :
    (b : Bool) (n m : ℕ) (s : StatsManager)
    → IsCounting n s
    → n ≡ (if b then m + 1 else m)
    → IsCounting m (if b then note_remove s else s)
uncount_if true n m s h e = removed-IsCounting m s (subst (λ k. IsCounting k s) e h)
uncount_if false n m s h e = subst (λ k. IsCounting k s) e h

some_pair :
    {A B : Type 0} (a c : A) (b d : B)
    → (let o : Option (A × B) = some (a, b) in o) ≡ some (c, d)
    → a ≡ c
some_pair a c b d h = cc

module _ {R I : Type 0} ⦃index : VectorIndex R I⦄ ⦃view : IndexView R I⦄ where
  -- A store in order, and counters that count its entries.
  pub record IsAccounted (store : VectorStore R I) (stats : StatsManager) : Type 0 where
    pub indexed : IsIndexed store
    pub counting : IsCounting (length store.store) stats

module _ {R I : Type 0} ⦃index : VectorIndex R I⦄ ⦃view : IndexView R I⦄
    (laws : IndexLaws R I) where
  inserted_store :
      (store : VectorStore R I) (id : ℕ) (v : Vector R) (content : Text) (t : VectorStore R I)
      → accepts store id v ≡ true
      → insert store id v content ≡ some (t, accepts store id v)
      → t.store ≡ assign id (record { id = id; vector = v; content = content }) store.store
  unfolding insert
  inserted_store store id v content t taken e =
      elim (Option-cases (index.insert store.index id v)) [
        | inl thrown ↦ absurd (ground arith)
        | inr (i, ei) ↦ ground arith
      ]

  length-insert :
      (store : VectorStore R I) (id : ℕ) (v : Vector R) (content : Text) (t : VectorStore R I)
      → insert store id v content ≡ some (t, accepts store id v)
      → length t.store ≡ (if accepts store id v then length store.store + 1 else length store.store)
  length-insert store id v content t e = elim (Bool-cases (accepts store id v)) [
    | inr refused ↦
        let same : t ≡ store =
          some_pair t store (accepts store id v) false
            (sym e ∙ insert_refused laws store id v content refused) in
        rw refused (ap (λ u. length u.store) same)
    | inl taken ↦ rw taken (
        ap length (inserted_store store id v content t taken e)
        ∙ length-assign_new id (record { id = id; vector = v; content = content }) store.store
            (ground arith))
  ]

  length-remove :
      (store : VectorStore R I) (id : ℕ)
      → IsMap store.store
      → length store.store ≡ (
          if contains id store.store
          then length (remove store id).0.store + 1
          else length (remove store id).0.store)
  unfolding remove
  length-remove store id keyed = ground (arith, length-erase id store.store keyed)

  -- Insert throws nothing, and the counters count the entries again.
  pub insert-IsAccounted :
      (store : VectorStore R I) (stats : StatsManager) (id : ℕ) (v : Vector R) (content : Text)
      → IsAccounted store stats
      → (store' : VectorStore R I) × (insert store id v content ≡ some (store', accepts store id v))
        × IsAccounted store' (if accepts store id v then note_insert stats else stats)
  insert-IsAccounted store stats id v content h =
      let (t, e, ht, _) = insert-IsIndexed laws store id v content h.indexed in
      (
        t,
        e,
        record {
          indexed = ht;
          counting =
              count_if (accepts store id v) (length store.store) (length t.store) stats h.counting
                (length-insert store id v content t e);
        },
      )

  -- Remove, with the counters.
  pub remove-IsAccounted :
      (store : VectorStore R I) (stats : StatsManager) (id : ℕ)
      → IsAccounted store stats
      → IsAccounted
          (remove store id).0
          (if contains id store.store then note_remove stats else stats)
  remove-IsAccounted store stats id h =
      let (_, ht, _) = remove-IsIndexed laws store id h.indexed in
      record {
        indexed = ht;
        counting =
            uncount_if (contains id store.store) (length store.store)
              (length (remove store id).0.store) stats h.counting
              (length-remove store id h.indexed.keyed);
      }

  -- Cleanup throws nothing, and the vector count becomes the number of entries.
  pub cleanup-IsAccounted :
      (store : VectorStore R I) (stats : StatsManager) (reindex : Bool)
      → IsAccounted store stats
      → (store' : VectorStore R I) × (cleanup store reindex ≡ some store')
        × IsAccounted store' (note_cleanup stats)
        × ((note_cleanup stats).stats.vector_count ≡ length store'.store % 2 ^ 64)
  cleanup-IsAccounted store stats reindex h =
      let (t, e, ht, same, _) = cleanup-IsIndexed laws store reindex h.indexed in
      let (c, n) = cleaned-IsCounting (length store.store) stats h.counting in
      (
        t,
        e,
        record { indexed = ht; counting = rw (ap length same) c },
        n ∙ ap (λ m. length m % 2 ^ 64) (sym same),
      )
