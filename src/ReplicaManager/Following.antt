-- ===== src/ReplicaManager/Following.antt =====
-- A primary that is written and a replica that applies the entries of the writes stay alike.
use vector_database.Prelude.{
  ℕ, ◌≡◌, sym, ap, subst, ◌∙◌, Bool, true, false, Option, some, List, [], ◌∷◌, map, suc, Text,
  text_eq, nat_eq, ◌>>=◌, arith,
}
use vector_database.Prelude.Map.{find, contains}
use vector_database.Float.{Float, Vector}
use vector_database.Index.Any.{AnyIndex, any_index, any_view}
use vector_database.Index.Hnsw.{LevelSource}
use vector_database.Persistence.Wal.RoundTrip.{LogCall}
use vector_database.Recovery.{file_disk}
use vector_database.Store.{VectorStore, remove as store_remove}
use vector_database.Store.Indexed.{accepts}
use vector_database.Validator.{validate_insert, validate_remove}
use vector_database.Engine.{
  Disk, Engine, is_writable, insert as engine_insert, remove as engine_remove,
}
use vector_database.Engine.Running.{IsRunning}
use vector_database.Engine.Present.{Table-of}
use vector_database.Engine.Removals.{removed_flag}
use vector_database.Engine.Tables.{WalEntry, apply_wal_entry}
use vector_database.Recovery.Mirror.{
  some-injective, Mirrors, Mirrors-contains, Mirrors-insert, Mirrors-remove,
}
use vector_database.ReplicaManager.Steps.{
  primary_insert, primary_remove, replica_insert, replica_remove,
}

-- a request that writes to a table
pub data Write (R : Type 0) : Type 0 where
  insert : ℕ → Vector R → Text → Write R
  remove : ℕ → Write R

-- the flags up to the first one that is not set
abbrev pub leading : List Bool → ℕ
leading [] = 0
leading (true ∷ rest) = suc (leading rest)
leading (false ∷ rest) = 0

module _ {R : Type 0} where
  abbrev pub IsValidWrite : Text → Write R → Type 0
  IsValidWrite n (Write.insert id v content) = validate_insert n id v content ≡ true
  IsValidWrite n (Write.remove id) = validate_remove n id ≡ true

  -- the call that writes its line to the log
  abbrev pub call_of : Write R → LogCall R
  call_of (Write.insert id v content) = LogCall.insert id v content
  call_of (Write.remove id) = LogCall.remove id

  -- the entry that reaches the replica, with the digits of floats that the log keeps
  abbrev pub entry_at : (R → R) → Text → Write R → WalEntry R
  entry_at six n (Write.insert id v content) = WalEntry.insert n id (map six v) content
  entry_at six n (Write.remove id) = WalEntry.remove n id

module _ {R D : Type 0} ⦃f : Float R⦄ ⦃source : LevelSource R⦄ ⦃disk : Disk R D⦄ where
  -- what the primary does
  abbrev pub perform : Engine R D → Text → Write R → Option (Engine R D × Bool)
  perform p n (Write.insert id v content) = engine_insert p n id v content
  perform p n (Write.remove id) = engine_remove p n id

  unfoldable pub perform_each : Engine R D → Text → List (Write R) → Option (Engine R D × List Bool)
  perform_each p n [] = some (p, [])
  perform_each p n (w ∷ rest) = do
    result ← perform p n w
    results ← perform_each result.0 n rest
    some (results.0, result.1 ∷ results.1)

module _ {R D : Type 0} ⦃f : Float R⦄ ⦃source : LevelSource R⦄ ⦃disk : Disk R D⦄ (six : R → R) where
  -- Both engines are in order, the primary takes writes, and the table of the replica mirrors that of
  -- the primary.
  pub record IsFollowing (p r : Engine R D) (n : Text) : Type 0 where
    pub primary : IsRunning p
    pub replica : IsRunning r
    pub writable : is_writable p n ≡ true
    pub original : VectorStore R (AnyIndex R)
    pub copy : VectorStore R (AnyIndex R)
    pub found_original : find n p.store_map ≡ some original
    pub found_copy : find n r.store_map ≡ some copy
    pub mirrors : Mirrors six original copy

  -- A write and its entry: the primary and the replica answer alike, and stay alike.
  abbrev pub Followed : Engine R D → Engine R D → Text → Write R → Type 0
  Followed p r n w =
      (u t : Engine R D) × (ok : Bool) × (perform p n w ≡ some (u, ok))
      × (apply_wal_entry r (entry_at six n w) ≡ some (t, ok))
      × IsFollowing u t n

  apply_insert-Followed :
      (p r : Engine R D) (n : Text) (id : ℕ) (v : Vector R) (content : Text)
      → IsFollowing p r n
      → validate_insert n id v content ≡ true
      → Followed p r n (Write.insert id v content)
  unfolding apply_wal_entry
  apply_insert-Followed p r n id v content h valid =
      let t = Table-of p n h.primary (ground arith) in
      let tr = Table-of r n h.replica (ground (arith, h.found_copy)) in
      let so : h.original ≡ t.store = some-injective (sym h.found_original ∙ t.found_store) in
      let sc : h.copy ≡ tr.store = some-injective (sym h.found_copy ∙ tr.found_store) in
      let (u, b', e, hu, wu, fb, eb') =
        primary_insert p n id v content t h.primary h.writable valid in
      let (b, a, eb, ea, m) =
        Mirrors-insert six t.store tr.store id v content
          (h.primary.accounted n t.store t.stats t.found_store t.found_stats).indexed
          (subst (λ x. Mirrors six x tr.store) so (subst (Mirrors six h.original) sc h.mirrors)) in
      let (w, ew, hw, fa) = replica_insert r n id (map six v) content tr a _ h.replica ea in
      let same : b ≡ b' = cc in
      (
        u,
        w,
        accepts t.store id v,
        e,
        ew,
        record {
          primary = hu;
          replica = hw;
          writable = wu;
          original = b';
          copy = a;
          found_original = fb;
          found_copy = fa;
          mirrors = subst (λ x. Mirrors six x a) same m;
        },
      )

  apply_remove-Followed :
      (p r : Engine R D) (n : Text) (id : ℕ)
      → IsFollowing p r n
      → validate_remove n id ≡ true
      → Followed p r n (Write.remove id)
  unfolding apply_wal_entry
  apply_remove-Followed p r n id h valid =
      let t = Table-of p n h.primary (ground arith) in
      let tr = Table-of r n h.replica (ground (arith, h.found_copy)) in
      let so : h.original ≡ t.store = some-injective (sym h.found_original ∙ t.found_store) in
      let sc : h.copy ≡ tr.store = some-injective (sym h.found_copy ∙ tr.found_store) in
      let mirrors =
        subst (λ x. Mirrors six x tr.store) so (subst (Mirrors six h.original) sc h.mirrors) in
      let (u, e, hu, wu, fb) = primary_remove p n id t h.primary h.writable valid in
      let (w, ew, hw, fa) = replica_remove r n id tr h.replica in
      let flag : (store_remove tr.store id).1 ≡ contains id t.store.store =
        removed_flag tr.store id ∙ Mirrors-contains six t.store tr.store id mirrors in
      (
        u,
        w,
        contains id t.store.store,
        e,
        ew ∙ ap (λ ok. some (w, ok)) flag,
        record {
          primary = hu;
          replica = hw;
          writable = wu;
          original = (store_remove t.store id).0;
          copy = (store_remove tr.store id).0;
          found_original = fb;
          found_copy = fa;
          mirrors =
              Mirrors-remove six t.store tr.store id
                (h.primary.accounted n t.store t.stats t.found_store t.found_stats).indexed mirrors;
        },
      )

  pub apply_wal_entry-Followed :
      (p r : Engine R D) (n : Text) (w : Write R)
      → IsFollowing p r n
      → IsValidWrite n w
      → Followed p r n w
  apply_wal_entry-Followed p r n (Write.insert id v content) h valid =
      apply_insert-Followed p r n id v content h valid
  apply_wal_entry-Followed p r n (Write.remove id) h valid = apply_remove-Followed p r n id h valid
