-- ===== src/ReplicaManager/Replication.antt =====
-- A primary that is written, and a replica that is sent what its log has of the writes.
use vector_database.Prelude.{
  ◌≡◌, refl, sym, ap, ◌∙◌, Bool, true, false, some, List, [], ◌∷◌, ◌++◌, foldl, drop, length-map,
  All-append, All-map, map, length, All, Text, text_eq, nat_eq, arith, Bool-cases, inl, inr,
}
use mathlib.Core.List.{foldl-append}
use vector_database.Float.{Float}
use vector_database.Index.Any.{any_index, any_view}
use vector_database.Index.Hnsw.{LevelSource}
use vector_database.Persistence.Stream.{FloatText}
use vector_database.Persistence.Wal.{serialize_wal_entries}
use vector_database.Persistence.Wal.Lines.{FloatTextLaws}
use vector_database.Persistence.Wal.RoundTrip.{
  LogCall, append_call, entry_of, IsLogged, serialize_wal_entries-append_call,
}
use vector_database.Recovery.{Directory, log_text, file_disk}
use vector_database.Recovery.Durable.{log_text-write_log}
use vector_database.Store.{IndexType}
use vector_database.Engine.{Engine, is_writable}
use vector_database.Engine.Running.{IsRunning}
use vector_database.Engine.Writes.{admits_insert, insert-IsRunning}
use vector_database.Engine.Removals.{admits_remove, remove-IsRunning}
use vector_database.Engine.Tables.{WalEntry, sync}
use vector_database.ReplicaManager.Following.{
  Write, IsValidWrite, leading, call_of, entry_at, perform, perform_each, IsFollowing,
  apply_wal_entry-Followed,
}

-- what lies behind the first part of a list
drop-map :
    {A C : Type 0} (g : A → C) (xs ys : List A) → drop (length xs) (map g (xs ++ ys)) ≡ map g ys
drop-map g [] ys = refl
drop-map g (x ∷ xs) ys = drop-map g xs ys

module _ {R : Type 0} ⦃f : Float R⦄ ⦃text : FloatText R⦄ (laws : FloatTextLaws R) where
  entry_of-call_of :
      (index_type : IndexType) (n : Text) (w : Write R)
      → entry_of laws index_type n (call_of w) ≡ entry_at laws.six_digits n w
  entry_of-call_of index_type n (Write.insert id v content) = refl
  entry_of-call_of index_type n (Write.remove id) = refl

  entries_of-calls_of :
      (index_type : IndexType) (n : Text) (writes : List (Write R))
      → map (entry_of laws index_type n) (map call_of writes)
        ≡ map (entry_at laws.six_digits n) writes
  entries_of-calls_of index_type n [] = refl
  entries_of-calls_of index_type n (w ∷ rest) =
      (λ i. entry_of-call_of index_type n w i ∷ entries_of-calls_of index_type n rest i)

module _ {R B : Type 0} ⦃f : Float R⦄ ⦃source : LevelSource R⦄ ⦃text : FloatText R⦄
    (laws : FloatTextLaws R) where
  -- what a write adds to the log of the primary
  performed_log :
      (p u : Engine R (Directory B)) (n : Text) (index_type : IndexType) (w : Write R) (ok : Bool)
      → IsRunning p
      → is_writable p n ≡ true
      → IsValidWrite n w
      → perform p n w ≡ some (u, ok)
      → log_text u.disk n ≡ append_call index_type (log_text p.disk n) (call_of w)
  unfolding append_call
  performed_log p u n index_type (Write.insert id v content) ok h writable valid e =
      let (u', e', _, d, _, _) = insert-IsRunning p n id v content h in
      let same : u ≡ u' = cc in
      let admitted : admits_insert p n id v content ≡ true = ground (arith, writable, valid) in
      ap (λ x. log_text x.disk n) same
      ∙ ap (λ x. log_text x n) (d ∙ rw admitted refl)
      ∙ log_text-write_log p.disk n _
  performed_log p u n index_type (Write.remove id) ok h writable valid e =
      let (u', e', _, d, _, _) = remove-IsRunning p n id h in
      let same : u ≡ u' = cc in
      let admitted : admits_remove p n id ≡ true = ground (arith, writable, valid) in
      ap (λ x. log_text x.disk n) same
      ∙ ap (λ x. log_text x n) (d ∙ rw admitted refl)
      ∙ log_text-write_log p.disk n _

  -- The writes, the log that they leave, and the entries applied on a replica.
  perform_each-Followed :
      (p r : Engine R (Directory B)) (n : Text) (index_type : IndexType) (writes : List (Write R))
      → IsFollowing laws.six_digits p r n
      → All (IsValidWrite n) writes
      → (u t : Engine R (Directory B)) × (flags : List Bool) × (perform_each p n writes
          ≡ some (u, flags))
        × (log_text u.disk n
            ≡ foldl (append_call index_type) (log_text p.disk n) (map call_of writes))
        × (sync r (map (entry_at laws.six_digits n) writes) ≡ some (t, leading flags))
        × (leading flags ≡ length writes → IsFollowing laws.six_digits u t n)
  unfolding perform_each sync
  perform_each-Followed p r n index_type [] h valid = (p, r, [], refl, refl, refl, λ _. h)
  perform_each-Followed p r n index_type (w ∷ rest) h valid =
      let (u, t, ok, e, e', hu) = apply_wal_entry-Followed laws.six_digits p r n w h valid.0 in
      let step = performed_log p u n index_type w ok h.primary h.writable valid.0 e in
      let (u', t', flags, es, log, es', hs) =
        perform_each-Followed u t n index_type rest hu valid.1 in
      let written =
        log ∙ ap (λ file. foldl (append_call index_type) file (map call_of rest)) step in
      elim (Bool-cases ok) [
        | inl taken ↦
            let applied = e' ∙ ap (λ b. some (t, b)) taken in
            (
              u',
              t',
              true ∷ flags,
              rw (e ∙ ap (λ b. some (u, b)) taken, es),
              written,
              rw (applied, es'),
              λ all. hs (omega (arith, all)),
            )
        | inr refused ↦
            let stopped = e' ∙ ap (λ b. some (t, b)) refused in
            (
              u',
              t,
              false ∷ flags,
              rw (e ∙ ap (λ b. some (u, b)) refused, es),
              written,
              rw stopped,
              λ all. absurd (omega (arith, all)),
            )
      ]

  -- A primary, whose log is that of any calls, carries out any valid writes to a table that a replica
  -- mirrors. The replica is sent what SerializeWALEntries then reads of the log of the primary, from
  -- where it ended before. It applies as many entries as there are writes before the first that the
  -- primary refused; where it refused none, the replica mirrors the table again, up to the digits
  -- that the log keeps of a float. Numbers fit, floats are finite and contents are of one line.
  pub sync-perform_each :
      (p r : Engine R (Directory B)) (n : Text) (index_type : IndexType) (before : List (LogCall R))
      (writes : List (Write R))
      → IsFollowing laws.six_digits p r n
      → log_text p.disk n ≡ foldl (append_call index_type) [] before
      → All (IsLogged laws) before
      → All (IsValidWrite n) writes
      → All (λ w. IsLogged laws (call_of w)) writes
      → (u t : Engine R (Directory B)) × (flags : List Bool) × (entries : List (WalEntry R))
        × (perform_each p n writes ≡ some (u, flags))
        × (serialize_wal_entries index_type n (log_text u.disk n) (length before) ≡ some entries)
        × (length entries ≡ length writes)
        × (sync r entries ≡ some (t, leading flags))
        × (leading flags ≡ length writes → IsFollowing laws.six_digits u t n)
  sync-perform_each p r n index_type before writes h log logged valid fits =
      let (u, t, flags, e, written, e', hu) =
        perform_each-Followed p r n index_type writes h valid in
      let calls = map call_of writes in
      let file : log_text u.disk n ≡ foldl (append_call index_type) [] (before ++ calls) =
        written
        ∙ ap (λ x. foldl (append_call index_type) x calls) log
        ∙ sym (foldl-append (append_call index_type) [] before calls) in
      (
        u,
        t,
        flags,
        map (entry_at laws.six_digits n) writes,
        e,
        ap (λ x. serialize_wal_entries index_type n x (length before)) file
            ∙ serialize_wal_entries-append_call laws index_type n (before ++ calls) (length before)
                (All-append (IsLogged laws) before calls logged
                  (All-map (IsLogged laws) call_of writes fits))
            ∙ ap some (
                drop-map (entry_of laws index_type n) before calls
                ∙ entries_of-calls_of laws index_type n writes),
        length-map (entry_at laws.six_digits n) writes,
        e',
        hu,
      )
