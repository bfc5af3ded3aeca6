-- ===== src/Recovery/Durable.antt =====
-- The log of a table leads from the store that was saved to the store as it is.
use vector_database.Prelude.{
  ℕ, ◌≡◌, refl, sym, ap, subst, ◌∙◌, Bool, true, false, Option, none, some, List, [], ◌∷◌, ◌++◌,
  map, foldl, All, All-append, if◌then◌else◌, nat_eq, Text, text_eq, arith, Bool-cases, inl, inr,
}
use vector_database.Prelude.Map.{find, contains, find-assign_self}
use vector_database.Float.{Float, Vector}
use vector_database.Index.Any.{AnyIndex, any_index, any_view}
use vector_database.Index.Flat.{FlatIndexConfig}
use vector_database.Index.Hnsw.{HnswIndexConfig, LevelSource}
use vector_database.Store.{IndexType, VectorStore, remove as store_remove, create as create_store}
use vector_database.Store.Indexed.{IsIndexed, accepts}
use vector_database.Engine.{Engine, log_and_insert, log_and_remove, insert, remove}
use vector_database.Engine.Running.{IsRunning, refresh_cache_total}
use vector_database.Engine.Writes.{admits_insert}
use vector_database.Engine.Logging.{log_and_insert_total}
use vector_database.Engine.Present.{Table, Table-of}
use vector_database.Engine.Removals.{log_and_remove_total, admits_remove}
use vector_database.Engine.Tables.{index_type_of, make_index}
use vector_database.Validator.{validate_create_table}
use vector_database.Persistence.Snapshot.{load_metadata, load_snapshot}
use vector_database.Persistence.Stream.{FloatText}
use vector_database.Persistence.Messages.{Protobuf, TableFiles}
use vector_database.Persistence.Wal.Lines.{FloatTextLaws}
use vector_database.Persistence.Wal.RoundTrip.{LogCall, append_call, entry_of, IsLogged}
use vector_database.Recovery.{Directory, files_at, log_text, with_log, write_log, file_disk}
use vector_database.Recovery.Mirror.{
  some-injective, Mirrors, Mirrors-insert, Mirrors-remove, replay_step, replay_all,
  replay_all-append,
}

pub foldl-snoc :
    {A B : Type 0} (g : B → A → B) (b : B) (xs : List A) (x : A)
    → foldl g b (xs ++ x ∷ []) ≡ g (foldl g b xs) x
foldl-snoc g b [] x = refl
foldl-snoc g b (y ∷ xs) x = foldl-snoc g (g b y) xs x

pub map-snoc :
    {A B : Type 0} (g : A → B) (xs : List A) (x : A) → map g (xs ++ x ∷ []) ≡ map g xs ++ g x ∷ []
map-snoc g [] x = refl
map-snoc g (y ∷ xs) x = ap (λ ys. g y ∷ ys) (map-snoc g xs x)

pub files_at-write_log :
    {B : Type 0} (d : Directory B) (n text : Text)
    → files_at (write_log d n text) n ≡ with_log (files_at d n) text
files_at-write_log d n text = rw (files_at, find-assign_self n (with_log (files_at d n) text) d)

pub log_text-write_log :
    {B : Type 0} (d : Directory B) (n text : Text) → log_text (write_log d n text) n ≡ text
log_text-write_log d n text =
    rw (log_text, files_at, find-assign_self n (with_log (files_at d n) text) d)

-- the store of a table after LoadSnapshot: the one that was loaded, or else the one just made
abbrev pub or_made :
    {R : Type 0}
    → ℕ
    → HnswIndexConfig R
    → FlatIndexConfig
    → Option (VectorStore R (AnyIndex R))
    → VectorStore R (AnyIndex R)
or_made dimensionality hnsw flat none =
    create_store (index_type_of hnsw) (make_index hnsw flat) dimensionality
or_made dimensionality hnsw flat (some store) = store

module _ {R B : Type 0} ⦃f : Float R⦄ ⦃source : LevelSource R⦄ ⦃text : FloatText R⦄
    ⦃proto : Protobuf R B⦄ (laws : FloatTextLaws R) where
  -- The files hold the metadata of a table, with which it can be made again, and lead to the store
  -- `saved`.
  pub record IsSaved (files : TableFiles B) (n : Text) (index_type : IndexType)
      (saved : VectorStore R (AnyIndex R)) : Type 0 where
    pub dimensionality : ℕ
    pub hnsw : HnswIndexConfig R
    pub flat : FlatIndexConfig
    pub cache_size : ℕ
    pub metadata : load_metadata files ≡ some (dimensionality, (hnsw, (flat, cache_size)))
    pub valid : validate_create_table n dimensionality hnsw flat cache_size ≡ true
    pub fits : IsLogged laws (LogCall.create hnsw flat cache_size)
    pub same_type : index_type_of hnsw ≡ index_type
    pub snapshot : or_made dimensionality hnsw flat (load_snapshot index_type files) ≡ saved
    pub indexed : IsIndexed saved

  -- the log is no part of it
  pub with_log-IsSaved :
      (files : TableFiles B) (n : Text) (index_type : IndexType)
      (saved : VectorStore R (AnyIndex R)) (file : Text)
      → IsSaved files n index_type saved
      → IsSaved (with_log files file) n index_type saved
  unfolding load_metadata load_snapshot
  with_log-IsSaved files n index_type saved file h = record {
    dimensionality = h.dimensionality;
    hnsw = h.hnsw;
    flat = h.flat;
    cache_size = h.cache_size;
    metadata = h.metadata;
    valid = h.valid;
    fits = h.fits;
    same_type = h.same_type;
    snapshot = h.snapshot;
    indexed = h.indexed;
  }

  -- Replaying the log of a table, which is that of `calls`, on the store `saved` gives a store with
  -- the entries of the table, up to the digits of the log.
  pub record IsDurable (p : Engine R (Directory B)) (n : Text) (index_type : IndexType)
      (saved : VectorStore R (AnyIndex R)) (calls : List (LogCall R)) : Type 0 where
    pub files : IsSaved (files_at p.disk n) n index_type saved
    pub logged : All (IsLogged laws) calls
    pub log : log_text p.disk n ≡ foldl (append_call index_type) [] calls
    pub store : VectorStore R (AnyIndex R)
    pub found : find n p.store_map ≡ some store
    pub replayed : VectorStore R (AnyIndex R)
    pub replays : replay_all saved (map (entry_of laws index_type n) calls) ≡ some replayed
    pub mirrors : Mirrors laws.six_digits store replayed

  ap_files :
      (p u : Engine R (Directory B)) (n : Text) (index_type : IndexType)
      (saved : VectorStore R (AnyIndex R)) (file : Text)
      → u.disk ≡ write_log p.disk n file
      → IsSaved (files_at p.disk n) n index_type saved
      → IsSaved (files_at u.disk n) n index_type saved
  ap_files p u n index_type saved file e h =
      subst (λ files. IsSaved files n index_type saved)
        (sym (ap (λ d. files_at d n) e ∙ files_at-write_log p.disk n file))
        (with_log-IsSaved (files_at p.disk n) n index_type saved file h)

  -- one call more
  longer :
      (p u : Engine R (Directory B)) (n : Text) (index_type : IndexType)
      (saved : VectorStore R (AnyIndex R)) (calls : List (LogCall R)) (c : LogCall R)
      (store replayed : VectorStore R (AnyIndex R))
      → (h : IsDurable p n index_type saved calls) → IsLogged laws c
      → u.disk ≡ write_log p.disk n (append_call index_type (log_text p.disk n) c)
      → find n u.store_map ≡ some store
      → replay_step h.replayed (entry_of laws index_type n c) ≡ some replayed
      → Mirrors laws.six_digits store replayed
      → IsDurable u n index_type saved (calls ++ c ∷ [])
  longer p u n index_type saved calls c store replayed h fits written found e m = record {
    files = ap_files p u n index_type saved _ written h.files;
    logged = All-append (IsLogged laws) calls (c ∷ []) h.logged (fits, tt);
    log =
        ap (λ d. log_text d n) written
        ∙ log_text-write_log p.disk n _
        ∙ ap (λ file. append_call index_type file c) h.log
        ∙ sym (foldl-snoc (append_call index_type) [] calls c);
    store = store;
    found = found;
    replayed = replayed;
    replays =
        ap (replay_all saved) (map-snoc (entry_of laws index_type n) calls c)
        ∙ replay_all-append saved h.replayed (map (entry_of laws index_type n) calls)
            (entry_of laws index_type n c) h.replays
        ∙ e;
    mirrors = m;
  }

  same_store :
      (p : Engine R (Directory B)) (n : Text) (index_type : IndexType)
      (saved : VectorStore R (AnyIndex R)) (calls : List (LogCall R)) (t : Table p n)
      → (h : IsDurable p n index_type saved calls) → h.store ≡ t.store
  same_store p n index_type saved calls t h = some-injective (sym h.found ∙ t.found_store)

  -- the write to the log and the store
  durable_insert :
      (p : Engine R (Directory B)) (n : Text) (index_type : IndexType)
      (saved : VectorStore R (AnyIndex R)) (calls : List (LogCall R)) (id : ℕ) (v : Vector R)
      (content : Text) (t : Table p n)
      → IsRunning p
      → IsDurable p n index_type saved calls
      → IsLogged laws (LogCall.insert id v content)
      → (u : Engine R (Directory B)) × (ok : Bool) × (log_and_insert p n id v content
          ≡ some (u, ok))
        × IsRunning u
        × IsDurable u n index_type saved (calls ++ LogCall.insert id v content ∷ [])
  unfolding replay_step append_call
  durable_insert p n index_type saved calls id v content t h d fits =
      let (u, e, hu, du, _, b', eb, fb) = log_and_insert_total p n id v content h t in
      let (b, a, eb', ea, m) =
        Mirrors-insert laws.six_digits t.store d.replayed id v content
          (h.accounted n t.store t.stats t.found_store t.found_stats).indexed
          (subst (λ b. Mirrors laws.six_digits b d.replayed)
            (same_store p n index_type saved calls t d) d.mirrors) in
      (
        u,
        accepts t.store id v,
        e,
        hu,
        longer p u n index_type saved calls (LogCall.insert id v content) b' a d fits du fb (rw ea)
            (subst (λ b. Mirrors laws.six_digits b a)
              (ap (λ r. r.0) (some-injective (sym eb' ∙ eb))) m),
      )

  durable_remove :
      (p : Engine R (Directory B)) (n : Text) (index_type : IndexType)
      (saved : VectorStore R (AnyIndex R)) (calls : List (LogCall R)) (id : ℕ) (t : Table p n)
      → IsRunning p
      → IsDurable p n index_type saved calls
      → IsLogged laws (LogCall.remove id)
      → (u : Engine R (Directory B)) × (ok : Bool) × (log_and_remove p n id ≡ some (u, ok))
        × IsRunning u
        × IsDurable u n index_type saved (calls ++ LogCall.remove id ∷ [])
  unfolding replay_step append_call
  durable_remove p n index_type saved calls id t h d fits =
      let (u, e, hu, du, _, fb) = log_and_remove_total p n id h t in
      (
        u,
        contains id t.store.store,
        e,
        hu,
        longer p u n index_type saved calls (LogCall.remove id) (store_remove t.store id).0
            (store_remove d.replayed id).0 d fits du fb refl
            (Mirrors-remove laws.six_digits t.store d.replayed id
              (h.accounted n t.store t.stats t.found_store t.found_stats).indexed
              (subst (λ b. Mirrors laws.six_digits b d.replayed)
                (same_store p n index_type saved calls t d) d.mirrors)),
      )

  -- the cache of a table does not matter
  refreshed :
      (u w : Engine R (Directory B)) (n : Text) (index_type : IndexType)
      (saved : VectorStore R (AnyIndex R)) (calls : List (LogCall R))
      → w.store_map ≡ u.store_map
      → w.disk ≡ u.disk
      → IsDurable u n index_type saved calls
      → IsDurable w n index_type saved calls
  refreshed u w n index_type saved calls ws wd d = record {
    files = subst (λ x. IsSaved (files_at x n) n index_type saved) (sym wd) d.files;
    logged = d.logged;
    log = ap (λ files. log_text files n) wd ∙ d.log;
    store = d.store;
    found = ap (find n) ws ∙ d.found;
    replayed = d.replayed;
    replays = d.replays;
    mirrors = d.mirrors;
  }

  -- Insert keeps a table durable: an admitted request adds its entry to the log, any other adds
  -- none, and replaying the log leads to the entries of the table, up to the digits of the log.
  -- Numbers fit their types, floats are finite, and the content is one line.
  pub insert-IsDurable :
      (p : Engine R (Directory B)) (n : Text) (index_type : IndexType)
      (saved : VectorStore R (AnyIndex R)) (calls : List (LogCall R)) (id : ℕ) (v : Vector R)
      (content : Text)
      → IsRunning p
      → IsDurable p n index_type saved calls
      → IsLogged laws (LogCall.insert id v content)
      → (u : Engine R (Directory B)) × (ok : Bool) × (insert p n id v content ≡ some (u, ok))
        × IsRunning u
        × IsDurable u n index_type saved (
            if admits_insert p n id v content
            then calls ++ LogCall.insert id v content ∷ []
            else calls)
  unfolding insert
  insert-IsDurable p n index_type saved calls id v content h d fits =
      elim (Bool-cases (admits_insert p n id v content)) [
        | inr refused ↦ (p, false, rw refused, h, rw refused d)
        | inl admitted ↦
            let t = Table-of p n h (ground arith) in
            let (u, ok, e, hu, du) =
              durable_insert p n index_type saved calls id v content t h d fits in
            let (w, ew, hw, ws, wd) = refresh_cache_total u n hu in
            (
              w,
              ok,
              rw (admitted, e, ew),
              hw,
              rw admitted (refreshed u w n index_type saved _ ws wd du),
            )
      ]

  -- Remove keeps a table durable in the same way.
  pub remove-IsDurable :
      (p : Engine R (Directory B)) (n : Text) (index_type : IndexType)
      (saved : VectorStore R (AnyIndex R)) (calls : List (LogCall R)) (id : ℕ)
      → IsRunning p
      → IsDurable p n index_type saved calls
      → IsLogged laws (LogCall.remove id)
      → (u : Engine R (Directory B)) × (ok : Bool) × (remove p n id ≡ some (u, ok))
        × IsRunning u
        × IsDurable u n index_type saved
            (if admits_remove p n id then calls ++ LogCall.remove id ∷ [] else calls)
  unfolding remove
  remove-IsDurable p n index_type saved calls id h d fits =
      elim (Bool-cases (admits_remove p n id)) [
        | inr refused ↦ (p, false, rw refused, h, rw refused d)
        | inl admitted ↦
            let t = Table-of p n h (ground arith) in
            let (u, ok, e, hu, du) = durable_remove p n index_type saved calls id t h d fits in
            let (w, ew, hw, ws, wd) = refresh_cache_total u n hu in
            (
              w,
              ok,
              rw (admitted, e, ew),
              hw,
              rw admitted (refreshed u w n index_type saved _ ws wd du),
            )
      ]
