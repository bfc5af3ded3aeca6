-- ===== src/Persistence/Snapshot/RoundTrip.antt =====
-- A table that was saved by SaveSnapshot and read by LoadSnapshot is the table that was saved.
use vector_database.Prelude.{
  ℕ, ◌≡◌, refl, sym, ap, subst, ◌∙◌, Bool, true, false, Option, some, [], is_empty, nat_eq, arith,
  Option-cases, inl, inr, Text,
}
use vector_database.Prelude.Map.{find}
use vector_database.Float.{Float}
use vector_database.Index.Any.{
  AnyIndex, any_index, any_view, AnySound, any_dimension, any_vector_at, any_taken,
}
use vector_database.Index.Laws.{is_some}
use vector_database.Index.Hnsw.{LevelSource}
use vector_database.Store.{IndexType, Data, VectorStore, compute_checksum}
use vector_database.Store.Complete.{IsComplete}
use vector_database.Store.Checksum.{compute_checksum-unordered}
use vector_database.Persistence.Messages.{Protobuf, TableFiles}
use vector_database.Persistence.Messages.Laws.{
  IsStoreMessage, IsHnswMessage, IsFlatMessage, ProtobufLaws,
}
use vector_database.Persistence.Snapshot.Reordered.{
  load_hnsw-Reordered, Reordered-HnswSound, find-load_flat, config-load_flat, load_flat-FlatSound,
}
use vector_database.Index.Flat.Laws.{IsSound as FlatSound}
use vector_database.Persistence.Snapshot.{
  save_entries, save_index, load_index, save_snapshot, load_snapshot, save_flat, load_flat,
  save_hnsw, load_hnsw,
}
use vector_database.Persistence.Snapshot.Reload.{
  reload, reload_flat, reload-HnswSound, vector_at-reload, contains-reload, config-reload,
}
use vector_database.Persistence.Snapshot.Entries.{
  reloaded, find-reloaded, load_entries-IsMap, is_empty-reloaded, first_found,
}

-- the class of an index
abbrev pub class_of : {R : Type 0} → AnyIndex R → IndexType
class_of (AnyIndex.hnsw s) = IndexType.hnsw
class_of (AnyIndex.flat s) = IndexType.flat

module _ {R : Type 0} where
  abbrev pub IsIndexMessage : AnyIndex R → Type 0
  IsIndexMessage (AnyIndex.hnsw s) = IsHnswMessage (save_hnsw s)
  IsIndexMessage (AnyIndex.flat s) = IsFlatMessage (save_flat s)

  -- The messages of a store can be serialized: keys are distinct, numbers fit, texts are valid.
  pub record IsStorable (valid_text : Text → Bool) (s : VectorStore R (AnyIndex R)) : Type 0 where
    pub entries : IsStoreMessage {R = R} valid_text (record {
      vector_entry = save_entries s.store;
      vector_dimensionality = s.vector_dimensionality;
    })
    pub index : IsIndexMessage s.index

module _ {R B : Type 0} ⦃f : Float R⦄ ⦃source : LevelSource R⦄ ⦃proto : Protobuf R B⦄
    (laws : ProtobufLaws R B) where
  -- An index that has a vector is loaded as an index that stands for the same vectors.
  index_reload :
      (i : AnyIndex R) (x : ℕ) (file : Option B)
      → AnySound i
      → IsIndexMessage i
      → is_some (any_vector_at i x) ≡ true
      → (b : B) × (save_index (class_of i) i file ≡ some b)
        × AnySound (load_index {R = R} (class_of i) b)
        × (any_dimension (load_index {R = R} (class_of i) b) ≡ any_dimension i)
        × ((y : ℕ) → any_vector_at (load_index {R = R} (class_of i) b) y ≡ any_vector_at i y)
        × ((y : ℕ) → any_taken (load_index {R = R} (class_of i) b) y ≡ any_taken i y)
  unfolding save_index load_index
  index_reload (AnyIndex.hnsw s) x file h fits live = elim (Option-cases s.entry_point) [
    | inl missing ↦ absurd (ground (arith, h.valid.no_entry missing x))
    | inr (e, has) ↦
        let m = save_hnsw s in
        let t = load_hnsw (proto.parse_hnsw (proto.serialize_hnsw m)) in
        let r = load_hnsw-Reordered m _ (laws.hnsw_law m fits) in
        (
          proto.serialize_hnsw m,
          refl,
          Reordered-HnswSound (reload s) t r (reload-HnswSound s e has h),
          ap (λ c. c.vector_dimensionality) (r.config ∙ config-reload s),
          λ y. r.vector y ∙ vector_at-reload s y,
          λ y. r.there y ∙ contains-reload s y,
        )
  ]
  index_reload (AnyIndex.flat s) x file h fits live =
      let m = save_flat s in
      let same = laws.flat_law m fits in
      let m' = proto.parse_flat (proto.serialize_flat m) in
      let back = reload_flat s in
      let at : (y : ℕ) → find y (load_flat m').vectors ≡ find y s.vectors =
        λ y. find-load_flat m m' y same ∙ ap (λ i. find y i.vectors) back in
      (
        proto.serialize_flat m,
        refl,
        load_flat-FlatSound m m' same (subst FlatSound (sym back) h),
        ap (λ c. c.vector_dimensionality) (config-load_flat m m' same ∙ ap (λ i. i.config) back),
        at,
        λ y. ground (arith, at y),
      )

  class_of-load_index : (t : IndexType) (b : B) → class_of (load_index {R = R} t b) ≡ t
  unfolding load_index
  class_of-load_index IndexType.hnsw b = refl
  class_of-load_index IndexType.flat b = refl

  -- the store that is loaded, with a loaded index
  abbrev back : VectorStore R (AnyIndex R) → B → VectorStore R (AnyIndex R)
  back s b = record {
    index_type = class_of s.index;
    store = reloaded s.store;
    index = load_index {R = R} (class_of s.index) b;
    vector_dimensionality = s.vector_dimensionality;
  }

  load_steps :
      (s : VectorStore R (AnyIndex R)) (files : TableFiles B) (b : B)
      → save_index (class_of s.index) s.index files.index_snapshot ≡ some b
      → is_empty (reloaded s.store) ≡ false
      → IsStorable laws.valid_text s
      → load_snapshot (class_of s.index) (save_snapshot (class_of s.index) s files)
        ≡ some (back s b)
  unfolding save_snapshot load_snapshot vector_database.Store.load
  load_steps s files b e full fits = rw (
    e,
    laws.store_law
        (record {
          vector_entry = save_entries s.store;
          vector_dimensionality = s.vector_dimensionality;
        })
        fits.entries,
    full,
  )

  back-IsComplete :
      (s : VectorStore R (AnyIndex R)) (b : B) (stale : ℕ → Bool)
      → IsComplete s stale
      → AnySound (load_index {R = R} (class_of s.index) b)
      → any_dimension (load_index {R = R} (class_of s.index) b) ≡ any_dimension s.index
      → ((y : ℕ)
          → any_vector_at (load_index {R = R} (class_of s.index) b) y ≡ any_vector_at s.index y)
      → ((y : ℕ) → any_taken (load_index {R = R} (class_of s.index) b) y ≡ any_taken s.index y)
      → IsComplete (back s b) stale
  back-IsComplete s b stale h hi hd at has =
      let same : (x : ℕ) → find x (reloaded s.store) ≡ find x s.store =
        λ x. find-reloaded x s.store h.indexed.keyed h.indexed.own in
      record {
        indexed = record {
          sound = hi;
          keyed = load_entries-IsMap s.store [] tt;
          own = λ x d e. h.indexed.own x d (sym (same x) ∙ e);
          known = λ x v e. ground (arith, at x, same x, h.indexed.known x v);
        };
        same_dimension = hd ∙ h.same_dimension;
        all = λ x. ground (arith, at x, same x, h.all x);
        free = λ x absent fresh. ground (arith, has x, same x, h.free x);
      }

  -- A table that is not empty, whose messages can be serialized, and whose index knows all that the
  -- store has, is loaded from the
  -- files that SaveSnapshot wrote, whatever stood in them: LoadSnapshot answers a store with the
  -- same entries, class of index and dimension, so with the same checksum; its index knows all
  -- that it has, and refuses the same identifiers.
  pub load_snapshot-save_snapshot :
      (s : VectorStore R (AnyIndex R)) (files : TableFiles B) (stale : ℕ → Bool)
      → IsComplete s stale
      → is_empty s.store ≡ false
      → IsStorable laws.valid_text s
      → (t : VectorStore R (AnyIndex R)) × (load_snapshot
            (class_of s.index)
            (save_snapshot (class_of s.index) s files)
          ≡ some t)
        × IsComplete t stale
        × ((x : ℕ) → find x t.store ≡ find x s.store)
        × (compute_checksum t ≡ compute_checksum s)
        × (class_of t.index ≡ class_of s.index)
        × (t.vector_dimensionality ≡ s.vector_dimensionality)
        × ((x : ℕ) → any_taken t.index x ≡ any_taken s.index x)
  load_snapshot-save_snapshot s files stale h full fits =
      let keyed = h.indexed.keyed in
      let own = h.indexed.own in
      let (x, d, e) = first_found s.store full in
      let (b, saved, hi, hd, at, has) =
        index_reload s.index x files.index_snapshot h.indexed.sound fits.index
          (ground (arith, h.all x)) in
      let same : (y : ℕ) → find y (reloaded s.store) ≡ find y s.store =
        λ y. find-reloaded y s.store keyed own in
      let loaded = back-IsComplete s b stale h hi hd at has in
      (
        back s b,
        load_steps s files b saved (is_empty-reloaded s.store keyed own full) fits,
        loaded,
        same,
        compute_checksum-unordered (back s b) s loaded.indexed.keyed keyed same,
        class_of-load_index (class_of s.index) b,
        refl,
        has,
      )
