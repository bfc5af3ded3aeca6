-- ===== src/Persistence/Snapshot/Entries.antt =====
-- The entries of a store, as they are saved and loaded.
use vector_database.Prelude.{
  ℕ, ◌≡◌, refl, sym, ap, ◌∙◌, false, none, some, [], ◌∷◌, is_empty, nat_eq, nat_beq_iff, arith,
}
use vector_database.Prelude.Map.{Map, find, assign, IsMap, IsMap-assign, find-assign}
use vector_database.Index.Any.{any_index, any_view}
use vector_database.Store.{Data}
use vector_database.Persistence.Snapshot.{save_entries, load_entries}

is_empty-found : {A : Type 0} (m : Map ℕ A) (x : ℕ) (a : A) → find x m ≡ some a → is_empty m ≡ false
unfolding find
is_empty-found [] x a e = cc
is_empty-found (p ∷ m) x a e = refl

pub first_found :
    {A : Type 0} (m : Map ℕ A) → is_empty m ≡ false → (x : ℕ) × (a : A) × (find x m ≡ some a)
unfolding find
first_found [] h = absurd cc
first_found ((k, a) ∷ m) h = (k, a, ground (arith, nat_beq_iff k k))

module _ {R : Type 0} where
  -- the entries lie under their identifiers
  abbrev IsOwn : Map ℕ (Data R) → Type 0
  IsOwn m = (x : ℕ) (entry : Data R) → find x m ≡ some entry → entry.id ≡ x

  IsOwn-tail :
      (k : ℕ) (d : Data R) (m : Map ℕ (Data R)) → IsMap ((k, d) ∷ m) → IsOwn ((k, d) ∷ m) → IsOwn m
  unfolding find
  IsOwn-tail k d m keyed h x entry e = ground (arith, h x entry, nat_beq_iff k x, keyed.0)

  IsOwn-head : (k : ℕ) (d : Data R) (m : Map ℕ (Data R)) → IsOwn ((k, d) ∷ m) → d.id ≡ k
  unfolding find
  IsOwn-head k d m h = ground (arith, h k d, nat_beq_iff k k)

  -- an entry as it is loaded
  abbrev filed : ℕ → Data R → Data R
  filed k d = record { id = k; vector = d.vector; content = d.content }

  same_entry : (k : ℕ) (d : Data R) → d.id ≡ k → filed k d ≡ d
  same_entry k d e = ap (λ i. filed i d) (sym e)

  -- Loading the saved entries adds them to what is there.
  find-load_entries :
      (x : ℕ) (m : Map ℕ (Data R)) (there : Map ℕ (Data R))
      → IsMap m
      → IsOwn m
      → find x (load_entries there (save_entries m))
        ≡ elim (find x m) [ none ↦ find x there | some entry ↦ some entry ]
  unfolding load_entries save_entries find
  find-load_entries x [] there keyed own = refl
  find-load_entries x ((k, d) ∷ m) there keyed own =
      find-load_entries x m (assign k (filed k d) there) keyed.1 (IsOwn-tail k d m keyed own)
      ∙ ground (
        arith,
        same_entry k d (IsOwn-head k d m own),
        find-assign k x (filed k d) there,
        nat_beq_iff k x,
        keyed.0,
      )

  pub load_entries-IsMap :
      (m : Map ℕ (Data R)) (there : Map ℕ (Data R))
      → IsMap there
      → IsMap (load_entries there (save_entries m))
  unfolding load_entries save_entries
  load_entries-IsMap [] there h = h
  load_entries-IsMap ((k, d) ∷ m) there h =
      load_entries-IsMap m (assign k (filed k d) there) (IsMap-assign k (filed k d) there h)

  -- the store that is loaded
  abbrev pub reloaded : Map ℕ (Data R) → Map ℕ (Data R)
  reloaded m = load_entries [] (save_entries m)

  pub find-reloaded :
      (x : ℕ) (m : Map ℕ (Data R)) → IsMap m → IsOwn m → find x (reloaded m) ≡ find x m
  unfolding find
  find-reloaded x m keyed own = ground (arith, find-load_entries x m [] keyed own)

  pub is_empty-reloaded :
      (m : Map ℕ (Data R)) → IsMap m → IsOwn m → is_empty m ≡ false → is_empty (reloaded m) ≡ false
  is_empty-reloaded m keyed own h =
      let (x, d, e) = first_found m h in
      is_empty-found (reloaded m) x d (find-reloaded x m keyed own ∙ e)
