-- ===== src/Tests/Stores.antt =====
-- The theorems of the vector store at a store with a graph index.
use vector_database.Prelude.{
  ℕ, ◌≤◌, ◌≡◌, refl, sym, ap, subst, Bool, true, false, ◌&&◌, not, ◌||◌, Option, none, some, List,
  [], ◌∷◌, length, All, map, nat_beq, nat_eq, if◌then◌else◌, arith,
}
use vector_database.Prelude.Map.{find, assign, erase, contains, IsMap}
use vector_database.Index.Laws.{IndexLaws, is_some}
use vector_database.Index.Nearest.Count.{occurrences}
use vector_database.Prelude.Set.{filter, insert as insert_element}
use vector_database.Index.Hnsw.{HnswIndex, set_at, create as graph_create}
use vector_database.Index.Hnsw.Update.{
  hnsw_index, insert as graph_insert, remove as graph_remove, insert_no_lock, insert_at, add_node,
  deactivate, choose_entry,
}
use vector_database.Index.Hnsw.Laws.{hnsw_view, hnsw_laws}
use vector_database.Store.{
  IndexType, Data, VectorStore, create, insert, remove, search, cleanup, compute_checksum,
}
use vector_database.Store.Indexed.{IsIndexed, accepts}
use vector_database.Store.Total.{
  insert-vector_at, remove-IsIndexed, search-stored, cleanup-IsIndexed,
}
use vector_database.Store.Complete.{
  IsComplete, insert-IsComplete, remove-IsComplete, cleanup-IsComplete, insert_unsearchable,
}
use vector_database.Store.Checksum.{compute_checksum-unordered}
use vector_database.Tests.Whole.{whole, thirds}
use vector_database.Tests.Graph.{graph_config, create-IsSound}

abbrev pub Stored : Type 0
Stored = VectorStore ℕ (HnswIndex ℕ)

abbrev pub laws : IndexLaws ℕ (HnswIndex ℕ)
laws = hnsw_laws

abbrev pub none_stale : ℕ → Bool
none_stale x = false

abbrev pub empty_store : Stored
unfolding graph_create
empty_store = create IndexType.hnsw (graph_create graph_config) 2

abbrev pub after_insert : Option (Stored × Bool) → Stored
after_insert none = empty_store
after_insert (some (s, ok)) = s

pub empty-IsComplete : IsComplete empty_store none_stale
unfolding create graph_create find
empty-IsComplete = record {
  indexed = record {
    sound = create-IsSound;
    keyed = tt;
    own = λ x entry e. cc;
    known = λ x v e. cc;
  };
  same_dimension = refl;
  all = λ x. refl;
  free = λ x absent new. refl;
}

grown-IsComplete :
    (s : Stored) (id : ℕ) (v content : List ℕ)
    → IsComplete s none_stale
    → IsComplete (after_insert (insert s id v content)) none_stale
grown-IsComplete s id v content h =
    let (t, e, ht) = insert-IsComplete laws s id v content none_stale refl h in
    subst (λ u. IsComplete u none_stale) (sym (ap after_insert e)) ht

abbrev pub stored_two : Stored
stored_two =
    after_insert
      (insert (after_insert (insert empty_store 1 (5 ∷ 4 ∷ []) (97 ∷ []))) 2 (1 ∷ 1 ∷ []) (98 ∷ []))

pub stored_two-IsComplete : IsComplete stored_two none_stale
stored_two-IsComplete =
    grown-IsComplete _ 2 (1 ∷ 1 ∷ []) (98 ∷ [])
      (grown-IsComplete empty_store 1 (5 ∷ 4 ∷ []) (97 ∷ []) empty-IsComplete)

abbrev pub removed_one : Stored
removed_one = (remove stored_two 1).0

removed_one-IsIndexed : IsIndexed removed_one
removed_one-IsIndexed = (remove-IsIndexed laws stored_two 1 stored_two-IsComplete.indexed).1

insert-vector_at_example :
    (t : Stored) × (insert stored_two 7 (2 ∷ 2 ∷ []) (99 ∷ [])
      ≡ some (t, accepts stored_two 7 (2 ∷ 2 ∷ [])))
    × IsIndexed t
    × ((x : ℕ)
        → find x t.store ≡ (
            if accepts stored_two 7 (2 ∷ 2 ∷ []) && nat_beq 7 x
            then some (record { id = 7; vector = 2 ∷ 2 ∷ []; content = 99 ∷ [] })
            else find x stored_two.store))
    × ((x : ℕ)
        → (hnsw_view {R = ℕ}).vector_at t.index x ≡ (
            if accepts stored_two 7 (2 ∷ 2 ∷ [])
              && (nat_beq 2 ((hnsw_view {R = ℕ}).dimension stored_two.index)
                  && (not ((hnsw_view {R = ℕ}).taken stored_two.index 7) && nat_beq 7 x))
            then some (2 ∷ 2 ∷ [])
            else (hnsw_view {R = ℕ}).vector_at stored_two.index x))
insert-vector_at_example =
    insert-vector_at laws stored_two 7 (2 ∷ 2 ∷ []) (99 ∷ []) stored_two-IsComplete.indexed

search-stored_example :
    (found : List (Data ℕ)) × (search removed_one (3 ∷ 3 ∷ []) 2 10 ≡ some found)
    × (length found ≤ 2)
    × All (λ entry. find entry.id removed_one.store ≡ some entry) found
    × ((id : ℕ) → occurrences id (map (λ entry. entry.id) found) ≤ 1)
search-stored_example = search-stored laws removed_one (3 ∷ 3 ∷ []) 2 10 removed_one-IsIndexed

cleanup-IsIndexed_example :
    (t : Stored) × (cleanup removed_one true ≡ some t)
    × IsIndexed t
    × (t.store ≡ removed_one.store)
    × ((x : ℕ) → contains x t.index.nodes ≡ is_some (hnsw_view.vector_at removed_one.index x))
cleanup-IsIndexed_example = cleanup-IsIndexed laws removed_one true removed_one-IsIndexed

insert-IsComplete_example :
    (t : Stored) × (insert stored_two 7 (2 ∷ 2 ∷ []) (99 ∷ [])
      ≡ some (t, accepts stored_two 7 (2 ∷ 2 ∷ [])))
    × IsComplete t none_stale
insert-IsComplete_example =
    insert-IsComplete laws stored_two 7 (2 ∷ 2 ∷ []) (99 ∷ []) none_stale refl stored_two-IsComplete

remove-IsComplete_example : IsComplete (remove stored_two 1).0 (λ x. none_stale x || nat_beq 1 x)
remove-IsComplete_example = remove-IsComplete laws stored_two 1 none_stale stored_two-IsComplete

cleanup-IsComplete_example :
    (t : Stored) × (cleanup stored_two true ≡ some t) × IsComplete t (λ x. false)
cleanup-IsComplete_example =
    cleanup-IsComplete laws stored_two true none_stale stored_two-IsComplete

abbrev stored_one : Stored
stored_one = after_insert (insert empty_store 1 (5 ∷ 4 ∷ []) (97 ∷ []))

abbrev emptied : Stored
emptied = (remove stored_one 1).0

emptied-IsIndexed : IsIndexed emptied
emptied-IsIndexed =
    (remove-IsIndexed laws stored_one 1
      (grown-IsComplete empty_store 1 (5 ∷ 4 ∷ []) (97 ∷ []) empty-IsComplete).indexed).1

emptied-free : accepts emptied 1 (2 ∷ 2 ∷ []) ≡ true
unfolding create insert remove find assign erase graph_create graph_insert insert_no_lock insert_at
    add_node set_at
emptied-free = refl

emptied-taken : contains 1 emptied.index.nodes ≡ true
unfolding create insert remove find assign erase graph_create graph_insert insert_no_lock insert_at
    add_node set_at graph_remove deactivate choose_entry filter insert_element
emptied-taken = refl

insert_unsearchable_example :
    (t : Stored) × (insert emptied 1 (2 ∷ 2 ∷ []) (99 ∷ []) ≡ some (t, true))
    × (contains 1 t.store ≡ true)
    × (hnsw_view.vector_at t.index 1 ≡ none)
insert_unsearchable_example =
    insert_unsearchable laws emptied 1 (2 ∷ 2 ∷ []) (99 ∷ []) emptied-IsIndexed emptied-free
      emptied-taken

-- the same two entries, in both orders of iteration
abbrev entry_one : ℕ × Data ℕ
entry_one = (1, record { id = 1; vector = 5 ∷ 4 ∷ []; content = 97 ∷ [] })

abbrev entry_two : ℕ × Data ℕ
entry_two = (2, record { id = 2; vector = 1 ∷ 1 ∷ []; content = 98 ∷ [] })

abbrev straight : Stored
straight = record empty_store { store = entry_one ∷ entry_two ∷ [] }

abbrev turned : Stored
turned = record empty_store { store = entry_two ∷ entry_one ∷ [] }

straight-IsMap : IsMap straight.store
unfolding find
straight-IsMap = (refl, (refl, tt))

turned-IsMap : IsMap turned.store
unfolding find
turned-IsMap = (refl, (refl, tt))

turned-same : (x : ℕ) → find x straight.store ≡ find x turned.store
unfolding find
turned-same x = ground arith

compute_checksum-unordered_example : compute_checksum straight ≡ compute_checksum turned
compute_checksum-unordered_example =
    compute_checksum-unordered straight turned straight-IsMap turned-IsMap turned-same
