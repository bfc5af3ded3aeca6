-- ===== src/Tests/Files.antt =====
-- Whole numbers in decimals in the log, messages as they are, and the theorems of the log.
use vector_database.Prelude.{
  ℕ, ◌≡◌, Bool, Option, ltb, ◌&&◌, nat_eq, false, refl, ap, sym, ◌∙◌, true, none, some, List, [],
  ◌∷◌, ◌++◌, drop, foldl, map, Text, arith, if◌then◌else◌,
}
use vector_database.Prelude.Map.{find}
use vector_database.Index.Distance.{DistanceMetric}
use vector_database.Store.{IndexType}
use vector_database.Engine.Tables.{WalEntry}
use vector_database.Persistence.Stream.{is_digit, is_space, print_number, read_digits, FloatText}
use vector_database.Persistence.Stream.Laws.{
  print_number-IsLine, print_number_start, read_digits-print_number,
}
use vector_database.Persistence.Messages.{
  StoreSnapshot, StoredNode, HnswIndexSnapshot, FlatIndexSnapshot, TableMetadata, Protobuf,
}
use vector_database.Persistence.Messages.Laws.{IsNodeMessage, SameNodes, ProtobufLaws}
use vector_database.Persistence.Wal.{append_insert, remove_line, serialize_wal_entries}
use vector_database.Persistence.Wal.Lines.{FloatTextLaws}
use vector_database.Persistence.Wal.RoundTrip.{
  LogCall, append_call, entry_of, serialize_wal_entries-append_call, serialize_wal_entries-injected,
}
use vector_database.Persistence.Snapshot.{no_hnsw_config, no_flat_config}
use vector_database.Tests.Whole.{whole, thirds}
use vector_database.Tests.Engines.{name}

instance abbrev pub decimal : FloatText ℕ
decimal = record {
  print = print_number;
  extract = λ s. elim s [
    | [] ↦ (none, [])
    | c ∷ rest ↦
        if is_digit c
        then (some (read_digits 0 (c ∷ rest)).0, (read_digits 0 (c ∷ rest)).1)
        else (none, c ∷ rest)
  ];
}

pub extracted :
    (c n : ℕ) (s rest : Text)
    → is_digit c ≡ true
    → read_digits 0 (c ∷ s) ≡ (n, rest)
    → decimal.extract (c ∷ s) ≡ (some n, rest)
extracted c n s rest d e = rw (d, e)

pub read_back :
    (n : ℕ) (rest : Text) → decimal.extract (print_number n ++ 32 ∷ rest) ≡ (some n, 32 ∷ rest)
read_back n rest =
    let (c, s, e, d) = print_number_start n in
    ap (λ t. decimal.extract (t ++ 32 ∷ rest)) e
    ∙ extracted c n (s ++ 32 ∷ rest) (32 ∷ rest) d (
        ap (λ t. read_digits 0 (t ++ 32 ∷ rest)) (sym e)
        ∙ read_digits-print_number n (32 ∷ rest) refl)

pub starts : (n : ℕ) → (c : ℕ) × (s : Text) × (print_number n ≡ c ∷ s) × (is_space c ≡ false)
starts n = let (c, s, e, d) = print_number_start n in (c, s, e, ground arith)

abbrev pub decimal_laws : FloatTextLaws ℕ
decimal_laws = record {
  finite = λ _. true;
  six_digits = λ n. n;
  extract_law = λ n rest _. read_back n rest;
  bar_law = λ rest. refl;
  start_law = starts;
  line_law = print_number-IsLine;
}

-- a file is the message that was written
pub data Message : Type 0 where
  store : StoreSnapshot ℕ → Message
  hnsw : HnswIndexSnapshot ℕ → Message
  flat : FlatIndexSnapshot ℕ → Message
  metadata : TableMetadata ℕ → Message

abbrev no_graph : HnswIndexSnapshot ℕ
no_graph = record {
  m = 0;
  m0 = 0;
  ef_construction = 0;
  ml = 0;
  distance_metric = DistanceMetric.l2;
  vector_dimensionality = 0;
  levels = 0;
  entry_point = 0;
  nodes = [];
  node_levels = [];
}

abbrev no_vectors : FlatIndexSnapshot ℕ
no_vectors = record { distance_metric = DistanceMetric.l2; vector_dimensionality = 0; vectors = [] }

abbrev no_metadata : TableMetadata ℕ
no_metadata = record {
  table_name = [];
  vector_dimensionality = 0;
  index_type = IndexType.flat;
  hnsw_index_config = no_hnsw_config;
  flat_index_config = no_flat_config;
  cache_size = 0;
}

instance abbrev pub messages : Protobuf ℕ Message
messages = record {
  serialize_store = store;
  parse_store = λ b. elim b [
    | store m ↦ m
    | hnsw _ ↦ record { vector_entry = []; vector_dimensionality = 0 }
    | flat _ ↦ record { vector_entry = []; vector_dimensionality = 0 }
    | metadata _ ↦ record { vector_entry = []; vector_dimensionality = 0 }
  ];
  serialize_hnsw = hnsw;
  parse_hnsw =
      λ b. elim b [ hnsw m ↦ m | store _ ↦ no_graph | flat _ ↦ no_graph | metadata _ ↦ no_graph ];
  serialize_flat = flat;
  parse_flat = λ b. elim b [
    | flat m ↦ m
    | store _ ↦ no_vectors
    | hnsw _ ↦ no_vectors
    | metadata _ ↦ no_vectors
  ];
  serialize_metadata = metadata;
  parse_metadata = λ b. elim b [
    | metadata m ↦ m
    | store _ ↦ no_metadata
    | hnsw _ ↦ no_metadata
    | flat _ ↦ no_metadata
  ];
}

-- whether a text is ASCII
abbrev pub ascii : Text → Bool
ascii [] = true
ascii (c ∷ rest) = ltb c 128 && ascii rest

-- A message has its own nodes.
pub own_nodes :
    (node : Option (StoredNode ℕ))
    → ((n : StoredNode ℕ) → node ≡ some n → IsNodeMessage n)
    → SameNodes node node
own_nodes none fits = tt
own_nodes (some n) fits = record {
  vector = refl;
  level = refl;
  active = refl;
  neighbors = record { keyed = (fits n refl).neighbors.keyed; same = λ k. refl };
}

abbrev pub message_laws : ProtobufLaws ℕ Message
message_laws = record {
  valid_text = ascii;
  store_law = λ m _. refl;
  hnsw_law = λ m fits. record {
    m_same = refl;
    m0_same = refl;
    ef_construction = refl;
    ml = refl;
    metric = refl;
    dimension = refl;
    levels = refl;
    entry_point = refl;
    keyed = fits.keyed;
    nodes = λ k. own_nodes (find k m.nodes) (λ n e. (fits.nodes k n e).1);
    node_levels = record { keyed = fits.node_levels.keyed; same = λ k. refl };
  };
  flat_law = λ m fits. record {
    metric = refl;
    dimension = refl;
    vectors = record { keyed = fits.keyed; same = λ k. refl };
  };
  metadata_law = λ m _. refl;
}

-- an insertion and a removal in the log
abbrev pub two_calls : List (LogCall ℕ)
two_calls = LogCall.insert 1 (5 ∷ 4 ∷ []) (97 ∷ []) ∷ LogCall.remove 1 ∷ []

serialize_wal_entries-append_call_example :
    serialize_wal_entries IndexType.flat name (foldl (append_call IndexType.flat) [] two_calls) 1
    ≡ some (drop 1 (map (entry_of decimal_laws IndexType.flat name) two_calls))
serialize_wal_entries-append_call_example =
    serialize_wal_entries-append_call decimal_laws IndexType.flat name two_calls 1
      ((omega arith, (refl, (refl, tt)), (refl, tt)), (omega arith, tt))

serialize_wal_entries-injected_example :
    serialize_wal_entries IndexType.flat name
      (append_insert {R = ℕ} [] 1 (5 ∷ 4 ∷ []) (97 ∷ [] ++ 10 ∷ remove_line 2))
      0
    ≡ some (
        WalEntry.insert name 1 (map decimal_laws.six_digits (5 ∷ 4 ∷ [])) (97 ∷ [])
        ∷ WalEntry.remove name 2
        ∷ [])
serialize_wal_entries-injected_example =
    serialize_wal_entries-injected decimal_laws IndexType.flat name 1 2 (5 ∷ 4 ∷ []) (97 ∷ [])
      (omega arith) (omega arith) (refl, (refl, tt)) (refl, tt)
