-- ===== src/Persistence/Wal.antt =====
-- The write-ahead log: AppendInsert, AppendRemove, AppendCreate, AppendDrop, and the reading of lines
-- that ReplayWAL and SerializeWALEntries share. A variable that is read without a value is `none`.
pub mod Lines
pub mod RoundTrip
use vector_database.Prelude.{
  ℕ, zero, suc, ◌+◌, ◌-◌, ◌^◌, Bool, true, false, Option, none, some, List, [], ◌∷◌, ◌++◌, length,
  drop, nat_beq, if◌then◌else◌, Text, text_eq, ◌==◌, ◌>>=◌,
}
use vector_database.Float.{Float, Vector}
use vector_database.Index.Distance.{DistanceMetric}
use vector_database.Index.Flat.{FlatIndexConfig}
use vector_database.Index.Hnsw.{HnswIndexConfig}
use vector_database.Store.{IndexType}
use vector_database.Engine.Tables.{IndexConfig, WalEntry}
use vector_database.Persistence.Stream.{
  Stream, begin_stream, skip_spaces, print_number, extract_number, extract_word, lines, FloatText,
}

abbrev pub insert_word : Text
insert_word = b'i' ∷ b'n' ∷ b's' ∷ b'e' ∷ b'r' ∷ b't' ∷ []

abbrev pub remove_word : Text
remove_word = b'r' ∷ b'e' ∷ b'm' ∷ b'o' ∷ b'v' ∷ b'e' ∷ []

abbrev pub create_word : Text
create_word = b'c' ∷ b'r' ∷ b'e' ∷ b'a' ∷ b't' ∷ b'e' ∷ []

abbrev pub drop_word : Text
drop_word = b'd' ∷ b'r' ∷ b'o' ∷ b'p' ∷ []

abbrev pub l2_word : Text
l2_word = b'L' ∷ b'2' ∷ []

abbrev pub metric_word : DistanceMetric → Text
metric_word DistanceMetric.l2 = l2_word
metric_word DistanceMetric.cosine = b'C' ∷ b'O' ∷ b'S' ∷ b'I' ∷ b'N' ∷ b'E' ∷ []

-- " " and a text, with more behind it
abbrev pub spaced : Text → Text → Text
spaced word more = 32 ∷ (word ++ more)

-- std::size_t and std::uint64_t, and int
abbrev pub max_size : ℕ
max_size = 2 ^ 64 - 1

abbrev pub max_int : ℕ
max_int = 2 ^ 31 - 1

module _ {R : Type 0} ⦃text : FloatText R⦄ where
  unfoldable pub vector_text : Vector R → Text → Text
  vector_text [] more = more
  vector_text (value ∷ rest) more = 32 ∷ text.print value ++ vector_text rest more

  unfoldable pub insert_line : ℕ → Vector R → Text → Text
  insert_line id vector content =
      insert_word ++ spaced (print_number id) (vector_text vector (32 ∷ b'|' ∷ 32 ∷ content))

unfoldable pub remove_line : ℕ → Text
remove_line id = remove_word ++ 32 ∷ print_number id

module _ {R : Type 0} ⦃text : FloatText R⦄ where
  unfoldable pub create_line : IndexType → HnswIndexConfig R → FlatIndexConfig → ℕ → Text
  create_line IndexType.hnsw hnsw flat cache_size =
      create_word
      ++ spaced (print_number hnsw.vector_dimensionality) (
          spaced (print_number hnsw.m) (
            spaced (print_number hnsw.m0) (
              spaced (print_number hnsw.ef_construction) (
                spaced (text.print hnsw.ml)
                  (spaced (metric_word hnsw.metric) (32 ∷ print_number cache_size))))))
  create_line IndexType.flat hnsw flat cache_size =
      create_word
      ++ spaced (print_number flat.vector_dimensionality)
          (spaced (metric_word flat.metric) (32 ∷ print_number cache_size))

-- the text of a line and "\n", at the end of the file
abbrev pub append_line : Text → Text → Text
append_line file line = file ++ (line ++ 10 ∷ [])

module _ {R : Type 0} ⦃text : FloatText R⦄ where
  unfoldable pub append_insert : Text → ℕ → Vector R → Text → Text
  append_insert file id vector content = append_line file (insert_line id vector content)

  unfoldable pub append_create : IndexType → Text → HnswIndexConfig R → FlatIndexConfig → ℕ → Text
  append_create index_type file hnsw flat cache_size =
      append_line file (create_line index_type hnsw flat cache_size)

unfoldable pub append_remove : Text → ℕ → Text
append_remove file id = append_line file (remove_line id)

unfoldable pub append_drop : Text → Text
append_drop file = append_line file drop_word

-- `content` without the delimiter
abbrev pub strip_bar : Text → Text
strip_bar [] = []
strip_bar (c ∷ []) = c ∷ []
strip_bar (c ∷ d ∷ s) =
    if nat_beq c b'|' then (if nat_beq d 32 then s else c ∷ d ∷ s) else c ∷ d ∷ s

abbrev pub metric_of : Text → DistanceMetric
metric_of word = if word == l2_word then DistanceMetric.l2 else DistanceMetric.cosine

-- the end of a create entry
unfoldable pub parse_end : Stream → Option (DistanceMetric × ℕ)
parse_end s =
    let metric = extract_word s in
    do cache_size ← (extract_number max_size metric.1).0; some (metric_of metric.0, cache_size)

module _ {R : Type 0} ⦃f : Float R⦄ ⦃text : FloatText R⦄ where
  -- operator>> of a float: a conversion that fails leaves 0
  unfoldable pub extract_float : Stream → Option R × Stream
  extract_float s =
      if s.good
      then elim (skip_spaces s.rest) [
        | [] ↦ (none, record { rest = []; good = false })
        | c ∷ rest ↦
            let r = text.extract (c ∷ rest) in
            elim r.0 [
              | none ↦ (some f.zero, record { rest = r.1; good = false })
              | some value ↦ (some value, record { rest = r.1; good = true })
            ]
      ]
      else (none, s)

  -- `while (stream >> value)`; `none` where the fuel ends
  unfoldable pub read_vector : ℕ → Stream → Option (Vector R × Stream)
  read_vector zero s = none
  read_vector (suc fuel) s =
      let r = extract_float s in
      if r.1.good
      then (do value ← r.0; more ← read_vector fuel r.1; some (value ∷ more.0, more.1))
      else some ([], r.1)

  unfoldable pub parse_insert : Text → Stream → Option (WalEntry R)
  parse_insert table s =
      let r = extract_number max_size s in
      do
        id ← r.0
        values ← read_vector (suc (length r.1.rest)) r.1
        some (WalEntry.insert table id values.0 (strip_bar (skip_spaces values.1.rest)))

  unfoldable pub parse_remove : Text → Stream → Option (WalEntry R)
  parse_remove table s = do id ← (extract_number max_size s).0; some (WalEntry.remove table id)

  unfoldable pub parse_create : IndexType → Text → Stream → Option (WalEntry R)
  parse_create IndexType.hnsw table s =
      let dimension = extract_number max_int s in
      let m = extract_number max_size dimension.1 in
      let m0 = extract_number max_size m.1 in
      let ef_construction = extract_number max_size m0.1 in
      let ml = extract_float ef_construction.1 in
      do
        dimension_value ← dimension.0
        m_value ← m.0
        m0_value ← m0.0
        ef_construction_value ← ef_construction.0
        ml_value ← ml.0
        rest ← parse_end ml.1
        some (
            WalEntry.create table dimension_value
              (IndexConfig.hnsw (record {
                m = m_value;
                m0 = m0_value;
                ef_construction = ef_construction_value;
                ml = ml_value;
                metric = rest.0;
                vector_dimensionality = dimension_value;
              }))
              rest.1)
  parse_create IndexType.flat table s =
      let dimension = extract_number max_int s in
      do
        dimension_value ← dimension.0
        rest ← parse_end dimension.1
        some (
            WalEntry.create table dimension_value
              (IndexConfig.flat
                (record { vector_dimensionality = dimension_value; metric = rest.0 }))
              rest.1)

  -- the body of the loop over the lines: without a known command the entry keeps its defaults
  unfoldable pub parse_line : IndexType → Text → Text → Option (WalEntry R)
  parse_line index_type table line =
      let r = extract_word (begin_stream line) in
      if r.0 == insert_word
      then parse_insert table r.1
      else if r.0 == remove_word
      then parse_remove table r.1
      else if r.0 == create_word
      then parse_create index_type table r.1
      else if r.0 == drop_word
      then some (WalEntry.drop table)
      else some (WalEntry.insert table 0 [] [])

  unfoldable pub parse_lines : IndexType → Text → List Text → Option (List (WalEntry R))
  parse_lines index_type table [] = some []
  parse_lines index_type table (line ∷ rest) = do
    entry ← parse_line index_type table line
    entries ← parse_lines index_type table rest
    some (entry ∷ entries)

  -- SerializeWALEntries on a log that is there
  unfoldable pub serialize_wal_entries : IndexType → Text → Text → ℕ → Option (List (WalEntry R))
  serialize_wal_entries index_type table file offset =
      parse_lines index_type table (drop offset (lines file))

  -- ReplayWAL, with a callback that changes a state and may throw
  unfoldable pub replay_lines :
      {S : Type 0} → IndexType → Text → (S → WalEntry R → Option S) → S → List Text → Option S
  replay_lines index_type table callback s [] = some s
  replay_lines index_type table callback s (line ∷ rest) = do
    entry ← parse_line index_type table line
    s' ← callback s entry
    replay_lines index_type table callback s' rest

  unfoldable pub replay_wal :
      {S : Type 0} → IndexType → Text → (S → WalEntry R → Option S) → S → Text → Option S
  unfolding replay_lines
  replay_wal index_type table callback s file =
      replay_lines index_type table callback s (lines file)
