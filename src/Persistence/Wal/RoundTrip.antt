-- ===== src/Persistence/Wal/RoundTrip.antt =====
-- What was written to the log is read from it, and what a text with a line feed does to it.
use mathlib.Core.List.{append-nil, append_assoc}
use vector_database.Prelude.{
  ℕ, ◌≤◌, ◌≡◌, refl, ap, sym, ◌∙◌, true, false, some, List, [], ◌∷◌, ◌++◌, map, foldl, drop, All,
  All-append, All-drop, map-drop, nat_beq, Text, arith,
}
use vector_database.Float.{Float, Vector}
use vector_database.Index.Distance.{DistanceMetric}
use vector_database.Index.Flat.{FlatIndexConfig}
use vector_database.Index.Hnsw.{HnswIndexConfig}
use vector_database.Store.{IndexType}
use vector_database.Engine.Tables.{IndexConfig, WalEntry}
use vector_database.Persistence.Stream.{print_number, lines, FloatText}
use vector_database.Persistence.Stream.Laws.{IsLine, print_number-IsLine, lines-append}
use vector_database.Persistence.Wal.{
  insert_word, remove_word, create_word, drop_word, metric_word, max_size, max_int, spaced,
  vector_text, insert_line, remove_line, create_line, append_line, append_insert, append_remove,
  append_create, append_drop, parse_line, parse_lines, serialize_wal_entries,
}
use vector_database.Persistence.Wal.Lines.{
  FloatTextLaws, parse_line-insert, parse_line-remove, parse_line-create_flat,
  parse_line-create_hnsw, parse_line-drop, vector_text-append,
}

IsLine-append : (xs ys : Text) → IsLine xs → IsLine ys → IsLine (xs ++ ys)
IsLine-append = All-append (λ c. nat_beq c 10 ≡ false)

-- a call of one of the four methods that append to the log
pub data LogCall (R : Type 0) : Type 0 where
  insert : ℕ → Vector R → Text → LogCall R
  remove : ℕ → LogCall R
  create : HnswIndexConfig R → FlatIndexConfig → ℕ → LogCall R
  drop_table : LogCall R

module _ {R : Type 0} ⦃text : FloatText R⦄ where
  abbrev pub line_of : IndexType → LogCall R → Text
  line_of index_type (insert id vector content) = insert_line id vector content
  line_of index_type (remove id) = remove_line id
  line_of index_type (create hnsw flat cache_size) = create_line index_type hnsw flat cache_size
  line_of index_type drop_table = drop_word

  -- the method itself
  unfoldable pub append_call : IndexType → Text → LogCall R → Text
  append_call index_type file (insert id vector content) = append_insert file id vector content
  append_call index_type file (remove id) = append_remove file id
  append_call index_type file (create hnsw flat cache_size) =
      append_create index_type file hnsw flat cache_size
  append_call index_type file drop_table = append_drop file

  append_call_line :
      (index_type : IndexType) (file : Text) (c : LogCall R)
      → append_call index_type file c ≡ append_line file (line_of index_type c)
  unfolding append_call append_insert append_remove append_create append_drop
  append_call_line index_type file (insert id vector content) = refl
  append_call_line index_type file (remove id) = refl
  append_call_line index_type file (create hnsw flat cache_size) = refl
  append_call_line index_type file drop_table = refl

  -- the text of calls, each with its line feed
  abbrev pub written : IndexType → List (LogCall R) → Text
  written index_type [] = []
  written index_type (c ∷ rest) = line_of index_type c ++ 10 ∷ written index_type rest

  pub foldl-append_call :
      (index_type : IndexType) (file : Text) (calls : List (LogCall R))
      → foldl (append_call index_type) file calls ≡ file ++ written index_type calls
  foldl-append_call index_type file [] = sym (append-nil file)
  foldl-append_call index_type file (c ∷ rest) =
      foldl-append_call index_type (append_call index_type file c) rest
      ∙ ap (λ t. t ++ written index_type rest) (append_call_line index_type file c)
      ∙ append_assoc file (line_of index_type c ++ 10 ∷ []) (written index_type rest)
      ∙ ap (λ t. file ++ t)
          (append_assoc (line_of index_type c) (10 ∷ []) (written index_type rest))

  split_line :
      (id victim : ℕ) (v : Vector R) (content : Text)
      → append_insert [] id v (content ++ 10 ∷ remove_line victim)
        ≡ append_remove (append_insert [] id v content) victim
  unfolding append_insert append_remove insert_line
  split_line id victim v content =
      rw (vector_text-append v (32 ∷ b'|' ∷ 32 ∷ content) (10 ∷ remove_line victim))
        (simp append_assoc)

module _ {R : Type 0} ⦃f : Float R⦄ ⦃text : FloatText R⦄ (laws : FloatTextLaws R) where
  -- the entry that a call leads to
  abbrev pub entry_of : IndexType → Text → LogCall R → WalEntry R
  entry_of index_type table (insert id vector content) =
      WalEntry.insert table id (map laws.six_digits vector) content
  entry_of index_type table (remove id) = WalEntry.remove table id
  entry_of IndexType.hnsw table (create hnsw flat cache_size) =
      WalEntry.create table hnsw.vector_dimensionality
        (IndexConfig.hnsw (record hnsw { ml = laws.six_digits hnsw.ml })) cache_size
  entry_of IndexType.flat table (create hnsw flat cache_size) =
      WalEntry.create table flat.vector_dimensionality (IndexConfig.flat flat) cache_size
  entry_of index_type table drop_table = WalEntry.drop table

  -- Numbers fit their types, floats are finite, and a content is one line.
  abbrev pub IsLogged : LogCall R → Type 0
  IsLogged (insert id vector content) =
      (id ≤ max_size) × All (λ x. laws.finite x ≡ true) vector × IsLine content
  IsLogged (remove id) = id ≤ max_size
  IsLogged (create hnsw flat cache_size) =
      (hnsw.vector_dimensionality ≤ max_int)
      × (hnsw.m ≤ max_size)
      × (hnsw.m0 ≤ max_size)
      × (hnsw.ef_construction ≤ max_size)
      × (laws.finite hnsw.ml ≡ true)
      × (flat.vector_dimensionality ≤ max_int)
      × (cache_size ≤ max_size)
  IsLogged drop_table = Unit

  spaced-IsLine : (word more : Text) → IsLine word → IsLine more → IsLine (spaced word more)
  spaced-IsLine word more h h' = (refl, IsLine-append word more h h')

  vector_text-IsLine : (v : Vector R) (more : Text) → IsLine more → IsLine (vector_text v more)
  unfolding vector_text
  vector_text-IsLine [] more h = h
  vector_text-IsLine (x ∷ v) more h =
      spaced-IsLine (text.print x) (vector_text v more) (laws.line_law x)
        (vector_text-IsLine v more h)

  metric_word-IsLine : (metric : DistanceMetric) → IsLine (metric_word metric)
  metric_word-IsLine DistanceMetric.l2 = ground arith
  metric_word-IsLine DistanceMetric.cosine = ground arith

  number-IsLine : (n : ℕ) (more : Text) → IsLine more → IsLine (spaced (print_number n) more)
  number-IsLine n more h = spaced-IsLine (print_number n) more (print_number-IsLine n) h

  metric_tail-IsLine :
      (metric : DistanceMetric) (cache_size : ℕ)
      → IsLine (spaced (metric_word metric) (32 ∷ print_number cache_size))
  metric_tail-IsLine metric cache_size =
      spaced-IsLine (metric_word metric) (32 ∷ print_number cache_size) (metric_word-IsLine metric)
        (refl, print_number-IsLine cache_size)

  insert_line-IsLine :
      (id : ℕ) (v : Vector R) (content : Text) → IsLine content → IsLine (insert_line id v content)
  unfolding insert_line
  insert_line-IsLine id v content h =
      let tail = vector_text v (32 ∷ b'|' ∷ 32 ∷ content) in
      IsLine-append insert_word (spaced (print_number id) tail) (ground arith) (
        spaced-IsLine (print_number id) tail (print_number-IsLine id)
          (vector_text-IsLine v (32 ∷ b'|' ∷ 32 ∷ content) (refl, (refl, (refl, h)))))

  create_line-IsLine :
      (index_type : IndexType) (hnsw : HnswIndexConfig R) (flat : FlatIndexConfig) (cache_size : ℕ)
      → IsLine (create_line index_type hnsw flat cache_size)
  unfolding create_line
  create_line-IsLine IndexType.hnsw hnsw flat cache_size =
      let t5 = 32 ∷ print_number cache_size in
      let t4 = spaced (metric_word hnsw.metric) t5 in
      let t3 = spaced (text.print hnsw.ml) t4 in
      let t2 = spaced (print_number hnsw.ef_construction) t3 in
      let t1 = spaced (print_number hnsw.m0) t2 in
      let t0 = spaced (print_number hnsw.m) t1 in
      let h4 = metric_tail-IsLine hnsw.metric cache_size in
      let h3 = spaced-IsLine (text.print hnsw.ml) t4 (laws.line_law hnsw.ml) h4 in
      let h2 = number-IsLine hnsw.ef_construction t3 h3 in
      let h0 = number-IsLine hnsw.m t1 (number-IsLine hnsw.m0 t2 h2) in
      IsLine-append create_word (spaced (print_number hnsw.vector_dimensionality) t0) (ground arith)
        (number-IsLine hnsw.vector_dimensionality t0 h0)
  create_line-IsLine IndexType.flat hnsw flat cache_size =
      let t0 = spaced (metric_word flat.metric) (32 ∷ print_number cache_size) in
      IsLine-append create_word (spaced (print_number flat.vector_dimensionality) t0) (ground arith)
        (number-IsLine flat.vector_dimensionality t0 (metric_tail-IsLine flat.metric cache_size))

  line_of-IsLine :
      (index_type : IndexType) (c : LogCall R) → IsLogged c → IsLine (line_of index_type c)
  unfolding remove_line
  line_of-IsLine index_type (insert id v content) h = insert_line-IsLine id v content h.2
  line_of-IsLine index_type (remove id) h =
      IsLine-append remove_word (32 ∷ print_number id) (ground arith) (refl, print_number-IsLine id)
  line_of-IsLine index_type (create hnsw flat cache_size) h =
      create_line-IsLine index_type hnsw flat cache_size
  line_of-IsLine index_type drop_table h = ground arith

  pub lines-written :
      (index_type : IndexType) (calls : List (LogCall R))
      → All IsLogged calls
      → lines (written index_type calls) ≡ map (line_of index_type) calls
  unfolding lines
  lines-written index_type [] h = refl
  lines-written index_type (c ∷ rest) h =
      lines-append (line_of index_type c) _ (line_of-IsLine index_type c h.0)
      ∙ ap (λ ls. line_of index_type c ∷ ls) (lines-written index_type rest h.1)

  pub parse_line-line_of :
      (index_type : IndexType) (table : Text) (c : LogCall R)
      → IsLogged c
      → parse_line index_type table (line_of index_type c) ≡ some (entry_of index_type table c)
  parse_line-line_of index_type table (insert id v content) (fits, finite, _) =
      parse_line-insert laws index_type table id v content fits finite
  parse_line-line_of index_type table (remove id) fits =
      parse_line-remove laws index_type table id fits
  parse_line-line_of IndexType.hnsw table (create hnsw flat cache_size)
        (fd, fm, fm0, fe, finite, _, fits) =
      parse_line-create_hnsw laws table hnsw flat cache_size fd fm fm0 fe finite fits
  parse_line-line_of IndexType.flat table (create hnsw flat cache_size) (_, _, _, _, _, fd, fits) =
      parse_line-create_flat laws table hnsw flat cache_size fd fits
  parse_line-line_of index_type table drop_table h = parse_line-drop laws index_type table

  parse_lines-map :
      (index_type : IndexType) (table : Text) (calls : List (LogCall R))
      → All IsLogged calls
      → parse_lines index_type table (map (line_of index_type) calls)
        ≡ some (map (entry_of index_type table) calls)
  unfolding parse_lines
  parse_lines-map index_type table [] h = refl
  parse_lines-map index_type table (c ∷ rest) h =
      rw (parse_line-line_of index_type table c h.0, parse_lines-map index_type table rest h.1)

  -- Of a log to which any calls were made, SerializeWALEntries at an offset returns the entries of the
  -- calls from that offset on, with floats at six digits, where numbers fit their types, floats are
  -- finite, and no content has a line feed.
  pub serialize_wal_entries-append_call :
      (index_type : IndexType) (table : Text) (calls : List (LogCall R)) (offset : ℕ)
      → All IsLogged calls
      → serialize_wal_entries index_type table (foldl (append_call index_type) [] calls) offset
        ≡ some (drop offset (map (entry_of index_type table) calls))
  unfolding serialize_wal_entries
  serialize_wal_entries-append_call index_type table calls offset h =
      ap (λ t. parse_lines index_type table (drop offset (lines t)))
        (foldl-append_call index_type [] calls)
      ∙ ap (λ ls. parse_lines index_type table (drop offset ls)) (lines-written index_type calls h)
      ∙ ap (parse_lines index_type table) (sym (map-drop (line_of index_type) offset calls))
      ∙ parse_lines-map index_type table (drop offset calls) (All-drop IsLogged offset calls h)
      ∙ ap some (map-drop (entry_of index_type table) offset calls)

  -- A content with a line feed writes a second entry: what is inserted is cut short, and what follows
  -- the line feed is read as a command, here one that removes any identifier.
  pub serialize_wal_entries-injected :
      (index_type : IndexType) (table : Text) (id victim : ℕ) (v : Vector R) (content : Text)
      → id ≤ max_size
      → victim ≤ max_size
      → All (λ x. laws.finite x ≡ true) v
      → IsLine content
      → serialize_wal_entries index_type table
          (append_insert [] id v (content ++ 10 ∷ remove_line victim))
          0
        ≡ some (
            WalEntry.insert table id (map laws.six_digits v) content
            ∷ WalEntry.remove table victim
            ∷ [])
  unfolding append_call
  serialize_wal_entries-injected index_type table id victim v content fits fits' finite line =
      ap (λ t. serialize_wal_entries index_type table t 0) (split_line id victim v content)
      ∙ serialize_wal_entries-append_call index_type table
          (insert id v content ∷ remove victim ∷ []) 0 ((fits, finite, line), (fits', tt))
