-- ===== src/Persistence/Wal/Lines.antt =====
-- Each kind of line of the log is read back.
use vector_database.Prelude.{
  ℕ, zero, suc, ◌≤◌, ◌<◌, ◌≡◌, refl, ap, sym, subst, ◌∙◌, Bool, true, false, none, some, [], ◌∷◌,
  ◌++◌, map, All, length, length-append, Text, text_eq, arith,
}
use mathlib.Core.List.{append_assoc}
use vector_database.Float.{Float, Vector}
use vector_database.Index.Distance.{DistanceMetric}
use vector_database.Index.Flat.{FlatIndexConfig}
use vector_database.Index.Hnsw.{HnswIndexConfig}
use vector_database.Store.{IndexType}
use vector_database.Engine.Tables.{IndexConfig, WalEntry}
use vector_database.Persistence.Stream.{Stream, is_space, skip_spaces, print_number, FloatText}
use vector_database.Persistence.Stream.Laws.{
  EndsNumber, IsLine, IsWord, extract_number_next, extract_number_end, extract_word-append,
  extract_word_next, extract_word-end,
}
use vector_database.Persistence.Wal.{
  insert_word, remove_word, create_word, drop_word, metric_word, max_size, max_int, vector_text,
  extract_float, read_vector, parse_insert, parse_remove, parse_end, parse_create, parse_line,
  insert_line, remove_line, create_line,
}

-- What the log relies on of the text of floats: a finite float is read back, at six digits, in front
-- of a space; a bar is no float; the text is part of a line and does not start with a space.
pub record FloatTextLaws (R : Type 0) ⦃text : FloatText R⦄ : Type 0 where
  pub finite : R → Bool
  pub six_digits : R → R
  pub extract_law :
      (x : R) (rest : Text)
      → finite x ≡ true
      → text.extract (text.print x ++ 32 ∷ rest) ≡ (some (six_digits x), 32 ∷ rest)
  pub bar_law : (rest : Text) → text.extract (b'|' ∷ rest) ≡ (none, b'|' ∷ rest)
  pub start_law : (x : R) → (c : ℕ) × (s : Text) × (text.print x ≡ c ∷ s) × (is_space c ≡ false)
  pub line_law : (x : R) → IsLine (text.print x)

abbrev pub good : Text → Stream
good rest = record { rest = rest; good = true }

insert_word-IsWord : IsWord insert_word
insert_word-IsWord = ground arith

remove_word-IsWord : IsWord remove_word
remove_word-IsWord = ground arith

create_word-IsWord : IsWord create_word
create_word-IsWord = ground arith

drop_word-IsWord : IsWord drop_word
drop_word-IsWord = ground arith

module _ {R : Type 0} ⦃text : FloatText R⦄ where
  -- The text of a vector goes on with a space where what follows it does.
  vector_text_start :
      (v : Vector R) (more : Text) → (s : Text) × (vector_text v (32 ∷ more) ≡ 32 ∷ s)
  unfolding vector_text
  vector_text_start [] more = (more, refl)
  vector_text_start (x ∷ v) more = (_, refl)

  length-vector_text : (v : Vector R) (more : Text) → length v ≤ length (vector_text v more)
  unfolding vector_text
  length-vector_text [] more = omega arith
  length-vector_text (x ∷ v) more =
      omega (arith, length-append (text.print x) (vector_text v more), length-vector_text v more)

  pub vector_text-append :
      (v : Vector R) (more rest : Text) → vector_text v (more ++ rest) ≡ vector_text v more ++ rest
  unfolding vector_text
  vector_text-append [] more rest = refl
  vector_text-append (x ∷ v) more rest = rw (vector_text-append v more rest, append_assoc)

module _ {R : Type 0} ⦃f : Float R⦄ ⦃text : FloatText R⦄ where
  extract_float_start :
      (c : ℕ) (s rest : Text) (value : R)
      → is_space c ≡ false
      → text.extract (c ∷ s) ≡ (some value, rest)
      → extract_float (good (32 ∷ c ∷ s)) ≡ (some value, good rest)
  unfolding extract_float skip_spaces
  extract_float_start c s rest value d e = ground arith

  -- A vector ends where no float stands.
  extract_float_end :
      (c : ℕ) (s rest : Text)
      → is_space c ≡ false
      → text.extract (c ∷ s) ≡ (none, rest)
      → extract_float (good (32 ∷ c ∷ s)) ≡ (some f.zero, record { rest = rest; good = false })
  unfolding extract_float skip_spaces
  extract_float_end c s rest d e = ground arith

  read_vector_end :
      (fuel c : ℕ) (s rest : Text)
      → is_space c ≡ false
      → text.extract (c ∷ s) ≡ (none, rest)
      → read_vector (suc fuel) (good (32 ∷ c ∷ s))
        ≡ some (let v : Vector R = [] in v, record { rest = rest; good = false })
  unfolding read_vector
  read_vector_end fuel c s rest d e = rw (extract_float_end c s rest d e)

  read_vector_next :
      (fuel : ℕ) (s rest : Text) (value : R) (more : Vector R × Stream)
      → extract_float (good s) ≡ (some value, good rest)
      → read_vector fuel (good rest) ≡ some more
      → read_vector (suc fuel) (good s) ≡ some (value ∷ more.0, more.1)
  read_vector_next fuel s rest value more e e' = unfold read_vector in rw (e, e')

module _ {R : Type 0} ⦃f : Float R⦄ ⦃text : FloatText R⦄ (laws : FloatTextLaws R) where
  extract_float_next :
      (x : R) (rest : Text)
      → laws.finite x ≡ true
      → extract_float (good (32 ∷ text.print x ++ 32 ∷ rest))
        ≡ (some (laws.six_digits x), good (32 ∷ rest))
  extract_float_next x rest h =
      let (c, s, e, d) = laws.start_law x in
      let start : text.print x ++ 32 ∷ rest ≡ c ∷ (s ++ 32 ∷ rest) = ap (λ t. t ++ 32 ∷ rest) e in
      ap (λ t. extract_float (good (32 ∷ t))) start
      ∙ extract_float_start c (s ++ 32 ∷ rest) (32 ∷ rest) (laws.six_digits x) d
          (ap text.extract (sym start) ∙ laws.extract_law x rest h)

  read_vector-vector_text :
      (v : Vector R) (fuel : ℕ) (rest : Text)
      → All (λ x. laws.finite x ≡ true) v
      → length v < fuel
      → read_vector fuel (good (vector_text v (32 ∷ b'|' ∷ rest)))
        ≡ some (map laws.six_digits v, record { rest = b'|' ∷ rest; good = false })
  unfolding vector_text
  read_vector-vector_text v zero rest h lt = absurd (omega arith)
  read_vector-vector_text [] (suc fuel) rest h lt =
      read_vector_end fuel b'|' rest (b'|' ∷ rest) refl (laws.bar_law rest)
  read_vector-vector_text (x ∷ v) (suc fuel) rest h lt =
      let (s, e) = vector_text_start v (b'|' ∷ rest) in
      read_vector_next fuel (32 ∷ text.print x ++ vector_text v (32 ∷ b'|' ∷ rest))
        (vector_text v (32 ∷ b'|' ∷ rest)) (laws.six_digits x)
        (map laws.six_digits v, record { rest = b'|' ∷ rest; good = false })
        (subst
          (λ t. extract_float (good (32 ∷ text.print x ++ t)) ≡ (some (laws.six_digits x), good t))
          (sym e) (extract_float_next x s h.0))
        (read_vector-vector_text v fuel rest h.1 (omega arith))

  parse_insert_lem :
      (table : Text) (id : ℕ) (v : Vector R) (content : Text)
      → id ≤ max_size
      → All (λ x. laws.finite x ≡ true) v
      → parse_insert table (good (32 ∷ print_number id ++ vector_text v (32 ∷ b'|' ∷ 32 ∷ content)))
        ≡ some (WalEntry.insert table id (map laws.six_digits v) content)
  unfolding parse_insert skip_spaces
  parse_insert_lem table id v content fits h =
      let more = vector_text v (32 ∷ b'|' ∷ 32 ∷ content) in
      let (s, e) = vector_text_start v (b'|' ∷ 32 ∷ content) in
      rw (
        extract_number_next max_size id more fits (subst EndsNumber (sym e) refl),
        read_vector-vector_text v (suc (length more)) (32 ∷ content) h
            (omega (arith, length-vector_text v (32 ∷ b'|' ∷ 32 ∷ content))),
      )

  -- The line of an insert.
  pub parse_line-insert :
      (index_type : IndexType) (table : Text) (id : ℕ) (v : Vector R) (content : Text)
      → id ≤ max_size
      → All (λ x. laws.finite x ≡ true) v
      → parse_line index_type table (insert_line id v content)
        ≡ some (WalEntry.insert table id (map laws.six_digits v) content)
  unfolding parse_line insert_line
  parse_line-insert index_type table id v content fits h =
      rw
        (extract_word-append b'i' (b'n' ∷ b's' ∷ b'e' ∷ b'r' ∷ b't' ∷ [])
          (print_number id ++ vector_text v (32 ∷ b'|' ∷ 32 ∷ content)) insert_word-IsWord)
        (parse_insert_lem table id v content fits h)

  -- The line of a remove.
  pub parse_line-remove :
      (index_type : IndexType) (table : Text) (id : ℕ)
      → id ≤ max_size
      → parse_line {R = R} index_type table (remove_line id) ≡ some (WalEntry.remove table id)
  unfolding parse_line parse_remove remove_line
  parse_line-remove index_type table id fits = rw (
    extract_word-append b'r' (b'e' ∷ b'm' ∷ b'o' ∷ b'v' ∷ b'e' ∷ []) (print_number id)
        remove_word-IsWord,
    extract_number_end max_size id fits,
  )

  -- The line of a drop.
  pub parse_line-drop :
      (index_type : IndexType) (table : Text)
      → parse_line {R = R} index_type table drop_word ≡ some (WalEntry.drop table)
  unfolding parse_line
  parse_line-drop index_type table =
      rw (extract_word-end b'd' (b'r' ∷ b'o' ∷ b'p' ∷ []) drop_word-IsWord)

  metric_word_next :
      (metric : DistanceMetric) (cache_size : ℕ)
      → cache_size ≤ max_size
      → parse_end (good (32 ∷ metric_word metric ++ 32 ∷ print_number cache_size))
        ≡ some (metric, cache_size)
  unfolding parse_end
  metric_word_next DistanceMetric.l2 cache_size fits = rw (
    extract_word_next b'L' (b'2' ∷ []) (print_number cache_size) (ground arith),
    extract_number_end max_size cache_size fits,
  )
  metric_word_next DistanceMetric.cosine cache_size fits = rw (
    extract_word_next b'C' (b'O' ∷ b'S' ∷ b'I' ∷ b'N' ∷ b'E' ∷ []) (print_number cache_size)
        (ground arith),
    extract_number_end max_size cache_size fits,
  )

  -- The lines of a create.
  pub parse_line-create_flat :
      (table : Text) (hnsw : HnswIndexConfig R) (config : FlatIndexConfig) (cache_size : ℕ)
      → config.vector_dimensionality ≤ max_int
      → cache_size ≤ max_size
      → parse_line {R = R} IndexType.flat table (create_line IndexType.flat hnsw config cache_size)
        ≡ some (
            WalEntry.create table config.vector_dimensionality (IndexConfig.flat config) cache_size)
  unfolding parse_line parse_create create_line
  parse_line-create_flat table hnsw config cache_size fits fits' =
      let tail = metric_word config.metric ++ 32 ∷ print_number cache_size in
      rw (
        extract_word-append b'c' (b'r' ∷ b'e' ∷ b'a' ∷ b't' ∷ b'e' ∷ [])
            (print_number config.vector_dimensionality ++ 32 ∷ tail) create_word-IsWord,
        extract_number_next max_int config.vector_dimensionality (32 ∷ tail) fits refl,
        metric_word_next config.metric cache_size fits',
      )

  pub parse_line-create_hnsw :
      (table : Text) (config : HnswIndexConfig R) (flat : FlatIndexConfig) (cache_size : ℕ)
      → config.vector_dimensionality ≤ max_int
      → config.m ≤ max_size
      → config.m0 ≤ max_size
      → config.ef_construction ≤ max_size
      → laws.finite config.ml ≡ true
      → cache_size ≤ max_size
      → parse_line IndexType.hnsw table (create_line IndexType.hnsw config flat cache_size)
        ≡ some (
            WalEntry.create table config.vector_dimensionality
              (IndexConfig.hnsw (record config { ml = laws.six_digits config.ml }))
              cache_size)
  unfolding parse_line parse_create create_line
  parse_line-create_hnsw table config flat cache_size fd fm fm0 fe finite fits =
      let t4 = metric_word config.metric ++ 32 ∷ print_number cache_size in
      let t3 = text.print config.ml ++ (32 ∷ t4) in
      let t2 = print_number config.ef_construction ++ 32 ∷ t3 in
      let t1 = print_number config.m0 ++ 32 ∷ t2 in
      let t0 = print_number config.m ++ 32 ∷ t1 in
      rw (
        extract_word-append b'c' (b'r' ∷ b'e' ∷ b'a' ∷ b't' ∷ b'e' ∷ [])
            (print_number config.vector_dimensionality ++ 32 ∷ t0) create_word-IsWord,
        extract_number_next max_int config.vector_dimensionality (32 ∷ t0) fd refl,
        extract_number_next max_size config.m (32 ∷ t1) fm refl,
        extract_number_next max_size config.m0 (32 ∷ t2) fm0 refl,
        extract_number_next max_size config.ef_construction (32 ∷ t3) fe refl,
        extract_float_next config.ml t4 finite,
        metric_word_next config.metric cache_size fits,
      )
