-- ===== src/Tests/Whole.antt =====
-- Whole numbers in the place of `float`: distances compare as their squares do.
use vector_database.Prelude.{ℕ, ◌+◌, ◌-◌, ◌*◌, ◌/◌, false, ltb, leb, nat_beq, if◌then◌else◌, arith}
use vector_database.Float.{Float, Ordered}
use vector_database.Index.Hnsw.{LevelSource}

instance abbrev pub whole : Float ℕ
whole = record {
  zero = 0;
  one = 1;
  largest = 1000000;
  from_count = λ n. n;
  infinity = 1_000_000;
  add = λ a b. a + b;
  sub = λ a b. if leb b a then a - b else b - a;
  mul = λ a b. a * b;
  div = λ a b. a / b;
  sqrt = λ a. a;
  lt = ltb;
  eq = nat_beq;
  is_nan = λ _. false;
}

pub whole_ordered : Ordered ℕ
whole_ordered = record {
  lt_irrefl = λ a. ground arith;
  lt_trans = λ a b c h k. ground arith;
  lt_cotrans = λ a b c n h k. ground arith;
}

-- Every third node stands one level higher.
instance abbrev pub thirds : LevelSource ℕ
thirds = record { random_level = λ ml id. if nat_beq (id - id / 3 * 3) 0 then 1 else 0 }
