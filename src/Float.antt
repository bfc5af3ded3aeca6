-- ===== src/Float.antt =====
-- The C++ type `float`, as an interface: the engine uses its arithmetic, `sqrt`, and comparisons.
-- `Ordered` states what IEEE 754 says of `<`.
use vector_database.Prelude.{ℕ, ◌≡◌, Bool, true, false, List}

pub record Float (R : Type 0) : Type 0 where
  pub zero : R
  pub one : R
  pub infinity : R
  -- the greatest finite value, and the conversion of a number of 64 bits
  pub largest : R
  pub from_count : ℕ → R
  pub add : R → R → R
  pub sub : R → R → R
  pub mul : R → R → R
  pub div : R → R → R
  pub sqrt : R → R
  -- a < b and a == b
  pub lt : R → R → Bool
  pub eq : R → R → Bool
  pub is_nan : R → Bool

-- `<` is irreflexive and transitive; among numbers (not NaN) a value that is not below another
-- is not below what the other is not below.
pub record Ordered (R : Type 0) ⦃f : Float R⦄ : Type 0 where
  pub lt_irrefl : (a : R) → f.lt a a ≡ false
  pub lt_trans : (a b c : R) → f.lt a b ≡ true → f.lt b c ≡ true → f.lt a c ≡ true
  pub lt_cotrans :
      (a b c : R) → f.is_nan b ≡ false → f.lt a b ≡ false → f.lt b c ≡ false → f.lt a c ≡ false

-- std::vector<float>
abbrev pub Vector : Type 0 → Type 0
Vector R = List R
