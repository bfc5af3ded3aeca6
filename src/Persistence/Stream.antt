-- ===== src/Persistence/Stream.antt =====
-- What persistence_manager.cc uses of std::istringstream and std::ostream: words, lines and numbers.
-- A text is the list of its bytes.
pub mod Laws
use vector_database.Prelude.{
  ℕ, zero, suc, ◌+◌, ◌-◌, ◌*◌, ◌/◌, ◌%◌, Bool, true, false, not, ◌&&◌, ◌||◌, Option, none, some,
  List, [], ◌∷◌, ◌++◌, ltb, leb, nat_beq, is_empty, if◌then◌else◌, Text,
}

-- the characters not read yet, and whether the stream is good
pub record Stream : Type 0 where
  pub rest : Text
  pub good : Bool

abbrev pub begin_stream : Text → Stream
begin_stream line = record { rest = line; good = true }

abbrev pub is_space : ℕ → Bool
is_space c = nat_beq c 32 || (leb 9 c && leb c 13)

abbrev pub is_digit : ℕ → Bool
is_digit c = leb 48 c && leb c 57

-- std::ws
unfoldable pub skip_spaces : Text → Text
skip_spaces [] = []
skip_spaces (c ∷ s) = if is_space c then skip_spaces s else c ∷ s

-- the digits of `n`, before `out`; the fuel exceeds `n`
pub digits : ℕ → ℕ → Text → Text
digits zero n out = out
digits (suc fuel) n out =
    let rest = digits fuel (n / 10) ((48 + n % 10) ∷ out) in
    if ltb n 10 then (48 + n) ∷ out else rest

-- operator<< of an unsigned number, or of an int that is not negative
unfoldable pub print_number : ℕ → Text
unfolding digits
print_number n = digits (suc n) n []

unfoldable pub read_digits : ℕ → Text → ℕ × Text
read_digits acc [] = (acc, [])
read_digits acc (c ∷ s) = if is_digit c then read_digits (acc * 10 + (c - 48)) s else (acc, c ∷ s)

-- the conversion behind the spaces: a number above the limit becomes the limit, and fails
unfoldable pub read_number : ℕ → Text → Option ℕ × Stream
read_number limit [] = (none, record { rest = []; good = false })
read_number limit (c ∷ s) =
    if is_digit c
    then (let r = read_digits 0 (c ∷ s) in
        if ltb limit r.0
        then (some limit, record { rest = r.1; good = false })
        else (some r.0, record { rest = r.1; good = true }))
    else (some 0, record { rest = c ∷ s; good = false })

-- operator>> of a number; `none` where the variable keeps the value it had. The log holds no signs.
unfoldable pub extract_number : ℕ → Stream → Option ℕ × Stream
unfolding read_number
extract_number limit s = if s.good then read_number limit (skip_spaces s.rest) else (none, s)

unfoldable pub read_word : Text → Text × Text
read_word [] = ([], [])
read_word (c ∷ s) = let r = read_word s in if is_space c then ([], c ∷ s) else (c ∷ r.0, r.1)

-- operator>> of a std::string that is empty
unfoldable pub extract_word : Stream → Text × Stream
unfolding read_word
extract_word s =
    if s.good
    then (let r = read_word (skip_spaces s.rest) in
        (r.0, record { rest = r.1; good = not (is_empty r.0) }))
    else ([], s)

abbrev pub cons_head : ℕ → List Text → List Text
cons_head c [] = (c ∷ []) ∷ []
cons_head c (line ∷ lines) = (c ∷ line) ∷ lines

-- the loop of std::getline over a file
unfoldable pub lines : Text → List Text
lines [] = []
lines (c ∷ s) = let rest = lines s in if nat_beq c 10 then [] ∷ rest else cons_head c rest

-- operator<< and operator>> of a float: the latter behind the spaces, on a text that is not empty
pub record FloatText (R : Type 0) : Type 0 where
  pub print : R → Text
  pub extract : Text → Option R × Text
