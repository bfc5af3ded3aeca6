-- ===== src/Persistence/Stream/Laws.antt =====
-- What was printed is read back, in front of a character that ends it.
use vector_database.Prelude.{
  ℕ, zero, suc, ◌+◌, ◌/◌, ◌%◌, ◌≤◌, ◌<◌, ◌≡◌, refl, ap, sym, ◌∙◌, true, false, some, [], ◌∷◌, ◌++◌,
  All, nat_beq, ltb, Bool-cases, inl, inr, Text, arith,
}
use mathlib.Core.List.{append-nil}
use vector_database.Persistence.Stream.{
  is_space, is_digit, skip_spaces, digits, print_number, read_digits, read_number, extract_number,
  read_word, extract_word, lines,
}

-- A text that ends a number: it is empty, or starts with no digit.
abbrev pub EndsNumber : Text → Type 0
EndsNumber [] = Unit
EndsNumber (c ∷ s) = is_digit c ≡ false

-- A line has no line feed.
abbrev pub IsLine : Text → Type 0
IsLine = All (λ c. nat_beq c 10 ≡ false)

abbrev pub IsWord : Text → Type 0
IsWord = All (λ c. is_space c ≡ false)

digits-append :
    (fuel n : ℕ) (out more : Text) → digits fuel n (out ++ more) ≡ digits fuel n out ++ more
unfolding digits
digits-append zero n out more = refl
digits-append (suc fuel) n out more =
    ground (arith, digits-append fuel (n / 10) ((48 + n % 10) ∷ out) more)

read-digits :
    (fuel n : ℕ) (out : Text) → n < fuel → read_digits 0 (digits fuel n out) ≡ read_digits n out
unfolding digits read_digits
read-digits zero n out h = absurd (omega arith)
read-digits (suc fuel) n out h = ground (arith, read-digits fuel (n / 10) ((48 + n % 10) ∷ out))

digits_start :
    (fuel n : ℕ) (out : Text)
    → n < fuel
    → (c : ℕ) × (s : Text) × (digits fuel n out ≡ c ∷ s) × (is_digit c ≡ true)
unfolding digits
digits_start zero n out h = absurd (omega arith)
digits_start (suc fuel) n out h = elim (Bool-cases (ltb n 10)) [
  | inl small ↦ (48 + n, out, rw small, ground arith)
  | inr large ↦
      let (c, s, e, d) = digits_start fuel (n / 10) ((48 + n % 10) ∷ out) (ground arith) in
      (c, s, rw large e, d)
]

digits-IsLine : (fuel n : ℕ) (out : Text) → IsLine out → IsLine (digits fuel n out)
unfolding digits
digits-IsLine zero n out h = h
digits-IsLine (suc fuel) n out h = elim (Bool-cases (ltb n 10)) [
  | inl small ↦ rw small (ground arith, h)
  | inr large ↦ rw large (digits-IsLine fuel (n / 10) ((48 + n % 10) ∷ out) (ground arith, h))
]

pub print_number-IsLine : (n : ℕ) → IsLine (print_number n)
unfolding print_number
print_number-IsLine n = digits-IsLine (suc n) n [] tt

-- A number starts with a digit, which is no space.
pub print_number_start :
    (n : ℕ) → (c : ℕ) × (s : Text) × (print_number n ≡ c ∷ s) × (is_digit c ≡ true)
unfolding print_number
print_number_start n = digits_start (suc n) n [] (omega arith)

read_digits_end : (n : ℕ) (rest : Text) → EndsNumber rest → read_digits n rest ≡ (n, rest)
unfolding read_digits
read_digits_end n [] h = refl
read_digits_end n (c ∷ s) h = rw h

pub read_digits-print_number :
    (n : ℕ) (rest : Text) → EndsNumber rest → read_digits 0 (print_number n ++ rest) ≡ (n, rest)
unfolding print_number
read_digits-print_number n rest h =
    ap (read_digits 0) (sym (digits-append (suc n) n [] rest))
    ∙ read-digits (suc n) n rest (omega arith)
    ∙ read_digits_end n rest h

read_number_start :
    (limit n c : ℕ) (s rest : Text)
    → is_digit c ≡ true
    → read_digits 0 (c ∷ s) ≡ (n, rest)
    → n ≤ limit
    → read_number limit (skip_spaces (c ∷ s)) ≡ (some n, record { rest = rest; good = true })
unfolding read_number skip_spaces
read_number_start limit n c s rest d e fits =
    let begins : is_space c ≡ false = ground arith in
    let below : ltb limit (read_digits 0 (c ∷ s)).0 ≡ false = rw e (ground arith) in
    rw (begins, d, below, e)

-- A number that fits is read back.
pub extract_number-print_number :
    (limit n : ℕ) (rest : Text)
    → n ≤ limit
    → EndsNumber rest
    → extract_number limit (record { rest = print_number n ++ rest; good = true })
      ≡ (some n, record { rest = rest; good = true })
unfolding extract_number
extract_number-print_number limit n rest fits ends =
    let (c, s, e, d) = print_number_start n in
    let start : print_number n ++ rest ≡ c ∷ (s ++ rest) = ap (λ t. t ++ rest) e in
    ap (λ t. read_number limit (skip_spaces t)) start
    ∙ read_number_start limit n c (s ++ rest) rest d
        (ap (read_digits 0) (sym start) ∙ read_digits-print_number n rest ends) fits

-- The same behind a space.
pub extract_number_next :
    (limit n : ℕ) (rest : Text)
    → n ≤ limit
    → EndsNumber rest
    → extract_number limit (record { rest = 32 ∷ print_number n ++ rest; good = true })
      ≡ (some n, record { rest = rest; good = true })
unfolding extract_number skip_spaces
extract_number_next limit n rest fits ends = extract_number-print_number limit n rest fits ends

-- The same at the end of the text.
pub extract_number_end :
    (limit n : ℕ)
    → n ≤ limit
    → extract_number limit (record { rest = 32 ∷ print_number n; good = true })
      ≡ (some n, record { rest = []; good = true })
extract_number_end limit n fits =
    ap (λ t. extract_number limit (record { rest = 32 ∷ t; good = true }))
      (sym (append-nil (print_number n)))
    ∙ extract_number_next limit n [] fits tt

-- A word ends at the next space.
pub read_word-append :
    (word rest : Text) → IsWord word → read_word (word ++ 32 ∷ rest) ≡ (word, 32 ∷ rest)
unfolding read_word
read_word-append [] rest h = refl
read_word-append (c ∷ word) rest h = ground (arith, read_word-append word rest h.1)

pub read_word-end : (word : Text) → IsWord word → read_word word ≡ (word, [])
unfolding read_word
read_word-end [] h = refl
read_word-end (c ∷ word) h = ground (arith, read_word-end word h.1)

-- A word that is not empty is extracted, from a good stream.
pub extract_word-append :
    (c : ℕ) (word rest : Text)
    → IsWord (c ∷ word)
    → extract_word (record { rest = c ∷ word ++ 32 ∷ rest; good = true })
      ≡ (c ∷ word, record { rest = 32 ∷ rest; good = true })
unfolding extract_word skip_spaces
extract_word-append c word rest h = rw (h.0, read_word-append (c ∷ word) rest h)

pub extract_word_next :
    (c : ℕ) (word rest : Text)
    → IsWord (c ∷ word)
    → extract_word (record { rest = 32 ∷ c ∷ word ++ 32 ∷ rest; good = true })
      ≡ (c ∷ word, record { rest = 32 ∷ rest; good = true })
unfolding extract_word skip_spaces
extract_word_next c word rest h = rw (h.0, read_word-append (c ∷ word) rest h)

pub extract_word-end :
    (c : ℕ) (word : Text)
    → IsWord (c ∷ word)
    → extract_word (record { rest = c ∷ word; good = true })
      ≡ (c ∷ word, record { rest = []; good = true })
unfolding extract_word skip_spaces
extract_word-end c word h = rw (h.0, read_word-end (c ∷ word) h)

-- The first line of a file.
pub lines-append : (line rest : Text) → IsLine line → lines (line ++ 10 ∷ rest) ≡ line ∷ lines rest
unfolding lines
lines-append [] rest h = refl
lines-append (c ∷ line) rest h = ground (arith, lines-append line rest h.1)
