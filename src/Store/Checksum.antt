-- ===== src/Store/Checksum.antt =====
-- ComputeChecksum does not depend on the order in which the map iterates.
use vector_database.Prelude.{
  ℕ, ◌^◌, ◌≤◌, ◌<◌, ◌≡◌, refl, sym, ap, ◌∙◌, true, false, ◌||◌, some, List, [], ◌∷◌, foldl, map,
  All, All-weaken, nat_beq, leb, nat_eq, nat_beq_iff, arith, Text, Bool-cases, Option-cases, inl,
  inr, ◌>>=◌,
}
use vector_database.Prelude.Map.{Map, find, contains, IsMap}
use vector_database.Prelude.Set.{member, All-member}
use vector_database.Index.Laws.{is_some}
use vector_database.Store.{Data, VectorStore, sort, sort_into, roll, hash_ids, compute_checksum}

abbrev IsStrict : List ℕ → Type 0
IsStrict [] = Unit
IsStrict (x ∷ xs) = All (λ y. x < y) xs × IsStrict xs

member-sort_into :
    (a b : ℕ) (xs : List ℕ) → member b (sort_into a xs) ≡ (nat_beq a b || member b xs)
unfolding member
member-sort_into a b [] = refl
member-sort_into a b (x ∷ xs) = ground (arith, member-sort_into a b xs)

member-sort : (b : ℕ) (xs : List ℕ) → member b (sort xs) ≡ member b xs
unfolding member sort
member-sort b [] = refl
member-sort b (x ∷ xs) = ground (arith, member-sort_into x b (sort xs), member-sort b xs)

All-sort_into : (P : ℕ → Type 0) (a : ℕ) (xs : List ℕ) → P a → All P xs → All P (sort_into a xs)
All-sort_into P a [] pa h = (pa, tt)
All-sort_into P a (x ∷ xs) pa h = elim (Bool-cases (leb a x)) [
  | inl here ↦ rw here (pa, h)
  | inr later ↦ rw later (h.0, All-sort_into P a xs pa h.1)
]

-- A new element goes into its place.
sort_into-IsStrict :
    (a : ℕ) (xs : List ℕ) → member a xs ≡ false → IsStrict xs → IsStrict (sort_into a xs)
unfolding member
sort_into-IsStrict a [] new h = (tt, tt)
sort_into-IsStrict a (x ∷ xs) new h = elim (Bool-cases (leb a x)) [
  | inl here ↦
      let less : a < x = ground (arith, nat_beq_iff x a) in
      rw here
        ((less, All-weaken (λ y. x < y) (λ y. a < y) (λ y (l : x < y). omega arith) xs h.0), h)
  | inr later ↦ rw later (
    All-sort_into (λ y. x < y) a xs (ground arith) h.0,
    sort_into-IsStrict a xs (ground arith) h.1,
  )
]

below_all : (x : ℕ) (xs : List ℕ) → All (λ y. x < y) xs → member x xs ≡ false
unfolding member
below_all x [] h = refl
below_all x (y ∷ ys) h = ground (arith, nat_beq_iff y x, below_all x ys h.1)

first_le : (x y : ℕ) (ys : List ℕ) → All (λ z. y < z) ys → member x (y ∷ ys) ≡ true → y ≤ x
unfolding member
first_le x y ys h m = elim (Bool-cases (nat_beq y x)) [
  | inl same ↦ ground (arith, nat_beq_iff y x)
  | inr later ↦ let less : y < x = All-member (λ z. y < z) x ys h (ground arith) in omega arith
]

-- Strictly ascending lists with the same elements are equal.
strict_ext :
    (xs ys : List ℕ) → IsStrict xs → IsStrict ys → ((b : ℕ) → member b xs ≡ member b ys) → xs ≡ ys
unfolding member
strict_ext [] [] hx hy same = refl
strict_ext [] (y ∷ ys) hx hy same = absurd (ground (arith, same y, nat_beq_iff y y))
strict_ext (x ∷ xs) [] hx hy same = absurd (ground (arith, same x, nat_beq_iff x x))
strict_ext (x ∷ xs) (y ∷ ys) hx hy same =
    let le : y ≤ x = first_le x y ys hy.0 (ground (arith, same x, nat_beq_iff x x)) in
    let ge : x ≤ y = first_le y x xs hx.0 (ground (arith, same y, nat_beq_iff y y)) in
    let e : x ≡ y = omega arith in
    let rest = strict_ext xs ys hx.1 hy.1 (λ b. ground (
      arith,
      same b,
      below_all x xs hx.0,
      below_all y ys hy.0,
      nat_beq_iff x b,
      nat_beq_iff y b,
    )) in
    λ i. e i ∷ rest i

roll_lt : (checksum c : ℕ) → roll checksum c < 2 ^ 64
roll_lt checksum c = omega arith

foldl-roll_lt :
    (checksum : ℕ) (content : Text) → checksum < 2 ^ 64 → foldl roll checksum content < 2 ^ 64
foldl-roll_lt checksum [] h = h
foldl-roll_lt checksum (c ∷ cs) h = foldl-roll_lt (roll checksum c) cs (roll_lt checksum c)

module _ {R : Type 0} where
  member-ids : (x : ℕ) (store : Map ℕ (Data R)) → member x (map (λ p. p.0) store) ≡ contains x store
  unfolding member find
  member-ids x [] = refl
  member-ids x ((k, entry) ∷ store) = ground (arith, member-ids x store)

  member-sorted_ids :
      (x : ℕ) (store : Map ℕ (Data R))
      → member x (sort (map (λ p. p.0) store)) ≡ is_some (find x store)
  member-sorted_ids x store =
      member-sort x (map (λ p. p.0) store) ∙ member-ids x store ∙ ground arith

  hash_ids_total :
      (store : Map ℕ (Data R)) (checksum : ℕ) (ids : List ℕ)
      → checksum < 2 ^ 64
      → ((x : ℕ) → member x ids ≡ true → is_some (find x store) ≡ true)
      → (c : ℕ) × (hash_ids store checksum ids ≡ some c) × (c < 2 ^ 64)
  unfolding hash_ids member
  hash_ids_total store checksum [] h known = (checksum, refl, h)
  hash_ids_total store checksum (id ∷ ids) h known = elim (Option-cases (find id store)) [
    | inl absent ↦ absurd (ground (arith, known id, nat_beq_iff id id))
    | inr (entry, e) ↦
        let (c, e', hc) =
          hash_ids_total store (foldl roll (roll checksum id) entry.content) ids
            (foldl-roll_lt (roll checksum id) entry.content (roll_lt checksum id))
            (λ x m. known x (ground arith)) in
        (c, rw e e', hc)
  ]

  sort-ids-IsStrict :
      (store : Map ℕ (Data R)) → IsMap store → IsStrict (sort (map (λ p. p.0) store))
  unfolding sort
  sort-ids-IsStrict [] h = tt
  sort-ids-IsStrict ((k, entry) ∷ store) h =
      sort_into-IsStrict k (sort (map (λ p. p.0) store))
        (member-sort k (map (λ p. p.0) store) ∙ member-ids k store ∙ h.0)
        (sort-ids-IsStrict store h.1)

  hash_ids-ext :
      (store store' : Map ℕ (Data R)) (checksum : ℕ) (ids : List ℕ)
      → ((x : ℕ) → find x store ≡ find x store')
      → hash_ids store checksum ids ≡ hash_ids store' checksum ids
  unfolding hash_ids
  hash_ids-ext store store' checksum [] same = refl
  hash_ids-ext store store' checksum (id ∷ ids) same = λ i. same id i >>= (λ entry.
      hash_ids-ext store store' (foldl roll (roll checksum id) entry.content) ids same i)

module _ {R I : Type 0} where
  -- ComputeChecksum throws nothing and gives a number of 64 bits.
  pub compute_checksum_total :
      (s : VectorStore R I) → (c : ℕ) × (compute_checksum s ≡ some c) × (c < 2 ^ 64)
  unfolding compute_checksum
  compute_checksum_total s =
      hash_ids_total s.store 0 (sort (map (λ p. p.0) s.store)) (omega arith)
        (λ x m. sym (member-sorted_ids x s.store) ∙ m)

module _ {R I J : Type 0} where
  -- Stores with the same entries have the same checksum, whatever their orders of iteration and
  -- their indexes.
  pub compute_checksum-unordered :
      (s : VectorStore R I) (t : VectorStore R J)
      → IsMap s.store
      → IsMap t.store
      → ((x : ℕ) → find x s.store ≡ find x t.store)
      → compute_checksum s ≡ compute_checksum t
  unfolding compute_checksum
  compute_checksum-unordered s t hs ht same =
      let e =
        strict_ext (sort (map (λ p. p.0) s.store)) (sort (map (λ p. p.0) t.store))
          (sort-ids-IsStrict s.store hs) (sort-ids-IsStrict t.store ht)
          (λ b.
            member-sorted_ids b s.store
            ∙ ap is_some (same b)
            ∙ sym (member-sorted_ids b t.store)) in
      ap (hash_ids s.store 0) e
      ∙ hash_ids-ext s.store t.store 0 (sort (map (λ p. p.0) t.store)) same
