-- ===== src/ReplicaManager/Attempts.antt =====
-- The loop over the retries: what it counted when it did not fail.
use vector_database.Prelude.{
  ℕ, ◌-◌, ◌^◌, ◌≤◌, ◌<◌, ◌≡◌, refl, ap, ◌∙◌, true, false, ◌||◌, some, List, [], ◌∷◌, map, foldl,
  drop, length, length-map, length-drop, All, is_empty, nat_beq, nat_eq, Text, arith, Bool-cases,
  inl, inr,
}
use vector_database.Prelude.Set.{member}
use vector_database.Float.{Float}
use vector_database.Index.Any.{AnyIndex}
use vector_database.Store.{IndexType, VectorStore}
use vector_database.Store.Checksum.{compute_checksum_total}
use vector_database.Engine.Tables.{WalEntry}
use vector_database.Persistence.Stream.{FloatText}
use vector_database.Persistence.Wal.Lines.{FloatTextLaws}
use vector_database.Persistence.Wal.RoundTrip.{
  LogCall, append_call, entry_of, IsLogged, serialize_wal_entries-append_call,
}
use vector_database.ReplicaManager.{Network, Attempt, send, attempt, attempts}

length-is_empty : {A : Type 0} (xs : List A) → is_empty xs ≡ true → length xs ≡ 0
length-is_empty [] h = refl
length-is_empty (x ∷ xs) h = absurd cc

is_empty-length : {A : Type 0} (xs : List A) → length xs ≡ 0 → is_empty xs ≡ true
is_empty-length [] h = refl
is_empty-length (x ∷ xs) h = absurd (omega (arith, h))

-- A replica counts no entry that it was not sent.
abbrev pub IsHonest : {R W : Type 0} → Network R W → Type 0
IsHonest {R} {W} net =
    (w : W) (replica : Text) (entries : List (WalEntry R))
    → (net.sync w replica entries).1.1 ≤ length entries

module _ {R W : Type 0} ⦃f : Float R⦄ ⦃text : FloatText R⦄ ⦃net : Network R W⦄
    (laws : FloatTextLaws R) where
  -- one attempt, on `n` log lines
  record IsStep (n i : ℕ) (a b : Attempt W) : Type 0 where
    below : b.offset ≤ n
    forward : a.offset ≤ b.offset
    keeps : a.failed ≡ true → b.failed ≡ true
    finished : b.done ≡ true → b.offset ≡ n
    third : i ≡ 2 → b.failed ≡ false → b.offset ≡ n

  send-IsStep :
      (n i checksum : ℕ) (table replica : Text) (entries : List (WalEntry R)) (a : Attempt W)
      → IsHonest net
      → n < 2 ^ 64
      → a.offset ≤ n
      → length entries ≡ n - a.offset
      → a.done ≡ false
      → IsStep n i a (send table replica checksum i entries a)
  unfolding send
  send-IsStep n i checksum table replica entries a honest small le len going =
      let counted = honest a.network replica entries in
      record {
        below = ground arith;
        forward = ground arith;
        keeps = λ h. ground arith;
        finished = λ h. ground arith;
        third = λ h e. ground arith;
      }

  attempt-IsStep :
      (index_type : IndexType) (table replica : Text) (calls : List (LogCall R))
      (store : VectorStore R (AnyIndex R)) (i : ℕ) (a : Attempt W)
      → IsHonest net
      → All (IsLogged laws) calls
      → length calls < 2 ^ 64
      → a.offset ≤ length calls
      → a.done ≡ false
      → (b : Attempt W) × (attempt index_type table replica
            (foldl (append_call index_type) [] calls)
            store
            i
            a
          ≡ some b)
        × IsStep (length calls) i a b
  unfolding attempt
  attempt-IsStep index_type table replica calls store i a honest fits small le going =
      let entries = drop a.offset (map (entry_of laws index_type table) calls) in
      let read = serialize_wal_entries-append_call laws index_type table calls a.offset fits in
      let (checksum, sum, _) = compute_checksum_total store in
      let len : length entries ≡ length calls - a.offset =
        length-drop a.offset (map (entry_of laws index_type table) calls)
        ∙ ap (λ l. l - a.offset) (length-map (entry_of laws index_type table) calls) in
      elim (Bool-cases (is_empty entries)) [
        | inl none_left ↦ (
          a,
          rw (read, none_left),
          record {
            below = le;
            forward = omega arith;
            keeps = λ h. h;
            finished = λ h. ground arith;
            third = λ _ _. omega (arith, len, length-is_empty entries none_left);
          },
        )
        | inr some_left ↦ (
          send table replica checksum i entries a,
          rw (read, some_left, sum),
          send-IsStep (length calls) i checksum table replica entries a honest small le len going,
        )
      ]

  attempts-stop :
      (index_type : IndexType) (table replica file : Text) (store : VectorStore R (AnyIndex R))
      (i : ℕ) (rest : List ℕ) (a b : Attempt W)
      → attempt index_type table replica file store i a ≡ some b
      → b.done ≡ true
      → attempts index_type table replica file store (i ∷ rest) a ≡ some b
  unfolding attempts
  attempts-stop index_type table replica file store i rest a b e h = rw (e, h)

  pub attempts-go :
      (index_type : IndexType) (table replica file : Text) (store : VectorStore R (AnyIndex R))
      (i : ℕ) (rest : List ℕ) (a b : Attempt W)
      → attempt index_type table replica file store i a ≡ some b
      → b.done ≡ false
      → attempts index_type table replica file store (i ∷ rest) a
        ≡ attempts index_type table replica file store rest b
  unfolding attempts
  attempts-go index_type table replica file store i rest a b e h = rw (e, h)

  -- The loop ends, counts no more than there is, and, if a third try was among those that are left,
  -- it fails or counts all.
  pub attempts-counted :
      (index_type : IndexType) (table replica : Text) (calls : List (LogCall R))
      (store : VectorStore R (AnyIndex R)) (is : List ℕ) (a : Attempt W)
      → IsHonest net
      → All (IsLogged laws) calls
      → length calls < 2 ^ 64
      → a.offset ≤ length calls
      → a.done ≡ false
      → (b : Attempt W) × (attempts index_type table replica
            (foldl (append_call index_type) [] calls)
            store
            is
            a
          ≡ some b)
        × (b.offset ≤ length calls)
        × (a.offset ≤ b.offset)
        × (a.failed ≡ true → b.failed ≡ true)
        × ((member 2 is || nat_beq a.offset (length calls)) ≡ true
            → b.failed ≡ false
            → b.offset ≡ length calls)
  unfolding attempts member
  attempts-counted index_type table replica calls store [] a honest fits small le going =
      (a, refl, le, omega arith, λ h. h, λ h _. ground arith)
  attempts-counted index_type table replica calls store (i ∷ is) a honest fits small le going =
      let file = foldl (append_call index_type) [] calls in
      let (b, e, step) =
        attempt-IsStep index_type table replica calls store i a honest fits small le going in
      elim (Bool-cases b.done) [
        | inl over ↦ (
          b,
          attempts-stop index_type table replica file store i is a b e over,
          step.below,
          step.forward,
          step.keeps,
          λ _ _. step.finished over,
        )
        | inr on ↦
            let (c, e', below, forward, keeps, all) =
              attempts-counted index_type table replica calls store is b honest fits small
                step.below on in
            (
              c,
              attempts-go index_type table replica file store i is a b e on ∙ e',
              below,
              omega (arith, step.forward, forward),
              λ h. keeps (step.keeps h),
              λ h h'.
                  ground (arith, all, keeps, step.third, step.forward, step.below, below, forward),
            )
      ]

  attempt-beyond :
      (index_type : IndexType) (table replica : Text) (calls : List (LogCall R))
      (store : VectorStore R (AnyIndex R)) (i : ℕ) (a : Attempt W)
      → All (IsLogged laws) calls
      → length calls ≤ a.offset
      → attempt index_type table replica (foldl (append_call index_type) [] calls) store i a
        ≡ some a
  unfolding attempt
  attempt-beyond index_type table replica calls store i a fits beyond =
      let read = serialize_wal_entries-append_call laws index_type table calls a.offset fits in
      let none_left : is_empty (drop a.offset (map (entry_of laws index_type table) calls)) ≡ true =
        is_empty-length (drop a.offset (map (entry_of laws index_type table) calls)) (
          omega (
            arith,
            length-drop a.offset (map (entry_of laws index_type table) calls),
            length-map (entry_of laws index_type table) calls,
          )) in
      rw (read, none_left)

  -- From an offset at the end of the log or beyond it, nothing is sent.
  pub attempts-beyond :
      (index_type : IndexType) (table replica : Text) (calls : List (LogCall R))
      (store : VectorStore R (AnyIndex R)) (is : List ℕ) (a : Attempt W)
      → All (IsLogged laws) calls
      → length calls ≤ a.offset
      → a.done ≡ false
      → attempts index_type table replica (foldl (append_call index_type) [] calls) store is a
        ≡ some a
  unfolding attempts
  attempts-beyond index_type table replica calls store [] a fits beyond going = refl
  attempts-beyond index_type table replica calls store (i ∷ is) a fits beyond going =
      attempts-go index_type table replica (foldl (append_call index_type) [] calls) store i is a a
        (attempt-beyond index_type table replica calls store i a fits beyond) going
      ∙ attempts-beyond index_type table replica calls store is a fits beyond going
