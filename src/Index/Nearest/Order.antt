-- ===== src/Index/Nearest/Order.antt =====
-- The order of pairs: total on pairs whose distance is a number, and what sorting by it gives.
use vector_database.Prelude.{◌≡◌, true, false, List, [], ◌∷◌, arith, All, Bool-cases, inl, inr}
use vector_database.Float.{Float, Ordered}
use vector_database.Index.Nearest.{Pair, less, push, push_least, sort_into, sort}

module _ {R : Type 0} ⦃f : Float R⦄ where
  abbrev pub IsNumber : Pair R → Type 0
  IsNumber p = f.is_nan p.0 ≡ false

  -- p stands before every one of the list, or ties with it
  abbrev pub IsLeast : Pair R → List (Pair R) → Type 0
  IsLeast p = All (λ q. less q p ≡ false)

  abbrev pub IsAscending : List (Pair R) → Type 0
  IsAscending [] = Unit
  IsAscending (p ∷ rest) = IsLeast p rest × IsAscending rest

  abbrev pub IsGreatest : Pair R → List (Pair R) → Type 0
  IsGreatest p = All (λ q. less p q ≡ false)

  abbrev pub IsDescending : List (Pair R) → Type 0
  IsDescending [] = Unit
  IsDescending (p ∷ rest) = IsGreatest p rest × IsDescending rest

module _ {R : Type 0} ⦃f : Float R⦄ (o : Ordered R) where
  pub less_asymm : (p q : Pair R) → less p q ≡ true → less q p ≡ false
  unfolding less
  less_asymm p q h = ground (arith, o.lt_irrefl p.0, o.lt_trans p.0 q.0 p.0)

  pub less_cotrans :
      (p q r : Pair R)
      → IsNumber p
      → IsNumber q
      → IsNumber r
      → less p q ≡ false
      → less q r ≡ false
      → less p r ≡ false
  unfolding less
  less_cotrans p q r np nq nr h k = ground (
    arith,
    o.lt_cotrans p.0 q.0 r.0,
    o.lt_cotrans q.0 r.0 p.0,
    o.lt_cotrans r.0 p.0 q.0,
    o.lt_trans r.0 q.0 p.0,
  )

  pub IsLeast-trans :
      (p q : Pair R) (l : List (Pair R))
      → IsNumber p
      → IsNumber q
      → All IsNumber l
      → less q p ≡ false
      → IsLeast q l
      → IsLeast p l
  IsLeast-trans p q [] np nq nl h k = tt
  IsLeast-trans p q (r ∷ l) np nq nl h k =
      (less_cotrans r q p nl.0 nq np k.0 h, IsLeast-trans p q l np nq nl.1 h k.1)

  pub IsGreatest-trans :
      (p q : Pair R) (l : List (Pair R))
      → IsNumber p
      → IsNumber q
      → All IsNumber l
      → less p q ≡ false
      → IsGreatest q l
      → IsGreatest p l
  IsGreatest-trans p q [] np nq nl h k = tt
  IsGreatest-trans p q (r ∷ l) np nq nl h k =
      (less_cotrans p q r np nq nl.0 h k.0, IsGreatest-trans p q l np nq nl.1 h k.1)

-- A push keeps what holds of all.
module _ {ℓ} {R : Type 0} ⦃f : Float R⦄ (P : Pair R → Type ℓ) where
  pub All-push : (p : Pair R) (l : List (Pair R)) → P p → All P l → All P (push p l)
  unfolding push
  All-push p [] hp hl = (hp, hl)
  All-push p (q ∷ l) hp hl = elim (Bool-cases (less q p)) [
    | inl below ↦ rw below (hp, hl)
    | inr above ↦ rw above (hl.0, All-push p l hp hl.1)
  ]

  pub All-push_least : (p : Pair R) (l : List (Pair R)) → P p → All P l → All P (push_least p l)
  unfolding push_least
  All-push_least p [] hp hl = (hp, hl)
  All-push_least p (q ∷ l) hp hl = elim (Bool-cases (less q p)) [
    | inl below ↦ rw below (hl.0, All-push_least p l hp hl.1)
    | inr above ↦ rw above (hp, hl)
  ]

  pub All-sort_into : (acc l : List (Pair R)) → All P acc → All P l → All P (sort_into acc l)
  All-sort_into acc [] ha hl = ha
  All-sort_into acc (p ∷ l) ha hl =
      All-sort_into (push_least p acc) l (All-push_least p acc hl.0 ha) hl.1

module _ {R : Type 0} ⦃f : Float R⦄ (o : Ordered R) where
  pub push-IsDescending :
      (p : Pair R) (l : List (Pair R))
      → IsNumber p
      → All IsNumber l
      → IsDescending l
      → IsDescending (push p l)
  unfolding push
  push-IsDescending p [] np nl d = (tt, tt)
  push-IsDescending p (q ∷ l) np nl d = elim (Bool-cases (less q p)) [
    | inl below ↦ rw below (
      (less_asymm o q p below, IsGreatest-trans o p q l np nl.0 nl.1 (less_asymm o q p below) d.0),
      d,
    )
    | inr above ↦
        rw above (All-push (λ r. less q r ≡ false) p l above d.0, push-IsDescending p l np nl.1 d.1)
  ]

  pub push_least-IsAscending :
      (p : Pair R) (l : List (Pair R))
      → IsNumber p
      → All IsNumber l
      → IsAscending l
      → IsAscending (push_least p l)
  unfolding push_least
  push_least-IsAscending p [] np nl d = (tt, tt)
  push_least-IsAscending p (q ∷ l) np nl d = elim (Bool-cases (less q p)) [
    | inl below ↦ rw below (
      All-push_least (λ r. less r q ≡ false) p l (less_asymm o q p below) d.0,
      push_least-IsAscending p l np nl.1 d.1,
    )
    | inr above ↦ rw above ((above, IsLeast-trans o p q l np nl.0 nl.1 above d.0), d)
  ]

  sort_into-IsAscending :
      (acc l : List (Pair R))
      → All IsNumber acc
      → All IsNumber l
      → IsAscending acc
      → IsAscending (sort_into acc l)
  sort_into-IsAscending acc [] na nl a = a
  sort_into-IsAscending acc (p ∷ l) na nl a =
      sort_into-IsAscending (push_least p acc) l (All-push_least IsNumber p acc nl.0 na) nl.1
        (push_least-IsAscending p acc nl.0 na a)

  pub sort-IsAscending : (l : List (Pair R)) → All IsNumber l → IsAscending (sort l)
  unfolding sort
  sort-IsAscending l n = sort_into-IsAscending [] l tt n tt
