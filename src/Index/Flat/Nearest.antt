-- ===== src/Index/Flat/Nearest.antt =====
-- The bounded queue of the search is the full queue without all but its k least pairs.
use vector_database.Prelude.{
  ℕ, zero, suc, ◌+◌, ◌-◌, ◌≤◌, ◌≡◌, refl, ap, sym, ◌∙◌, take_enough, true, false, List, [], ◌∷◌,
  ◌++◌, foldl, reverse, length, drop, take, ltb, arith, All, Bool-cases, inl, inr, length-drop,
  All-drop, All-reverse, reverse-cons, length-reverse,
}
use vector_database.Float.{Float, Ordered}
use vector_database.Index.Nearest.{Pair, less, push, push_least, sort_into}
use vector_database.Index.Nearest.Order.{
  IsNumber, IsGreatest, IsDescending, All-push, push-IsDescending, less_cotrans,
}
use vector_database.Index.Flat.{offer}

module _ {ℓ} {A : Type ℓ} where
  take-append_le : (n : ℕ) (xs ys : List A) → n ≤ length xs → take n (xs ++ ys) ≡ take n xs
  take-append_le zero xs ys h = refl
  take-append_le (suc n) [] ys h = absurd (omega arith)
  take-append_le (suc n) (x ∷ xs) ys h = ap (◌∷◌ x) (take-append_le n xs ys (omega arith))

  pub reverse-drop : (j : ℕ) (xs : List A) → reverse (drop j xs) ≡ take (length xs - j) (reverse xs)
  reverse-drop zero xs =
      sym (take_enough (length xs - 0) (reverse xs) (omega (arith, length-reverse xs)))
  reverse-drop (suc j) [] = sym (take_enough (0 - suc j) [] (omega arith))
  reverse-drop (suc j) (x ∷ xs) =
      reverse-drop j xs
      ∙ sym
          (take-append_le (length xs - j) (reverse xs) (x ∷ []) (omega (arith, length-reverse xs)))
      ∙ ap (take (length xs - j)) (sym (reverse-cons x xs))
      ∙ ap (λ n. take n (reverse (x ∷ xs))) (omega arith)

module _ {R : Type 0} ⦃f : Float R⦄ where
  -- all pushed, none dropped
  pub queue : List (Pair R) → List (Pair R) → List (Pair R)
  queue acc [] = acc
  queue acc (p ∷ rest) = queue (push p acc) rest

  length-push : (p : Pair R) (l : List (Pair R)) → length (push p l) ≡ length l + 1
  unfolding push
  length-push p [] = omega arith
  length-push p (q ∷ l) = ground (arith, length-push p l)

  push_greatest : (p : Pair R) (l : List (Pair R)) → All (λ q. less q p ≡ true) l → push p l ≡ p ∷ l
  unfolding push
  push_greatest p [] h = refl
  push_greatest p (q ∷ l) h = rw h.0

  push_least_last :
      (p : Pair R) (l : List (Pair R)) → All (λ q. less q p ≡ true) l → push_least p l ≡ l ++ p ∷ []
  unfolding push_least
  push_least_last p [] h = refl
  push_least_last p (q ∷ l) h = rw h.0 (ap (◌∷◌ q) (push_least_last p l h.1))

  push_least-append :
      (p q : Pair R) (l : List (Pair R))
      → less q p ≡ false
      → push_least p (l ++ q ∷ []) ≡ push_least p l ++ q ∷ []
  unfolding push_least
  push_least-append p q [] h = rw h
  push_least-append p q (r ∷ l) h = ground (arith, push_least-append p q l h)

module _ {R : Type 0} ⦃f : Float R⦄ (o : Ordered R) where
  less_of_greatest :
      (p q : Pair R) (l : List (Pair R))
      → IsNumber p
      → IsNumber q
      → All IsNumber l
      → less q p ≡ true
      → IsGreatest q l
      → All (λ r. less r p ≡ true) l
  less_of_greatest p q [] np nq nl h g = tt
  less_of_greatest p q (r ∷ l) np nq nl h g =
      (ground (arith, less_cotrans o q r p), less_of_greatest p q l np nq nl.1 h g.1)

  -- The ascending list is the reverse of the queue.
  reverse-push :
      (p : Pair R) (l : List (Pair R))
      → IsNumber p
      → All IsNumber l
      → IsDescending l
      → reverse (push p l) ≡ push_least p (reverse l)
  unfolding push
  reverse-push p [] np nl d = unfold push_least in refl
  reverse-push p (q ∷ l) np nl d = elim (Bool-cases (less q p)) [
    | inl below ↦ rw below (
        reverse-cons p (q ∷ l)
        ∙ sym (
            push_least_last p (reverse (q ∷ l))
              (All-reverse _ (q ∷ l) (below, less_of_greatest p q l np nl.0 nl.1 below d.0))))
    | inr above ↦ rw above (
        reverse-cons q (push p l)
        ∙ ap (λ r. r ++ q ∷ []) (reverse-push p l np nl.1 d.1)
        ∙ sym (push_least-append p q (reverse l) above)
        ∙ ap (push_least p) (sym (reverse-cons q l)))
  ]

  drop-push :
      (j : ℕ) (p : Pair R) (l : List (Pair R))
      → IsNumber p
      → All IsNumber l
      → IsDescending l
      → drop (suc j) (push p l) ≡ drop 1 (push p (drop j l))
  unfolding push
  drop-push zero p l np nl d = refl
  drop-push (suc j) p [] np nl d = refl
  drop-push (suc j) p (q ∷ l) np nl d = elim (Bool-cases (less q p)) [
    | inl below ↦ rw below (
        sym (
          ap (drop 1) (
            push_greatest p (drop j l)
              (All-drop _ j l (less_of_greatest p q l np nl.0 nl.1 below d.0)))))
    | inr above ↦ rw above (drop-push j p l np nl.1 d.1)
  ]

  -- One step of the search: the queue holds what is left after dropping all but k.
  offer-drop :
      (k : ℕ) (p : Pair R) (l : List (Pair R))
      → IsNumber p
      → All IsNumber l
      → IsDescending l
      → offer k (drop (length l - k) l) p ≡ drop (length (push p l) - k) (push p l)
  unfolding offer
  offer-drop k p l np nl d = elim (Bool-cases (ltb (length l) k)) [
    | inl room ↦
        let e : length l - k ≡ 0 = ground arith in
        let e' : length (push p l) - k ≡ 0 = ground (arith, length-push p l) in
        let t : ltb k (length (push p l)) ≡ false = ground (arith, length-push p l) in rw (e, e', t)
    | inr full ↦
        let j = length l - k in
        let e : length (push p l) - k ≡ suc j = ground (arith, length-push p l) in
        let t : ltb k (length (push p (drop j l))) ≡ true =
          ground (arith, length-push p (drop j l), length-drop j l) in
        rw (t, e) (sym (drop-push j p l np nl d))
  ]

  pub foldl-offer :
      (k : ℕ) (l ps : List (Pair R))
      → All IsNumber l
      → All IsNumber ps
      → IsDescending l
      → foldl (offer k) (drop (length l - k) l) ps ≡ drop (length (queue l ps) - k) (queue l ps)
  unfolding queue
  foldl-offer k l [] nl np d = refl
  foldl-offer k l (p ∷ ps) nl np d = rw (offer-drop k p l np.0 nl d) (
      foldl-offer k (push p l) ps (All-push IsNumber p l np.0 nl) np.1
        (push-IsDescending o p l np.0 nl d))

  pub reverse-queue :
      (l ps : List (Pair R))
      → All IsNumber l
      → All IsNumber ps
      → IsDescending l
      → reverse (queue l ps) ≡ sort_into (reverse l) ps
  unfolding queue
  reverse-queue l [] nl np d = refl
  reverse-queue l (p ∷ ps) nl np d = rw (← reverse-push p l np.0 nl d) (
      reverse-queue (push p l) ps (All-push IsNumber p l np.0 nl) np.1
        (push-IsDescending o p l np.0 nl d))
