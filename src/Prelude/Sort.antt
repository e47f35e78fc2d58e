-- ===== src/Prelude/Sort.antt =====
-- Stable sorting and the extremum of a list under a Boolean order, as `sort_by`, `max_by_key` and
-- `min_by_key` of the standard library do them: `max` takes the last of equals, `min` the first.
use Prim.Native.Nat.{ℕ, zero, suc}
use mathlib.Core.Path.{◌≡◌, refl, subst}
use mathlib.Core.Logic.{◌⊎◌, inl, inr}
use mathlib.Core.Option.{Option, none, some}
use mathlib.Core.Bool.{Bool, true, false}
use mathlib.Core.List.{List, [], ◌∷◌}
use native.Mathlib.Omega.{arith}
use pgcluster.Prelude.Tests.{if◌then◌else◌}
use pgcluster.Prelude.Lists.{length, take, drop, filter, All, In, All-In, In-drop}

module _ {A : Type 0} (le : A → A → Bool) where
  unfoldable pub insert_sorted : A → List A → List A
  insert_sorted x [] = x ∷ []
  insert_sorted x (y ∷ ys) = if le x y then x ∷ y ∷ ys else y ∷ insert_sorted x ys

  unfoldable pub sort_by : List A → List A
  unfolding insert_sorted
  sort_by [] = []
  sort_by (x ∷ xs) = insert_sorted x (sort_by xs)

  -- Each element comes before all that follow it.
  abbrev pub IsSorted : List A → Type 0
  IsSorted [] = Unit
  IsSorted (x ∷ xs) = All (λ y. le x y ≡ true) xs × IsSorted xs

  In-insert_sorted : (x a : A) (xs : List A) → In a (insert_sorted x xs) → (x ≡ a) ⊎ In a xs
  unfolding insert_sorted
  In-insert_sorted x a [] m = m
  In-insert_sorted x a (y ∷ ys) m = let r = In-insert_sorted x a ys in ground (arith, r)

  insert_sorted-In : (x a : A) (xs : List A) → (x ≡ a) ⊎ In a xs → In a (insert_sorted x xs)
  unfolding insert_sorted
  insert_sorted-In x a [] m = m
  insert_sorted-In x a (y ∷ ys) m = ground (arith, insert_sorted-In x a ys)

  -- Sorting keeps the elements.
  pub In-sort_by : (a : A) (xs : List A) → In a (sort_by xs) → In a xs
  unfolding sort_by
  In-sort_by a [] m = m
  In-sort_by a (x ∷ xs) m = elim (In-insert_sorted x a (sort_by xs) m) [
    | inl e ↦ inl e
    | inr r ↦ inr (In-sort_by a xs r)
  ]

  pub sort_by-In : (a : A) (xs : List A) → In a xs → In a (sort_by xs)
  unfolding sort_by
  sort_by-In a [] m = m
  sort_by-In a (x ∷ xs) (inl e) = insert_sorted-In x a (sort_by xs) (inl e)
  sort_by-In a (x ∷ xs) (inr m) = insert_sorted-In x a (sort_by xs) (inr (sort_by-In a xs m))

  length-insert_sorted : (x : A) (xs : List A) → length (insert_sorted x xs) ≡ length (x ∷ xs)
  unfolding insert_sorted
  length-insert_sorted x [] = refl
  length-insert_sorted x (y ∷ ys) = ground (arith, length-insert_sorted x ys)

  pub length-sort_by : (xs : List A) → length (sort_by xs) ≡ length xs
  unfolding sort_by
  length-sort_by [] = refl
  length-sort_by (x ∷ xs) = omega (arith, length-insert_sorted x (sort_by xs), length-sort_by xs)

  module _ (total : (x y : A) → le x y ≡ false → le y x ≡ true)
      (trans : (x y z : A) → le x y ≡ true → le y z ≡ true → le x z ≡ true) where
    All-insert_sorted :
        (z x : A) (xs : List A)
        → le z x ≡ true
        → All (λ y. le z y ≡ true) xs
        → All (λ y. le z y ≡ true) (insert_sorted x xs)
    unfolding insert_sorted
    All-insert_sorted z x [] h hs = (h, tt)
    All-insert_sorted z x (y ∷ ys) h hs = ground (arith, All-insert_sorted z x ys h hs.1)

    All-trans :
        (x y : A) (ys : List A)
        → le x y ≡ true
        → All (λ z. le y z ≡ true) ys
        → All (λ z. le x z ≡ true) ys
    All-trans x y [] h hs = tt
    All-trans x y (z ∷ zs) h hs = (trans x y z h hs.0, All-trans x y zs h hs.1)

    insert_sorted-IsSorted : (x : A) (xs : List A) → IsSorted xs → IsSorted (insert_sorted x xs)
    unfolding insert_sorted
    insert_sorted-IsSorted x [] s = (tt, tt)
    insert_sorted-IsSorted x (y ∷ ys) s = ground (
      arith,
      total x y,
      All-trans x y ys,
      All-insert_sorted y x ys,
      insert_sorted-IsSorted x ys s.1,
    )

    pub sort_by-IsSorted : (xs : List A) → IsSorted (sort_by xs)
    unfolding sort_by
    sort_by-IsSorted [] = tt
    sort_by-IsSorted (x ∷ xs) = insert_sorted-IsSorted x (sort_by xs) (sort_by-IsSorted xs)

module _ {A : Type 0} (le : A → A → Bool) where
  max_from : A → List A → A
  max_from x [] = x
  max_from x (y ∷ ys) = max_from (if le x y then y else x) ys

  -- `iter().max_by_key(key)` for the order `le` of the keys.
  unfoldable pub max_by : List A → Option A
  unfolding max_from
  max_by [] = none
  max_by (x ∷ xs) = some (max_from x xs)

  unfoldable pub min_from : A → List A → A
  min_from x [] = x
  min_from x (y ∷ ys) = min_from (if le x y then x else y) ys

  -- `iter().min_by_key(key)`
  unfoldable pub min_by : List A → Option A
  unfolding min_from
  min_by [] = none
  min_by (x ∷ xs) = some (min_from x xs)

  max_from-In : (x : A) (xs : List A) (r : A) → max_from x xs ≡ r → In r (x ∷ xs)
  unfolding max_from
  max_from-In x [] r h = inl h
  max_from-In x (y ∷ ys) r h = ground (arith, max_from-In (if le x y then y else x) ys r h)

  pub max_by-In : (xs : List A) (r : A) → max_by xs ≡ some r → In r xs
  unfolding max_by
  max_by-In [] r h = ground arith
  max_by-In (x ∷ xs) r h = max_from-In x xs r (cc)

  min_from-In : (x : A) (xs : List A) (r : A) → min_from x xs ≡ r → In r (x ∷ xs)
  unfolding min_from
  min_from-In x [] r h = inl h
  min_from-In x (y ∷ ys) r h = ground (arith, min_from-In (if le x y then x else y) ys r h)

  pub min_by-In : (xs : List A) (r : A) → min_by xs ≡ some r → In r xs
  unfolding min_by
  min_by-In [] r h = ground arith
  min_by-In (x ∷ xs) r h = min_from-In x xs r (cc)

  module _ (total : (x y : A) → le x y ≡ false → le y x ≡ true)
      (trans : (x y z : A) → le x y ≡ true → le y z ≡ true → le x z ≡ true)
      (same : (x : A) → le x x ≡ true) where
    max_from-IsMax :
        (x : A) (xs : List A) (r : A)
        → max_from x xs ≡ r
        → (le x r ≡ true) × All (λ y. le y r ≡ true) xs
    unfolding max_from
    max_from-IsMax x [] r h = (ground (arith, same x), tt)
    max_from-IsMax x (y ∷ ys) r h = ground (
      arith,
      max_from-IsMax (if le x y then y else x) ys r h,
      trans x y r,
      trans y x r,
      total x y,
    )

    -- No element is above the one that `max_by` returns.
    pub max_by-IsMax : (xs : List A) (r : A) → max_by xs ≡ some r → All (λ y. le y r ≡ true) xs
    unfolding max_by
    max_by-IsMax [] r h = tt
    max_by-IsMax (x ∷ xs) r h = max_from-IsMax x xs r (cc)

    min_from-IsMin :
        (x : A) (xs : List A) (r : A)
        → min_from x xs ≡ r
        → (le r x ≡ true) × All (λ y. le r y ≡ true) xs
    unfolding min_from
    min_from-IsMin x [] r h = (ground (arith, same x), tt)
    min_from-IsMin x (y ∷ ys) r h = ground (
      arith,
      min_from-IsMin (if le x y then x else y) ys r h,
      trans r x y,
      trans r y x,
      total x y,
    )

    -- No element is below the one that `min_by` returns.
    pub min_by-IsMin : (xs : List A) (r : A) → min_by xs ≡ some r → All (λ y. le r y ≡ true) xs
    unfolding min_by
    min_by-IsMin [] r h = tt
    min_by-IsMin (x ∷ xs) r h = min_from-IsMin x xs r (cc)

  -- An extremum exists exactly of a list that is not empty.
  pub max_by-none : (xs : List A) → max_by xs ≡ none → xs ≡ []
  unfolding max_by
  max_by-none [] h = refl
  max_by-none (x ∷ xs) h = ground arith

  pub min_by-none : (xs : List A) → min_by xs ≡ none → xs ≡ []
  unfolding min_by
  min_by-none [] h = refl
  min_by-none (x ∷ xs) h = ground arith

module _ {A : Type 0} (le : A → A → Bool) where
  All-take :
      (z : A) (n : ℕ) (xs : List A)
      → All (λ y. le z y ≡ true) xs
      → All (λ y. le z y ≡ true) (take n xs)
  All-take z zero xs h = tt
  All-take z (suc n) [] h = tt
  All-take z (suc n) (x ∷ xs) h = (h.0, All-take z n xs h.1)

  pub take-IsSorted : (n : ℕ) (xs : List A) → IsSorted le xs → IsSorted le (take n xs)
  take-IsSorted zero xs s = tt
  take-IsSorted (suc n) [] s = tt
  take-IsSorted (suc n) (x ∷ xs) s = (All-take x n xs s.0, take-IsSorted n xs s.1)

  All-filter :
      (z : A) (test : A → Bool) (xs : List A)
      → All (λ y. le z y ≡ true) xs
      → All (λ y. le z y ≡ true) (filter test xs)
  All-filter z test [] h = tt
  All-filter z test (x ∷ xs) h = ground (arith, All-filter z test xs h.1)

  pub filter-IsSorted :
      (test : A → Bool) (xs : List A) → IsSorted le xs → IsSorted le (filter test xs)
  filter-IsSorted test [] s = tt
  filter-IsSorted test (x ∷ xs) s =
      ground (arith, All-filter x test xs s.0, filter-IsSorted test xs s.1)

  -- What a cut of a sorted list keeps comes before what it drops.
  pub take-le-drop :
      (n : ℕ) (a b : A) (xs : List A)
      → IsSorted le xs
      → In a (take n xs)
      → In b (drop n xs)
      → le a b ≡ true
  take-le-drop zero a b xs s i j = absurd i
  take-le-drop (suc n) a b [] s i j = absurd i
  take-le-drop (suc n) a b (x ∷ xs) s (inl e) j =
      subst (λ c. le c b ≡ true) e (All-In (λ y. le x y ≡ true) b xs s.0 (In-drop n b xs j))
  take-le-drop (suc n) a b (x ∷ xs) s (inr i) j = take-le-drop n a b xs s.1 i j
