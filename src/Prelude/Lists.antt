-- ===== src/Prelude/Lists.antt =====
-- Lists over the native numbers: measures, filters by a Boolean test, and predicates by recursion.
use Prim.Native.Nat.{ℕ, zero, suc, ◌+◌, ◌-◌, ◌≤◌, min}
use mathlib.Core.Path.{◌≡◌, refl, ap, sym, subst, ◌∙◌}
use mathlib.Core.Logic.{◌⊎◌, inl, inr}
use mathlib.Core.Bool.{Bool, true, false, ◌&&◌}
use mathlib.Core.Option.{Option, none, some}
use mathlib.Core.List.{List, [], ◌∷◌, ◌++◌, map}
use native.Mathlib.Omega.{arith}
use pgcluster.Prelude.Tests.{if◌then◌else◌, Bool-cases}

module _ {ℓ} {A : Type ℓ} where
  abbrev pub length : List A → ℕ
  length [] = 0
  length (x ∷ xs) = suc (length xs)

  abbrev pub take : ℕ → List A → List A
  take zero xs = []
  take (suc n) [] = []
  take (suc n) (x ∷ xs) = x ∷ take n xs

  abbrev pub drop : ℕ → List A → List A
  drop zero xs = xs
  drop (suc n) [] = []
  drop (suc n) (x ∷ xs) = drop n xs

  -- `iter().filter(test)`, also `Vec::retain`.
  abbrev pub filter : (A → Bool) → List A → List A
  filter test [] = []
  filter test (x ∷ xs) = if test x then x ∷ filter test xs else filter test xs

  -- `iter().any(test)`
  abbrev pub any : (A → Bool) → List A → Bool
  any test [] = false
  any test (x ∷ xs) = if test x then true else any test xs

  pub length-append : (xs ys : List A) → length (xs ++ ys) ≡ length xs + length ys
  length-append [] ys = omega arith
  length-append (x ∷ xs) ys = omega (arith, length-append xs ys)

  pub length-drop : (n : ℕ) (xs : List A) → length (drop n xs) ≡ length xs - n
  length-drop zero xs = omega arith
  length-drop (suc n) [] = omega arith
  length-drop (suc n) (x ∷ xs) = omega (arith, length-drop n xs)

  pub length-filter-le : (test : A → Bool) (xs : List A) → length (filter test xs) ≤ length xs
  length-filter-le test [] = omega arith
  length-filter-le test (x ∷ xs) = ground (arith, length-filter-le test xs)

module _ {ℓ κ} {A : Type ℓ} where
  -- Every element satisfies `P`; the tactics read the tuple.
  abbrev pub All : (A → Type κ) → List A → Type κ
  All P [] = Unit
  All P (x ∷ xs) = P x × All P xs

module _ {A : Type 0} where
  -- `a` stands in the list, at a place that is kept.
  abbrev pub In : A → List A → Type 0
  In a [] = ⊥
  In a (x ∷ xs) = (x ≡ a) ⊎ In a xs

  pub All-In : (P : A → Type 0) (a : A) (xs : List A) → All P xs → In a xs → P a
  All-In P a [] h m = absurd m
  All-In P a (x ∷ xs) h (inl e) = subst P e h.0
  All-In P a (x ∷ xs) h (inr m) = All-In P a xs h.1 m

  pub All-of-In : (P : A → Type 0) (xs : List A) → ((a : A) → In a xs → P a) → All P xs
  All-of-In P [] h = tt
  All-of-In P (x ∷ xs) h = (h x (inl refl), All-of-In P xs (λ a m. h a (inr m)))

  In-if :
      (b : Bool) (a x : A) (xs : List A)
      → In a (if b then x ∷ xs else xs)
      → ((x ≡ a) × (b ≡ true)) ⊎ In a xs
  In-if true a x xs (inl e) = inl (e, refl)
  In-if true a x xs (inr m) = inr m
  In-if false a x xs m = inr m

  pub In-filter :
      (test : A → Bool) (a : A) (xs : List A) → In a (filter test xs) → In a xs × (test a ≡ true)
  In-filter test a [] m = absurd m
  In-filter test a (x ∷ xs) m = elim (In-if (test x) a x (filter test xs) m) [
    | inl (e, t) ↦ (inl e, ap test (sym e) ∙ t)
    | inr r ↦ let (place, t) = In-filter test a xs r in (inr place, t)
  ]

  pub In-filter-of :
      (test : A → Bool) (a : A) (xs : List A) → In a xs → test a ≡ true → In a (filter test xs)
  In-filter-of test a [] m t = absurd m
  In-filter-of test a (x ∷ xs) (inl e) t = rw (ap test e ∙ t) (inl e)
  In-filter-of test a (x ∷ xs) (inr m) t = elim (Bool-cases (test x)) [
    | inl k ↦ rw k (inr (In-filter-of test a xs m t))
    | inr f ↦ rw f (In-filter-of test a xs m t)
  ]

  pub In-append : (a : A) (xs ys : List A) → In a (xs ++ ys) → In a xs ⊎ In a ys
  In-append a [] ys m = inr m
  In-append a (x ∷ xs) ys (inl e) = inl (inl e)
  In-append a (x ∷ xs) ys (inr m) = ground (arith, In-append a xs ys m)

  pub append-In : (a : A) (xs ys : List A) → In a xs ⊎ In a ys → In a (xs ++ ys)
  append-In a [] ys (inl m) = absurd m
  append-In a [] ys (inr m) = m
  append-In a (x ∷ xs) ys (inl (inl e)) = inl e
  append-In a (x ∷ xs) ys (inl (inr m)) = inr (append-In a xs ys (inl m))
  append-In a (x ∷ xs) ys (inr m) = inr (append-In a xs ys (inr m))

  pub In-take : (n : ℕ) (a : A) (xs : List A) → In a (take n xs) → In a xs
  In-take zero a xs m = absurd m
  In-take (suc n) a [] m = m
  In-take (suc n) a (x ∷ xs) (inl e) = inl e
  In-take (suc n) a (x ∷ xs) (inr m) = inr (In-take n a xs m)

  pub In-drop : (n : ℕ) (a : A) (xs : List A) → In a (drop n xs) → In a xs
  In-drop zero a xs m = m
  In-drop (suc n) a [] m = m
  In-drop (suc n) a (x ∷ xs) m = inr (In-drop n a xs m)

  -- What is cut off is not lost from view: an element is in the part kept or in the rest.
  pub In-split : (n : ℕ) (a : A) (xs : List A) → In a xs → In a (take n xs) ⊎ In a (drop n xs)
  In-split zero a xs m = inr m
  In-split (suc n) a [] m = inl m
  In-split (suc n) a (x ∷ xs) (inl e) = inl (inl e)
  In-split (suc n) a (x ∷ xs) (inr m) = ground (arith, In-split n a xs m)

module _ {ℓ} {A : Type ℓ} where
  pub take-append-drop : (n : ℕ) (xs : List A) → take n xs ++ drop n xs ≡ xs
  take-append-drop zero xs = refl
  take-append-drop (suc n) [] = refl
  take-append-drop (suc n) (x ∷ xs) = rw (take-append-drop n xs)

  pub length-take : (n : ℕ) (xs : List A) → length (take n xs) ≡ min n (length xs)
  length-take zero xs = omega arith
  length-take (suc n) [] = omega arith
  length-take (suc n) (x ∷ xs) = omega (arith, length-take n xs)

module _ {ℓ} {A : Type ℓ} where
  -- Two filters that keep more than the list holds keep an element in common.
  pub length-filter-and :
      (p q : A → Bool) (xs : List A)
      → length (filter p xs) + length (filter q xs)
        ≤ length xs + length (filter (λ x. p x && q x) xs)
  length-filter-and p q [] = omega arith
  length-filter-and p q (x ∷ xs) = ground (arith, length-filter-and p q xs)

  pub length-filter_mono :
      (p q : A → Bool) (xs : List A)
      → ((x : A) → p x ≡ true → q x ≡ true)
      → length (filter p xs) ≤ length (filter q xs)
  length-filter_mono p q [] h = omega arith
  length-filter_mono p q (x ∷ xs) h = ground (arith, length-filter_mono p q xs h, h x)

module _ {A B : Type 0} (f : A → B) where
  pub In-map : (b : B) (xs : List A) → In b (map f xs) → (a : A) × In a xs × (f a ≡ b)
  In-map b [] m = absurd m
  In-map b (x ∷ xs) (inl e) = (x, inl refl, e)
  In-map b (x ∷ xs) (inr m) = let (a, i, e) = In-map b xs m in (a, inr i, e)

  pub map-In : (a : A) (xs : List A) → In a xs → In (f a) (map f xs)
  map-In a [] m = absurd m
  map-In a (x ∷ xs) (inl e) = inl (ap f e)
  map-In a (x ∷ xs) (inr m) = inr (map-In a xs m)

  pub length-map : (xs : List A) → length (map f xs) ≡ length xs
  length-map [] = refl
  length-map (x ∷ xs) = ap suc (length-map xs)

module _ {A : Type 0} {B : Type 0} (f : A → Option B) where
  abbrev pub keep_some : Option B → List B → List B
  keep_some none bs = bs
  keep_some (some b) bs = b ∷ bs

  -- `iter().filter_map(f)`
  abbrev pub filter_map : List A → List B
  filter_map [] = []
  filter_map (a ∷ xs) = keep_some (f a) (filter_map xs)

  In-keep_some :
      (o : Option B) (b : B) (bs : List B) → In b (keep_some o bs) → (o ≡ some b) ⊎ In b bs
  In-keep_some none b bs i = inr i
  In-keep_some (some c) b bs (inl e) = inl (ap some e)
  In-keep_some (some c) b bs (inr i) = inr i

  keep_some-In :
      (o : Option B) (b : B) (bs : List B) → (o ≡ some b) ⊎ In b bs → In b (keep_some o bs)
  keep_some-In none b bs (inl e) = cc
  keep_some-In none b bs (inr i) = i
  keep_some-In (some c) b bs (inl e) = inl (cc)
  keep_some-In (some c) b bs (inr i) = inr i

  pub In-filter_map :
      (b : B) (xs : List A) → In b (filter_map xs) → (a : A) × In a xs × (f a ≡ some b)
  In-filter_map b [] i = absurd i
  In-filter_map b (a ∷ xs) i = elim (In-keep_some (f a) b (filter_map xs) i) [
    | inl e ↦ (a, inl refl, e)
    | inr r ↦ let (c, j, e) = In-filter_map b xs r in (c, inr j, e)
  ]

  pub filter_map-In : (a : A) (b : B) (xs : List A) → In a xs → f a ≡ some b → In b (filter_map xs)
  filter_map-In a b [] i e = absurd i
  filter_map-In a b (c ∷ xs) (inl same) e =
      keep_some-In (f c) b (filter_map xs) (inl (ap f same ∙ e))
  filter_map-In a b (c ∷ xs) (inr i) e =
      keep_some-In (f c) b (filter_map xs) (inr (filter_map-In a b xs i e))
