-- ===== src/Prelude/Pigeonhole.antt =====
-- Lists without repetitions, and the pigeonhole principle.
use Prim.Native.Nat.{suc, ◌≤◌}
use mathlib.Core.Path.{◌≡◌, refl, sym, ◌∙◌, subst}
use mathlib.Core.Logic.{◌⊎◌, inl, inr}
use mathlib.Core.List.{List, [], ◌∷◌}
use native.Mathlib.Omega.{arith}
use pgcluster.Prelude.Lists.{length, In}

module _ {A : Type 0} where
  abbrev pub Distinct : List A → Type 0
  Distinct [] = Unit
  Distinct (x ∷ xs) = (In x xs → ⊥) × Distinct xs

  -- The list without the element at a place.
  del : (x : A) (xs : List A) → In x xs → List A
  del x [] m = []
  del x (y ∷ ys) (inl e) = ys
  del x (y ∷ ys) (inr m) = y ∷ del x ys m

  length-del : (x : A) (xs : List A) (m : In x xs) → suc (length (del x xs m)) ≡ length xs
  unfolding del
  length-del x [] m = absurd m
  length-del x (y ∷ ys) (inl e) = refl
  length-del x (y ∷ ys) (inr m) = omega (arith, length-del x ys m)

  In-del : (x a : A) (xs : List A) (m : In x xs) → In a xs → (x ≡ a) ⊎ In a (del x xs m)
  unfolding del
  In-del x a [] m i = absurd m
  In-del x a (y ∷ ys) (inl e) (inl f) = inl (sym e ∙ f)
  In-del x a (y ∷ ys) (inl e) (inr i) = inr i
  In-del x a (y ∷ ys) (inr m) (inl f) = inr (inl f)
  In-del x a (y ∷ ys) (inr m) (inr i) = elim (In-del x a ys m i) [
    | inl e ↦ inl e
    | inr r ↦ inr (inr r)
  ]

  -- If distinct elements all lie in a list that is no longer, then they are all that lies in it.
  pub pigeonhole :
      (xs ys : List A)
      → Distinct xs
      → ((a : A) → In a xs → In a ys)
      → length ys ≤ length xs
      → (a : A) → In a ys
      → In a xs
  pigeonhole [] [] d sub h a i = i
  pigeonhole [] (y ∷ ys) d sub h a i = absurd (omega arith)
  pigeonhole (x ∷ xs) ys d sub h a i =
      let place = sub x (inl refl) in
      let rest =
        pigeonhole xs (del x ys place) d.1
          (λ b j. elim (In-del x b ys place (sub b (inr j))) [
            | inl e ↦ absurd (d.0 (subst (λ c. In c xs) (sym e) j))
            | inr r ↦ r
          ])
          (omega (arith, length-del x ys place)) in
      elim (In-del x a ys place i) [ inl e ↦ inl e | inr r ↦ inr (rest a r) ]

  -- Distinct elements of a list are no more than the list holds.
  pub length-Distinct-le :
      (xs ys : List A) → Distinct xs → ((a : A) → In a xs → In a ys) → length xs ≤ length ys
  length-Distinct-le [] ys d sub = omega arith
  length-Distinct-le (x ∷ xs) ys d sub =
      let place = sub x (inl refl) in
      let rest = length-Distinct-le xs (del x ys place) d.1 (λ b j.
        elim (In-del x b ys place (sub b (inr j))) [
          | inl e ↦ absurd (d.0 (subst (λ c. In c xs) (sym e) j))
          | inr r ↦ r
        ]) in
      omega (arith, length-del x ys place, rest)
