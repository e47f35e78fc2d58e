-- ===== src/Dict.antt =====
-- `std::collections::HashMap` with string keys, as an association list: what the program reads,
-- writes and iterates over. The order of the entries stands for the unspecified iteration order.
use pgcluster.Prelude.{
  String, ◌≡◌, refl, inl, inr, Bool, false, Option, none, some, List, [], ◌∷◌, arith, In,
  if◌then◌else◌, is_some, unwrap_or, Bool-cases, str_eq, eq_iff,
}

abbrev pub Dict : Type 0 → Type 0
Dict V = List (String × V)

module _ {V : Type 0} where
  -- m.get(k)
  abbrev pub get : Dict V → String → Option V
  get [] k = none
  get ((j, v) ∷ m) k = if str_eq j k then some v else get m k

  -- m.insert(k, v)
  abbrev pub insert : Dict V → String → V → Dict V
  insert [] k v = (k, v) ∷ []
  insert ((j, w) ∷ m) k v = if str_eq j k then (j, v) ∷ m else (j, w) ∷ insert m k v

  -- m.remove(k)
  abbrev pub remove : Dict V → String → Dict V
  remove [] k = []
  remove ((j, w) ∷ m) k = if str_eq j k then remove m k else (j, w) ∷ remove m k

  -- m.entry(k).or_insert(v)
  abbrev pub or_insert : Dict V → String → V → Dict V
  or_insert m k v = if is_some (get m k) then m else insert m k v

  abbrev pub contains_key : Dict V → String → Bool
  contains_key m k = is_some (get m k)

  -- The keys differ, as a hash map's do.
  abbrev pub IsMap : Dict V → Type 0
  IsMap [] = Unit
  IsMap ((j, v) ∷ m) = (get m j ≡ none) × IsMap m

  pub get-insert :
      (m : Dict V) (k j : String) (v : V)
      → get (insert m k v) j ≡ (if str_eq k j then some v else get m j)
  get-insert [] k j v = refl
  get-insert ((i, w) ∷ m) k j v =
      ground (arith, eq_iff k j, eq_iff i k, eq_iff i j, get-insert m k j v)

  pub get-remove :
      (m : Dict V) (k j : String) → get (remove m k) j ≡ (if str_eq k j then none else get m j)
  get-remove [] k j = ground arith
  get-remove ((i, w) ∷ m) k j = ground (arith, eq_iff k j, eq_iff i k, eq_iff i j, get-remove m k j)

  pub get-or_insert :
      (m : Dict V) (k j : String) (v : V)
      → get (or_insert m k v) j ≡ (if str_eq k j then some (unwrap_or (get m k) v) else get m j)
  get-or_insert m k j v = ground (arith, eq_iff k j, get-insert m k j v)

  pub insert-IsMap : (m : Dict V) (k : String) (v : V) → IsMap m → IsMap (insert m k v)
  insert-IsMap [] k v h = (refl, tt)
  insert-IsMap ((j, w) ∷ m) k v h =
      ground (arith, eq_iff j k, eq_iff k j, get-insert m k j v, insert-IsMap m k v h.1)

  pub remove-IsMap : (m : Dict V) (k : String) → IsMap m → IsMap (remove m k)
  remove-IsMap [] k h = tt
  remove-IsMap ((j, w) ∷ m) k h = ground (arith, eq_iff k j, get-remove m k j, remove-IsMap m k h.1)

  pub or_insert-IsMap : (m : Dict V) (k : String) (v : V) → IsMap m → IsMap (or_insert m k v)
  or_insert-IsMap m k v h = ground (arith, insert-IsMap m k v h)

  -- A lookup finds an entry that iteration meets, and the other way round.
  pub In-get : (m : Dict V) (k : String) (v : V) → get m k ≡ some v → In (k, v) m
  In-get [] k v h = ground arith
  In-get ((j, w) ∷ m) k v h = elim (Bool-cases (str_eq j k)) [
    | inl e ↦ inl (ground (arith, eq_iff j k))
    | inr e ↦ inr (In-get m k v (ground arith))
  ]

  get_tail :
      (m : Dict V) (j k : String) (v : V) → get m j ≡ none → get m k ≡ some v → str_eq j k ≡ false
  get_tail m j k v h g = ground (arith, eq_iff j k)

  pub get-In : (m : Dict V) (k : String) (v : V) → IsMap m → In (k, v) m → get m k ≡ some v
  get-In [] k v h i = absurd i
  get-In ((j, w) ∷ m) k v h (inl e) = ground (arith, eq_iff j k)
  get-In ((j, w) ∷ m) k v h (inr i) = let g = get-In m k v h.1 i in ground (arith, get_tail m j k v)
