-- ===== src/Admin/Scheduler/Spread.antt =====
-- The hosts that `place` chooses are what was asked for: pgcluster-admin/src/scheduler.rs and
-- `choose_hosts` of model.rs.
use pgcluster.Prelude.{
  ℕ, zero, suc, ◌≤◌, String, ◌≡◌, refl, sym, ap, subst, ◌⊎◌, inl, inr, Bool, true, false, none,
  some, List, [], ◌∷◌, map, arith, str_eq, eq_iff, ◌==◌, if◌then◌else◌, Bool-cases, if-case, length,
  take, filter, any, All, In, All-In, All-of-In, In-filter, In-filter-of, sort_by, In-sort_by,
  sort_by-In, In-take, length-take, Distinct, length-Distinct-le, In-map, map-In, length-map,
}
use pgcluster.Admin.Scheduler.{
  Floats, SchedulerConfig, Resources, HostLoad, Placement, placed, too_few_hosts, no_room,
  first_of_domains, choose_hosts, domain, has_room, place, more_memory,
}

module _ {A : Type 0} where
  In-either :
      (b : Bool) (a : A) (xs ys : List A)
      → In a (if b then xs else ys)
      → ((b ≡ true) × In a xs) ⊎ ((b ≡ false) × In a ys)
  In-either true a xs ys m = inl (refl, m)
  In-either false a xs ys m = inr (refl, m)

module _ {A : Type 0} (domain : A → String) where
  -- `count` of the candidates, each in a domain of its own.
  abbrev pub IsSpread : List A → ℕ → List A → Type 0
  IsSpread candidates count picked =
      All (λ h. In h candidates) picked × Distinct (map domain picked) × (length picked ≡ count)

  abbrev is_used : List String → A → Bool
  is_used used h = any (λ d. str_eq d (domain h)) used

  -- A domain that is not among one more used domain is another one.
  not_used :
      (d : String) (used : List String) (a : A)
      → is_used (d ∷ used) a ≡ false
      → (d ≡ domain a → ⊥) × (is_used used a ≡ false)
  not_used d used a f = elim (Bool-cases (str_eq d (domain a))) [
    | inl k ↦ absurd (ground (arith, k, f))
    | inr g ↦ (λ e. ground (arith, g, eq_iff d (domain a), e), ground (arith, g, f))
  ]

  first_of_domains-In :
      (a : A) (used : List String) (hs : List A)
      → In a (first_of_domains domain used hs)
      → In a hs × (is_used used a ≡ false)
  unfolding first_of_domains
  first_of_domains-In a used [] m = absurd m
  first_of_domains-In a used (h ∷ hs) m = elim (In-either (is_used used h) a _ _ m) [
    | inl (k, i) ↦ let (place, f) = first_of_domains-In a used hs i in (inr place, f)
    | inr (n, inl e) ↦ (inl e, subst (λ x. is_used used x ≡ false) e n)
    | inr (n, inr i) ↦
        let (place, f) = first_of_domains-In a (domain h ∷ used) hs i in
        (inr place, (not_used (domain h) used a f).1)
  ]

  Distinct-first_of_domains :
      (used : List String) (hs : List A) → Distinct (map domain (first_of_domains domain used hs))
  unfolding first_of_domains
  Distinct-first_of_domains used [] = tt
  Distinct-first_of_domains used (h ∷ hs) =
      if-case (λ xs. Distinct (map domain xs)) (is_used used h) _ _
        (Distinct-first_of_domains used hs)
        (
          λ m.
              let (b, i, e) = In-map domain (domain h) _ m in
              (not_used (domain h) used b (first_of_domains-In b (domain h ∷ used) hs i).1).0
                (sym e),
          Distinct-first_of_domains (domain h ∷ used) hs,
        )

  -- Each domain of the candidates was used before or is that of a chosen host.
  first_of_domains-all :
      (a : A) (used : List String) (hs : List A)
      → In a hs
      → (is_used used a ≡ true) ⊎ In (domain a) (map domain (first_of_domains domain used hs))
  unfolding first_of_domains
  first_of_domains-all a used [] m = absurd m
  first_of_domains-all a used (h ∷ hs) (inl e) = elim (Bool-cases (is_used used h)) [
    | inl k ↦ inl (subst (λ x. is_used used x ≡ true) e k)
    | inr f ↦ inr (rw f (inl (ap domain e)))
  ]
  first_of_domains-all a used (h ∷ hs) (inr m) = elim (Bool-cases (is_used used h)) [
    | inl k ↦ rw k (first_of_domains-all a used hs m)
    | inr f ↦ elim (first_of_domains-all a (domain h ∷ used) hs m) [
      | inr i ↦ inr (rw f (inr i))
      | inl k ↦ elim (Bool-cases (str_eq (domain h) (domain a))) [
        | inl same ↦ inr (rw f (inl (ground (arith, same, eq_iff (domain h) (domain a)))))
        | inr other ↦ inl (ground (arith, k, other))
      ]
    ]
  ]

  Distinct-take :
      (n : ℕ) (hs : List A) → Distinct (map domain hs) → Distinct (map domain (take n hs))
  Distinct-take zero hs d = tt
  Distinct-take (suc n) [] d = tt
  Distinct-take (suc n) (h ∷ hs) d = (
    λ m.
        let (b, i, e) = In-map domain (domain h) _ m in
        d.0 (subst (λ x. In x (map domain hs)) e (map-In domain b hs (In-take n b hs i))),
    Distinct-take n hs d.1,
  )

  Distinct-chosen :
      (cs : List A) (n : ℕ)
      → n ≤ length (first_of_domains domain [] cs)
      → IsSpread cs n (take n (first_of_domains domain [] cs))
  Distinct-chosen cs n le =
      let firsts = first_of_domains domain [] cs in
      (
        All-of-In (λ h. In h cs) (take n firsts)
            (λ a m. (first_of_domains-In a [] cs (In-take n a firsts m)).0),
        Distinct-take n firsts (Distinct-first_of_domains [] cs),
        omega (arith, length-take n firsts, le),
      )

  -- No spread of candidates has more hosts than the first of each domain.
  spread_bound :
      (cs : List A) (n : ℕ) (picked : List A)
      → IsSpread cs n picked
      → n ≤ length (first_of_domains domain [] cs)
  spread_bound cs n picked s =
      let firsts = first_of_domains domain [] cs in
      let bound = length-Distinct-le (map domain picked) (map domain firsts) s.1 (λ d m.
        let (h, i, e) = In-map domain d picked m in
        elim (first_of_domains-all h [] cs (All-In (λ x. In x cs) h picked s.0 i)) [
          | inl k ↦ ground (arith, k)
          | inr j ↦ subst (λ x. In x (map domain firsts)) e j
        ]) in
      omega (arith, bound, length-map domain picked, length-map domain firsts, s.2)

  -- What `choose_hosts` has chosen is a spread, and it chooses whenever there is one.
  pub choose_hosts-cases :
      (cs : List A) (n : ℕ)
      → ((chosen : List A) × (choose_hosts domain cs n ≡ some chosen) × IsSpread cs n chosen)
        ⊎ ((choose_hosts domain cs n ≡ none) × ((picked : List A) → IsSpread cs n picked → ⊥))
  unfolding choose_hosts
  choose_hosts-cases cs n =
      let firsts = first_of_domains domain [] cs in
      elim (Bool-cases (length (take n firsts) == n)) [
        | inl k ↦
            let le : n ≤ length firsts = ground (arith, k, length-take n firsts) in
            inl (take n firsts, rw k refl, Distinct-chosen cs n le)
        | inr f ↦ inr (
          rw f refl,
          λ picked s. ground (arith, f, length-take n firsts, spread_bound cs n picked s),
        )
      ]

module _ (F : Floats) where
  -- What a placement says of the hosts: those placed have room and a domain each; or there are
  -- hosts in enough domains, but not with room; or there are not.
  abbrev pub IsMeant :
      SchedulerConfig F → List (HostLoad F) → ℕ → Resources F → Placement F → Type 0
  IsMeant c hosts count request (placed chosen) =
      IsSpread (domain F) hosts count chosen × All (λ h. has_room F c request h ≡ true) chosen
  IsMeant c hosts count request no_room =
      ((picked : List (HostLoad F)) × IsSpread (domain F) hosts count picked)
      × ¬ (
          (picked : List (HostLoad F)) × IsSpread (domain F) hosts count picked
          × All (λ h. has_room F c request h ≡ true) picked)
  IsMeant c hosts count request too_few_hosts =
      ¬ ((picked : List (HostLoad F)) × IsSpread (domain F) hosts count picked)

  weaken-IsSpread :
      (xs ys : List (HostLoad F)) (n : ℕ) (p : List (HostLoad F))
      → ((h : HostLoad F) → In h p → In h xs → In h ys)
      → IsSpread (domain F) xs n p
      → IsSpread (domain F) ys n p
  weaken-IsSpread xs ys n p sub s =
      (All-of-In (λ h. In h ys) p (λ h i. sub h i (All-In (λ x. In x xs) h p s.0 i)), s.1, s.2)

  -- Every placement means what it says: the hosts placed are among those given, as many as asked
  -- for, in separate failure domains, and each with room; hosts are placed whenever such hosts
  -- exist; without them, `no_room` says that there are hosts in enough domains, and `too_few_hosts`
  -- that there are not.
  pub place-IsMeant :
      (c : SchedulerConfig F) (hosts : List (HostLoad F)) (count : ℕ) (request : Resources F)
      → IsMeant c hosts count request (place F c hosts count request)
  unfolding place
  place-IsMeant c hosts count request =
      let le = more_memory F c in
      let by_free = sort_by le hosts in
      let ok = has_room F c request in
      let roomy = filter ok by_free in
      elim (choose_hosts-cases (domain F) roomy count) [
        | inl (chosen, e, s) ↦
            let m : (h : HostLoad F) → In h chosen → In h by_free × (ok h ≡ true) =
              λ h i. In-filter ok h by_free (All-In (λ x. In x roomy) h chosen s.0 i) in
            rw (e, place)
              (
                weaken-IsSpread roomy hosts count chosen (λ h i j. In-sort_by le h hosts (m h i).0)
                    s,
                All-of-In (λ h. ok h ≡ true) chosen (λ h i. (m h i).1),
              )
        | inr (e, none_roomy) ↦ elim (choose_hosts-cases (domain F) by_free count) [
          | inl (picked, e2, s) ↦
              rw (e, place)
                (rw (e2, place)
                  (
                    (
                      picked,
                      weaken-IsSpread by_free hosts count picked (λ h i. In-sort_by le h hosts) s,
                    ),
                    λ (p, s, room). none_roomy p (
                        weaken-IsSpread hosts roomy count p
                          (λ h i j.
                            In-filter-of ok h by_free (sort_by-In le h hosts j)
                              (All-In (λ x. ok x ≡ true) h p room i))
                          s),
                  ))
          | inr (e2, none_at_all) ↦
              rw (e, place)
                (rw (e2, place)
                  (λ (p, s).
                    none_at_all p
                      (weaken-IsSpread hosts by_free count p (λ h i. sort_by-In le h hosts) s)))
        ]
      ]
