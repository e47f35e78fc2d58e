-- ===== src/Raft/Storage/Removal.antt =====
-- Removing the keys of a range, as pgcluster/src/raft/storage.rs does it.
use pgcluster.Prelude.{
  ◌≡◌, refl, ap, ◌∙◌, inl, inr, Bool, true, none, some, List, [], ◌∷◌, map, arith, if◌then◌else◌,
  Bool-cases, Option-cases, filter, any, In, In-filter, In-filter-of, In-map, map-In,
}
use pgcluster.Raft.Storage.Keys.{Bytes, bytes_eq, bytes_eq-true, bytes_eq_refl}
use pgcluster.Raft.Storage.Database.{Sled, IsSled, IsHealthy, Pair, Bound, inside, find, find-In}
use pgcluster.Raft.Storage.{Codec, Store, done, ok_keys, remove_all}

-- Iteration and removal of the keys of a range.
module _ (S : Sled) (C : Codec) (D : IsSled S) where
  abbrev pub has_key : Bytes → List Bytes → Bool
  has_key j ks = any (λ k. bytes_eq k j) ks

  pub remove_all-healthy :
      IsHealthy S
      → (ks : List Bytes) (s : Store S C)
      → (t : S.Tree) × (remove_all S C ks s ≡ (done tt, record s { logs = t }))
        × ((j : Bytes)
            → find j (S.pairs t) ≡ (if has_key j ks then none else find j (S.pairs s.logs)))
  unfolding remove_all
  remove_all-healthy H [] s = (s.logs, refl, λ j. refl)
  remove_all-healthy H (k ∷ ks) s = elim (Option-cases (S.remove s.logs k)) [
    | inl e ↦ absurd (H.removes s.logs k e)
    | inr (u, e) ↦
        let (t, run, finds) = remove_all-healthy H ks (record s { logs = u }) in
        (t, ground (arith, run), λ j. ground (arith, finds j, D.remove_writes s.logs u k e j))
  ]

  ok_keys-some : (ps : List Pair) → ok_keys S C (map some ps) ≡ map (λ p. p.0) ps
  ok_keys-some [] = refl
  ok_keys-some (p ∷ ps) = ap (λ ks. p.0 ∷ ks) (ok_keys-some ps)

  has_key-In : (j : Bytes) (ks : List Bytes) → In j ks → has_key j ks ≡ true
  has_key-In j [] i = absurd i
  has_key-In j (k ∷ ks) (inl e) = ground (arith, bytes_eq_refl j)
  has_key-In j (k ∷ ks) (inr i) = ground (arith, has_key-In j ks i)

  In-has_key : (j : Bytes) (ks : List Bytes) → has_key j ks ≡ true → In j ks
  In-has_key j [] h = ground arith
  In-has_key j (k ∷ ks) h = elim (Bool-cases (bytes_eq k j)) [
    | inl e ↦ inl (bytes_eq-true k j e)
    | inr e ↦ inr (In-has_key j ks (ground arith))
  ]

  range_cleared :
      (low high : Bound Bytes) (ps : List Pair) (j : Bytes)
      → (if has_key j (map (λ p. p.0) (filter (inside low high) ps)) then none else find j ps)
        ≡ (if inside low high (j, []) then none else find j ps)
  range_cleared low high ps j =
      let keys = map (λ p. p.0) (filter (inside low high) ps) in
      elim (Bool-cases (inside low high (j, []))) [
        | inl e ↦ elim (Option-cases (find j ps)) [
          | inl missing ↦ ground arith
          | inr (v, there) ↦
              let place = In-filter-of (inside low high) (j, v) ps (find-In j v ps there) e in
              let kept =
                has_key-In j keys (map-In (λ p. p.0) (j, v) (filter (inside low high) ps) place) in
              ground arith
        ]
        | inr e ↦ elim (Bool-cases (has_key j keys)) [
          | inl there ↦
              let (p, place, same) =
                In-map (λ p. p.0) j (filter (inside low high) ps) (In-has_key j keys there) in
              let (i, yes_inside) = In-filter (inside low high) p ps place in ground arith
          | inr missing ↦ ground arith
        ]
      ]

  -- On a database without faults, the removal of the keys of a range clears that range.
  pub range_removed :
      IsHealthy S
      → (low high : Bound Bytes) (s : Store S C)
      → (t : S.Tree) × (remove_all S C (ok_keys S C (S.range s.logs low high)) s
          ≡ (done tt, record s { logs = t }))
        × ((j : Bytes)
            → find j (S.pairs t)
              ≡ (if inside low high (j, []) then none else find j (S.pairs s.logs)))
  range_removed H low high s =
      let ps = S.pairs s.logs in
      let keys =
        ap (ok_keys S C) (H.ranges s.logs low high) ∙ ok_keys-some (filter (inside low high) ps) in
      let (t, run, finds) = remove_all-healthy H (map (λ p. p.0) (filter (inside low high) ps)) s in
      (t, ap (λ ks. remove_all S C ks s) keys ∙ run, λ j. finds j ∙ range_cleared low high ps j)
