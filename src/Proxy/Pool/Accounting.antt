-- ===== src/Proxy/Pool/Accounting.antt =====
-- What the counter of a bucket counts, and which connections are handed out.
use pgcluster.Prelude.{
  ℕ, suc, ◌+◌, ◌-◌, ◌≤◌, max, ◌≡◌, refl, sym, ap, subst, ◌∙◌, ◌⊎◌, inl, inr, true, false, Option,
  none, some, List, [], ◌∷◌, arith, leb, Bool-cases, length, All, In,
}
use pgcluster.Proxy.Pool.{
  Connection, Bucket, new_bucket, increment, decrement, take_idle, acquire_idle, release, drop_last,
  inject, drain_bucket, evict_idle,
}

-- A bucket, the connections in use, and those that are being opened in a reserved slot.
pub record Pooled : Type 0 where
  pub bucket : Bucket
  pub borrowed : ℕ
  pub opening : ℕ

abbrev pub pooled : Bucket → ℕ → ℕ → Pooled
pooled b borrowed opening = record { bucket = b; borrowed = borrowed; opening = opening }

-- The steps of all sessions, in any order. A session may reserve a slot when it has seen room
-- before, whatever happened since.
pub data Step : Pooled → Pooled → Type 0 where
  take_one :
      (b d : Bucket) (c : Connection) (n m : ℕ)
      → acquire_idle b ≡ (d, some c)
      → Step (pooled b n m) (pooled d (suc n) m)
  find_none :
      (b d : Bucket) (n m : ℕ) → acquire_idle b ≡ (d, none) → Step (pooled b n m) (pooled d n m)
  reserve : (b : Bucket) (n m : ℕ) → Step (pooled b n m) (pooled (increment b) n (suc m))
  open_done : (b : Bucket) (n m : ℕ) → Step (pooled b n (suc m)) (pooled b (suc n) m)
  open_failed : (b : Bucket) (n m : ℕ) → Step (pooled b n (suc m)) (pooled (decrement b) n m)
  give_back :
      (b : Bucket) (c : Connection) (now n m : ℕ)
      → Step (pooled b (suc n) m) (pooled (release b c now) n m)
  donate :
      (b d : Bucket) (c : Connection) (now n m : ℕ)
      → inject b c now ≡ some d
      → Step (pooled b n m) (pooled d n m)
  drain : (b : Bucket) (n m : ℕ) → Step (pooled b n m) (pooled (drain_bucket b) n m)
  evict :
      (b : Bucket) (now timeout n m : ℕ)
      → Step (pooled b n m) (pooled (evict_idle b now timeout) n m)

pub data Reachable (max : ℕ) : Pooled → Type 0 where
  start : Reachable max (pooled (new_bucket max) 0 0)
  next : {s t : Pooled} → Reachable max s → Step s t → Reachable max t

unfoldable pub IsCounted : ℕ → Pooled → Type 0
IsCounted max s =
    (s.bucket.total ≡ length s.bucket.idle + s.borrowed + s.opening) × (s.bucket.max ≡ max)

length-drop_last : (c : Connection) (cs : List Connection) → length (drop_last (c ∷ cs)) ≡ length cs
length-drop_last c [] = refl
length-drop_last c (d ∷ cs) = ap suc (length-drop_last d cs)

length-drop_last-pred :
    (cs : List Connection) → (length cs ≡ 0) ⊎ (suc (length (drop_last cs)) ≡ length cs)
length-drop_last-pred [] = inl refl
length-drop_last-pred (c ∷ cs) = inr (ap suc (length-drop_last c cs))

take_idle-some :
    (cs : List Connection) (total max : ℕ) (d : Bucket) (c : Connection)
    → take_idle cs total max ≡ (d, some c)
    → (c.alive ≡ true) × In c cs
unfolding take_idle
take_idle-some [] total max d c e = absurd (ground arith)
take_idle-some (x ∷ cs) total max d c e = elim (Bool-cases x.alive) [
  | inl live ↦ let same : x ≡ c = ground arith in (subst (λ y. y.alive ≡ true) same live, inl same)
  | inr dead ↦ let (live, i) = take_idle-some cs (total - 1) max d c (ground arith) in (live, inr i)
]

take_idle-none :
    (cs : List Connection) (total max : ℕ) (d : Bucket)
    → take_idle cs total max ≡ (d, none)
    → (d.idle ≡ []) × All (λ c. c.alive ≡ false) cs
unfolding take_idle
take_idle-none [] total max d e = (sym (ap (λ r. r.0.idle) e), tt)
take_idle-none (x ∷ cs) total max d e = elim (Bool-cases x.alive) [
  | inl live ↦ absurd (ground arith)
  | inr dead ↦
      let (empty, rest) = take_idle-none cs (total - 1) max d (ground arith) in
      (empty, (dead, rest))
]

-- A connection that the fast path hands out is alive and was idle; if it hands out none, then every
-- idle connection was dead and all of them have been discarded.
pub acquire_idle-alive :
    (b d : Bucket) (o : Option Connection)
    → acquire_idle b ≡ (d, o)
    → ((c : Connection) → o ≡ some c → (c.alive ≡ true) × In c b.idle)
      × (o ≡ none → (d.idle ≡ []) × All (λ c. c.alive ≡ false) b.idle)
unfolding acquire_idle
acquire_idle-alive b d o e = (
  λ c came. take_idle-some b.idle b.total b.max d c (e ∙ ap (λ x. (d, x)) came),
  λ nothing. take_idle-none b.idle b.total b.max d (e ∙ ap (λ x. (d, x)) nothing),
)

-- If a bucket has a limit of one connection or more and its idle connections are within it, then it
-- takes a donated connection, which is idle afterwards with a fresh time of use, and its idle
-- connections are still within the limit.
pub inject-bounded :
    (b : Bucket) (c : Connection) (now : ℕ)
    → 1 ≤ b.max
    → length b.idle ≤ b.max
    → (d : Bucket) × (inject b c now ≡ some d)
      × (length d.idle ≤ b.max)
      × In (record c { touched = now }) d.idle
unfolding inject increment decrement
inject-bounded b c now some_room bound =
    let fresh : Connection = record c { touched = now } in
    elim (Bool-cases (leb b.max (length b.idle))) [
      | inl full ↦
          let result : Bucket = record (decrement (increment b)) {
            idle = fresh ∷ drop_last b.idle;
          } in
          (result, ground arith, ground (arith, length-drop_last-pred b.idle), inl refl)
      | inr free ↦
          let result : Bucket = record (increment b) { idle = fresh ∷ b.idle } in
          (result, ground arith, ground arith, inl refl)
    ]
