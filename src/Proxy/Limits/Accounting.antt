-- ===== src/Proxy/Limits/Accounting.antt =====
-- The caps hold at all times, and a client is refused only when a cap is reached.
use pgcluster.Prelude.{
  ℕ, ◌+◌, ◌≤◌, ◌<◌, ◌≡◌, refl, ◌↔◌, Bool, true, ◌&&◌, Option, none, some, List, [], ◌∷◌, ◌++◌,
  arith, ◌==◌, if◌then◌else◌, leb→le, length, filter, length-append,
}
use pgcluster.Proxy.Limits.{Limits, Admitted, with_caps, release, admit, finish, drop_admitted}

-- The limits, and the clients that are connected.
pub record Served : Type 0 where
  pub limits : Limits
  pub clients : List Admitted

abbrev pub join : Option Admitted → List Admitted → List Admitted
join none cs = cs
join (some c) cs = c ∷ cs

-- What can happen: a client connects, logs in, or leaves.
pub data Step : Served → Served → Type 0 where
  connect :
      (l : Limits) (cs : List Admitted) (address : ℕ)
      → Step
          (record { limits = l; clients = cs })
          (record { limits = (admit l address).0; clients = join (admit l address).1 cs })
  login :
      (l : Limits) (before : List Admitted) (c : Admitted) (rest : List Admitted)
      → Step
          (record { limits = l; clients = before ++ c ∷ rest })
          (record { limits = (finish l c).0; clients = before ++ (finish l c).1 ∷ rest })
  leave :
      (l : Limits) (before : List Admitted) (c : Admitted) (rest : List Admitted)
      → Step
          (record { limits = l; clients = before ++ c ∷ rest })
          (record { limits = drop_admitted l c; clients = before ++ rest })

pub data Reachable (total pending per_address : ℕ) : Served → Type 0 where
  start :
      Reachable total pending per_address
        (record { limits = with_caps total pending per_address; clients = [] })
  next :
      {s t : Served}
      → Reachable total pending per_address s
      → Step s t
      → Reachable total pending per_address t

abbrev pub is_pending : Admitted → Bool
is_pending c = c.has_permit

abbrev pub is_pending_from : ℕ → Admitted → Bool
is_pending_from address c = c.has_permit && (address == c.address)

unfoldable pub count : (Admitted → Bool) → List Admitted → ℕ
count test cs = length (filter test cs)

pub record IsAccounted (total pending per_address : ℕ) (s : Served) : Type 0 where
  pub total_sum : s.limits.total + length s.clients ≡ total
  pub pending_sum : s.limits.pending + count is_pending s.clients ≡ pending
  pub counted : (a : ℕ) → s.limits.per_address a ≡ count (is_pending_from a) s.clients
  pub capped : (a : ℕ) → s.limits.per_address a ≤ per_address
  pub cap : s.limits.per_address_max ≡ per_address

count-append :
    (test : Admitted → Bool) (cs ds : List Admitted)
    → count test (cs ++ ds) ≡ count test cs + count test ds
unfolding count
count-append test [] ds = omega arith
count-append test (c ∷ cs) ds = ground (arith, count-append test cs ds)

count-one :
    (test : Admitted → Bool) (cs : List Admitted) (c : Admitted) (ds : List Admitted)
    → count test (cs ++ c ∷ ds) ≡ count test (cs ++ ds) + (if test c then 1 else 0)
unfolding count
count-one test cs c ds = ground (arith, count-append test cs (c ∷ ds), count-append test cs ds)

module _ (total pending per_address : ℕ) where
  start-IsAccounted :
      IsAccounted total pending per_address
        (record { limits = with_caps total pending per_address; clients = [] })
  unfolding with_caps count
  start-IsAccounted = record {
    total_sum = omega arith;
    pending_sum = omega arith;
    counted = λ a. refl;
    capped = λ a. omega arith;
    cap = refl;
  }

  connect-IsAccounted :
      (l : Limits) (cs : List Admitted) (address : ℕ)
      → IsAccounted total pending per_address (record { limits = l; clients = cs })
      → IsAccounted total pending per_address
          (record { limits = (admit l address).0; clients = join (admit l address).1 cs })
  unfolding admit count release
  connect-IsAccounted l cs address ok = record {
    total_sum = ground (arith, ok.total_sum);
    pending_sum = ground (arith, ok.pending_sum);
    counted = λ a. ground (arith, ok.counted a, ok.counted address);
    capped = λ a. ground (arith, ok.capped a, ok.cap, leb→le per_address (l.per_address address));
    cap = ground (arith, ok.cap);
  }

  login-IsAccounted :
      (l : Limits) (before : List Admitted) (c : Admitted) (rest : List Admitted)
      → IsAccounted total pending per_address (record { limits = l; clients = before ++ c ∷ rest })
      → IsAccounted total pending per_address
          (record { limits = (finish l c).0; clients = before ++ (finish l c).1 ∷ rest })
  unfolding finish release
  login-IsAccounted l before c rest ok = record {
    total_sum = ground (
      arith,
      ok.total_sum,
      length-append before (c ∷ rest),
      length-append before ((finish l c).1 ∷ rest),
    );
    pending_sum = ground (
      arith,
      ok.pending_sum,
      count-one is_pending before c rest,
      count-one is_pending before (finish l c).1 rest,
    );
    counted = λ a. ground (
      arith,
      ok.counted a,
      ok.counted c.address,
      count-one (is_pending_from a) before c rest,
      count-one (is_pending_from a) before (finish l c).1 rest,
    );
    capped = λ a. ground (arith, ok.capped a);
    cap = ground (arith, ok.cap);
  }

  leave-IsAccounted :
      (l : Limits) (before : List Admitted) (c : Admitted) (rest : List Admitted)
      → IsAccounted total pending per_address (record { limits = l; clients = before ++ c ∷ rest })
      → IsAccounted total pending per_address
          (record { limits = drop_admitted l c; clients = before ++ rest })
  unfolding drop_admitted finish release
  leave-IsAccounted l before c rest ok = record {
    total_sum =
        ground (arith, ok.total_sum, length-append before (c ∷ rest), length-append before rest);
    pending_sum = ground (arith, ok.pending_sum, count-one is_pending before c rest);
    counted = λ a. ground (
      arith,
      ok.counted a,
      ok.counted c.address,
      count-one (is_pending_from a) before c rest,
      count-one (is_pending_from c.address) before c rest,
    );
    capped = λ a. ground (arith, ok.capped a, ok.capped c.address);
    cap = ground (arith, ok.cap);
  }

  step-IsAccounted :
      {s t : Served}
      → IsAccounted total pending per_address s
      → Step s t
      → IsAccounted total pending per_address t
  step-IsAccounted ok (connect l cs address) = connect-IsAccounted l cs address ok
  step-IsAccounted ok (login l before c rest) = login-IsAccounted l before c rest ok
  step-IsAccounted ok (leave l before c rest) = leave-IsAccounted l before c rest ok

  -- After any sequence in which clients connect, log in and leave, the free permits and the clients
  -- add up to the caps, the counter of each address is the number of its pending logins, and no
  -- counter exceeds the cap per address.
  pub Reachable-IsAccounted :
      {s : Served} → Reachable total pending per_address s → IsAccounted total pending per_address s
  Reachable-IsAccounted start = start-IsAccounted
  Reachable-IsAccounted (next r step) = step-IsAccounted (Reachable-IsAccounted r) step

  -- After any sequence in which clients connect, log in and leave, a client is admitted exactly if
  -- no cap is reached: on the clients, on the pending logins, and on the pending logins from its
  -- address.
  pub admit_iff :
      (s : Served) (address : ℕ)
      → Reachable total pending per_address s
      → ((c : Admitted) × ((admit s.limits address).1 ≡ some c)) ↔ (
          (length s.clients < total)
          × (count is_pending s.clients < pending)
          × (count (is_pending_from address) s.clients < per_address))
  unfolding admit
  admit_iff s address r =
      let ok = Reachable-IsAccounted r in
      let sum = ok.total_sum in
      let logins = ok.pending_sum in
      let here = ok.counted address in
      let bound = ok.cap in (λ (c, h). ground arith, λ h. admitted h sum logins here bound)
    where
      fresh : Admitted
      fresh = record { address = address; has_permit = true }

      admitted :
          (length s.clients < total)
            × (count is_pending s.clients < pending)
            × (count (is_pending_from address) s.clients < per_address)
          → s.limits.total + length s.clients ≡ total
          → s.limits.pending + count is_pending s.clients ≡ pending
          → s.limits.per_address address ≡ count (is_pending_from address) s.clients
          → s.limits.per_address_max ≡ per_address
          → (c : Admitted) × ((admit s.limits address).1 ≡ some c)
      admitted h sum logins here bound = (fresh, ground arith)

-- If a client is refused, then the permits that are left and the counter of every address are as
-- before.
pub refused_holds_nothing :
    (l : Limits) (address : ℕ)
    → (admit l address).1 ≡ none
    → ((admit l address).0.total ≡ l.total)
      × ((admit l address).0.pending ≡ l.pending)
      × ((a : ℕ) → (admit l address).0.per_address a ≡ l.per_address a)
unfolding admit release
refused_holds_nothing l address h = (ground arith, ground arith, λ a. ground arith)
