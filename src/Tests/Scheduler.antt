-- ===== src/Tests/Scheduler.antt =====
-- The theorems about the admin service, on three hosts of which two share a rack.
use pgcluster.Prelude.{
  ℕ, ◌+◌, ◌-◌, ◌*◌, max, String, ◌≡◌, refl, true, false, none, some, List, [], ◌∷◌, ltb, leb,
  sort_by,
}
use pgcluster.Prelude.{insert_sorted}
use pgcluster.Admin.Scheduler.{
  Floats, SchedulerConfig, Resources, HostLoad, placed, first_of_domains, choose_hosts, port_blocks,
  allocatable, fits, minus, used, free, domain, has_room, place,
}
use pgcluster.Admin.Scheduler.Spread.{IsMeant, place-IsMeant}

-- Whole numbers, of which one part in four is a share.
abbrev whole : Floats
whole = record {
  F64 = ℕ;
  ◌+f◌ = λ a b. a + b;
  ◌-f◌ = λ a b. a - b;
  ◌*f◌ = λ a b. a * b;
  is_le = leb;
  is_lt = ltb;
  max = λ a b. max a b;
  total_le = leb;
  zero = 0;
  one = 1;
  epsilon = 0;
  lowest = 0;
}

abbrev size : ℕ → Resources whole
size n = record { vcpu = n; memory_gb = n; storage_gb = n }

abbrev config : SchedulerConfig whole
config = record {
  os_reserved_memory_gb = 1;
  page_cache_share = 0;
  storage_reserve_share = 0;
  port_base_start = 20000;
  port_base_end = 32760;
}

abbrev host : String → String → ℕ → HostLoad whole
host id rack taken = record {
  id = id;
  name = id;
  address = none;
  failure_domain = some rack;
  capacity = some (size 9);
  used_vcpu = taken;
  used_memory_gb = taken;
  used_storage_gb = taken;
  instances = 0;
  online = true;
  draining = false;
}

abbrev hosts : List (HostLoad whole)
hosts = host "a" "r1" 2 ∷ host "b" "r1" 0 ∷ host "c" "r2" 4 ∷ []

-- The emptier host of the first rack, and the one of the second.
two_racks : place whole config hosts 2 (size 3) ≡ placed (host "b" "r1" 0 ∷ host "c" "r2" 4 ∷ [])
unfolding place choose_hosts first_of_domains port_blocks allocatable fits minus used free domain
    has_room sort_by insert_sorted
two_racks = refl

place-IsMeant_example : IsMeant whole config hosts 2 (size 3) (place whole config hosts 2 (size 3))
place-IsMeant_example = place-IsMeant whole config hosts 2 (size 3)
