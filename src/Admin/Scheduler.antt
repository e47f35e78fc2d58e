-- ===== src/Admin/Scheduler.antt =====
-- The choice of hosts for the nodes of a database: pgcluster-admin/src/scheduler.rs, and
-- `choose_hosts` of model.rs. The texts of the refusals are left out.
pub mod Spread
use pgcluster.Prelude.{
  ℕ, zero, suc, ◌+◌, ◌-◌, ◌*◌, ◌/◌, ◌%◌, ◌^◌, ◌≤◌, ◌<◌, min, max, String, ◌≡◌, refl, sym, ap, subst,
  ◌∙◌, ◌≢◌, ◌↔◌, ◌⊎◌, inl, inr, Bool, true, false, not, ◌&&◌, ◌||◌, Option, none, some, List, [],
  ◌∷◌, ◌++◌, map, arith, str_eq, eq_iff, ltb, leb, ◌==◌, if◌then◌else◌, ltb→lt, lt→ltb, leb→le,
  le→leb, Bool-cases, Option-cases, is_some, unwrap_or, if-case, if-case_when, length, take, drop,
  filter, any, length-append, length-drop, length-filter-le, All, In, All-In, All-of-In, In-filter,
  In-filter-of, is_empty, sort_by, sort_by-IsSorted, In-sort_by, sort_by-In, IsSorted,
  length-sort_by, max_by, min_by, max_by-IsMax, max_by-In, min_by-IsMin, min_by-In, max_by-none,
  min_by-none, In-append, append-In, In-take, In-drop, In-split, take-append-drop, length-take,
  take-IsSorted, filter-IsSorted, take-le-drop, length-filter-and, length-filter_mono, Distinct,
  pigeonhole, length-Distinct-le, In-map, map-In, length-map, filter_map, In-filter_map,
  filter_map-In,
}

-- What is used of `f64`, and its constants here; `is_le` is `<=`, and `total_le` the order of
-- `total_cmp`.
pub record Floats : Type 1 where
  pub F64 : Type 0
  pub ◌+f◌ : F64 → F64 → F64
  pub ◌-f◌ : F64 → F64 → F64
  pub ◌*f◌ : F64 → F64 → F64
  pub is_le : F64 → F64 → Bool
  pub is_lt : F64 → F64 → Bool
  pub max : F64 → F64 → F64
  pub total_le : F64 → F64 → Bool
  pub zero : F64
  pub one : F64
  -- `EPSILON`
  pub epsilon : F64
  -- `f64::MIN`
  pub lowest : F64

-- `PORT_BLOCK`
abbrev pub port_block : ℕ
port_block = 10

-- `choose_hosts`, and the domains that were used.
module _ {A : Type 0} (domain : A → String) where
  unfoldable pub first_of_domains : List String → List A → List A
  first_of_domains used [] = []
  first_of_domains used (h ∷ hs) =
      let fresh = first_of_domains (domain h ∷ used) hs in
      let rest = first_of_domains used hs in
      if any (λ d. str_eq d (domain h)) used then rest else h ∷ fresh

  unfoldable pub choose_hosts : List A → ℕ → Option (List A)
  unfolding first_of_domains
  choose_hosts candidates count =
      let chosen = take count (first_of_domains [] candidates) in
      if length chosen == count then some chosen else none

module _ (F : Floats) where
  pub record Resources : Type 0 where
    pub vcpu : F.F64
    pub memory_gb : F.F64
    pub storage_gb : F.F64

  -- The ports are `i32`s, which the checks keep positive.
  pub record SchedulerConfig : Type 0 where
    pub os_reserved_memory_gb : F.F64
    pub page_cache_share : F.F64
    pub storage_reserve_share : F.F64
    pub port_base_start : ℕ
    pub port_base_end : ℕ

  pub record HostLoad : Type 0 where
    pub id : String
    pub name : String
    pub address : Option String
    pub failure_domain : Option String
    pub capacity : Option Resources
    pub used_vcpu : F.F64
    pub used_memory_gb : F.F64
    pub used_storage_gb : F.F64
    pub instances : ℕ
    pub online : Bool
    pub draining : Bool

  -- `(0.0..1.0).contains(share)`
  abbrev pub is_share : F.F64 → Bool
  is_share x = F.is_le F.zero x && F.is_lt x F.one

  -- Whether `SchedulerConfig::validate` accepts it.
  unfoldable pub is_accepted : SchedulerConfig → Bool
  is_accepted c =
      is_share c.page_cache_share
      && is_share c.storage_reserve_share
      && not (F.is_lt c.os_reserved_memory_gb F.zero)
      && not (
          ltb c.port_base_start 1024
          || ltb c.port_base_end c.port_base_start
          || ltb (65535 - port_block) c.port_base_end)

  unfoldable pub port_blocks : SchedulerConfig → ℕ
  port_blocks c = (c.port_base_end - c.port_base_start) / port_block + 1

  unfoldable pub allocatable : SchedulerConfig → Resources → Resources
  allocatable c capacity =
      let memory = F.max (F.◌-f◌ capacity.memory_gb c.os_reserved_memory_gb) F.zero in
      record {
        vcpu = capacity.vcpu;
        memory_gb = F.◌*f◌ memory (F.◌-f◌ F.one c.page_cache_share);
        storage_gb = F.◌*f◌ capacity.storage_gb (F.◌-f◌ F.one c.storage_reserve_share);
      }

  unfoldable pub fits : Resources → Resources → Bool
  fits free request =
      F.is_le request.vcpu (F.◌+f◌ free.vcpu F.epsilon)
      && F.is_le request.memory_gb (F.◌+f◌ free.memory_gb F.epsilon)
      && F.is_le request.storage_gb (F.◌+f◌ free.storage_gb F.epsilon)

  unfoldable pub minus : Resources → Resources → Resources
  minus a b = record {
    vcpu = F.◌-f◌ a.vcpu b.vcpu;
    memory_gb = F.◌-f◌ a.memory_gb b.memory_gb;
    storage_gb = F.◌-f◌ a.storage_gb b.storage_gb;
  }

  unfoldable pub used : HostLoad → Resources
  used h = record {
    vcpu = h.used_vcpu;
    memory_gb = h.used_memory_gb;
    storage_gb = h.used_storage_gb;
  }

  unfoldable pub free : SchedulerConfig → HostLoad → Option Resources
  unfolding allocatable minus used
  free c h = elim h.capacity [
    | none ↦ none
    | some capacity ↦ some (minus (allocatable c capacity) (used h))
  ]

  unfoldable pub domain : HostLoad → String
  domain h = unwrap_or h.failure_domain h.id

  unfoldable pub has_room : SchedulerConfig → Resources → HostLoad → Bool
  unfolding port_blocks free fits
  has_room c request h =
      ltb h.instances (port_blocks c)
      && (elim (free c h) [ none ↦ false | some room ↦ fits room request ])

  abbrev pub free_memory : SchedulerConfig → HostLoad → F.F64
  free_memory c h = elim (free c h) [ none ↦ F.lowest | some room ↦ room.memory_gb ]

  -- The host with more free memory first.
  abbrev pub more_memory : SchedulerConfig → HostLoad → HostLoad → Bool
  more_memory c a b = F.total_le (free_memory c b) (free_memory c a)

  pub data Placement : Type 0 where
    placed : List HostLoad → Placement
    too_few_hosts no_room : Placement

  unfoldable pub place : SchedulerConfig → List HostLoad → ℕ → Resources → Placement
  unfolding has_room domain choose_hosts
  place c hosts count request =
      let by_free = sort_by (more_memory c) hosts in
      elim (choose_hosts domain (filter (has_room c request) by_free) count) [
        | some chosen ↦ placed chosen
        | none ↦ elim (choose_hosts domain by_free count) [
          | none ↦ too_few_hosts
          | some chosen ↦ no_room
        ]
      ]

  -- The sizes of the hosts that have said how large they are.
  abbrev pub sizes : SchedulerConfig → List HostLoad → List Resources
  sizes c hosts =
      filter_map
        (λ (h : HostLoad). elim h.capacity [ none ↦ none | some r ↦ some (allocatable c r) ]) hosts

  -- Whether a request can never be met by hosts of these sizes.
  unfoldable pub too_large : SchedulerConfig → List HostLoad → Resources → Bool
  unfolding fits allocatable
  too_large c hosts request = elim (sizes c hosts) [
    | [] ↦ false
    | r ∷ rs ↦ not (any (λ size. fits size request) (r ∷ rs))
  ]
