-- ===== src/Monitor/Stale/History.antt =====
-- The decision to act on a stale primary against the sightings that came before.
use pgcluster.Prelude.{
  ℕ, suc, ◌+◌, ◌%◌, ◌≤◌, ◌<◌, String, ◌≡◌, refl, Bool, false, ◌&&◌, Option, none, some, List, [],
  ◌∷◌, arith, str_eq, eq_iff, leb, if◌then◌else◌, unwrap_or, length,
}
use pgcluster.Dict.{get, get-insert, get-remove}
use pgcluster.Monitor.Stale.{StalePrimaries, none_stale, cooled, sighted, cleared, u32_mod}

pub data Event : Type 0 where
  sight : String → ℕ → Event
  clear : String → Event

module _ (needed cooldown : ℕ) where
  see : StalePrimaries → Event → StalePrimaries × Bool
  see s (sight k now) = sighted s k needed cooldown now
  see s (clear k) = (cleared s k, false)

  -- The state after the events, of which the latest stands first.
  pub state_after : List Event → StalePrimaries
  unfolding see
  state_after [] = none_stale
  state_after (e ∷ es) = (see (state_after es) e).0

  -- Whether the program acts on the latest event.
  pub acts : Event → List Event → Bool
  unfolding see
  acts e es = (see (state_after es) e).1

  -- The sightings of a node since it was last cleared.
  abbrev pub sightings_of : String → List Event → ℕ
  sightings_of k [] = 0
  sightings_of k (sight j now ∷ es) =
      if str_eq j k then suc (sightings_of k es) else sightings_of k es
  sightings_of k (clear j ∷ es) = if str_eq j k then 0 else sightings_of k es

  -- When the program last acted on a node.
  pub last_act : String → List Event → Option ℕ
  last_act k [] = none
  last_act k (sight j now ∷ es) =
      if str_eq j k && acts (sight j now) es then some now else last_act k es
  last_act k (clear j ∷ es) = last_act k es

  sightings-le-length : (k : String) (es : List Event) → sightings_of k es ≤ length es
  sightings-le-length k [] = omega arith
  sightings-le-length k (sight j now ∷ es) = ground (arith, sightings-le-length k es)
  sightings-le-length k (clear j ∷ es) = ground (arith, sightings-le-length k es)

  sightings-state :
      (k : String) (es : List Event)
      → length es < u32_mod
      → unwrap_or (get (state_after es).sightings k) 0 ≡ sightings_of k es
  unfolding state_after sighted cleared
  sightings-state k [] h = refl
  sightings-state k (sight j now ∷ es) h = ground (
    arith,
    eq_iff j k,
    get-insert (state_after es).sightings j k
        ((unwrap_or (get (state_after es).sightings j) 0 + 1) % u32_mod),
    sightings-state k es,
    sightings-le-length k es,
  )
  sightings-state k (clear j ∷ es) h =
      ground (arith, get-remove (state_after es).sightings j k, sightings-state k es)

  attempt-state :
      (k : String) (es : List Event) → get (state_after es).last_attempt k ≡ last_act k es
  unfolding state_after last_act acts sighted cleared
  attempt-state k [] = refl
  attempt-state k (sight j now ∷ es) =
      ground
        (arith, eq_iff j k, get-insert (state_after es).last_attempt j k now, attempt-state k es)
  attempt-state k (clear j ∷ es) = attempt-state k es

  -- After fewer than 2^32 - 1 events, the program acts on a sighting of a stale primary exactly if
  -- it is at least the `needed`-th of that node since it was last cleared, and the program never
  -- acted on the node or did so at least `cooldown` ago.
  pub acts-eq :
      (k : String) (now : ℕ) (es : List Event)
      → suc (length es) < u32_mod
      → acts (sight k now) es
        ≡ leb needed (suc (sightings_of k es)) && cooled (last_act k es) cooldown now
  unfolding acts sighted
  acts-eq k now es h =
      ground (arith, sightings-state k es, sightings-le-length k es, attempt-state k es)
