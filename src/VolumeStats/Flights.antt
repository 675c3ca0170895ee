-- ===== src/VolumeStats/Flights.antt =====
-- The calls for volume statistics in flight, and what they read.
use seaweedfs_csi_driver.Base.{
  String, Option, none, some, List, [], ◌∷◌, Assoc, All, ◌≡◌, ◌⊎◌, refl, sym, subst, arith, eq_iff,
  Bool-cases, inl, inr, ◌==◌,
}
use seaweedfs_csi_driver.Base.Exec.{Result, ok}
use seaweedfs_csi_driver.Base.Take.{All-map}
use seaweedfs_csi_driver.Host.{Volume}
use seaweedfs_csi_driver.Node.{Code}
use seaweedfs_csi_driver.VolumeStats.{validate_volume_stats_path}
use seaweedfs_csi_driver.VolumeStats.Usage.{
  VolumeUsage, StatsCalls, UsageEntry, StatsRequest, Active, read_volume_usage_for_stats,
  wait_volume_stats_call, with_reported, is_same_request, find_call, delete_call, joined,
  read_volume_usage_with_timeout, unless_refused, node_get_volume_stats,
}

-- The requests for statistics and the ends of their calls.
pub data StatsEvent : Type 0 where
  asks : StatsCalls → String → String → Assoc Volume → StatsEvent
  ends_call : StatsRequest → StatsEvent

-- The calls in flight after the events, latest first.
unfoldable pub in_flight : List StatsEvent → Active
unfolding node_get_volume_stats delete_call
in_flight [] = []
in_flight (asks calls volume_id path volumes ∷ events) =
    (node_get_volume_stats calls volume_id path volumes (in_flight events)).1
in_flight (ends_call r ∷ events) = delete_call r (in_flight events)

-- One of the events is a request for the volume and the path, with these answers to its calls.
abbrev pub Asked : List StatsEvent → StatsCalls → String → String → Type 0
Asked [] calls volume_id path = ⊥
Asked (asks others v p volumes ∷ events) calls volume_id path =
    ((others ≡ calls) × (v ≡ volume_id) × (p ≡ path)) ⊎ Asked events calls volume_id path
Asked (ends_call r ∷ events) calls volume_id path = Asked events calls volume_id path

-- A call in flight gives what one of the requests for its volume and path reads.
abbrev pub IsRead : List StatsEvent → StatsRequest × Result Code VolumeUsage → Type 0
IsRead events (r, answer) =
    (calls : StatsCalls) × Asked events calls r.volume_id r.volume_path
    × (answer ≡ read_volume_usage_for_stats calls r.volume_path)

-- What a request gets.
abbrev pub Gives : List StatsEvent → StatsRequest → Result Code VolumeUsage → Type 0
Gives events r answer = IsRead events (r, answer)

pub IsRead-later :
    (e : StatsEvent) (events : List StatsEvent) (call : StatsRequest × Result Code VolumeUsage)
    → IsRead events call
    → IsRead (e ∷ events) call
IsRead-later (asks others v p volumes) events call (calls, asked, same) = (calls, inr asked, same)
IsRead-later (ends_call r) events call h = h

found-Gives :
    (events : List StatsEvent) (r : StatsRequest) (active : Active)
    (answer : Result Code VolumeUsage)
    → All (IsRead events) active
    → find_call r active ≡ some answer
    → Gives events r answer
unfolding find_call is_same_request
found-Gives events r [] answer all h = absurd (ground (arith, h))
found-Gives events r ((q, a) ∷ active) answer all h = elim (Bool-cases (is_same_request q r)) [
  | inl e ↦
      let id : q.volume_id ≡ r.volume_id = ground (arith, e, eq_iff q.volume_id r.volume_id) in
      let path : q.volume_path ≡ r.volume_path =
        ground (arith, e, eq_iff q.volume_path r.volume_path) in
      let same : a ≡ answer = ground (arith, h, e) in
      subst (Gives events r) same (
        subst (λ i. Gives events (record { volume_id = i; volume_path = r.volume_path }) a) id
          (subst (λ p. Gives events (record { volume_id = q.volume_id; volume_path = p }) a) path
            all.0))
  | inr e ↦ found-Gives events r active answer all.1 (ground (arith, h, e))
]

deleted-All :
    (P : StatsRequest × Result Code VolumeUsage → Type 0) (r : StatsRequest) (active : Active)
    → All P active
    → All P (delete_call r active)
unfolding delete_call
deleted-All P r [] h = tt
deleted-All P r ((q, a) ∷ active) h = elim (Bool-cases (is_same_request q r)) [
  | inl e ↦ rw e (deleted-All P r active h.1)
  | inr e ↦ rw e (h.0, deleted-All P r active h.1)
]

module _ (calls : StatsCalls) (volume_id path : String) (volumes : Assoc Volume)
    (events : List StatsEvent) where
  abbrev now_asked : List StatsEvent
  now_asked = asks calls volume_id path volumes ∷ events

  abbrev request : StatsRequest
  request = record { volume_id = volume_id; volume_path = path }

  -- The answer is given, and the calls in flight are read.
  abbrev Joins : Result Code VolumeUsage × Active → Type 0
  Joins (r, active) =
      ((u : VolumeUsage) → r ≡ ok u → Gives now_asked request (ok u))
      × All (IsRead now_asked) active

  waited-ok :
      (o : Option Code) (answer : Result Code VolumeUsage) (u : VolumeUsage)
      → wait_volume_stats_call o answer ≡ ok u
      → answer ≡ ok u
  unfolding wait_volume_stats_call
  waited-ok none answer u h = h
  waited-ok (some c) answer u h = absurd (ground (arith, h))

  pub joined-Joins :
      (active : Active) (o : Option (Result Code VolumeUsage))
      → All (IsRead now_asked) active
      → find_call request active ≡ o
      → Joins (joined calls request active o)
  unfolding joined
  joined-Joins active (some answer) all h = (
    λ u q.
        subst (Gives now_asked request) (waited-ok calls.wait_error answer u q)
          (found-Gives now_asked request active answer all h),
    all,
  )
  joined-Joins active none all h = (
    λ u q. (
      calls,
      inl (refl, refl, refl),
      sym (waited-ok calls.wait_error (read_volume_usage_for_stats calls path) u q),
    ),
    ((calls, inl (refl, refl, refl), refl), all),
  )

  -- Nothing was refused, or nothing changes.
  refused-All :
      (o : Option Code) (active : Active) (rest : Result Code (List UsageEntry) × Active)
      → All (IsRead now_asked) active
      → All (IsRead now_asked) rest.1
      → All (IsRead now_asked) (unless_refused o active rest).1
  unfolding unless_refused
  refused-All none active rest h k = k
  refused-All (some c) active rest h k = h

  pub unless_refused-ok :
      (o : Option Code) (active : Active) (rest : Result Code (List UsageEntry) × Active)
      (us : List UsageEntry)
      → (unless_refused o active rest).0 ≡ ok us
      → (o ≡ none) × (rest.0 ≡ ok us)
  unfolding unless_refused
  unless_refused-ok none active rest us q = (refl, q)
  unless_refused-ok (some c) active rest us q = absurd (ground (arith, q))

  asked-All :
      (active : Active)
      → All (IsRead now_asked) active
      → All (IsRead now_asked) (node_get_volume_stats calls volume_id path volumes active).1
  unfolding node_get_volume_stats with_reported read_volume_usage_with_timeout
  asked-All active all =
      let (answered, kept) = joined-Joins active (find_call request active) all refl in
      let after = refused-All calls.lock_error active _ all (
        refused-All (validate_volume_stats_path volume_id path volumes) active
          (with_reported (joined calls request active (find_call request active))) all kept) in
      elim (Bool-cases (volume_id == "")) [
        | inl e ↦ rw e all
        | inr e ↦ elim (Bool-cases (path == "")) [ inl k ↦ rw (e, k) all | inr k ↦ rw (e, k) after ]
      ]

pub in_flight-IsRead : (events : List StatsEvent) → All (IsRead events) (in_flight events)
unfolding in_flight
in_flight-IsRead [] = tt
in_flight-IsRead (asks calls volume_id path volumes ∷ events) =
    asked-All calls volume_id path volumes events (in_flight events) (
      All-map _ _ _ (IsRead-later (asks calls volume_id path volumes) events)
        (in_flight-IsRead events))
in_flight-IsRead (ends_call r ∷ events) =
    deleted-All (IsRead events) r (in_flight events) (in_flight-IsRead events)
