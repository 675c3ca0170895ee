-- ===== src/Probes/OneFlight.antt =====
-- How many syscalls of one path are in flight between resets.
use seaweedfs_csi_driver.Base.{
  ℕ, suc, ◌≤◌, String, some, List, [], ◌∷◌, Assoc, lookup, eq_iff, leb, ◌&&◌, if◌then◌else◌, ◌==◌,
  All, ◌≡◌, ◌≢◌, refl, arith, Bool-cases, inl, inr,
}
use seaweedfs_csi_driver.Base.Take.{Pairwise, All-map}
use seaweedfs_csi_driver.Probes.{
  Probe, Event, arrives, resets, returns, drops, closes, receives, expires, perform_all, no_probes,
}
use seaweedfs_csi_driver.Probes.Single.{
  AreApart, Keeps, KeepsFor, IsRegistered, IsSingle, perform_all-IsSingle,
}

every-KeepsFor : (path : String) (events : List Event) → All (KeepsFor path (λ k. ⊥)) events
every-KeepsFor path [] = tt
every-KeepsFor path (e ∷ events) = (this e, every-KeepsFor path events)
  where
    this : (e : Event) → KeepsFor path (λ k. ⊥) e
    this (resets j) = λ k l. absurd l
    this (arrives j) = tt
    this (returns n r) = tt
    this (drops n) = tt
    this (closes n) = tt
    this (receives n) = tt
    this (expires n) = tt

Keeps-KeepsFor :
    (path : String) (L : ℕ → Type 0) (events : List Event)
    → All (Keeps path) events
    → All (KeepsFor path L) events
Keeps-KeepsFor path L [] h = tt
Keeps-KeepsFor path L (e ∷ events) h = (this e h.0, Keeps-KeepsFor path L events h.1)
  where
    this : (e : Event) → Keeps path e → KeepsFor path L e
    this (resets j) k = λ i l. k
    this (arrives j) k = tt
    this (returns n r) k = tt
    this (drops n) k = tt
    this (closes n) k = tt
    this (receives n) k = tt
    this (expires n) k = tt

-- The number of syscalls of the path in flight that are the n-th or later ones.
unfoldable pub flights : String → ℕ → List Probe → ℕ
flights path n [] = 0
flights path n (p ∷ ps) =
    let rest = flights path n ps in if p.path == path && leb n p.number then suc rest else rest

-- Beside a registered probe there is none.
no_flights :
    (path : String) (n k : ℕ) (m : Assoc ℕ) (ps : List Probe)
    → lookup path m ≡ some k
    → All (λ p. k ≢ p.number) ps
    → All (IsRegistered path (λ i. n ≤ i) m) ps
    → flights path n ps ≡ 0
unfolding flights
no_flights path n k m [] e a r = refl
no_flights path n k m (p ∷ ps) e a r =
    let rest = no_flights path n k m ps e a.1 r.1 in
    elim (Bool-cases (p.path == path && leb n p.number)) [
      | inr f ↦ rw f rest
      | inl f ↦
          let same : p.path ≡ path = ground (arith, eq_iff p.path path, f) in
          let late : n ≤ p.number = ground (arith, f) in
          absurd (ground (arith, e, r.0 same late, a.0))
    ]

single_flight :
    (path : String) (n : ℕ) (m : Assoc ℕ) (ps : List Probe)
    → Pairwise AreApart ps
    → All (IsRegistered path (λ i. n ≤ i) m) ps
    → flights path n ps ≤ 1
unfolding flights
single_flight path n m [] a r = omega arith
single_flight path n m (p ∷ ps) a r = elim (Bool-cases (p.path == path && leb n p.number)) [
  | inr f ↦ rw f (single_flight path n m ps a.1 r.1)
  | inl f ↦
      let same : p.path ≡ path = ground (arith, eq_iff p.path path, f) in
      let late : n ≤ p.number = ground (arith, f) in
      rw (f, no_flights path n p.number m ps (r.0 same late) a.0 r.1) (omega arith)
]

no_probes-IsSingle : (path : String) → IsSingle path (λ k. ⊥) no_probes
no_probes-IsSingle path = record { below = tt; apart = tt; registered = tt }

-- However callers come and probes return, and whatever was in flight before: while nobody resets a
-- path, at most one of the syscalls of the path that started in that time is in flight, also when
-- probes that an earlier reset orphaned come back meanwhile and drop their entries.
pub one_flight_between_resets :
    (path : String) (before after : List Event)
    → All (Keeps path) after
    → flights path
        (perform_all no_probes before).fresh
        (perform_all (perform_all no_probes before) after).in_flight
      ≤ 1
one_flight_between_resets path before after keeps =
    let s = perform_all no_probes before in
    let L = λ (k : ℕ). s.fresh ≤ k in
    let old =
      perform_all-IsSingle path (λ k. ⊥) no_probes before (every-KeepsFor path before)
        (no_probes-IsSingle path) in
    let new = perform_all-IsSingle path L s after (Keeps-KeepsFor path L after keeps) (record {
      below = old.below;
      apart = old.apart;
      registered = All-map _ _ s.in_flight (λ p b e l. absurd (omega arith)) old.below;
    }) in
    single_flight path s.fresh (perform_all s after).registry (perform_all s after).in_flight
      new.apart new.registered
