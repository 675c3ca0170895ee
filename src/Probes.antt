-- ===== src/Probes.antt =====
-- The shared statfs probes of pkg/driver/mount_util.go: probeStatfs, the goroutine of a probe and
-- resetStatfsProbe, with callers, goroutines and resets in any interleaving.
pub mod Carried
pub mod Reset
pub mod Single
pub mod OneFlight
use seaweedfs_csi_driver.Base.{
  ℕ, suc, ◌+◌, String, Bool, true, false, Option, none, some, List, [], ◌∷◌, Assoc, lookup, insert,
  erase, eqb, is_some, if◌then◌else◌,
}
use seaweedfs_csi_driver.Base.Take.{take_first}
use seaweedfs_csi_driver.Host.{Fault}

-- statfsProbe and its goroutine, known by a number in the order in which they start; the outcome is
-- probe.err once the syscall has come back, where `some none` is nil.
pub record Probe : Type 0 where
  pub number : ℕ
  pub path : String
  pub outcome : Option (Option Fault)

-- A call of probeStatfs, and the probe that it waits for.
pub record Caller : Type 0 where
  pub number : ℕ
  pub path : String
  pub probe : ℕ

-- What probeStatfs returned: (err, true), or none for (nil, false).
pub record Answer : Type 0 where
  pub caller : Caller
  pub result : Option (Option Fault)

-- The map statfsProbes, the goroutines up to their CompareAndDelete, those that close `done` next,
-- the closed probes, the callers that wait and the answers given.
pub record Probes : Type 0 where
  pub registry : Assoc ℕ
  pub fresh : ℕ
  pub in_flight : List Probe
  pub dropped : List Probe
  pub closed : List Probe
  pub arrivals : ℕ
  pub waiting : List Caller
  pub answers : List Answer

pub data Event : Type 0 where
  arrives resets : String → Event
  returns : ℕ → Option Fault → Event
  drops closes receives expires : ℕ → Event

-- The caller waits for a probe.
unfoldable pub attach : String → ℕ → Probes → Probes
attach path n s = record s {
  arrivals = suc s.arrivals;
  waiting = (record { number = s.arrivals; path = path; probe = n }) ∷ s.waiting;
}

-- The probe is registered and its goroutine begins.
unfoldable pub start_probe : String → Probes → Probes
start_probe path s = record s {
  registry = insert path s.fresh s.registry;
  fresh = suc s.fresh;
  in_flight = (record { number = s.fresh; path = path; outcome = none }) ∷ s.in_flight;
}

-- statfsProbes.LoadOrStore, and the wait for what it gave.
unfoldable pub load_or_store : String → Option ℕ → Probes → Probes
unfolding attach start_probe
load_or_store path (some n) s = attach path n s
load_or_store path none s = attach path s.fresh (start_probe path s)

-- statfsProbes.CompareAndDelete.
unfoldable pub compare_and_delete : String → ℕ → Option ℕ → Assoc ℕ → Assoc ℕ
compare_and_delete path n none m = m
compare_and_delete path n (some registered) m = if eqb registered n then erase path m else m

-- probe.err = statfsFn(path), or the error of a panic.
unfoldable pub returned : Option Fault → Option (Probe × List Probe) → Probes → Probes
returned r none s = s
returned r (some (p, others)) s =
    if is_some p.outcome
    then s
    else record s { in_flight = (record p { outcome = some r }) ∷ others }

unfoldable pub finished : Option (Probe × List Probe) → Probes → Probes
unfolding compare_and_delete
finished none s = s
finished (some (p, others)) s =
    if is_some p.outcome
    then record s {
      registry = compare_and_delete p.path p.number (lookup p.path s.registry) s.registry;
      in_flight = others;
      dropped = p ∷ s.dropped;
    }
    else s

-- close(probe.done)
unfoldable pub signalled : Option (Probe × List Probe) → Probes → Probes
signalled none s = s
signalled (some (p, others)) s = record s { dropped = others; closed = p ∷ s.closed }

unfoldable pub answered : Option (Option Fault) → Caller → List Caller → Probes → Probes
answered r c others s = record s {
  waiting = others;
  answers = (record { caller = c; result = r }) ∷ s.answers;
}

-- case <-probe.done: blocked while the probe is not closed.
unfoldable pub from_probe : Option (Probe × List Probe) → Caller → List Caller → Probes → Probes
unfolding answered
from_probe none c others s = s
from_probe (some (p, rest)) c others s = answered p.outcome c others s

unfoldable pub received : Option (Caller × List Caller) → Probes → Probes
unfolding from_probe take_first
received none s = s
received (some (c, others)) s =
    from_probe (take_first (λ p. eqb p.number c.probe) s.closed) c others s

-- case <-time.After(statfsProbeTimeout)
unfoldable pub expired : Option (Caller × List Caller) → Probes → Probes
unfolding answered
expired none s = s
expired (some (c, others)) s = answered none c others s

-- resetStatfsProbe.
unfoldable pub reset_statfs_probe : String → Probes → Probes
reset_statfs_probe path s = record s { registry = erase path s.registry }

unfoldable pub perform : Probes → Event → Probes
unfolding load_or_store returned finished signalled received expired reset_statfs_probe take_first
perform s (arrives path) = load_or_store path (lookup path s.registry) s
perform s (returns n r) = returned r (take_first (λ p. eqb p.number n) s.in_flight) s
perform s (drops n) = finished (take_first (λ p. eqb p.number n) s.in_flight) s
perform s (closes n) = signalled (take_first (λ p. eqb p.number n) s.dropped) s
perform s (receives c) = received (take_first (λ k. eqb k.number c) s.waiting) s
perform s (expires c) = expired (take_first (λ k. eqb k.number c) s.waiting) s
perform s (resets path) = reset_statfs_probe path s

unfoldable pub perform_all : Probes → List Event → Probes
unfolding perform
perform_all s [] = s
perform_all s (e ∷ events) = perform_all (perform s e) events

abbrev pub no_probes : Probes
no_probes = record {
  registry = [];
  fresh = 0;
  in_flight = [];
  dropped = [];
  closed = [];
  arrivals = 0;
  waiting = [];
  answers = [];
}
