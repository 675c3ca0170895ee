-- ===== src/Probes/Reset.antt =====
-- What the callers of probeStatfs get after a reset of their path.
use mathlib.Core.List.{Memᴰ}
use seaweedfs_csi_driver.Base.{
  ℕ, ◌≤◌, ◌<◌, String, Option, none, some, List, [], ◌∷◌, lookup, erase, lookup-erase, eq_iff,
  eq_refl, All, ◌≡◌, ◌≢◌, refl, sym, subst, arith,
}
use seaweedfs_csi_driver.Base.Take.{All-map}
use seaweedfs_csi_driver.Host.{Fault}
use seaweedfs_csi_driver.Probes.{
  Answer, Probes, Event, arrives, resets, returns, drops, closes, receives, expires,
  reset_statfs_probe, perform, perform_all, no_probes,
}
use seaweedfs_csi_driver.Probes.Carried.{Predicates, AreKept, Hold}
use seaweedfs_csi_driver.Probes.Carried.Steps.{perform_all-Hold}

-- The numbers in use are below the next ones.
abbrev below : Predicates
below = record {
  counter = λ f. Unit;
  registered = λ f path k. k < f;
  probe = λ f p. p.number < f;
  caller = λ a f c. (c.number < a) × (c.probe < f);
  answer = λ a f x. (x.caller.number < a) × (x.caller.probe < f);
  event = λ e. Unit;
}

below-AreKept : AreKept below
below-AreKept = record {
  counter_later = λ f h. tt;
  registered_later = λ f k path h. omega arith;
  probe_later = λ f p h. omega arith;
  caller_later = λ a f c h. (h.0, omega arith);
  caller_arrival = λ a f c h. (omega arith, h.1);
  answer_later = λ a f x h. (h.0, omega arith);
  answer_arrival = λ a f x h. (omega arith, h.1);
  starts_registered = λ f path h. omega arith;
  starts_probe = λ f path. omega arith;
  attaches = λ a f k path h. (omega arith, h);
  comes_back = λ f n r p ok e h. h;
  answers = λ a f c p e h k. h;
  gives_up = λ a f c h. h;
}

-- What the syscall of the probe `n` came back with, if it did, satisfies the predicate.
abbrev pub Came : (ℕ → Option Fault → Type 0) → ℕ → Option (Option Fault) → Type 0
Came R n none = Unit
Came R n (some r) = R n r

abbrev EventOf : (ℕ → Option Fault → Type 0) → Event → Type 0
EventOf R (returns n r) = R n r
EventOf R _ = Unit

module _ (path : String) (n m : ℕ) (R : ℕ → Option Fault → Type 0) where
  -- From the state on in which the next probe is `n` and the next caller `m`.
  abbrev after : Predicates
  after = record {
    counter = λ f. n ≤ f;
    registered = λ f j k. j ≡ path → n ≤ k;
    probe = λ f p. n ≤ p.number → Came R p.number p.outcome;
    caller = λ a f c. c.path ≡ path → m ≤ c.number → n ≤ c.probe;
    answer = λ a f x.
        x.caller.path ≡ path
        → m ≤ x.caller.number
        → (n ≤ x.caller.probe) × Came R x.caller.probe x.result;
    event = EventOf R;
  }

  after-AreKept : AreKept after
  after-AreKept = record {
    counter_later = λ f h. omega arith;
    registered_later = λ f k j h. h;
    probe_later = λ f p h. h;
    caller_later = λ a f c h. h;
    caller_arrival = λ a f c h. h;
    answer_later = λ a f x h. h;
    answer_arrival = λ a f x h. h;
    starts_registered = λ f j h e. h;
    starts_probe = λ f j h. tt;
    attaches = λ a f k j h e l. h e;
    comes_back = λ f k r p ok e h l. subst (λ i. R i r) (sym e) ok;
    answers = λ a f c p e h k q l.
        let started : n ≤ p.number = subst (λ i. n ≤ i) (sym e) (h q l) in
        (h q l, subst (λ i. Came R i p.outcome) e (k started));
    gives_up = λ a f c h e l. (h e l, tt);
  }

  reset-Hold :
      (s : Probes)
      → n ≡ s.fresh
      → m ≡ s.arrivals
      → Hold below s
      → Hold after (perform s (resets path))
  unfolding perform reset_statfs_probe
  reset-Hold s f a h = record {
    counter = omega arith;
    registry = λ j k e same. absurd (gone j k same e);
    in_flight = All-map _ _ s.in_flight (λ p l k. absurd (omega arith)) h.in_flight;
    dropped = All-map _ _ s.dropped (λ p l k. absurd (omega arith)) h.dropped;
    closed = All-map _ _ s.closed (λ p l k. absurd (omega arith)) h.closed;
    waiting = All-map _ _ s.waiting (λ c l e k. let q = l.0 in absurd (omega arith)) h.waiting;
    answers = All-map _ _ s.answers (λ x l e k. let q = l.0 in absurd (omega arith)) h.answers;
  }
    where
      gone : (j : String) (k : ℕ) → j ≡ path → lookup j (erase path s.registry) ≢ some k
      gone j k same e =
          ground (arith, lookup-erase path j s.registry, eq_refl path, eq_iff path j, e, same)

-- The events of a list, as a predicate of the list.
events-EventOf :
    (all events : List Event)
    → ((e : Event) → Memᴰ e events → Memᴰ e all)
    → All (EventOf (λ k r. Memᴰ (returns k r) all)) events
events-EventOf all [] h = tt
events-EventOf all (e ∷ events) h =
    (this e (h e (Memᴰ.head refl)), events-EventOf all events (λ x k. h x (Memᴰ.tail k)))
  where
    this : (e : Event) → Memᴰ e all → EventOf (λ k r. Memᴰ (returns k r) all) e
    this (returns n r) k = k
    this (arrives path) k = tt
    this (resets path) k = tt
    this (drops n) k = tt
    this (closes n) k = tt
    this (receives n) k = tt
    this (expires n) k = tt

every-Unit : (events : List Event) → All (λ e. Unit {0}) events
every-Unit [] = tt
every-Unit (e ∷ events) = (tt, every-Unit events)

no_probes-Hold : Hold below no_probes
unfolding lookup
no_probes-Hold = record {
  counter = tt;
  registry = λ path k e. absurd (ground (arith, e));
  in_flight = tt;
  dropped = tt;
  closed = tt;
  waiting = tt;
  answers = tt;
}

-- A caller of the path who came when the state was `s`, or later, has the result of a syscall that
-- started later, and that came back in one of the events, or no result.
abbrev pub IsRenewed : String → Probes → List Event → Answer → Type 0
IsRenewed path s events x =
    x.caller.path ≡ path
    → s.arrivals ≤ x.caller.number
    → (s.fresh ≤ x.caller.probe) × Came (λ k r. Memᴰ (returns k r) events) x.caller.probe x.result

-- Whatever came before a reset of a path, and however callers, probes and other resets interleave
-- after it: a call of probeStatfs for the path that begins after the reset either times out or has
-- the result of a syscall that both started and came back after the reset.
pub answers-IsRenewed :
    (path : String) (before after : List Event)
    → All
        (IsRenewed path (perform_all no_probes before) after)
        (perform_all (perform (perform_all no_probes before) (resets path)) after).answers
answers-IsRenewed path before events =
    let s = perform_all no_probes before in
    let old =
      perform_all-Hold below below-AreKept no_probes before (every-Unit before) no_probes-Hold in
    let R = λ (k : ℕ) (r : Option Fault). Memᴰ (returns k r) events in
    Hold.answers (
      perform_all-Hold (after path s.fresh s.arrivals R) (after-AreKept path s.fresh s.arrivals R)
        (perform s (resets path)) events (events-EventOf events events (λ e h. h))
        (reset-Hold path s.fresh s.arrivals R s refl refl old))
