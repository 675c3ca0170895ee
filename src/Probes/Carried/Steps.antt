-- ===== src/Probes/Carried/Steps.antt =====
-- The other steps, and runs.
use seaweedfs_csi_driver.Base.{
  ℕ, String, Option, none, some, List, [], ◌∷◌, Assoc, lookup, lookup-erase, eqb, is_some, All, ◌≡◌,
  refl, arith, Bool-cases, inl, inr,
}
use seaweedfs_csi_driver.Base.Take.{take_first, Taken, take_first-Taken, Found, take_first-Found}
use seaweedfs_csi_driver.Host.{Fault}
use seaweedfs_csi_driver.Probes.{
  Probe, Caller, Probes, Event, arrives, resets, returns, drops, closes, receives, expires,
  compare_and_delete, returned, finished, signalled, answered, from_probe, received, expired,
  reset_statfs_probe, perform, perform_all,
}
use seaweedfs_csi_driver.Probes.Carried.{Predicates, AreKept, Hold}
use seaweedfs_csi_driver.Probes.Carried.Arrivals.{load_or_store-Hold}

compare_and_delete-lookup :
    (path j : String) (n k : ℕ) (o : Option ℕ) (m : Assoc ℕ)
    → lookup j (compare_and_delete path n o m) ≡ some k
    → lookup j m ≡ some k
unfolding compare_and_delete
compare_and_delete-lookup path j n k none m h = h
compare_and_delete-lookup path j n k (some r) m h = ground (arith, lookup-erase path j m, h)

module _ (P : Predicates) (kept : AreKept P) where
  returned-Hold :
      (s : Probes) (n : ℕ) (r : Option Fault) (o : Option (Probe × List Probe))
      → P.event (returns n r)
      → Found (λ p. eqb p.number n) o
      → Taken (P.probe s.fresh) o
      → Hold P s
      → Hold P (returned r o s)
  unfolding returned
  returned-Hold s n r none ok found t h = h
  returned-Hold s n r (some (p, others)) ok found t h = elim (Bool-cases (is_some p.outcome)) [
    | inl e ↦ rw e h
    | inr e ↦ rw e (record {
      counter = h.counter;
      registry = h.registry;
      in_flight = (kept.comes_back s.fresh n r p ok (ground (arith, found)) t.0, t.1);
      dropped = h.dropped;
      closed = h.closed;
      waiting = h.waiting;
      answers = h.answers;
    })
  ]

  finished-Hold :
      (s : Probes) (o : Option (Probe × List Probe))
      → Taken (P.probe s.fresh) o
      → Hold P s
      → Hold P (finished o s)
  unfolding finished
  finished-Hold s none t h = h
  finished-Hold s (some (p, others)) t h = elim (Bool-cases (is_some p.outcome)) [
    | inr e ↦ rw e h
    | inl e ↦ rw e (record {
      counter = h.counter;
      registry = λ j k q.
          h.registry j k
            (compare_and_delete-lookup p.path j p.number k (lookup p.path s.registry) s.registry q);
      in_flight = t.1;
      dropped = (t.0, h.dropped);
      closed = h.closed;
      waiting = h.waiting;
      answers = h.answers;
    })
  ]

  signalled-Hold :
      (s : Probes) (o : Option (Probe × List Probe))
      → Taken (P.probe s.fresh) o
      → Hold P s
      → Hold P (signalled o s)
  unfolding signalled
  signalled-Hold s none t h = h
  signalled-Hold s (some (p, others)) t h = record {
    counter = h.counter;
    registry = h.registry;
    in_flight = h.in_flight;
    dropped = t.1;
    closed = (t.0, h.closed);
    waiting = h.waiting;
    answers = h.answers;
  }

  answered-Hold :
      (s : Probes) (r : Option (Option Fault)) (c : Caller) (others : List Caller)
      → P.answer s.arrivals s.fresh (record { caller = c; result = r })
      → All (P.caller s.arrivals s.fresh) others
      → Hold P s
      → Hold P (answered r c others s)
  unfolding answered
  answered-Hold s r c others x t h = record {
    counter = h.counter;
    registry = h.registry;
    in_flight = h.in_flight;
    dropped = h.dropped;
    closed = h.closed;
    waiting = t;
    answers = (x, h.answers);
  }

  from_probe-Hold :
      (s : Probes) (c : Caller) (others : List Caller) (o : Option (Probe × List Probe))
      → P.caller s.arrivals s.fresh c
      → All (P.caller s.arrivals s.fresh) others
      → Found (λ p. eqb p.number c.probe) o
      → Taken (P.probe s.fresh) o
      → Hold P s
      → Hold P (from_probe o c others s)
  unfolding from_probe
  from_probe-Hold s c others none k ks found t h = h
  from_probe-Hold s c others (some (p, rest)) k ks found t h =
      answered-Hold s p.outcome c others
        (kept.answers s.arrivals s.fresh c p (ground (arith, found)) k t.0) ks h

  received-Hold :
      (s : Probes) (o : Option (Caller × List Caller))
      → Taken (P.caller s.arrivals s.fresh) o
      → Hold P s
      → Hold P (received o s)
  unfolding received
  received-Hold s none t h = h
  received-Hold s (some (c, others)) t h =
      from_probe-Hold s c others (take_first (λ p. eqb p.number c.probe) s.closed) t.0 t.1
        (take_first-Found _ s.closed) (take_first-Taken _ _ s.closed h.closed) h

  expired-Hold :
      (s : Probes) (o : Option (Caller × List Caller))
      → Taken (P.caller s.arrivals s.fresh) o
      → Hold P s
      → Hold P (expired o s)
  unfolding expired
  expired-Hold s none t h = h
  expired-Hold s (some (c, others)) t h =
      answered-Hold s none c others (kept.gives_up s.arrivals s.fresh c t.0) t.1 h

  reset_statfs_probe-Hold :
      (path : String) (s : Probes) → Hold P s → Hold P (reset_statfs_probe path s)
  unfolding reset_statfs_probe
  reset_statfs_probe-Hold path s h = record {
    counter = h.counter;
    registry = λ j k q. h.registry j k (ground (arith, lookup-erase path j s.registry, q));
    in_flight = h.in_flight;
    dropped = h.dropped;
    closed = h.closed;
    waiting = h.waiting;
    answers = h.answers;
  }

  perform-Hold : (s : Probes) (e : Event) → P.event e → Hold P s → Hold P (perform s e)
  unfolding perform
  perform-Hold s (arrives path) ok h =
      load_or_store-Hold P kept path s (lookup path s.registry) refl h
  perform-Hold s (returns n r) ok h =
      returned-Hold s n r (take_first _ s.in_flight) ok (take_first-Found _ s.in_flight)
        (take_first-Taken _ _ s.in_flight h.in_flight) h
  perform-Hold s (drops n) ok h =
      finished-Hold s (take_first _ s.in_flight) (take_first-Taken _ _ s.in_flight h.in_flight) h
  perform-Hold s (closes n) ok h =
      signalled-Hold s (take_first _ s.dropped) (take_first-Taken _ _ s.dropped h.dropped) h
  perform-Hold s (receives n) ok h =
      received-Hold s (take_first _ s.waiting) (take_first-Taken _ _ s.waiting h.waiting) h
  perform-Hold s (expires n) ok h =
      expired-Hold s (take_first _ s.waiting) (take_first-Taken _ _ s.waiting h.waiting) h
  perform-Hold s (resets path) ok h = reset_statfs_probe-Hold path s h

  pub perform_all-Hold :
      (s : Probes) (events : List Event)
      → All P.event events
      → Hold P s
      → Hold P (perform_all s events)
  unfolding perform_all
  perform_all-Hold s [] ok h = h
  perform_all-Hold s (e ∷ events) ok h =
      perform_all-Hold (perform s e) events ok.1 (perform-Hold s e ok.0 h)
