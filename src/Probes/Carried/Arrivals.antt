-- ===== src/Probes/Carried/Arrivals.antt =====
-- A caller that arrives.
use seaweedfs_csi_driver.Base.{
  ℕ, suc, String, Option, none, some, lookup, insert, lookup-insert, ◌≡◌, arith, Bool-cases, inl,
  inr, subst, ◌==◌,
}
use seaweedfs_csi_driver.Base.Take.{All-map}
use seaweedfs_csi_driver.Probes.{Probes, attach, start_probe, load_or_store}
use seaweedfs_csi_driver.Probes.Carried.{Predicates, AreKept, Hold}

module _ (P : Predicates) (kept : AreKept P) where
  attach-Hold :
      (path : String) (k : ℕ) (s : Probes)
      → P.registered s.fresh path k
      → Hold P s
      → Hold P (attach path k s)
  unfolding attach
  attach-Hold path k s r h = record {
    counter = h.counter;
    registry = h.registry;
    in_flight = h.in_flight;
    dropped = h.dropped;
    closed = h.closed;
    waiting = (
      kept.attaches s.arrivals s.fresh k path r,
      All-map _ _ s.waiting (kept.caller_arrival s.arrivals s.fresh) h.waiting,
    );
    answers = All-map _ _ s.answers (kept.answer_arrival s.arrivals s.fresh) h.answers;
  }

  registry-insert :
      (path j : String) (k : ℕ) (s : Probes)
      → Hold P s
      → lookup j (insert path s.fresh s.registry) ≡ some k
      → P.registered (suc s.fresh) j k
  registry-insert path j k s h e = elim (Bool-cases (path == j)) [
    | inl t ↦
        let same : s.fresh ≡ k = ground (arith, lookup-insert path j s.fresh s.registry, t, e) in
        subst (λ n. P.registered (suc s.fresh) j n) same
          (kept.starts_registered s.fresh j h.counter)
    | inr t ↦
        kept.registered_later s.fresh k j
          (h.registry j k (ground (arith, lookup-insert path j s.fresh s.registry, t, e)))
  ]

  start_probe-Hold : (path : String) (s : Probes) → Hold P s → Hold P (start_probe path s)
  unfolding start_probe
  start_probe-Hold path s h = record {
    counter = kept.counter_later s.fresh h.counter;
    registry = λ j k e. registry-insert path j k s h e;
    in_flight = (
      kept.starts_probe s.fresh path,
      All-map _ _ s.in_flight (kept.probe_later s.fresh) h.in_flight,
    );
    dropped = All-map _ _ s.dropped (kept.probe_later s.fresh) h.dropped;
    closed = All-map _ _ s.closed (kept.probe_later s.fresh) h.closed;
    waiting = All-map _ _ s.waiting (kept.caller_later s.arrivals s.fresh) h.waiting;
    answers = All-map _ _ s.answers (kept.answer_later s.arrivals s.fresh) h.answers;
  }

  pub load_or_store-Hold :
      (path : String) (s : Probes) (o : Option ℕ)
      → lookup path s.registry ≡ o
      → Hold P s
      → Hold P (load_or_store path o s)
  unfolding load_or_store
  load_or_store-Hold path s (some k) e h = attach-Hold path k s (h.registry path k e) h
  load_or_store-Hold path s none e h =
      attach-Hold path s.fresh (start_probe path s) (kept.starts_registered s.fresh path h.counter)
        (start_probe-Hold path s h)
