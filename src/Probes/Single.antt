-- ===== src/Probes/Single.antt =====
-- The probes of one path that are in flight, and the entry of the map.
use seaweedfs_csi_driver.Base.{
  ℕ, ◌<◌, String, Option, none, some, List, [], ◌∷◌, Assoc, lookup, insert, lookup-insert,
  lookup-erase, eq_iff, eq_refl, eqb, is_some, All, ◌≡◌, ◌≢◌, refl, sym, arith, Bool-cases, inl,
  inr,
}
use seaweedfs_csi_driver.Base.Take.{
  take_first, Taken, take_first-Taken, TakenApart, take_first-TakenApart, Pairwise, All-map,
}
use seaweedfs_csi_driver.Host.{Fault}
use seaweedfs_csi_driver.Probes.{
  Probe, Caller, Probes, Event, arrives, resets, returns, drops, closes, receives, expires, attach,
  start_probe, load_or_store, compare_and_delete, returned, finished, signalled, answered,
  from_probe, received, expired, reset_statfs_probe, perform, perform_all,
}

abbrev pub AreApart : Probe → Probe → Type 0
AreApart p q = p.number ≢ q.number

-- The event is no reset of the path.
abbrev pub Keeps : String → Event → Type 0
Keeps path (resets j) = j ≢ path
Keeps path _ = Unit

-- If there is a number in question.
abbrev pub KeepsFor : String → (ℕ → Type 0) → Event → Type 0
KeepsFor path L (resets j) = (k : ℕ) → L k → j ≢ path
KeepsFor path L _ = Unit

module _ (path : String) (L : ℕ → Type 0) where
  -- A probe of the path that has one of the numbers in question is the one in the map.
  abbrev pub IsRegistered : Assoc ℕ → Probe → Type 0
  IsRegistered m p = p.path ≡ path → L p.number → lookup path m ≡ some p.number

  pub record IsSingle (s : Probes) : Type 0 where
    pub below : All (λ p. p.number < s.fresh) s.in_flight
    pub apart : Pairwise AreApart s.in_flight
    pub registered : All (IsRegistered s.registry) s.in_flight

  attach-IsSingle : (j : String) (k : ℕ) (s : Probes) → IsSingle s → IsSingle (attach j k s)
  unfolding attach
  attach-IsSingle j k s h = record { below = h.below; apart = h.apart; registered = h.registered }

  insert-IsRegistered :
      (j : String) (k : ℕ) (m : Assoc ℕ) (p : Probe)
      → lookup j m ≡ none
      → IsRegistered m p
      → IsRegistered (insert j k m) p
  insert-IsRegistered j k m p new h e l =
      ground (arith, lookup-insert j path k m, eq_iff j path, h e l, new)

  start_probe-IsSingle :
      (j : String) (s : Probes)
      → lookup j s.registry ≡ none
      → IsSingle s
      → IsSingle (start_probe j s)
  unfolding start_probe
  start_probe-IsSingle j s new h = record {
    below = (omega arith, All-map _ _ s.in_flight (λ p l. omega arith) h.below);
    apart = (All-map _ _ s.in_flight (λ p l e. absurd (omega arith)) h.below, h.apart);
    registered = (
      λ e l.
          ground (arith, lookup-insert j path s.fresh s.registry, eq_iff j path, eq_refl path, e),
      All-map _ _ s.in_flight (λ p. insert-IsRegistered j s.fresh s.registry p new) h.registered,
    );
  }

  load_or_store-IsSingle :
      (j : String) (s : Probes) (o : Option ℕ)
      → lookup j s.registry ≡ o
      → IsSingle s
      → IsSingle (load_or_store j o s)
  unfolding load_or_store
  load_or_store-IsSingle j s (some k) e h = attach-IsSingle j k s h
  load_or_store-IsSingle j s none e h =
      attach-IsSingle j s.fresh (start_probe j s) (start_probe-IsSingle j s e h)

  returned-IsSingle :
      (s : Probes) (r : Option Fault) (o : Option (Probe × List Probe))
      → Taken (λ p. p.number < s.fresh) o
      → TakenApart AreApart o
      → Taken (IsRegistered s.registry) o
      → IsSingle s
      → IsSingle (returned r o s)
  unfolding returned
  returned-IsSingle s r none b a t h = h
  returned-IsSingle s r (some (p, others)) b a t h = elim (Bool-cases (is_some p.outcome)) [
    | inl e ↦ rw e h
    | inr e ↦ rw e (record { below = b; apart = a; registered = t })
  ]

  -- Another probe's entry stays.
  delete-IsRegistered :
      (q p : Probe) (o : Option ℕ) (m : Assoc ℕ)
      → lookup q.path m ≡ o
      → q.number ≢ p.number
      → IsRegistered m p
      → IsRegistered (compare_and_delete q.path q.number o m) p
  unfolding compare_and_delete
  delete-IsRegistered q p none m found apart h e l = h e l
  delete-IsRegistered q p (some k) m found apart h e l =
      ground (arith, lookup-erase q.path path m, eq_iff q.path path, h e l, found, apart)

  both :
      (q : Probe) (o : Option ℕ) (m : Assoc ℕ) (ps : List Probe)
      → lookup q.path m ≡ o
      → All (AreApart q) ps
      → All (IsRegistered m) ps
      → All (IsRegistered (compare_and_delete q.path q.number o m)) ps
  both q o m [] found a t = tt
  both q o m (p ∷ ps) found a t =
      (delete-IsRegistered q p o m found a.0 t.0, both q o m ps found a.1 t.1)

  finished-IsSingle :
      (s : Probes) (o : Option (Probe × List Probe))
      → Taken (λ p. p.number < s.fresh) o
      → TakenApart AreApart o
      → Taken (IsRegistered s.registry) o
      → IsSingle s
      → IsSingle (finished o s)
  unfolding finished
  finished-IsSingle s none b a t h = h
  finished-IsSingle s (some (p, others)) b a t h = elim (Bool-cases (is_some p.outcome)) [
    | inr e ↦ rw e h
    | inl e ↦ rw e (record {
      below = b.1;
      apart = a.1;
      registered = both p (lookup p.path s.registry) s.registry others refl a.0 t.1;
    })
  ]

  -- The steps that touch neither the map nor the probes in flight.
  signalled-IsSingle :
      (s : Probes) (o : Option (Probe × List Probe)) → IsSingle s → IsSingle (signalled o s)
  unfolding signalled
  signalled-IsSingle s none h = h
  signalled-IsSingle s (some (p, others)) h = record {
    below = h.below;
    apart = h.apart;
    registered = h.registered;
  }

  answered-IsSingle :
      (s : Probes) (r : Option (Option Fault)) (c : Caller) (others : List Caller)
      → IsSingle s
      → IsSingle (answered r c others s)
  unfolding answered
  answered-IsSingle s r c others h = record {
    below = h.below;
    apart = h.apart;
    registered = h.registered;
  }

  from_probe-IsSingle :
      (s : Probes) (c : Caller) (others : List Caller) (o : Option (Probe × List Probe))
      → IsSingle s
      → IsSingle (from_probe o c others s)
  unfolding from_probe
  from_probe-IsSingle s c others none h = h
  from_probe-IsSingle s c others (some (p, rest)) h = answered-IsSingle s p.outcome c others h

  received-IsSingle :
      (s : Probes) (o : Option (Caller × List Caller)) → IsSingle s → IsSingle (received o s)
  unfolding received
  received-IsSingle s none h = h
  received-IsSingle s (some (c, others)) h =
      from_probe-IsSingle s c others (take_first (λ p. eqb p.number c.probe) s.closed) h

  expired-IsSingle :
      (s : Probes) (o : Option (Caller × List Caller)) → IsSingle s → IsSingle (expired o s)
  unfolding expired
  expired-IsSingle s none h = h
  expired-IsSingle s (some (c, others)) h = answered-IsSingle s none c others h

  reset_statfs_probe-IsSingle :
      (j : String) (s : Probes)
      → ((k : ℕ) → L k → j ≢ path)
      → IsSingle s
      → IsSingle (reset_statfs_probe j s)
  unfolding reset_statfs_probe
  reset_statfs_probe-IsSingle j s other h = record {
    below = h.below;
    apart = h.apart;
    registered =
        All-map _ _ s.in_flight
          (λ p r e l.
            let apart = other p.number l in
            ground (arith, lookup-erase j path s.registry, eq_iff j path, apart, r e l))
          h.registered;
  }

  perform-IsSingle :
      (s : Probes) (e : Event) → KeepsFor path L e → IsSingle s → IsSingle (perform s e)
  unfolding perform
  perform-IsSingle s (arrives j) k h = load_or_store-IsSingle j s (lookup j s.registry) refl h
  perform-IsSingle s (returns i r) k h =
      returned-IsSingle s r (take_first _ s.in_flight) (take_first-Taken _ _ s.in_flight h.below)
        (take_first-TakenApart AreApart (λ p q a e. a (sym e)) _ s.in_flight h.apart)
        (take_first-Taken _ _ s.in_flight h.registered) h
  perform-IsSingle s (drops i) k h =
      finished-IsSingle s (take_first _ s.in_flight) (take_first-Taken _ _ s.in_flight h.below)
        (take_first-TakenApart AreApart (λ p q a e. a (sym e)) _ s.in_flight h.apart)
        (take_first-Taken _ _ s.in_flight h.registered) h
  perform-IsSingle s (closes i) k h = signalled-IsSingle s (take_first _ s.dropped) h
  perform-IsSingle s (receives i) k h = received-IsSingle s (take_first _ s.waiting) h
  perform-IsSingle s (expires i) k h = expired-IsSingle s (take_first _ s.waiting) h
  perform-IsSingle s (resets j) k h = reset_statfs_probe-IsSingle j s k h

  pub perform_all-IsSingle :
      (s : Probes) (events : List Event)
      → All (KeepsFor path L) events
      → IsSingle s
      → IsSingle (perform_all s events)
  unfolding perform_all
  perform_all-IsSingle s [] k h = h
  perform_all-IsSingle s (e ∷ events) k h =
      perform_all-IsSingle (perform s e) events k.1 (perform-IsSingle s e k.0 h)
