-- ===== src/Probes/Carried.antt =====
-- Invariants of the statfs probes that are given item by item: what holds of each entry of the map,
-- each probe, each caller and each answer, under the counters of the state.
pub mod Arrivals
pub mod Steps
use seaweedfs_csi_driver.Base.{
  ℕ, suc, String, Option, none, some, List, [], ◌∷◌, Assoc, lookup, insert, lookup-insert,
  lookup-erase, eqb, is_some, All, ◌≡◌, refl, arith, Bool-cases, inl, inr, subst, ◌==◌,
}
use seaweedfs_csi_driver.Base.Take.{
  take_first, Taken, take_first-Taken, All-map, Found, take_first-Found,
}
use seaweedfs_csi_driver.Host.{Fault}
use seaweedfs_csi_driver.Probes.{
  Probe, Caller, Answer, Probes, Event, arrives, resets, returns, drops, closes, receives, expires,
  attach, start_probe, load_or_store, compare_and_delete, returned, finished, signalled, answered,
  from_probe, received, expired, reset_statfs_probe, perform, perform_all,
}

-- What holds of the items, `f` being the next probe's number and `a` the next caller's, and of the
-- events.
pub record Predicates : Type 1 where
  pub counter : (f : ℕ) → Type 0
  pub registered : (f : ℕ) → String → ℕ → Type 0
  pub probe : (f : ℕ) → Probe → Type 0
  pub caller : (a f : ℕ) → Caller → Type 0
  pub answer : (a f : ℕ) → Answer → Type 0
  pub event : Event → Type 0

-- What makes every step keep them.
pub record AreKept (P : Predicates) : Type 0 where
  pub counter_later : (f : ℕ) → P.counter f → P.counter (suc f)
  pub registered_later :
      (f k : ℕ) (path : String) → P.registered f path k → P.registered (suc f) path k
  pub probe_later : (f : ℕ) (p : Probe) → P.probe f p → P.probe (suc f) p
  pub caller_later : (a f : ℕ) (c : Caller) → P.caller a f c → P.caller a (suc f) c
  pub caller_arrival : (a f : ℕ) (c : Caller) → P.caller a f c → P.caller (suc a) f c
  pub answer_later : (a f : ℕ) (x : Answer) → P.answer a f x → P.answer a (suc f) x
  pub answer_arrival : (a f : ℕ) (x : Answer) → P.answer a f x → P.answer (suc a) f x
  pub starts_registered : (f : ℕ) (path : String) → P.counter f → P.registered (suc f) path f
  pub starts_probe :
      (f : ℕ) (path : String) → P.probe (suc f) (record { number = f; path = path; outcome = none })
  pub attaches :
      (a f k : ℕ) (path : String)
      → P.registered f path k
      → P.caller (suc a) f (record { number = a; path = path; probe = k })
  pub comes_back :
      (f n : ℕ) (r : Option Fault) (p : Probe)
      → P.event (returns n r)
      → p.number ≡ n
      → P.probe f p
      → P.probe f (record p { outcome = some r })
  pub answers :
      (a f : ℕ) (c : Caller) (p : Probe)
      → p.number ≡ c.probe
      → P.caller a f c
      → P.probe f p
      → P.answer a f (record { caller = c; result = p.outcome })
  pub gives_up :
      (a f : ℕ) (c : Caller) → P.caller a f c → P.answer a f (record { caller = c; result = none })

pub record Hold (P : Predicates) (s : Probes) : Type 0 where
  pub counter : P.counter s.fresh
  pub registry :
      (path : String) (k : ℕ) → lookup path s.registry ≡ some k → P.registered s.fresh path k
  pub in_flight : All (P.probe s.fresh) s.in_flight
  pub dropped : All (P.probe s.fresh) s.dropped
  pub closed : All (P.probe s.fresh) s.closed
  pub waiting : All (P.caller s.arrivals s.fresh) s.waiting
  pub answers : All (P.answer s.arrivals s.fresh) s.answers
