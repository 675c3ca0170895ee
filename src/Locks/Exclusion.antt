-- ===== src/Locks/Exclusion.antt =====
-- The locks without RemoveMutex.
use seaweedfs_csi_driver.Base.{
  ℕ, String, false, Option, none, some, List, [], ◌∷◌, Assoc, lookup, insert, lookup-insert, eq_iff,
  eq_refl, eqb, All, ◌≡◌, ◌≢◌, refl, sym, ◌∙◌, arith, ap, Bool-cases, inl, inr,
}
use seaweedfs_csi_driver.Locks.{
  Ticket, Locks, loaded, get_mutex, Action, wants, enters, leaves, removes, take_ticket, is_held,
  admit, release, request, perform, perform_all, no_locks,
}

-- The ticket's mutex is the one that the map has under its key.
abbrev IsCurrent : Assoc ℕ → Ticket → Type 0
IsCurrent m k = lookup k.key m ≡ some k.mutex

-- No two goroutines hold a lock of the same key.
abbrev pub IsExclusive : List Ticket → Type 0
IsExclusive [] = Unit
IsExclusive (k ∷ ks) = All (λ j. j.key ≢ k.key) ks × IsExclusive ks

record IsConsistent (s : Locks) : Type 0 where
  waiting : All (IsCurrent s.mutexes) s.waiting
  holding : All (IsCurrent s.mutexes) s.holding
  exclusive : IsExclusive s.holding

-- What holds of all tickets holds of the one taken and of the others.
abbrev Taken : (Ticket → Type 0) → Option (Ticket × List Ticket) → Type 0
Taken P none = Unit
Taken P (some (k, others)) = P k × All P others

Taken-later :
    (P : Ticket → Type 0) (k : Ticket) (o : Option (Ticket × List Ticket))
    → P k
    → Taken P o
    → Taken P (elim o [ none ↦ none | some (found, others) ↦ some (found, k ∷ others) ])
Taken-later P k none h i = tt
Taken-later P k (some (found, others)) h i = (i.0, (h, i.1))

take_ticket-Taken :
    (P : Ticket → Type 0) (t : ℕ) (ks : List Ticket) → All P ks → Taken P (take_ticket t ks)
unfolding take_ticket
take_ticket-Taken P t [] h = tt
take_ticket-Taken P t (k ∷ ks) h = elim (Bool-cases (eqb k.thread t)) [
  | inl e ↦ rw e (h.0, h.1)
  | inr e ↦ rw e (Taken-later P k (take_ticket t ks) h.0 (take_ticket-Taken P t ks h.1))
]

abbrev ExclusiveRest : Option (Ticket × List Ticket) → Type 0
ExclusiveRest none = Unit
ExclusiveRest (some (k, others)) = IsExclusive others

exclusive_later :
    (k : Ticket) (o : Option (Ticket × List Ticket))
    → Taken (λ j. j.key ≢ k.key) o
    → ExclusiveRest o
    → ExclusiveRest (elim o [ none ↦ none | some (found, others) ↦ some (found, k ∷ others) ])
exclusive_later k none h i = tt
exclusive_later k (some (found, others)) h i = (h.1, i)

take_ticket-ExclusiveRest :
    (t : ℕ) (ks : List Ticket) → IsExclusive ks → ExclusiveRest (take_ticket t ks)
unfolding take_ticket
take_ticket-ExclusiveRest t [] h = tt
take_ticket-ExclusiveRest t (k ∷ ks) h = elim (Bool-cases (eqb k.thread t)) [
  | inl e ↦ rw e h.1
  | inr e ↦ rw e (
      exclusive_later k (take_ticket t ks) (take_ticket-Taken _ t ks h.0)
        (take_ticket-ExclusiveRest t ks h.1))
]

-- A mutex that nobody holds is the current one of no key that somebody holds.
free_apart :
    (m : Assoc ℕ) (k : Ticket) (ks : List Ticket)
    → IsCurrent m k
    → All (IsCurrent m) ks
    → is_held k.mutex ks ≡ false
    → All (λ j. j.key ≢ k.key) ks
unfolding is_held
free_apart m k [] h all free = tt
free_apart m k (j ∷ ks) h all free = (
  λ same.
      let both : some j.mutex ≡ some k.mutex = sym all.0 ∙ ap (λ x. lookup x m) same ∙ h in
      absurd (ground arith),
  free_apart m k ks h all.1 (ground arith),
)

admit-IsConsistent :
    (s : Locks) (o : Option (Ticket × List Ticket))
    → IsConsistent s
    → Taken (IsCurrent s.mutexes) o
    → IsConsistent (admit o s)
unfolding admit
admit-IsConsistent s none c h = c
admit-IsConsistent s (some (k, others)) c h = elim (Bool-cases (is_held k.mutex s.holding)) [
  | inl e ↦ rw e c
  | inr e ↦ rw e (record {
    waiting = h.1;
    holding = (h.0, c.holding);
    exclusive = (free_apart s.mutexes k s.holding h.0 c.holding e, c.exclusive);
  })
]

release-IsConsistent :
    (s : Locks) (o : Option (Ticket × List Ticket))
    → IsConsistent s
    → Taken (IsCurrent s.mutexes) o
    → ExclusiveRest o
    → IsConsistent (release o s)
unfolding release
release-IsConsistent s none c h x = c
release-IsConsistent s (some (k, others)) c h x = record {
  waiting = c.waiting;
  holding = h.1;
  exclusive = x;
}

still-IsCurrent :
    (m : Assoc ℕ) (key : String) (v : ℕ) (ks : List Ticket)
    → lookup key m ≡ none
    → All (IsCurrent m) ks
    → All (IsCurrent (insert key v m)) ks
still-IsCurrent m key v [] new h = tt
still-IsCurrent m key v (k ∷ ks) new h = (
  ground (arith, lookup-insert key k.key v m, eq_iff key k.key, h.0),
  still-IsCurrent m key v ks new h.1,
)

request-IsConsistent :
    (t : ℕ) (key : String) (s : Locks) (o : Option ℕ)
    → lookup key s.mutexes ≡ o
    → IsConsistent s
    → IsConsistent (request t key (loaded key o s))
unfolding request loaded
request-IsConsistent t key s (some m) e c = record {
  waiting = (e, c.waiting);
  holding = c.holding;
  exclusive = c.exclusive;
}
request-IsConsistent t key s none e c = record {
  waiting = (
    lookup-insert key key s.fresh s.mutexes ∙ rw (eq_refl key) refl,
    still-IsCurrent s.mutexes key s.fresh s.waiting e c.waiting,
  );
  holding = still-IsCurrent s.mutexes key s.fresh s.holding e c.holding;
  exclusive = c.exclusive;
}

-- An action of keyMutex, which removes no mutex.
abbrev pub IsKept : Action → Type 0
IsKept (removes key) = ⊥
IsKept _ = Unit

perform-IsConsistent :
    (s : Locks) (a : Action) → IsKept a → IsConsistent s → IsConsistent (perform s a)
unfolding perform get_mutex
perform-IsConsistent s (wants t key) h c =
    request-IsConsistent t key s (lookup key s.mutexes) refl c
perform-IsConsistent s (enters t) h c =
    admit-IsConsistent s (take_ticket t s.waiting) c (take_ticket-Taken _ t s.waiting c.waiting)
perform-IsConsistent s (leaves t) h c =
    release-IsConsistent s (take_ticket t s.holding) c (take_ticket-Taken _ t s.holding c.holding)
      (take_ticket-ExclusiveRest t s.holding c.exclusive)
perform-IsConsistent s (removes key) h c = absurd h

perform_all-IsConsistent :
    (s : Locks) (actions : List Action)
    → All IsKept actions
    → IsConsistent s
    → IsConsistent (perform_all s actions)
unfolding perform_all
perform_all-IsConsistent s [] h c = c
perform_all-IsConsistent s (a ∷ actions) h c =
    perform_all-IsConsistent (perform s a) actions h.1 (perform-IsConsistent s a h.0 c)

-- Under keyMutex, which never removes a mutex, no two goroutines ever hold the lock of one key,
-- however the steps of getting, locking and unlocking interleave.
pub perform_all-IsExclusive :
    (actions : List Action)
    → All IsKept actions
    → IsExclusive (perform_all no_locks actions).holding
perform_all-IsExclusive actions h = IsConsistent.exclusive (
    perform_all-IsConsistent no_locks actions h
      (record { waiting = tt; holding = tt; exclusive = tt }))
