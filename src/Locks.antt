-- ===== src/Locks.antt =====
-- The locks by key: keyMutex of pkg/mountmanager/keymutex.go and KeyMutex of pkg/driver/utils.go,
-- with the goroutines that lock, hold and unlock them in any interleaving. A goroutine first gets
-- the mutex of its key and locks it in a later step; the one difference between the two types is
-- that only KeyMutex has RemoveMutex.
pub mod Exclusion
use seaweedfs_csi_driver.Base.{
  ℕ, suc, String, Bool, true, false, Option, none, some, List, [], ◌∷◌, Assoc, lookup, insert,
  erase, eqb, ◌||◌, not, if◌then◌else◌,
}

-- A goroutine with the mutex that it got for a key.
pub record Ticket : Type 0 where
  pub thread : ℕ
  pub key : String
  pub mutex : ℕ

-- The map of mutexes, known by numbers, the goroutines that have got a mutex and not locked it yet,
-- and those that hold theirs.
pub record Locks : Type 0 where
  pub mutexes : Assoc ℕ
  pub fresh : ℕ
  pub waiting : List Ticket
  pub holding : List Ticket

-- GetMutex, get: LoadOrStore of a new mutex.
loaded : String → Option ℕ → Locks → ℕ × Locks
loaded key (some m) s = (m, s)
loaded key none s =
    (s.fresh, record s { mutexes = insert key s.fresh s.mutexes; fresh = suc s.fresh })

unfoldable pub get_mutex : String → Locks → ℕ × Locks
unfolding loaded
get_mutex key s = loaded key (lookup key s.mutexes) s

-- RemoveMutex.
unfoldable pub remove_mutex : String → Locks → Locks
remove_mutex key s = record s { mutexes = erase key s.mutexes }

pub data Action : Type 0 where
  wants : ℕ → String → Action
  enters leaves : ℕ → Action
  removes : String → Action

-- The ticket of a goroutine, and the others.
unfoldable pub take_ticket : ℕ → List Ticket → Option (Ticket × List Ticket)
take_ticket t [] = none
take_ticket t (k ∷ ks) =
    let rest = take_ticket t ks in
    if eqb k.thread t
    then some (k, ks)
    else elim rest [ none ↦ none | some (found, others) ↦ some (found, k ∷ others) ]

-- Whether a mutex is held.
unfoldable pub is_held : ℕ → List Ticket → Bool
is_held m [] = false
is_held m (k ∷ ks) = eqb k.mutex m || is_held m ks

-- Lock: blocked while the mutex is held.
admit : Option (Ticket × List Ticket) → Locks → Locks
admit none s = s
admit (some (k, others)) s =
    if is_held k.mutex s.holding then s else record s { waiting = others; holding = k ∷ s.holding }

-- Unlock.
release : Option (Ticket × List Ticket) → Locks → Locks
release none s = s
release (some (k, others)) s = record s { holding = others }

request : ℕ → String → ℕ × Locks → Locks
request t key (m, s) = record s {
  waiting = record { thread = t; key = key; mutex = m } ∷ s.waiting;
}

unfoldable pub perform : Locks → Action → Locks
unfolding admit release request get_mutex
perform s (wants t key) = request t key (get_mutex key s)
perform s (enters t) = admit (take_ticket t s.waiting) s
perform s (leaves t) = release (take_ticket t s.holding) s
perform s (removes key) = remove_mutex key s

unfoldable pub perform_all : Locks → List Action → Locks
unfolding perform
perform_all s [] = s
perform_all s (a ∷ actions) = perform_all (perform s a) actions

abbrev pub no_locks : Locks
no_locks = record { mutexes = []; fresh = 0; waiting = []; holding = [] }
