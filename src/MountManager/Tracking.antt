-- ===== src/MountManager/Tracking.antt =====
-- The processes that the manager tracks: its entries, and the calls that hold a lock.

pub mod Steps
pub mod Handlers
pub mod Running
use seaweedfs_csi_driver.Base.{
  ℕ, ◌+◌, ◌<◌, ltb, eqb, String, Bool, true, false, ◌||◌, Option, none, some, List, [], ◌∷◌, lookup,
  insert, erase, ◌≡◌, ◌≢◌, ◌⊎◌, inl, inr, refl, arith, if◌then◌else◌, ◌==◌,
}
use seaweedfs_csi_driver.MountManager.{MountRequest}
use seaweedfs_csi_driver.MountManager.Machine.{
  MountEntry, Phase, free, starting, awaiting, launching, aborting, storing, stopping, clearing,
  Manager,
}

-- A process that was started for the volume.
abbrev pub Owned : Manager → String → ℕ → Type 0
Owned s v n = (n < s.started) × (s.owner n ≡ v)

abbrev pub EntryOwned : Manager → String → Option MountEntry → Type 0
EntryOwned s v none = Unit
EntryOwned s v (some e) = Owned s v e.process

-- The map has no other process.
abbrev pub OnlyOf : ℕ → Option MountEntry → Type 0
OnlyOf n none = Unit
OnlyOf n (some e) = e.process ≡ n

-- What the holder of the lock knows of the volume's entry.
abbrev pub Fits : Manager → String → Option MountEntry → Phase → Type 0
Fits s v entry free = Unit
Fits s v entry (starting req) = entry ≡ none
Fits s v entry (awaiting req n) = OnlyOf n entry
Fits s v entry (launching req n) = (entry ≡ none) × Owned s v n
Fits s v entry (aborting n e) = (entry ≡ none) × Owned s v n
Fits s v entry (storing e) = (entry ≡ none) × Owned s v e.process
Fits s v entry (stopping e) = OnlyOf e.process entry
Fits s v entry (clearing e) = OnlyOf e.process entry × (s.done e.process ≡ true)

abbrev pub entry_has : ℕ → Option MountEntry → Bool
entry_has n none = false
entry_has n (some e) = eqb e.process n

-- A call that has started the process holds it until it is stored or ended.
abbrev pub phase_has : ℕ → Phase → Bool
phase_has n free = false
phase_has n (starting req) = false
phase_has n (awaiting req m) = false
phase_has n (launching req m) = eqb m n
phase_has n (aborting m e) = eqb m n
phase_has n (storing e) = eqb e.process n
phase_has n (stopping e) = false
phase_has n (clearing e) = false

-- A process of the volume that was started, whose target is not yet unmounted after its exit, and
-- that no failed start has given up.
abbrev pub IsRunning : Manager → String → ℕ → Type 0
IsRunning s v n = Owned s v n × (s.done n ≡ false) × (s.abandoned n ≡ false)

pub record Settled (s : Manager) (v : String) (entry : Option MountEntry) (phase : Phase)
    : Type 0 where
  pub owned : EntryOwned s v entry
  pub fits : Fits s v entry phase
  pub tracked : (n : ℕ) → IsRunning s v n → (entry_has n entry || phase_has n phase) ≡ true

abbrev pub At : Manager → String → Type 0
At s v = Settled s v (lookup v s.mounts) (s.phase v)

-- A change of the processes that leaves those of the volume alone.
pub record Leaves (s t : Manager) (v : String) : Type 0 where
  pub keeps : (n : ℕ) → Owned s v n → Owned t v n
  pub ends : (n : ℕ) → s.done n ≡ true → t.done n ≡ true
  pub adds : (n : ℕ) → IsRunning t v n → IsRunning s v n

pub Fits-Leaves :
    (s t : Manager) (v : String) (entry : Option MountEntry) (phase : Phase)
    → Leaves s t v
    → Fits s v entry phase
    → Fits t v entry phase
Fits-Leaves s t v entry free l h = tt
Fits-Leaves s t v entry (starting req) l h = h
Fits-Leaves s t v entry (awaiting req n) l h = h
Fits-Leaves s t v entry (launching req n) l h = (h.0, l.keeps n h.1)
Fits-Leaves s t v entry (aborting n e) l h = (h.0, l.keeps n h.1)
Fits-Leaves s t v entry (storing e) l h = (h.0, l.keeps e.process h.1)
Fits-Leaves s t v entry (stopping e) l h = h
Fits-Leaves s t v entry (clearing e) l h = (h.0, l.ends e.process h.1)

EntryOwned-Leaves :
    (s t : Manager) (v : String) (entry : Option MountEntry)
    → Leaves s t v
    → EntryOwned s v entry
    → EntryOwned t v entry
EntryOwned-Leaves s t v none l h = tt
EntryOwned-Leaves s t v (some e) l h = l.keeps e.process h

pub Settled-Leaves :
    (s t : Manager) (v : String) (entry : Option MountEntry) (phase : Phase)
    → Leaves s t v
    → Settled s v entry phase
    → Settled t v entry phase
Settled-Leaves s t v entry phase l h = record {
  owned = EntryOwned-Leaves s t v entry l h.owned;
  fits = Fits-Leaves s t v entry phase l h.fits;
  tracked = λ n r. h.tracked n (l.adds n r);
}

-- An entry whose process is done may go, whatever the lock's holder does.
Fits-none :
    (s : Manager) (v : String) (entry : Option MountEntry) (phase : Phase)
    → Fits s v entry phase
    → Fits s v none phase
Fits-none s v entry free h = tt
Fits-none s v entry (starting req) h = refl
Fits-none s v entry (awaiting req n) h = tt
Fits-none s v entry (launching req n) h = (refl, h.1)
Fits-none s v entry (aborting n e) h = (refl, h.1)
Fits-none s v entry (storing e) h = (refl, h.1)
Fits-none s v entry (stopping e) h = tt
Fits-none s v entry (clearing e) h = (tt, h.1)

pub Settled-none :
    (s : Manager) (v : String) (e : MountEntry) (phase : Phase)
    → s.done e.process ≡ true
    → Settled s v (some e) phase
    → Settled s v none phase
Settled-none s v e phase d h = record {
  owned = tt;
  fits = Fits-none s v (some e) phase h.fits;
  tracked = λ n r. ground (arith, h.tracked n r, d, r.1);
}
