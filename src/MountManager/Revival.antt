-- ===== src/MountManager/Revival.antt =====
-- Mount where the process of the volume is over.
use seaweedfs_csi_driver.Base.{ℕ, none, some, List, [], ◌∷◌, lookup, ◌≡◌}
use seaweedfs_csi_driver.MountManager.{MountRequest, MountFault, Answers, prepare, wait_for_mount}
use seaweedfs_csi_driver.MountManager.Machine.{free, Manager, entry_of, launch, Event, advances}

-- The phases of a Mount that waits for the dead process, with what is answered in each of them.
abbrev pub phases : MountRequest → Answers → Answers → Answers → Answers → List Event
phases req a b c d =
    advances req.volume_id a
    ∷ advances req.volume_id b
    ∷ advances req.volume_id c
    ∷ advances req.volume_id d
    ∷ []

-- The process has an entry at the end of the call.
abbrev pub Mounted : MountRequest → ℕ → Manager → Type 0
Mounted req n t =
    (lookup req.volume_id t.mounts ≡ some (entry_of req n)) × (t.phase req.volume_id ≡ free)

-- The volume has no entry at the end of the call.
abbrev pub Dropped : MountRequest → Manager → Type 0
Dropped req t = lookup req.volume_id t.mounts ≡ none

module _ (req : MountRequest) (d : Answers) where
  module _ (b c : Answers) where
    -- What is left of a call that starts a process: with the command started and the mount found, the
    -- new process; with neither, nothing.
    abbrev pub Outcome : ℕ → Manager → Type 0
    Outcome n t =
        (prepare b req ≡ none → wait_for_mount c 10000 ≡ some none → Mounted req n t)
        × ((e : MountFault) → prepare b req ≡ some e → Dropped req t)
        × ((e : MountFault)
            → prepare b req ≡ none
            → wait_for_mount c 10000 ≡ some (some e)
            → Dropped req t)

    abbrev last_two : List Event
    last_two = advances req.volume_id c ∷ advances req.volume_id d ∷ []

    abbrev launched : Manager → Manager
    launched s = launch req.volume_id req none s
