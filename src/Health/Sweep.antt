-- ===== src/Health/Sweep.antt =====
-- The sweeps of the health monitor, pkg/driver/health_monitor.go: startHealthMonitor,
-- checkAndRecoverVolumes and launchVolumeHealthCheck, with NodeCleanup of pkg/driver/nodeserver.go,
-- where the loop, the goroutines of the checks and the cleanup interleave.
pub mod Single
use seaweedfs_csi_driver.Base.{
  String, Bool, true, false, not, ◌&&◌, ◌||◌, Option, none, some, List, [], ◌∷◌, All, if◌then◌else◌,
  ◌==◌, ◌≡◌, ◌≢◌, refl, sym, subst, arith, eq_iff, Bool-cases, inl, inr,
}
use seaweedfs_csi_driver.Base.Take.{
  take_first, Taken, take_first-Taken, TakenApart, take_first-TakenApart, Pairwise, Found,
  take_first-Found,
}

-- The loop waits for a tick, goes through the volumes of a sweep, or has returned.
pub data Loop : Type 0 where
  idle returned : Loop
  sweeping : List String → Loop

-- activeRecoveries and the goroutines of the checks, which recoveryWg counts, the loop, whether stopCh is closed and
-- whether NodeCleanup has returned.
pub record Monitor : Type 0 where
  pub active : List String
  pub running : List String
  pub loop : Loop
  pub closed : Bool
  pub cleaned : Bool

-- A tick comes with the ids of the volumes that have a staged path, in the order of the range.
pub data Happening : Type 0 where
  ticks : List String → Happening
  launches sees_stop stops waits : Happening
  finishes : String → Happening

unfoldable pub holds : String → List String → Bool
holds v [] = false
holds v (w ∷ ws) = w == v || holds v ws

-- launchVolumeHealthCheck.
unfoldable pub launch_check : String → Monitor → Monitor
unfolding holds
launch_check v s =
    if holds v s.active then s else record s { active = v ∷ s.active; running = v ∷ s.running }

-- activeRecoveries.Delete
unfoldable pub forget : String → List String → List String
forget v [] = []
forget v (w ∷ ws) = let rest = forget v ws in if w == v then rest else w ∷ rest

-- The deferred calls of a check.
unfoldable pub end_check : Option (String × List String) → Monitor → Monitor
unfolding forget
end_check none s = s
end_check (some (v, others)) s = record s { active = forget v s.active; running = others }

-- The select of the loop, where a tick is there: it may be taken although stopCh is closed.
unfoldable pub start_sweep : List String → Loop → Loop
start_sweep volumes idle = sweeping volumes
start_sweep volumes loop = loop

unfoldable pub next_volume : Loop → Monitor → Monitor
unfolding launch_check
next_volume (sweeping []) s = record s { loop = idle }
next_volume (sweeping (v ∷ volumes)) s = launch_check v (record s { loop = sweeping volumes })
next_volume idle s = s
next_volume returned s = s

unfoldable pub leave_loop : Bool → Loop → Loop
leave_loop true idle = returned
leave_loop closed loop = loop

unfoldable pub is_done : List String → Bool
is_done [] = true
is_done (v ∷ running) = false

unfoldable pub happen : Monitor → Happening → Monitor
unfolding start_sweep next_volume leave_loop end_check is_done take_first
happen s (ticks volumes) = record s { loop = start_sweep volumes s.loop }
happen s launches = next_volume s.loop s
happen s sees_stop = record s { loop = leave_loop s.closed s.loop }
happen s stops = record s { closed = true }
happen s waits = record s { cleaned = s.cleaned || (s.closed && is_done s.running) }
happen s (finishes v) = end_check (take_first (λ w. w == v) s.running) s

unfoldable pub happen_all : Monitor → List Happening → Monitor
unfolding happen
happen_all s [] = s
happen_all s (h ∷ hs) = happen_all (happen s h) hs

abbrev pub new_monitor : Monitor
new_monitor = record { active = []; running = []; loop = idle; closed = false; cleaned = false }
