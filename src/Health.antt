-- ===== src/Health.antt =====
-- The health monitor, pkg/driver/health_monitor.go: its probes, the backoff between recoveries, and
-- the recovery of a volume. Times are in nanoseconds. A sweep's checks of one volume run here
-- without other steps in between; the recovery loads the volume again, so its theorems hold from
-- any state.
pub mod Backoff
mod Probing
pub mod Sweep
pub mod Steps
pub mod Protection
pub mod Writes
pub mod WellFormed
unfoldable pub use Probing.{
  check_health_detailed, check_health, live, record_slow, record_probe, probe_staging,
  has_unhealthy_publish_path,
}
unfoldable pub use Backoff.{
  recovery_wait, recovery_throttled, note_recovery_attempt, reset_recovery_backoff,
}
use seaweedfs_csi_driver.Base.{
  String, Bool, true, false, not, ◌&&◌, Option, none, some, List, [], ◌∷◌, Assoc, lookup, insert,
  is_some, if◌then◌else◌, ◌==◌,
}
use seaweedfs_csi_driver.Base.Exec.{Result, ok, err, pure, raise, attempt, modify, ◌>>=◌, ◌>>◌}
use seaweedfs_csi_driver.Host.{
  Fault, plain_fault, Volume, NodeServer, Node, ask, act, note, get_volume, store_volume,
  read_device, within_budget, is_likely_not_mount_point, unmount, lazy_unmount, cleanup_mount_point,
  reset_probe, health_probe, recovery, session_up, remount_in_containers, remount_stale_fuse,
  probe_healthy, probe_timeout, probe_unhealthy, probe_dead, success, failed, skipped_still_live,
  throttled,
}
use seaweedfs_csi_driver.Staging.{
  fail_if, is_ok_true, is_staging_path_healthy, is_staging_path_live, is_dead_mount,
  cleanup_stale_staging_path,
}
use seaweedfs_csi_driver.Volume.{publish, unmounter_unmount, stage_new_volume, add_publish_path}

force_cleanup : String → Option Fault → Node Bool
force_cleanup path none = do note (reset_probe path); pure true
force_cleanup path (some e) = pure false

after_unmount : String → Option Fault → Node Bool
unfolding force_cleanup
after_unmount path none = do note (reset_probe path); pure true
after_unmount path (some e) = do
  cleaned ← act (cleanup_mount_point path)
  force_cleanup path cleaned

unfoldable pub tear_down_stale_publish_bind : String → Node Bool
unfolding after_unmount
tear_down_stale_publish_bind path = do gone ← act (unmount path); after_unmount path gone

report_rebind : String → String → Bool → Result Fault (Unit {0}) → Node (Unit {0})
report_rebind staged path read_only (ok u) = note (remount_stale_fuse path staged read_only)
report_rebind staged path read_only (err e) = pure tt

rebind_if : String → String → Bool → Bool → Node (Unit {0})
unfolding report_rebind
rebind_if staged path read_only false = pure tt
rebind_if staged path read_only true = do
  bound ← attempt (publish staged path read_only)
  report_rebind staged path read_only bound

retry_unhealthy : String → String → Bool → Bool → Node (Unit {0})
unfolding rebind_if
retry_unhealthy staged path read_only true = pure tt
retry_unhealthy staged path read_only false = do
  gone ← tear_down_stale_publish_bind path
  rebind_if staged path read_only gone

retry_each : String → Assoc Bool → Node (Unit {0})
unfolding retry_unhealthy
retry_each staged [] = pure tt
retry_each staged ((path, read_only) ∷ paths) = do
  healthy ← check_health path
  retry_unhealthy staged path read_only healthy
  retry_each staged paths

retry_known : Option Volume → Node (Unit {0})
unfolding retry_each
retry_known none = pure tt
retry_known (some vol) = do
  healthy ← check_health vol.staged_path
  if healthy then retry_each vol.staged_path vol.publish_paths else pure tt

unfoldable pub retry_publish_paths : String → Node (Unit {0})
unfolding retry_known
retry_publish_paths volume_id = do known ← get_volume volume_id; retry_known known

-- Step 1 of a recovery: stop the mount through its manager.
pub stop_old : String → Option String → Node (Unit {0})
stop_old path none = pure tt
stop_old path (some u) = do unmounter_unmount u; note (reset_probe path)

detach_if_dead : String → Bool → Node (Unit {0})
unfolding fail_if
detach_if_dead path false = raise plain_fault
detach_if_dead path true = do gone ← act (lazy_unmount path); fail_if gone; note (reset_probe path)

-- A path that still looks mounted is cleaned up only if its daemon is dead.
pub detach_old : String → Result Fault Bool → Node (Unit {0})
unfolding detach_if_dead
detach_old path (err e) = pure tt
detach_old path (ok true) = pure tt
detach_old path (ok false) = do dead ← is_dead_mount path; detach_if_dead path dead

-- Which of the publish binds are gone.
pub tear_down_all : Assoc Bool → Node (Assoc Bool)
tear_down_all [] = pure []
tear_down_all ((path, read_only) ∷ paths) = do
  gone ← tear_down_stale_publish_bind path
  rest ← tear_down_all paths
  pure (insert path gone rest)

abbrev pub is_gone : String → Assoc Bool → Bool
is_gone path unmounted = elim (lookup path unmounted) [ none ↦ false | some b ↦ b ]

abbrev bound_ok : Result Fault (Unit {0}) → Bool
bound_ok (ok u) = true
bound_ok (err e) = false

republish_if : String → String → Bool → Bool → Node Bool
republish_if path target read_only false = pure false
republish_if path target read_only true = do
  bound ← attempt (publish path target read_only)
  pure (bound_ok bound)

-- The publish paths that were bound again; the others have failed.
pub republish_all : String → Assoc Bool → Assoc Bool → Node (Assoc Bool)
unfolding republish_if
republish_all path unmounted [] = pure []
republish_all path unmounted ((target, read_only) ∷ paths) = do
  bound ← republish_if path target read_only (is_gone target unmounted)
  rest ← republish_all path unmounted paths
  pure (if bound then (target, read_only) ∷ rest else rest)

add_all : Assoc Bool → Volume → Volume
add_all [] vol = vol
add_all ((target, read_only) ∷ paths) vol = add_all paths (add_publish_path target read_only vol)

pub remount_each : String → String → Assoc Bool → Node (Unit {0})
remount_each path device [] = pure tt
remount_each path device ((target, read_only) ∷ paths) = do
  note (remount_in_containers target path device read_only)
  remount_each path device paths

same_length : Assoc Bool → Assoc Bool → Bool
same_length [] [] = true
same_length (x ∷ xs) (y ∷ ys) = same_length xs ys
same_length _ _ = false

-- Steps 1 to 7; an error is a recovery that was given up. The answer is whether every publish
-- path was bound again.
rebuild_mount : String → Volume → Assoc String → String → Node Bool
unfolding stop_old detach_old tear_down_all republish_all add_all remount_each same_length
rebuild_mount volume_id vol context device = do
  stop_old vol.staged_path vol.unmounter
  not_mounted ← ask (is_likely_not_mount_point vol.staged_path)
  detach_old vol.staged_path not_mounted
  cleanup_stale_staging_path vol.staged_path
  new_vol ← stage_new_volume volume_id vol.staged_path context vol.read_only
  unmounted ← tear_down_all vol.publish_paths
  recovered ← republish_all vol.staged_path unmounted vol.publish_paths
  store_volume volume_id (add_all vol.publish_paths new_vol)
  if device == "" then pure tt else remount_each vol.staged_path device recovered
  pure (same_length recovered vol.publish_paths)

pub report_recovery : String → Result Fault Bool → Node (Unit {0})
report_recovery volume_id (err e) = note (recovery volume_id failed)
report_recovery volume_id (ok false) = note (recovery volume_id failed)
report_recovery volume_id (ok true) = do
  note (recovery volume_id success)
  note (session_up volume_id true)

tear_down_unless : String → Volume → Assoc String → String → Bool → Node (Unit {0})
unfolding rebuild_mount report_recovery
tear_down_unless volume_id vol context device true = do
  note_recovery_attempt volume_id
  note (recovery volume_id skipped_still_live)
tear_down_unless volume_id vol context device false = do
  note_recovery_attempt volume_id
  rebuilt ← attempt (rebuild_mount volume_id vol context device)
  report_recovery volume_id rebuilt

-- The live check is made only where something is published.
pub protected : Assoc Bool → String → Node Bool
protected [] path = pure false
protected (p ∷ ps) path = live path

device_text : Result Fault String → String
device_text (ok d) = d
device_text (err e) = ""

pub first_device : Assoc Bool → Node String
unfolding device_text
first_device [] = pure ""
first_device ((path, read_only) ∷ paths) = do
  found ← read_device path
  if device_text found == "" then first_device paths else pure (device_text found)

recover_with : String → Volume → Option (Assoc String) → Node (Unit {0})
unfolding device_text first_device protected tear_down_unless
recover_with volume_id vol none = pure tt
recover_with volume_id vol (some context) = do
  found ← read_device vol.staged_path
  device ←
      if device_text found == "" then first_device vol.publish_paths else pure (device_text found)
  alive ← protected vol.publish_paths vol.staged_path
  tear_down_unless volume_id vol context device alive

recover_unless_healthy : String → Volume → Bool → Node (Unit {0})
unfolding recover_with
recover_unless_healthy volume_id vol true = modify (reset_recovery_backoff volume_id)
recover_unless_healthy volume_id vol false = recover_with volume_id vol vol.vol_context

recover_known : String → Option Volume → Node (Unit {0})
unfolding recover_unless_healthy
recover_known volume_id none = pure tt
recover_known volume_id (some vol) = do
  healthy ← check_health vol.staged_path
  recover_unless_healthy volume_id vol healthy

recover_unless_throttled : String → Bool → Node (Unit {0})
unfolding recover_known
recover_unless_throttled volume_id true = note (recovery volume_id throttled)
recover_unless_throttled volume_id false = do
  known ← get_volume volume_id
  recover_known volume_id known

unfoldable pub recover_volume : String → Node (Unit {0})
unfolding recover_unless_throttled
recover_volume volume_id = do
  early ← recovery_throttled volume_id
  recover_unless_throttled volume_id early

check_publish_paths : String → Volume → Node (Unit {0})
check_publish_paths volume_id vol = do
  unhealthy ← has_unhealthy_publish_path vol.publish_paths
  if unhealthy then retry_publish_paths volume_id else pure tt

check_after_probe : String → Volume → Bool → Node (Unit {0})
unfolding check_publish_paths
check_after_probe volume_id vol false = recover_volume volume_id
check_after_probe volume_id vol true = do
  modify (reset_recovery_backoff volume_id)
  check_publish_paths volume_id vol

check_known : String → Option Volume → Node (Unit {0})
unfolding check_after_probe
check_known volume_id none = pure tt
check_known volume_id (some vol) = if vol.staged_path == "" then pure tt else do
  healthy ← probe_staging volume_id vol.staged_path
  check_after_probe volume_id vol healthy

unfoldable pub perform_volume_health_check : String → Node (Unit {0})
unfolding check_known
perform_volume_health_check volume_id = do known ← get_volume volume_id; check_known volume_id known
