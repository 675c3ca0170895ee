-- ===== src/Health/Probing.antt =====
-- The probes of a volume's mounts by the health monitor: checkHealthDetailed, live, probeStaging and
-- hasUnhealthyPublishPath of pkg/driver/health_monitor.go.
use seaweedfs_csi_driver.Base.{String, Bool, true, false, ◌&&◌, [], ◌∷◌, Assoc, if◌then◌else◌}
use seaweedfs_csi_driver.Base.Exec.{pure, ◌>>=◌, ◌>>◌}
use seaweedfs_csi_driver.Host.{
  Node, ask, note, within_budget, health_probe, session_up, probe_healthy, probe_timeout,
  probe_unhealthy, probe_dead,
}
use seaweedfs_csi_driver.Staging.{is_ok_true, is_staging_path_healthy, is_staging_path_live}

-- The verdict of the check, and whether it ran out of time (or panicked).
unfoldable pub check_health_detailed : String → Node (Bool × Bool)
check_health_detailed path = do
  healthy ← is_staging_path_healthy path
  in_time ← ask (within_budget path)
  pure (if is_ok_true in_time then (healthy, false) else (false, true))

unfoldable pub check_health : String → Node Bool
check_health path = do verdict ← check_health_detailed path; pure verdict.0

-- A check that misses its budget counts as not live.
unfoldable pub live : String → Node Bool
live path = do
  alive ← is_staging_path_live path
  in_time ← ask (within_budget path)
  pure (is_ok_true in_time && alive)

unfoldable pub record_slow : String → Bool → Bool → Node Bool
record_slow volume_id timed_out false = do
  note (health_probe volume_id probe_dead)
  note (session_up volume_id false)
  pure false
record_slow volume_id timed_out true = do
  note (health_probe volume_id (if timed_out then probe_timeout else probe_unhealthy))
  note (session_up volume_id true)
  pure false

unfoldable pub record_probe : String → String → Bool × Bool → Node Bool
unfolding record_slow
record_probe volume_id path (true, timed_out) = do
  note (health_probe volume_id probe_healthy)
  note (session_up volume_id true)
  pure true
record_probe volume_id path (false, timed_out) = do
  alive ← live path
  record_slow volume_id timed_out alive

unfoldable pub probe_staging : String → String → Node Bool
unfolding record_probe
probe_staging volume_id path = do
  verdict ← check_health_detailed path
  record_probe volume_id path verdict

-- Whether one of the tracked publish paths fails its check; the first one ends the search.
unfoldable pub has_unhealthy_publish_path : Assoc Bool → Node Bool
has_unhealthy_publish_path [] = pure false
has_unhealthy_publish_path ((path, read_only) ∷ paths) = do
  healthy ← check_health path
  if healthy then has_unhealthy_publish_path paths else pure true
