-- ===== src/Staging/Quiet.antt =====
-- The checks of Staging make no recursive removal, and change nothing but the history.
use seaweedfs_csi_driver.Base.{String, Bool, true, false, Option, none, some}
use seaweedfs_csi_driver.Base.Exec.{Result, ok, err, Moves, moves_rules}
use seaweedfs_csi_driver.Host.{Fault, NodeServer}
use seaweedfs_csi_driver.Host.Quiet.{IsQuiet, host_rules}
use seaweedfs_csi_driver.Staging.{
  fail_if, healthy_mount, healthy_directory, is_staging_path_healthy, live_path,
  is_staging_path_live, is_dead_mount, checked_mount, check_mount,
}

module _ {R : NodeServer → NodeServer → Type 0} (q : IsQuiet R) where
  pub Moves-fail_if : (r : Option Fault) → Moves R (fail_if r)
  unfolding fail_if
  Moves-fail_if none = search (moves_rules, q.order)
  Moves-fail_if (some e) = search (moves_rules, q.order)

  healthy_mount_quiet : (path : String) (b : Bool) → Moves R (healthy_mount path b)
  unfolding healthy_mount
  healthy_mount_quiet path true = search (moves_rules, host_rules, q.order, q)
  healthy_mount_quiet path false = search (moves_rules, host_rules, q.order, q)

  healthy_directory_quiet : (path : String) (b : Bool) → Moves R (healthy_directory path b)
  unfolding healthy_directory
  healthy_directory_quiet path true =
      search (moves_rules, host_rules, q.order, q, healthy_mount_quiet)
  healthy_directory_quiet path false = search (moves_rules, q.order)

  pub Moves-is_staging_path_healthy : (path : String) → Moves R (is_staging_path_healthy path)
  unfolding is_staging_path_healthy
  Moves-is_staging_path_healthy path =
      search (moves_rules, host_rules, q.order, q, healthy_directory_quiet)

  live_path_quiet : (path : String) (r : Result Fault Bool) → Moves R (live_path path r)
  unfolding live_path
  live_path_quiet path (ok b) = search (moves_rules, host_rules, q.order, q)
  live_path_quiet path (err e) = search (moves_rules, q.order)

  pub Moves-is_staging_path_live : (path : String) → Moves R (is_staging_path_live path)
  unfolding is_staging_path_live
  Moves-is_staging_path_live path = search (moves_rules, host_rules, q.order, q, live_path_quiet)

  pub Moves-is_dead_mount : (path : String) → Moves R (is_dead_mount path)
  unfolding is_dead_mount
  Moves-is_dead_mount path = search (moves_rules, host_rules, q.order, q)

  checked_mount_quiet : (path : String) (r : Result Fault Bool) → Moves R (checked_mount path r)
  unfolding checked_mount
  checked_mount_quiet path (ok b) = search (moves_rules, q.order)
  checked_mount_quiet path (err e) =
      search (moves_rules, host_rules, q.order, q, Moves-fail_if) depth 9

  pub Moves-check_mount : (path : String) → Moves R (check_mount path)
  unfolding check_mount
  Moves-check_mount path = search (moves_rules, host_rules, q.order, q, checked_mount_quiet)

pub ruleset staging_rules = (
  Moves-fail_if, Moves-is_staging_path_healthy, Moves-is_staging_path_live, Moves-is_dead_mount,
  Moves-check_mount,
)
