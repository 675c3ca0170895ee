-- ===== src/Health/Writes.antt =====
-- A health check and a recovery are made of steps on behalf of their own volume.
use seaweedfs_csi_driver.Base.{
  String, Bool, true, false, Option, none, some, Assoc, if◌then◌else◌, ◌==◌,
}
use seaweedfs_csi_driver.Base.Exec.{
  Moves, modify, moves_rules, Moves-bind, Moves-attempt, attempt, pure, Moves-if, Moves-pure,
}
use seaweedfs_csi_driver.Host.{Fault, Volume, NodeServer, read_device}
use seaweedfs_csi_driver.Host.Quiet.{host_rules, Moves-read_device}
use seaweedfs_csi_driver.Host.Conserves.{Conserves, conserves_rules}
use seaweedfs_csi_driver.Staging.{cleanup_stale_staging_path}
use seaweedfs_csi_driver.Staging.Quiet.{staging_rules}
use seaweedfs_csi_driver.Volume.Quiet.{volume_rules}
use seaweedfs_csi_driver.Health.Backoff.{
  note_recovery_attempt, recovery_throttled, reset_recovery_backoff,
}
use seaweedfs_csi_driver.Health.{
  rebuild_mount, tear_down_unless, protected, device_text, first_device, recover_with,
  recover_unless_healthy, recover_known, recover_unless_throttled, recover_volume,
  check_publish_paths, check_after_probe, check_known, perform_volume_health_check,
}
use seaweedfs_csi_driver.Health.Steps.{
  Moves-check_health, Moves-probe_staging, Moves-retry_publish_paths, stop_old_steps,
  detach_old_steps, tear_down_all_steps, republish_all_steps, remount_each_steps,
  report_recovery_steps, protected_steps, first_device_steps, unhealthy_steps,
}

ruleset health_rules = (moves_rules, host_rules, staging_rules, volume_rules, conserves_rules)

module _ {v : String} {R : NodeServer → NodeServer → Type 0} (c : Conserves v R)
    (cleanup : (path : String) → Moves R (cleanup_stale_staging_path path)) where
  attempt_steps : Moves R (note_recovery_attempt v)
  unfolding note_recovery_attempt
  attempt_steps = record { at = λ s. c.widen s _ }

  throttled_steps : Moves R (recovery_throttled v)
  unfolding recovery_throttled
  throttled_steps = record { at = λ s. c.quiet.order.reflexive s }

  reset_steps : Moves {E = Fault} R (modify (reset_recovery_backoff v))
  unfolding modify reset_recovery_backoff
  reset_steps = record { at = λ s. c.forget s }

  rebuild_mount_steps :
      (vol : Volume) (ctx : Assoc String) (d : String) → Moves R (rebuild_mount v vol ctx d)
  unfolding rebuild_mount
  rebuild_mount_steps vol ctx d =
      search
        (
          health_rules, c.quiet.order, c.quiet, c, cleanup, stop_old_steps, detach_old_steps,
          tear_down_all_steps, republish_all_steps, remount_each_steps,
        )
        depth 14

  tear_down_unless_steps :
      (vol : Volume) (ctx : Assoc String) (d : String) (b : Bool)
      → Moves R (tear_down_unless v vol ctx d b)
  unfolding tear_down_unless
  tear_down_unless_steps vol ctx d true =
      search (health_rules, c.quiet.order, c.quiet, attempt_steps)
  tear_down_unless_steps vol ctx d false =
      Moves-bind c.quiet.order (note_recovery_attempt v) _ attempt_steps λ u.
        Moves-bind c.quiet.order (attempt (rebuild_mount v vol ctx d)) _
          (Moves-attempt c.quiet.order (rebuild_mount v vol ctx d) (rebuild_mount_steps vol ctx d))
          (λ r. report_recovery_steps c.quiet v r)

  recover_with_steps :
      (vol : Volume) (ctx : Option (Assoc String)) → Moves R (recover_with v vol ctx)
  unfolding recover_with
  recover_with_steps vol none = search (health_rules, c.quiet.order)
  recover_with_steps vol (some ctx) =
      Moves-bind c.quiet.order (read_device vol.staged_path) _ (Moves-read_device c.quiet _)
        λ found.
          Moves-bind c.quiet.order
            (if device_text found == ""
              then first_device vol.publish_paths
              else pure (device_text found))
            _
            (Moves-if c.quiet.order (device_text found == "") _ _
              (first_device_steps c.quiet vol.publish_paths) (Moves-pure c.quiet.order _))
            λ device.
              Moves-bind c.quiet.order (protected vol.publish_paths vol.staged_path) _
                (protected_steps c.quiet vol.publish_paths vol.staged_path)
                (tear_down_unless_steps vol ctx device)

  recover_unless_healthy_steps :
      (vol : Volume) (b : Bool) → Moves R (recover_unless_healthy v vol b)
  unfolding recover_unless_healthy
  recover_unless_healthy_steps vol true = reset_steps
  recover_unless_healthy_steps vol false = recover_with_steps vol vol.vol_context

  recover_known_steps : (known : Option Volume) → Moves R (recover_known v known)
  unfolding recover_known
  recover_known_steps none = search (health_rules, c.quiet.order)
  recover_known_steps (some vol) =
      search (moves_rules, c.quiet.order, c.quiet, Moves-check_health, recover_unless_healthy_steps)

  recover_unless_throttled_steps : (b : Bool) → Moves R (recover_unless_throttled v b)
  unfolding recover_unless_throttled
  recover_unless_throttled_steps true = search (health_rules, c.quiet)
  recover_unless_throttled_steps false =
      search (health_rules, c.quiet.order, c.quiet, recover_known_steps)

  pub Moves-recover_volume : Moves R (recover_volume v)
  unfolding recover_volume
  Moves-recover_volume =
      search (moves_rules, c.quiet.order, throttled_steps, recover_unless_throttled_steps)

  check_publish_paths_steps : (vol : Volume) → Moves R (check_publish_paths v vol)
  unfolding check_publish_paths
  check_publish_paths_steps vol =
      search (moves_rules, c.quiet.order, c.quiet, unhealthy_steps, Moves-retry_publish_paths)

  check_after_probe_steps : (vol : Volume) (b : Bool) → Moves R (check_after_probe v vol b)
  unfolding check_after_probe
  check_after_probe_steps vol true =
      search (moves_rules, c.quiet.order, reset_steps, check_publish_paths_steps)
  check_after_probe_steps vol false = Moves-recover_volume

  check_known_steps : (known : Option Volume) → Moves R (check_known v known)
  unfolding check_known
  check_known_steps none = search (moves_rules, c.quiet.order)
  check_known_steps (some vol) =
      search (moves_rules, c.quiet.order, c.quiet, Moves-probe_staging, check_after_probe_steps)

  pub Moves-perform_volume_health_check : Moves R (perform_volume_health_check v)
  unfolding perform_volume_health_check
  Moves-perform_volume_health_check =
      search (health_rules, c.quiet.order, c.quiet, check_known_steps)
