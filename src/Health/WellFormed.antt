-- ===== src/Health/WellFormed.antt =====
-- A health check and a recovery keep the plugin's map well formed.
use seaweedfs_csi_driver.Base.{
  String, Bool, true, false, Option, none, some, [], ◌∷◌, Assoc, sym, ◌∙◌, ◌==◌, if◌then◌else◌,
}
use seaweedfs_csi_driver.Base.Exec.{
  pure, attempt, modify, Moves, Moves-bind, Moves-pure, Moves-if, Moves-attempt, IsPreorder,
}
use seaweedfs_csi_driver.Base.Returns.{Moves-bind-Returns}
use seaweedfs_csi_driver.Host.{Fault, Volume, ask, read_device, is_likely_not_mount_point}
use seaweedfs_csi_driver.Host.Quiet.{IsQuiet, Moves-ask, Moves-read_device, Moves-note}
use seaweedfs_csi_driver.Staging.{cleanup_stale_staging_path}
use seaweedfs_csi_driver.Volume.{stage_new_volume, add_publish_path}
use seaweedfs_csi_driver.Volume.Quiet.{Moves-stage_new_volume}
use seaweedfs_csi_driver.Volume.Staged.{
  IsSound, KeepsWellFormed, KeepsWellFormed-quiet, Moves-store_sound, Moves-get_sound, IsFound,
  stage_new_volume-Returns,
}
use seaweedfs_csi_driver.Node.WellFormed.{cleanup_sound}
use seaweedfs_csi_driver.Health.Backoff.{
  note_recovery_attempt, recovery_throttled, reset_recovery_backoff,
}
use seaweedfs_csi_driver.Health.Steps.{
  Moves-check_health, Moves-probe_staging, Moves-retry_publish_paths, stop_old_steps,
  detach_old_steps, tear_down_all_steps, republish_all_steps, remount_each_steps,
  report_recovery_steps, protected_steps, first_device_steps, unhealthy_steps,
}
use seaweedfs_csi_driver.Health.{
  add_all, rebuild_mount, tear_down_unless, protected, device_text, first_device, recover_with,
  recover_unless_healthy, recover_known, recover_unless_throttled, recover_volume,
  check_publish_paths, check_after_probe, check_known, perform_volume_health_check, probe_staging,
  check_health,
}

abbrev order : IsPreorder KeepsWellFormed
order = KeepsWellFormed-quiet.order

abbrev quiet : IsQuiet KeepsWellFormed
quiet = KeepsWellFormed-quiet

add_all-IsSound :
    (v : String) (paths : Assoc Bool) (vol : Volume) → IsSound v vol → IsSound v (add_all paths vol)
unfolding add_all
add_all-IsSound v [] vol h = h
add_all-IsSound v ((p, ro) ∷ paths) vol h =
    add_all-IsSound v paths (add_publish_path p ro vol)
      (record { keyed = h.keyed; staged = h.staged })

rebuild_mount_sound :
    (v w : String) (vol : Volume) (ctx : Assoc String) (d : String)
    → IsSound w vol
    → Moves KeepsWellFormed (rebuild_mount v vol ctx d)
unfolding rebuild_mount
rebuild_mount_sound v w vol ctx d sound =
    Moves-bind order _ _ (stop_old_steps quiet _ vol.unmounter) λ a.
      Moves-bind order (ask (is_likely_not_mount_point vol.staged_path)) _ (Moves-ask quiet _) λ b.
        Moves-bind order _ _ (detach_old_steps quiet vol.staged_path b) λ c.
          Moves-bind order (cleanup_stale_staging_path vol.staged_path) _ (cleanup_sound _) λ e.
            Moves-bind-Returns order _ (stage_new_volume v vol.staged_path ctx vol.read_only) _
              (Moves-stage_new_volume quiet _ _ _ _) (stage_new_volume-Returns _ _ _ _)
              λ new_vol staged.
                Moves-bind order _ _ (tear_down_all_steps quiet vol.publish_paths) λ unmounted.
                  Moves-bind order _ _
                    (republish_all_steps quiet vol.staged_path unmounted vol.publish_paths)
                    λ recovered.
                      Moves-bind order _ _
                        (Moves-store_sound v _ (
                          add_all-IsSound v vol.publish_paths new_vol (record {
                            keyed = staged.0;
                            staged = λ f. sound.staged (sym staged.1 ∙ f);
                          })))
                        λ f.
                          Moves-bind order _ _
                            (Moves-if order (d == "") _ _ (Moves-pure order tt)
                              (remount_each_steps quiet vol.staged_path d recovered))
                            (λ g. Moves-pure order _)

module _ (v : String) where
  attempt_sound : Moves KeepsWellFormed (note_recovery_attempt v)
  unfolding note_recovery_attempt
  attempt_sound = record { at = λ s h. record { entry = h.entry } }

  throttled_sound : Moves KeepsWellFormed (recovery_throttled v)
  unfolding recovery_throttled
  throttled_sound = record { at = λ s h. h }

  reset_sound : Moves {E = Fault} KeepsWellFormed (modify (reset_recovery_backoff v))
  unfolding modify reset_recovery_backoff
  reset_sound = record { at = λ s h. record { entry = h.entry } }

  module _ (vol : Volume) (sound : IsSound v vol) where
    tear_down_unless_sound :
        (ctx : Assoc String) (d : String) (b : Bool)
        → Moves KeepsWellFormed (tear_down_unless v vol ctx d b)
    unfolding tear_down_unless
    tear_down_unless_sound ctx d true =
        Moves-bind order (note_recovery_attempt v) _ attempt_sound (λ u. Moves-note quiet _)
    tear_down_unless_sound ctx d false =
        Moves-bind order (note_recovery_attempt v) _ attempt_sound λ u.
          Moves-bind order (attempt (rebuild_mount v vol ctx d)) _
            (Moves-attempt order _ (rebuild_mount_sound v v vol ctx d sound))
            (λ r. report_recovery_steps quiet v r)

    recover_with_sound :
        (ctx : Option (Assoc String)) → Moves KeepsWellFormed (recover_with v vol ctx)
    unfolding recover_with
    recover_with_sound none = Moves-pure order tt
    recover_with_sound (some ctx) =
        Moves-bind order (read_device vol.staged_path) _ (Moves-read_device quiet _) λ found.
          Moves-bind order
            (if device_text found == ""
              then first_device vol.publish_paths
              else pure (device_text found))
            _
            (Moves-if order (device_text found == "") _ _
              (first_device_steps quiet vol.publish_paths) (Moves-pure order _))
            λ device.
              Moves-bind order (protected vol.publish_paths vol.staged_path) _
                (protected_steps quiet vol.publish_paths vol.staged_path)
                (tear_down_unless_sound ctx device)

    recover_unless_healthy_sound :
        (b : Bool) → Moves KeepsWellFormed (recover_unless_healthy v vol b)
    unfolding recover_unless_healthy
    recover_unless_healthy_sound true = reset_sound
    recover_unless_healthy_sound false = recover_with_sound vol.vol_context

  recover_known_sound :
      (o : Option Volume) → IsFound v o → Moves KeepsWellFormed (recover_known v o)
  unfolding recover_known
  recover_known_sound none h = Moves-pure order tt
  recover_known_sound (some vol) h =
      Moves-bind order (check_health vol.staged_path) _ (Moves-check_health quiet _)
        (recover_unless_healthy_sound vol h)

  recover_unless_throttled_sound : (b : Bool) → Moves KeepsWellFormed (recover_unless_throttled v b)
  unfolding recover_unless_throttled
  recover_unless_throttled_sound true = Moves-note quiet _
  recover_unless_throttled_sound false = Moves-get_sound v _ recover_known_sound

  -- A recovery keeps the map well formed, wherever it is given up.
  pub recover_volume_sound : Moves KeepsWellFormed (recover_volume v)
  unfolding recover_volume
  recover_volume_sound =
      Moves-bind order (recovery_throttled v) _ throttled_sound recover_unless_throttled_sound

  check_publish_paths_sound : (vol : Volume) → Moves KeepsWellFormed (check_publish_paths v vol)
  unfolding check_publish_paths
  check_publish_paths_sound vol =
      Moves-bind order _ _ (unhealthy_steps quiet vol.publish_paths)
        λ b. Moves-if order b _ _ (Moves-retry_publish_paths quiet v) (Moves-pure order tt)

  check_after_probe_sound :
      (vol : Volume) (b : Bool) → Moves KeepsWellFormed (check_after_probe v vol b)
  unfolding check_after_probe
  check_after_probe_sound vol true =
      Moves-bind order _ _ reset_sound (λ u. check_publish_paths_sound vol)
  check_after_probe_sound vol false = recover_volume_sound

  check_known_sound : (o : Option Volume) → Moves KeepsWellFormed (check_known v o)
  unfolding check_known
  check_known_sound none = Moves-pure order tt
  check_known_sound (some vol) = Moves-if order (vol.staged_path == "") _ _ (Moves-pure order tt) (
      Moves-bind order (probe_staging v vol.staged_path) _ (Moves-probe_staging quiet v _)
        (check_after_probe_sound vol))

  -- A health check keeps the map well formed.
  pub perform_volume_health_check_sound : Moves KeepsWellFormed (perform_volume_health_check v)
  unfolding perform_volume_health_check
  perform_volume_health_check_sound = Moves-get_sound v _ (λ o h. check_known_sound o)
