-- ===== src/Health/Steps.antt =====
-- The parts of a health check and of a recovery that write to no map, but make calls only.
use seaweedfs_csi_driver.Base.{
  String, Bool, true, false, Option, none, some, [], ◌∷◌, Assoc, if◌then◌else◌, insert, ◌==◌,
}
use seaweedfs_csi_driver.Base.Exec.{
  Result, ok, err, Moves, moves_rules, Moves-bind, Moves-if, Moves-pure,
}
use seaweedfs_csi_driver.Host.{Fault, Volume, NodeServer, note, read_device, remount_in_containers}
use seaweedfs_csi_driver.Host.Quiet.{IsQuiet, host_rules, Moves-note, Moves-read_device}
use seaweedfs_csi_driver.Host.Conserves.{conserves_rules}
use seaweedfs_csi_driver.Staging.Quiet.{staging_rules}
use seaweedfs_csi_driver.Volume.Quiet.{volume_rules}
use seaweedfs_csi_driver.Health.{
  check_health_detailed, check_health, live, record_slow, record_probe, probe_staging,
  has_unhealthy_publish_path, force_cleanup, after_unmount, tear_down_stale_publish_bind,
  report_rebind, rebind_if, retry_unhealthy, retry_each, retry_known, retry_publish_paths, stop_old,
  detach_if_dead, detach_old, tear_down_all, republish_if, republish_all, remount_each,
  report_recovery, protected, device_text, is_gone, first_device,
}

ruleset health_rules = (moves_rules, host_rules, staging_rules, volume_rules, conserves_rules)

module _ {R : NodeServer → NodeServer → Type 0} (q : IsQuiet R) where
  detailed_steps : (p : String) → Moves R (check_health_detailed p)
  unfolding check_health_detailed
  detailed_steps p = search (health_rules, q.order, q)

  pub Moves-check_health : (p : String) → Moves R (check_health p)
  unfolding check_health
  Moves-check_health p = search (moves_rules, q.order, detailed_steps)

  pub Moves-live : (p : String) → Moves R (live p)
  unfolding live
  Moves-live p = search (health_rules, q.order, q)

  record_slow_steps : (v : String) (t b : Bool) → Moves R (record_slow v t b)
  unfolding record_slow
  record_slow_steps v t true = search (health_rules, q.order, q)
  record_slow_steps v t false = search (health_rules, q.order, q)

  record_probe_steps : (v p : String) (b t : Bool) → Moves R (record_probe v p (b, t))
  unfolding record_probe
  record_probe_steps v p true t = search (health_rules, q.order, q)
  record_probe_steps v p false t = search (health_rules, q.order, Moves-live, record_slow_steps)

  pub Moves-probe_staging : (v p : String) → Moves R (probe_staging v p)
  unfolding probe_staging
  Moves-probe_staging v p =
      search
        (moves_rules, q.order, detailed_steps, λ (x : Bool × Bool). record_probe_steps v p x.0 x.1)

  pub unhealthy_steps : (paths : Assoc Bool) → Moves R (has_unhealthy_publish_path paths)
  unfolding has_unhealthy_publish_path
  unhealthy_steps [] = search (moves_rules, q.order)
  unhealthy_steps ((p, ro) ∷ paths) =
      Moves-bind q.order (check_health p) _ (Moves-check_health p)
        (λ b. Moves-if q.order b _ _ (unhealthy_steps paths) (Moves-pure q.order true))

  force_cleanup_steps : (p : String) (r : Option Fault) → Moves R (force_cleanup p r)
  unfolding force_cleanup
  force_cleanup_steps p none = search (health_rules, q.order, q)
  force_cleanup_steps p (some e) = search (health_rules, q.order)

  after_unmount_steps : (p : String) (r : Option Fault) → Moves R (after_unmount p r)
  unfolding after_unmount
  after_unmount_steps p none = search (health_rules, q.order, q)
  after_unmount_steps p (some e) = search (health_rules, q.order, q, force_cleanup_steps)

  tear_down_steps : (p : String) → Moves R (tear_down_stale_publish_bind p)
  unfolding tear_down_stale_publish_bind
  tear_down_steps p = search (health_rules, q.order, q, after_unmount_steps)

  report_rebind_steps :
      (s p : String) (ro : Bool) (r : Result Fault (Unit {0})) → Moves R (report_rebind s p ro r)
  unfolding report_rebind
  report_rebind_steps s p ro (ok u) = search (health_rules, q)
  report_rebind_steps s p ro (err e) = search (health_rules, q.order)

  rebind_if_steps : (s p : String) (ro b : Bool) → Moves R (rebind_if s p ro b)
  unfolding rebind_if
  rebind_if_steps s p ro true = search (health_rules, q.order, q, report_rebind_steps)
  rebind_if_steps s p ro false = search (health_rules, q.order)

  retry_unhealthy_steps : (s p : String) (ro b : Bool) → Moves R (retry_unhealthy s p ro b)
  unfolding retry_unhealthy
  retry_unhealthy_steps s p ro true = search (health_rules, q.order)
  retry_unhealthy_steps s p ro false =
      search (health_rules, q.order, tear_down_steps, rebind_if_steps)

  retry_each_steps : (s : String) (paths : Assoc Bool) → Moves R (retry_each s paths)
  unfolding retry_each
  retry_each_steps s [] = search (health_rules, q.order)
  retry_each_steps s ((p, ro) ∷ paths) =
      Moves-bind q.order (check_health p) _ (Moves-check_health p) λ b.
        Moves-bind q.order (retry_unhealthy s p ro b) _ (retry_unhealthy_steps s p ro b)
          (λ u. retry_each_steps s paths)

  retry_known_steps : (known : Option Volume) → Moves R (retry_known known)
  unfolding retry_known
  retry_known_steps none = search (health_rules, q.order)
  retry_known_steps (some vol) =
      search (health_rules, q.order, Moves-check_health, retry_each_steps)

  pub Moves-retry_publish_paths : (v : String) → Moves R (retry_publish_paths v)
  unfolding retry_publish_paths
  Moves-retry_publish_paths v = search (health_rules, q.order, q, retry_known_steps)

  pub stop_old_steps : (p : String) (u : Option String) → Moves R (stop_old p u)
  unfolding stop_old
  stop_old_steps p none = search (health_rules, q.order)
  stop_old_steps p (some u) = search (health_rules, q.order, q)

  detach_if_dead_steps : (p : String) (b : Bool) → Moves R (detach_if_dead p b)
  unfolding detach_if_dead
  detach_if_dead_steps p true = search (health_rules, q.order, q)
  detach_if_dead_steps p false = search (health_rules, q.order)

  pub detach_old_steps : (p : String) (r : Result Fault Bool) → Moves R (detach_old p r)
  unfolding detach_old
  detach_old_steps p (err e) = search (health_rules, q.order)
  detach_old_steps p (ok true) = search (health_rules, q.order)
  detach_old_steps p (ok false) = search (health_rules, q.order, q, detach_if_dead_steps)

  pub tear_down_all_steps : (paths : Assoc Bool) → Moves R (tear_down_all paths)
  unfolding tear_down_all
  tear_down_all_steps [] = search (health_rules, q.order)
  tear_down_all_steps ((p, ro) ∷ paths) =
      Moves-bind q.order (tear_down_stale_publish_bind p) _ (tear_down_steps p) λ b.
        Moves-bind q.order (tear_down_all paths) _ (tear_down_all_steps paths)
          (λ rest. Moves-pure q.order (insert p b rest))

  republish_if_steps : (s p : String) (ro b : Bool) → Moves R (republish_if s p ro b)
  unfolding republish_if
  republish_if_steps s p ro true = search (health_rules, q.order, q)
  republish_if_steps s p ro false = search (health_rules, q.order)

  pub republish_all_steps : (s : String) (u paths : Assoc Bool) → Moves R (republish_all s u paths)
  unfolding republish_all
  republish_all_steps s u [] = search (health_rules, q.order)
  republish_all_steps s u ((p, ro) ∷ paths) =
      Moves-bind q.order (republish_if s p ro (is_gone p u)) _ (republish_if_steps s p ro _) λ b.
        Moves-bind q.order (republish_all s u paths) _ (republish_all_steps s u paths)
          (λ rest. Moves-pure q.order (if b then (p, ro) ∷ rest else rest))

  pub remount_each_steps : (s d : String) (paths : Assoc Bool) → Moves R (remount_each s d paths)
  unfolding remount_each
  remount_each_steps s d [] = search (health_rules, q.order)
  remount_each_steps s d ((p, ro) ∷ paths) =
      Moves-bind q.order (note (remount_in_containers p s d ro)) _ (Moves-note q _)
        (λ u. remount_each_steps s d paths)

  pub report_recovery_steps : (v : String) (r : Result Fault Bool) → Moves R (report_recovery v r)
  unfolding report_recovery
  report_recovery_steps v (err e) = search (health_rules, q)
  report_recovery_steps v (ok true) = search (health_rules, q.order, q)
  report_recovery_steps v (ok false) = search (health_rules, q)

  pub protected_steps : (paths : Assoc Bool) (p : String) → Moves R (protected paths p)
  unfolding protected
  protected_steps [] p = search (health_rules, q.order)
  protected_steps (x ∷ paths) p = Moves-live p

  pub first_device_steps : (paths : Assoc Bool) → Moves R (first_device paths)
  unfolding first_device
  first_device_steps [] = search (health_rules, q.order)
  first_device_steps ((p, ro) ∷ paths) =
      Moves-bind q.order (read_device p) _ (Moves-read_device q p) λ found.
        Moves-if q.order (device_text found == "") _ _ (first_device_steps paths)
          (Moves-pure q.order (device_text found))
