-- ===== src/Tests.antt =====
-- The theorems on the plugin, the recovery and the parameters at concrete inputs.
pub mod Requests
pub mod Mounts
pub mod Provisioning
pub mod Lookups
pub mod Wire
pub mod Sockets
pub mod Systems
use seaweedfs_csi_driver.Base.{
  ℕ, Bool, true, false, Option, none, some, List, [], ◌∷◌, Assoc, lookup, is_some, ◌≡◌, refl, ◌↔◌,
  eq_iff, All, ◌<◌, ◌≤◌, ◌+◌, arith, if◌then◌else◌, remember, length,
}
use seaweedfs_csi_driver.Base.Exec.{ok, err, ◌>>=◌}
use seaweedfs_csi_driver.Strconv.{ℤ, pos, negsuc, parse_int}
use seaweedfs_csi_driver.Strconv.Print.{format_nat, parse_int-format_nat}
use seaweedfs_csi_driver.Locality
use seaweedfs_csi_driver.Driver.{Driver, Urls, single_node_writer}
use seaweedfs_csi_driver.Host.{
  plain_fault, corrupt_entry, ask, act, note, read_attributes, get_volume, store_volume,
  delete_volume, Ask, is_mount_point, within_budget, Volume, Host, NodeServer, History, noted,
  device_read,
}
use seaweedfs_csi_driver.Node.{StageRequest, PublishRequest}
use seaweedfs_csi_driver.Plugin.{
  Request, stages, publishes, unpublishes, unstages, checks_health, step, run,
}
use seaweedfs_csi_driver.Staging.Guard.{IsGuarded}
use seaweedfs_csi_driver.Plugin.Guard.{run-IsGuarded}
use seaweedfs_csi_driver.Volume.Staged.{IsWellFormed}
use seaweedfs_csi_driver.Plugin.WellFormed.{run-IsWellFormed}
use seaweedfs_csi_driver.Plugin.Isolation.{SameAt, step_isolated}
use seaweedfs_csi_driver.Health.Backoff.{
  note_recovery_attempt, recovery_throttled, recovery_wait, recovery_backoff_base,
  recovery_backoff_max,
}
use seaweedfs_csi_driver.Health.Backoff.Schedule.{scheduled, recovery_wait_lem, attempt_throttles}
use seaweedfs_csi_driver.GoPath
use seaweedfs_csi_driver.MountArgs.{initial_collection_quota_mb, final_args, mount_filers}
use seaweedfs_csi_driver.MountArgs.Quota.{IsCeiling, initial_collection_quota_mb-IsCeiling}
use seaweedfs_csi_driver.MountArgs.Context.{last_set}
use seaweedfs_csi_driver.MountArgs.Final.{final_args_quota, final_args_filer}
use seaweedfs_csi_driver.Staging.{cleanup_stale_staging_path, is_staging_path_healthy, check_mount}
use seaweedfs_csi_driver.Volume.{
  stage_new_volume, load_persisted_volume_attributes, unpublish, unstage, unmounter_unmount,
  publish, cleanup_volume_resources,
}
use seaweedfs_csi_driver.Node.{
  status, internal, node_stage_volume, node_publish_volume, node_unpublish_volume,
  node_unstage_volume,
}
use seaweedfs_csi_driver.Node.Failures.{
  IsUnchanged, node_stage_volume_unchanged, node_unpublish_volume_unchanged,
  node_unstage_volume_unchanged,
}
use seaweedfs_csi_driver.Node.Success.{
  IsPublished, node_publish_volume-IsPublished, IsUnpublished, node_unpublish_volume-IsUnpublished,
  IsForgotten, node_unstage_volume-IsForgotten,
}
use seaweedfs_csi_driver.Node.Idempotence.{node_stage_volume_idempotent}
use seaweedfs_csi_driver.Params.{
  text_at, is_mutable, check_context, effective_parameters, merge_persisted_volume_attributes,
  clone_volume_context, validate_mutable_parameters, validate_writeback_dlm_combo,
}
use seaweedfs_csi_driver.Params.Accepted.{
  IsAcceptable, HasConflict, validate_mutable_parameters_iff,
}
use seaweedfs_csi_driver.Params.Effective.{lookup-merge, modify_then_stage}
use seaweedfs_csi_driver.Locks.{
  Action, wants, enters, leaves, removes, perform_all, no_locks, take_ticket, is_held, remove_mutex,
  get_mutex,
}
use seaweedfs_csi_driver.Locks.Exclusion.{IsExclusive, perform_all-IsExclusive}
use seaweedfs_csi_driver.Base.{length, insert, erase}
use seaweedfs_csi_driver.Samples.{
  plain_urls, sample_driver, is_mount_question, host_where, sample_volume, server, stage_a,
  requests, known_server, broken_server, context, filer_urls, parameters,
}

run-IsGuarded_example : IsGuarded (run (server false []) requests).log
run-IsGuarded_example = run-IsGuarded (server false []) requests tt

run-IsWellFormed_example : IsWellFormed (run (server false []) requests)
unfolding lookup
run-IsWellFormed_example =
    run-IsWellFormed (server false []) requests (record { entry = λ v vol h. cc })

step_isolated_example :
    SameAt "/buckets/b"
      (server true (("/buckets/b", sample_volume) ∷ []))
      (step (server true (("/buckets/b", sample_volume) ∷ [])) (stages stage_a))
step_isolated_example =
    step_isolated (server true (("/buckets/b", sample_volume) ∷ [])) (stages stage_a) "/buckets/b"
      λ h. absurd (ground (arith, h, eq_iff "/buckets/a" "/buckets/b"))

-- A live mount whose probes miss their time budget until the device was asked for.
abbrev is_known : History → Bool
is_known [] = false
is_known (noted (device_read p) ∷ log) = true
is_known (e ∷ log) = is_known log

abbrev is_budget : Ask → Bool
is_budget (within_budget p) = true
is_budget q = false

abbrev slow_server : NodeServer
slow_server = record (server true (("/buckets/a", sample_volume) ∷ [])) {
  host = record (host_where true) {
    answer = λ log q. ok (if is_budget q then is_known log else true);
  };
}

recovery_wait_lem_example : recovery_wait 8 ≡ pos (scheduled 7)
recovery_wait_lem_example = recovery_wait_lem 7

attempt_throttles_example :
    let s : NodeServer = server true [] in
    let t : NodeServer = (note_recovery_attempt "/buckets/a" s).1 in
    (t.host.clock t.log < s.host.clock s.log + recovery_backoff_base
      → (recovery_throttled "/buckets/a" t).0 ≡ ok true)
    × (s.host.clock s.log + recovery_backoff_max ≤ t.host.clock t.log
        → (recovery_throttled "/buckets/a" t).0 ≡ ok false)
attempt_throttles_example =
    attempt_throttles (server true []) (note_recovery_attempt "/buckets/a" (server true [])).1
      "/buckets/a" refl

parse_int-format_nat_example : parse_int (format_nat 1073741824) ≡ some (pos 1073741824)
parse_int-format_nat_example = parse_int-format_nat 1073741824 (ground arith)

validate_mutable_parameters_iff_example :
    (validate_mutable_parameters parameters ≡ none)
    ↔ (All IsAcceptable parameters × (HasConflict parameters → ⊥))
validate_mutable_parameters_iff_example = validate_mutable_parameters_iff parameters

modify_then_stage_example :
    check_context (
      merge_persisted_volume_attributes
        (clone_volume_context (("path", "/buckets/a") ∷ []))
        parameters)
    ≡ none
unfolding check_context effective_parameters
    seaweedfs_csi_driver.Params.validate_constrained_parameter_values
    seaweedfs_csi_driver.Base.overlay seaweedfs_csi_driver.Base.insert
    seaweedfs_csi_driver.Base.restrict is_mutable seaweedfs_csi_driver.Params.validate_value
    parse_int seaweedfs_csi_driver.Strconv.parse_bool validate_writeback_dlm_combo
modify_then_stage_example = modify_then_stage (("path", "/buckets/a") ∷ []) parameters refl

-- Three goroutines on one key: the first holds the lock while the second waits.
abbrev lock_actions : List Action
lock_actions =
    wants 1 "/buckets/a"
    ∷ enters 1
    ∷ wants 2 "/buckets/a"
    ∷ enters 2
    ∷ leaves 1
    ∷ enters 2
    ∷ wants 3 "/buckets/a"
    ∷ enters 3
    ∷ []

perform_all-IsExclusive_example : IsExclusive (perform_all no_locks lock_actions).holding
perform_all-IsExclusive_example =
    perform_all-IsExclusive lock_actions (tt, (tt, (tt, (tt, (tt, (tt, (tt, (tt, tt))))))))

-- With KeyMutex, an unstage removes the mutex that it holds while the second goroutine waits for
-- it; the third gets a new one, and the last two hold the lock of one volume together.
two_holders :
    length
      (perform_all no_locks (
        wants 1 "/buckets/a"
        ∷ enters 1
        ∷ wants 2 "/buckets/a"
        ∷ removes "/buckets/a"
        ∷ leaves 1
        ∷ enters 2
        ∷ wants 3 "/buckets/a"
        ∷ enters 3
        ∷ [])).holding
    ≡ 2
unfolding perform_all take_ticket is_held remove_mutex lookup insert erase get_mutex
two_holders = refl
