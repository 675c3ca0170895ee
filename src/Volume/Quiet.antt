-- ===== src/Volume/Quiet.antt =====
-- Staging, publishing and unstaging a volume make no recursive removal, and change nothing of the
-- plugin's state but the history.
use seaweedfs_csi_driver.Base.{String, Bool, true, false, Option, none, some, Assoc, List}
use seaweedfs_csi_driver.Base.Exec.{Result, ok, err, Moves, moves_rules}
use seaweedfs_csi_driver.Strconv.{ℤ, pos, negsuc}
use seaweedfs_csi_driver.Host.{
  Fault, Volume, NodeServer, AttributesFault, no_store, unreadable, corrupt_entry,
}
use seaweedfs_csi_driver.Host.Quiet.{IsQuiet, host_rules}
use seaweedfs_csi_driver.Staging.Quiet.{staging_rules}
use seaweedfs_csi_driver.MountArgs.{MountArgError}
use seaweedfs_csi_driver.Params.{ParameterError}
use seaweedfs_csi_driver.Volume.{
  Mounter, start, mounter_mount, forget_if_gone, unmount_first, stage, bind_unless, publish, quota,
  unpublish, cleanup_volume_resources, unmounter_unmount, fail_unless_gone, detach, unstage,
  or_no_attributes, load_persisted_volume_attributes, reject, not_negative, capacity_of_context,
  capacity_or, resolve_volume_capacity, undo_stage, apply_quota, stage_with, stage_new_volume,
}

ruleset quiet = (moves_rules, host_rules, staging_rules)

module _ {R : NodeServer → NodeServer → Type 0} (q : IsQuiet R) where
  start_quiet :
      (m : Mounter) (p : String) (r : Result MountArgError (List String)) → Moves R (start m p r)
  unfolding start
  start_quiet m p (ok args) = search (quiet, q.order, q)
  start_quiet m p (err e) = search (moves_rules, q.order)

  mounter_mount_quiet : (m : Mounter) (p : String) → Moves R (mounter_mount m p)
  unfolding mounter_mount
  mounter_mount_quiet m p = search (quiet, q.order, start_quiet)

  forget_if_gone_quiet : (p : String) (r : Option Fault) → Moves R (forget_if_gone p r)
  unfolding forget_if_gone
  forget_if_gone_quiet p none = search (quiet, q)
  forget_if_gone_quiet p (some e) = search (quiet, q.order)

  unmount_first_quiet : (p : String) (b : Bool) → Moves R (unmount_first p b)
  unfolding unmount_first
  unmount_first_quiet p true = search (quiet, q.order, q, forget_if_gone_quiet)
  unmount_first_quiet p false = search (quiet, q.order)

  pub Moves-stage : (m : Mounter) (vol : Volume) (p : String) → Moves R (stage m vol p)
  unfolding stage
  Moves-stage m vol p = search (quiet, q.order, q, unmount_first_quiet, mounter_mount_quiet) depth 9

  bind_unless_quiet : (b : Bool) (s t : String) (ro : Bool) → Moves R (bind_unless b s t ro)
  unfolding bind_unless
  bind_unless_quiet true s t ro = search (quiet, q.order)
  bind_unless_quiet false s t ro = search (quiet, q.order, q)

  pub Moves-publish : (s t : String) (ro : Bool) → Moves R (publish s t ro)
  unfolding publish
  Moves-publish s t ro = search (quiet, q.order, q, bind_unless_quiet)

  pub Moves-quota : (v : String) (n : ℤ) → Moves R (quota v n)
  unfolding quota
  Moves-quota v n = search (quiet, q.order, q)

  pub Moves-unpublish : (p : String) → Moves R (unpublish p)
  unfolding unpublish
  Moves-unpublish p = search (quiet, q.order, q)

  pub Moves-cleanup_volume_resources : (v : String) → Moves R (cleanup_volume_resources v)
  unfolding cleanup_volume_resources
  Moves-cleanup_volume_resources v = search (quiet, q.order, q)

  pub Moves-unmounter_unmount : (u : String) → Moves R (unmounter_unmount u)
  unfolding unmounter_unmount
  Moves-unmounter_unmount u = search (quiet, q.order, q)

  fail_unless_gone_quiet : (r : Option Fault) → Moves R (fail_unless_gone r)
  unfolding fail_unless_gone
  fail_unless_gone_quiet none = search (quiet, q.order)
  fail_unless_gone_quiet (some e) = search (quiet, q.order)

  detach_quiet : (u : Option String) (p : String) → Moves R (detach u p)
  unfolding detach
  detach_quiet none p = search (quiet, q.order, q)
  detach_quiet (some u) p =
      search (quiet, q.order, q, Moves-unmounter_unmount, fail_unless_gone_quiet)

  pub Moves-unstage : (vol : Volume) (p : String) → Moves R (unstage vol p)
  unfolding unstage
  Moves-unstage vol p = search (quiet, q.order, q, detach_quiet, Moves-cleanup_volume_resources)

  or_no_attributes_quiet :
      (r : Result AttributesFault (Assoc String)) → Moves R (or_no_attributes r)
  unfolding or_no_attributes
  or_no_attributes_quiet (ok m) = search (quiet, q.order)
  or_no_attributes_quiet (err no_store) = search (quiet, q.order)
  or_no_attributes_quiet (err unreadable) = search (quiet, q.order)
  or_no_attributes_quiet (err corrupt_entry) = search (quiet, q.order)

  load_quiet : (v : String) → Moves R (load_persisted_volume_attributes v)
  unfolding load_persisted_volume_attributes
  load_quiet v = search (quiet, q.order, q, or_no_attributes_quiet)

  reject_quiet : (e : Option ParameterError) → Moves R (reject e)
  unfolding reject
  reject_quiet none = search (quiet, q.order)
  reject_quiet (some e) = search (quiet, q.order)

  not_negative_quiet : (n : Option ℤ) → Moves R (not_negative n)
  unfolding not_negative
  not_negative_quiet none = search (quiet, q.order)
  not_negative_quiet (some (pos n)) = search (quiet, q.order)
  not_negative_quiet (some (negsuc n)) = search (quiet, q.order)

  capacity_or_quiet : (c : Assoc String) (r : Result Fault ℤ) → Moves R (capacity_or c r)
  unfolding capacity_or
  capacity_or_quiet c (ok n) = search (quiet, q.order)
  capacity_or_quiet c (err e) =
      unfold capacity_of_context in search (quiet, q.order, not_negative_quiet)

  resolve_quiet : (v : String) (c : Assoc String) → Moves R (resolve_volume_capacity v c)
  unfolding resolve_volume_capacity
  resolve_quiet v c = search (quiet, q.order, q, capacity_or_quiet)

  undo_stage_quiet :
      (vol : Volume) (p : String) (r : Result Fault (Unit {0})) → Moves R (undo_stage vol p r)
  unfolding undo_stage
  undo_stage_quiet vol p (ok u) = search (quiet, q.order)
  undo_stage_quiet vol p (err e) = search (quiet, q.order, Moves-unstage)

  apply_quota_quiet : (vol : Volume) (p : String) (n : Option ℤ) → Moves R (apply_quota vol p n)
  unfolding apply_quota
  apply_quota_quiet vol p none = search (quiet, q.order)
  apply_quota_quiet vol p (some n) = search (quiet, q.order, Moves-quota, undo_stage_quiet)

  stage_with_quiet : (v p : String) (c : Assoc String) (ro : Bool) → Moves R (stage_with v p c ro)
  unfolding stage_with
  stage_with_quiet v p c ro =
      search (quiet, q.order, q, reject_quiet, resolve_quiet, Moves-stage, apply_quota_quiet) depth
        12

  pub Moves-stage_new_volume :
      (v p : String) (c : Assoc String) (ro : Bool) → Moves R (stage_new_volume v p c ro)
  unfolding stage_new_volume
  Moves-stage_new_volume v p c ro = search (quiet, q.order, load_quiet, stage_with_quiet)

pub ruleset volume_rules = (
  Moves-stage, Moves-publish, Moves-quota, Moves-unpublish, Moves-cleanup_volume_resources,
  Moves-unmounter_unmount, Moves-unstage, Moves-stage_new_volume,
)
