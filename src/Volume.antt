-- ===== src/Volume.antt =====
-- pkg/driver/volume.go, the mount service's Mounter and Unmounter of pkg/driver/mounter.go,
-- CleanupVolumeResources of pkg/driver/utils.go, and stageNewVolume with
-- loadPersistedVolumeAttributes and resolveVolumeCapacity of pkg/driver/nodeserver.go.
pub mod Quiet
pub mod Staged
use seaweedfs_csi_driver.Base.{
  String, Bool, true, false, Option, none, some, List, [], ◌∷◌, Assoc, insert, erase, if◌then◌else◌,
  ◌==◌, eqb,
}
use seaweedfs_csi_driver.Base.Exec.{Result, ok, err, pure, raise, attempt, gets, lift, ◌>>=◌, ◌>>◌}
use seaweedfs_csi_driver.Strconv.{ℤ, pos, negsuc, parse_int}
use seaweedfs_csi_driver.Strconv.Print.{format_int}
use seaweedfs_csi_driver.MountArgs.{MountSpec, MountArgError, build_mount_args, mount_filers}
use seaweedfs_csi_driver.Params.{
  ParameterError, text_at, clone_volume_context, merge_persisted_volume_attributes, check_context,
}
use seaweedfs_csi_driver.Host.{
  Fault, plain_fault, invalid_fault, wrap, Volume, NodeServer, Node, AttributesFault, no_store,
  unreadable, corrupt_entry, MountCall, ask, act, note, read_attributes, read_capacity, unmount,
  cleanup_mount_point, remove, bind_mount, start_mount, stop_mount, set_quota, remove_cache_dir,
  remove_local_socket, reset_probe,
}
use seaweedfs_csi_driver.Staging.{fail_if, check_mount}

-- mountServiceMounter.
pub record Mounter : Type 0 where
  pub volume_id : String
  pub read_only : Bool
  pub context : Assoc String

start : Mounter → String → Result MountArgError (List String) → Node String
unfolding fail_if
start m target (err e) = raise plain_fault
start m target (ok args) = do
  started ← act (
      start_mount (record {
        volume_id = m.volume_id;
        target = target;
        read_only = m.read_only;
        context = m.context;
        args = args;
      }))
  fail_if started
  pure m.volume_id

spec_of : NodeServer → Mounter → String → MountSpec
spec_of s m target = record {
  volume_id = m.volume_id;
  read_only = m.read_only;
  context = m.context;
  target = target;
  cache_dir = s.host.cache_dir m.volume_id;
  local_socket = s.host.local_socket m.volume_id;
}

-- Mount: the unmounter of the started mount.
unfoldable pub mounter_mount : Mounter → String → Node String
unfolding start spec_of
mounter_mount m target = if target == "" then raise plain_fault else do
  args ← gets λ s.
      build_mount_args s.driver s.host.urls (spec_of s m target)
        (mount_filers s.driver s.host.urls m.volume_id m.context)
  start m target args

forget_if_gone : String → Option Fault → Node (Unit {0})
forget_if_gone path none = note (reset_probe path)
forget_if_gone path (some e) = pure tt

unmount_first : String → Bool → Node (Unit {0})
unfolding forget_if_gone
unmount_first path false = pure tt
unmount_first path true = do gone ← act (unmount path); forget_if_gone path gone

-- Volume.Stage, with the mounter that the volume was made with.
unfoldable pub stage : Mounter → Volume → String → Node Volume
unfolding unmount_first
stage m vol staging_target_path = do
  mounted ← check_mount staging_target_path
  unmount_first staging_target_path mounted
  u ← mounter_mount m staging_target_path
  pure (record vol { staged_path = staging_target_path; unmounter = some u })

bind_unless : Bool → String → String → Bool → Node (Unit {0})
unfolding fail_if
bind_unless true source target read_only = pure tt
bind_unless false source target read_only = do
  bound ← act (bind_mount source target read_only)
  fail_if bound

-- Volume.Publish, with defaultBindMount.
unfoldable pub publish : String → String → Bool → Node (Unit {0})
unfolding bind_unless
publish staging_target_path target_path read_only = do
  mounted ← check_mount target_path
  bind_unless mounted staging_target_path target_path read_only

-- A capacity of one byte stands for no quota.
quota_bytes : ℤ → ℤ
quota_bytes (pos n) = if eqb n 1 then pos 0 else pos n
quota_bytes (negsuc n) = negsuc n

unfoldable pub quota : String → ℤ → Node (Unit {0})
unfolding fail_if quota_bytes
quota volume_id size_byte = do
  configured ← act (set_quota volume_id (quota_bytes size_byte))
  fail_if configured

unfoldable pub unpublish : String → Node (Unit {0})
unfolding fail_if
unpublish target_path = do
  cleaned ← act (cleanup_mount_point target_path)
  fail_if cleaned
  note (reset_probe target_path)

abbrev pub add_publish_path : String → Bool → Volume → Volume
add_publish_path path read_only vol = record vol {
  publish_paths = insert path read_only vol.publish_paths;
}

abbrev pub remove_publish_path : String → Volume → Volume
remove_publish_path path vol = record vol { publish_paths = erase path vol.publish_paths }

-- Errors of the two removals are only logged.
unfoldable pub cleanup_volume_resources : String → Node (Unit {0})
cleanup_volume_resources volume_id = do
  act (remove_cache_dir volume_id)
  act (remove_local_socket volume_id)
  pure tt

-- mountServiceUnmounter.Unmount.
unfoldable pub unmounter_unmount : String → Node (Unit {0})
unfolding fail_if
unmounter_unmount u = do stopped ← act (stop_mount u); fail_if stopped

fail_unless_gone : Option Fault → Node (Unit {0})
fail_unless_gone none = pure tt
fail_unless_gone (some e) = if e.not_exist then pure tt else raise e

detach : Option String → String → Node (Unit {0})
unfolding fail_if fail_unless_gone
detach none path = do cleaned ← act (cleanup_mount_point path); fail_if cleaned
detach (some u) path = do unmounter_unmount u; removed ← act (remove path); fail_unless_gone removed

unfoldable pub unstage : Volume → String → Node (Unit {0})
unfolding detach
unstage vol staging_target_path = do
  detach vol.unmounter staging_target_path
  note (reset_probe staging_target_path)
  cleanup_volume_resources vol.volume_id

-- A failure to reach the store is no error; a corrupt entry is.
or_no_attributes : Result AttributesFault (Assoc String) → Node (Assoc String)
or_no_attributes (ok params) = pure params
or_no_attributes (err no_store) = pure []
or_no_attributes (err unreadable) = pure []
or_no_attributes (err corrupt_entry) = raise plain_fault

unfoldable pub load_persisted_volume_attributes : String → Node (Assoc String)
unfolding or_no_attributes
load_persisted_volume_attributes volume_id = do
  found ← read_attributes volume_id
  or_no_attributes found

reject : Option ParameterError → Node (Unit {0})
reject none = pure tt
reject (some e) = raise invalid_fault

not_negative : Option ℤ → Node (Option ℤ)
not_negative none = raise plain_fault
not_negative (some (pos n)) = pure (some (pos n))
not_negative (some (negsuc n)) = raise plain_fault

capacity_of_context : String → Node (Option ℤ)
unfolding not_negative
capacity_of_context value = if value == "" then pure none else not_negative (parse_int value)

capacity_or : Assoc String → Result Fault ℤ → Node (Option ℤ)
unfolding capacity_of_context
capacity_or context (ok capacity) = pure (some capacity)
capacity_or context (err e) = capacity_of_context (text_at "volumeCapacity" context)

-- The capacity, if there is one.
unfoldable pub resolve_volume_capacity : String → Assoc String → Node (Option ℤ)
unfolding capacity_or
resolve_volume_capacity volume_id context = do
  answer ← read_capacity volume_id
  capacity_or context answer

abbrev set_capacity : Option ℤ → Assoc String → Assoc String
set_capacity none context = context
set_capacity (some capacity) context = insert "volumeCapacity" (format_int capacity) context

undo_stage : Volume → String → Result Fault (Unit {0}) → Node Volume
undo_stage vol path (ok u) = pure vol
undo_stage vol path (err e) = do attempt (unstage vol path); raise e

apply_quota : Volume → String → Option ℤ → Node Volume
unfolding undo_stage
apply_quota vol path none = pure vol
apply_quota vol path (some capacity) = do
  applied ← attempt (quota vol.volume_id capacity)
  undo_stage vol path applied

abbrev new_volume : String → Assoc String → Bool → Volume
new_volume volume_id context read_only = record {
  volume_id = volume_id;
  staged_path = "";
  unmounter = none;
  publish_paths = [];
  vol_context = some context;
  read_only = read_only;
}

-- What a volume is mounted with: the context with the persisted attributes and the capacity.
unfoldable pub stage_with : String → String → Assoc String → Bool → Node Volume
unfolding reject fail_if apply_quota
stage_with volume_id path context read_only = do
  reject (check_context context)
  capacity ← resolve_volume_capacity volume_id context
  client ← gets (λ s. s.host.client)
  fail_if client
  let effective = set_capacity capacity context
  vol ←
      stage (record { volume_id = volume_id; read_only = read_only; context = effective })
        (new_volume volume_id effective read_only) path
  apply_quota vol path capacity

-- stageNewVolume.
unfoldable pub stage_new_volume : String → String → Assoc String → Bool → Node Volume
unfolding stage_with
stage_new_volume volume_id path vol_context read_only = do
  persisted ← load_persisted_volume_attributes volume_id
  stage_with volume_id path
      (merge_persisted_volume_attributes (clone_volume_context vol_context) persisted) read_only
