-- ===== src/Node.antt =====
-- The RPCs of the node plugin, pkg/driver/nodeserver.go. Each runs under the lock of its volume
-- (Locks), so it is one step on the plugin's state.
pub mod Failures
pub mod Info
pub mod Idempotence
pub mod Steps
pub mod Success
pub mod WellFormed
use seaweedfs_csi_driver.Base.{
  String, Bool, true, false, ◌||◌, Option, none, some, List, [], ◌∷◌, Assoc, lookup, erase,
  if◌then◌else◌, ◌==◌,
}
use seaweedfs_csi_driver.Base.Exec.{
  Result, ok, err, Exec, pure, raise, attempt, with_error, modify, ◌>>=◌, ◌>>◌,
}
use seaweedfs_csi_driver.Strconv.{ℤ}
use seaweedfs_csi_driver.Driver.{AccessMode, is_read_only_access_mode}
use seaweedfs_csi_driver.Host.{
  Fault, Volume, NodeServer, ask, act, note, get_volume, store_volume, delete_volume, stat,
  cleanup_mount_point, reset_probe, forget_metrics,
}
use seaweedfs_csi_driver.Staging.{is_staging_path_healthy, cleanup_stale_staging_path}
use seaweedfs_csi_driver.Volume.{
  publish, unpublish, unstage, quota, add_publish_path, remove_publish_path,
  cleanup_volume_resources, stage_new_volume,
}

pub data Code : Type 0 where
  invalid_argument internal permission_denied not_found canceled deadline_exceeded : Code

-- An error with a gRPC code, or one that the RPC returns without a code.
pub data RpcError : Type 0 where
  status : Code → RpcError
  plain : Fault → RpcError

abbrev pub Rpc : Type 0
Rpc = Exec NodeServer RpcError (Unit {0})

-- A volume capability, with its access mode if it has one.
pub record Capability : Type 0 where
  pub access_mode : Option AccessMode

pub record StageRequest : Type 0 where
  pub volume_id : String
  pub staging_target_path : String
  pub capability : Option Capability
  pub volume_context : Option (Assoc String)

pub record PublishRequest : Type 0 where
  pub volume_id : String
  pub target_path : String
  pub staging_target_path : String
  pub capability : Option Capability
  pub volume_context : Option (Assoc String)
  pub read_only : Bool

unfoldable pub require : Bool → Rpc
require true = pure tt
require false = raise (status invalid_argument)

abbrev pub present : String → Bool
present s = if s == "" then false else true

abbrev pub has_capability : Option Capability → Bool
has_capability none = false
has_capability (some c) = true

mode_read_only : Option AccessMode → Bool
mode_read_only none = false
mode_read_only (some m) = is_read_only_access_mode m

capability_read_only : Option Capability → Bool
unfolding mode_read_only
capability_read_only none = false
capability_read_only (some c) = mode_read_only c.access_mode

-- isVolumeReadOnly and isPublishVolumeReadOnly.
unfoldable pub is_volume_read_only : StageRequest → Bool
unfolding capability_read_only
is_volume_read_only req = capability_read_only req.capability

unfoldable pub is_publish_volume_read_only : PublishRequest → Bool
unfolding capability_read_only
is_publish_volume_read_only req = req.read_only || capability_read_only req.capability

-- cloneVolumeContext of a nil map is empty.
abbrev entries_of : Option (Assoc String) → Assoc String
entries_of none = []
entries_of (some m) = m

-- The volume of a healthy mount that the plugin does not know: rebuildVolumeFromStaging.
abbrev pub rebuilt_volume : String → String → Option (Assoc String) → Bool → Volume
rebuilt_volume volume_id path vol_context read_only = record {
  volume_id = volume_id;
  staged_path = path;
  unmounter = none;
  publish_paths = [];
  vol_context = vol_context;
  read_only = read_only;
}

internal_error : Fault → RpcError
internal_error e = status internal

-- The codes of a stage that failed.
stage_error : Fault → RpcError
stage_error e =
    if e.permission
    then status permission_denied
    else if e.invalid_argument
    then status invalid_argument
    else status internal

is_stale : Result Fault Bool → Bool
is_stale (ok directory) = true
is_stale (err e) = e.corrupted

cleanup_if : Bool → String → Rpc
unfolding internal_error
cleanup_if true path = with_error internal_error (cleanup_stale_staging_path path)
cleanup_if false path = pure tt

stage_fresh : StageRequest → Rpc
unfolding is_stale cleanup_if stage_error
stage_fresh req = do
  info ← ask (stat req.staging_target_path)
  cleanup_if (is_stale info) req.staging_target_path
  vol ← with_error stage_error (
      stage_new_volume req.volume_id req.staging_target_path (entries_of req.volume_context)
        (is_volume_read_only req))
  store_volume req.volume_id vol

stage_if_healthy : StageRequest → Bool → Rpc
unfolding stage_fresh
stage_if_healthy req true = store_volume req.volume_id (
    rebuilt_volume req.volume_id req.staging_target_path req.volume_context
      (is_volume_read_only req))
stage_if_healthy req false = stage_fresh req

stage_unless_cached : StageRequest → Option Volume → Rpc
unfolding stage_if_healthy
stage_unless_cached req (some vol) = pure tt
stage_unless_cached req none = do
  healthy ← with_error plain (is_staging_path_healthy req.staging_target_path)
  stage_if_healthy req healthy

unfoldable pub node_stage_volume : StageRequest → Rpc
unfolding require stage_unless_cached
node_stage_volume req = do
  require (has_capability req.capability)
  require (present req.volume_id)
  require (present req.staging_target_path)
  cached ← get_volume req.volume_id
  stage_unless_cached req cached

restage : PublishRequest → Exec NodeServer RpcError Volume
unfolding internal_error
restage req = do
  with_error internal_error (cleanup_stale_staging_path req.staging_target_path)
  vol ← with_error internal_error (
      stage_new_volume req.volume_id req.staging_target_path (entries_of req.volume_context)
        (is_publish_volume_read_only req))
  store_volume req.volume_id vol
  pure vol

heal : PublishRequest → Bool → Exec NodeServer RpcError Volume
unfolding restage
heal req true =
    let vol : Volume =
      rebuilt_volume req.volume_id req.staging_target_path req.volume_context
        (is_publish_volume_read_only req) in
    store_volume req.volume_id vol >> pure vol
heal req false = restage req

-- The volume of the request, rebuilt or staged again where the plugin has lost it.
known_volume : PublishRequest → Option Volume → Exec NodeServer RpcError Volume
unfolding heal
known_volume req (some vol) = pure vol
known_volume req none = do
  healthy ← with_error plain (is_staging_path_healthy req.staging_target_path)
  heal req healthy

unfoldable pub node_publish_volume : PublishRequest → Rpc
unfolding require known_volume internal_error
node_publish_volume req = do
  require (has_capability req.capability)
  require (present req.volume_id)
  require (present req.target_path)
  require (present req.staging_target_path)
  cached ← get_volume req.volume_id
  vol ← known_volume req cached
  with_error internal_error (publish req.staging_target_path req.target_path req.read_only)
  store_volume req.volume_id (add_publish_path req.target_path req.read_only vol)

forget_if_clean : String → Option Fault → Rpc
forget_if_clean path none = note (reset_probe path)
forget_if_clean path (some e) = pure tt

-- Errors of cleaning up after a volume that is not known are ignored.
pub cleanup_garbage : String → Rpc
unfolding forget_if_clean
cleanup_garbage path = do cleaned ← act (cleanup_mount_point path); forget_if_clean path cleaned

unpublish_known : String → String → Option Volume → Rpc
unfolding cleanup_garbage internal_error
unpublish_known volume_id target_path none = cleanup_garbage target_path
unpublish_known volume_id target_path (some vol) = do
  with_error internal_error (unpublish target_path)
  store_volume volume_id (remove_publish_path target_path vol)

unfoldable pub node_unpublish_volume : String → String → Rpc
unfolding require unpublish_known
node_unpublish_volume volume_id target_path = do
  require (present volume_id)
  require (present target_path)
  known ← get_volume volume_id
  unpublish_known volume_id target_path known

unstage_known : String → String → Option Volume → Rpc
unfolding cleanup_garbage internal_error
unstage_known volume_id path none = do
  cleanup_garbage path
  with_error plain (cleanup_volume_resources volume_id)
unstage_known volume_id path (some vol) = do
  with_error internal_error (unstage vol path)
  delete_volume volume_id

unfoldable pub forget_backoff : String → NodeServer → NodeServer
forget_backoff volume_id s = record s { recovery_backoff = erase volume_id s.recovery_backoff }

unfoldable pub node_unstage_volume : String → String → Rpc
unfolding require unstage_known forget_backoff
node_unstage_volume volume_id path = do
  require (present volume_id)
  require (present path)
  known ← get_volume volume_id
  unstage_known volume_id path known
  modify (forget_backoff volume_id)
  note (forget_metrics volume_id)

quota_of_known : ℤ → Option Volume → Rpc
quota_of_known required_bytes none = pure tt
quota_of_known required_bytes (some vol) = with_error plain (quota vol.volume_id required_bytes)

-- NodeExpandVolume: a failing quota call is returned as it is.
unfoldable pub node_expand_volume : String → String → ℤ → Rpc
unfolding require quota_of_known
node_expand_volume volume_id volume_path required_bytes = do
  require (present volume_id)
  require (present volume_path)
  known ← get_volume volume_id
  quota_of_known required_bytes known
