-- ===== src/Restore.antt =====
-- Rebuilding the map of volumes when the node plugin starts, pkg/driver/restore.go.
pub mod Adopted
use seaweedfs_csi_driver.Base.{
  String, Bool, true, false, ◌||◌, Option, none, some, List, [], ◌∷◌, Assoc, overlay, if◌then◌else◌,
  ◌==◌,
}
use seaweedfs_csi_driver.Base.Exec.{Result, ok, err, pure, gets, ◌>>=◌, ◌>>◌}
use seaweedfs_csi_driver.Params.{clone_volume_context}
use seaweedfs_csi_driver.Host.{
  Fault, ListedMount, Volume, Node, NodeServer, read_device, read_publish_paths, list_mounts,
  store_volume,
}
use seaweedfs_csi_driver.Staging.{is_staging_path_live}
use seaweedfs_csi_driver.Node.{rebuilt_volume}

-- The volume as the mount service has it, with its publish paths.
unfoldable pub adopted : ListedMount → Assoc Bool → Volume
unfolding clone_volume_context
adopted info paths =
    record (rebuilt_volume info.volume_id info.target_path
      (some (clone_volume_context info.volume_context)) info.read_only) {
        unmounter = some info.volume_id;
        publish_paths = overlay [] paths;
      }

paths_of : String → Result Fault String → Node (Assoc Bool)
paths_of path (err e) = pure []
paths_of path (ok device) = if device == "" then pure [] else read_publish_paths device path

adopt : ListedMount → Option Fault → Node Bool
unfolding paths_of adopted
adopt info (some e) = pure false
adopt info none = do
  found ← read_device info.target_path
  paths ← paths_of info.target_path found
  store_volume info.volume_id (adopted info paths)
  pure true

restore_live : ListedMount → Bool → Node Bool
unfolding adopt
restore_live info false = pure false
restore_live info true = gets (λ s. s.host.client) >>= adopt info

-- restoreVolume: whether the volume was added.
unfoldable pub restore_volume : ListedMount → Node Bool
unfolding restore_live
restore_volume info =
    if info.volume_id == "" || info.target_path == ""
    then pure false
    else (is_staging_path_live info.target_path >>= restore_live info)

restore_each : List ListedMount → Node (Unit {0})
restore_each [] = pure tt
restore_each (info ∷ infos) = do restore_volume info; restore_each infos

restore_listed : Option (List ListedMount) → Node (Unit {0})
unfolding restore_each
restore_listed none = pure tt
restore_listed (some infos) = restore_each infos

restore_with : Option Fault → Node (Unit {0})
unfolding restore_listed
restore_with (some e) = pure tt
restore_with none = list_mounts >>= restore_listed

-- restoreVolumes: without a mount service, or without its list, nothing is restored.
unfoldable pub restore_volumes : Node (Unit {0})
unfolding restore_with
restore_volumes = gets (λ s. s.host.client) >>= restore_with
