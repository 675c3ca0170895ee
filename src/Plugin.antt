-- ===== src/Plugin.antt =====
-- The node plugin as a whole: the RPCs of pkg/driver/nodeserver.go and the health checks of
-- pkg/driver/health_monitor.go as steps on its state, in any order.
pub mod Guard
pub mod Isolation
pub mod WellFormed
use seaweedfs_csi_driver.Base.{String, List, [], ◌∷◌}
use seaweedfs_csi_driver.Strconv.{ℤ}
use seaweedfs_csi_driver.Host.{NodeServer}
use seaweedfs_csi_driver.Node.{
  StageRequest, PublishRequest, node_stage_volume, node_publish_volume, node_unpublish_volume,
  node_unstage_volume, node_expand_volume,
}
use seaweedfs_csi_driver.Health.{perform_volume_health_check}

pub data Request : Type 0 where
  stages : StageRequest → Request
  publishes : PublishRequest → Request
  unpublishes unstages : String → String → Request
  expands : String → String → ℤ → Request
  checks_health : String → Request

-- The state after a request, whatever its reply.
unfoldable pub step : NodeServer → Request → NodeServer
step s (stages req) = (node_stage_volume req s).1
step s (publishes req) = (node_publish_volume req s).1
step s (unpublishes volume_id path) = (node_unpublish_volume volume_id path s).1
step s (unstages volume_id path) = (node_unstage_volume volume_id path s).1
step s (expands volume_id path bytes) = (node_expand_volume volume_id path bytes s).1
step s (checks_health volume_id) = (perform_volume_health_check volume_id s).1

unfoldable pub run : NodeServer → List Request → NodeServer
unfolding step
run s [] = s
run s (r ∷ rs) = run (step s r) rs

-- The volume that a request is about.
abbrev pub subject : Request → String
subject (stages req) = req.volume_id
subject (publishes req) = req.volume_id
subject (unpublishes volume_id path) = volume_id
subject (unstages volume_id path) = volume_id
subject (expands volume_id path bytes) = volume_id
subject (checks_health volume_id) = volume_id
