-- ===== src/Plugin/WellFormed.antt =====
-- The plugin's map stays well formed.
use seaweedfs_csi_driver.Base.{List, [], ◌∷◌}
use seaweedfs_csi_driver.Host.{NodeServer}
use seaweedfs_csi_driver.Volume.Staged.{IsWellFormed, KeepsWellFormed, KeepsWellFormed-quiet}
use seaweedfs_csi_driver.Node.Steps.{Moves-node_expand_volume}
use seaweedfs_csi_driver.Node.WellFormed.{
  node_stage_volume_sound, node_publish_volume_sound, node_unpublish_volume_sound,
  node_unstage_volume_sound,
}
use seaweedfs_csi_driver.Health.WellFormed.{perform_volume_health_check_sound}
use seaweedfs_csi_driver.Plugin.{
  Request, stages, publishes, unpublishes, unstages, expands, checks_health, step, run,
}

step_sound : (s : NodeServer) (r : Request) → KeepsWellFormed s (step s r)
unfolding step
step_sound s (stages req) = (node_stage_volume_sound req).at s
step_sound s (publishes req) = (node_publish_volume_sound req).at s
step_sound s (unpublishes v p) = (node_unpublish_volume_sound v p).at s
step_sound s (unstages v p) = (node_unstage_volume_sound v p).at s
step_sound s (expands v p n) = (Moves-node_expand_volume KeepsWellFormed-quiet v p n).at s
step_sound s (checks_health v) = (perform_volume_health_check_sound v).at s

-- After any requests and health checks, failing ones included, every volume that the plugin knows
-- is kept under its own id and has a staging path, if that held before.
pub run-IsWellFormed :
    (s : NodeServer) (requests : List Request) → IsWellFormed s → IsWellFormed (run s requests)
unfolding run
run-IsWellFormed s [] h = h
run-IsWellFormed s (r ∷ rs) h = run-IsWellFormed (step s r) rs (step_sound s r h)
