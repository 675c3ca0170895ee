-- ===== src/Plugin/Guard.antt =====
-- No history of requests makes the plugin remove a staging path through a live mount.
use seaweedfs_csi_driver.Base.{String, List, [], ◌∷◌, refl}
use seaweedfs_csi_driver.Host.{
  NodeServer, Event, acted, asked, noted, unmount, lazy_unmount, cleanup_mount_point, remove,
  mkdir_all, bind_mount, start_mount, stop_mount, set_quota, remove_cache_dir, remove_local_socket,
  remove_all,
}
use seaweedfs_csi_driver.Host.Quiet.{IsQuiet, IsHarmless}
use seaweedfs_csi_driver.Host.Conserves.{Conserves}
use seaweedfs_csi_driver.Staging.Guard.{
  Permitted, IsGuarded, KeepsGuarded, KeepsGuarded-preorder, cleanup_stale_staging_path_guarded,
}
use seaweedfs_csi_driver.Node.Steps.{
  Moves-node_stage_volume, Moves-node_publish_volume, Moves-node_unpublish_volume,
  Moves-node_unstage_volume, Moves-node_expand_volume,
}
use seaweedfs_csi_driver.Health.Writes.{Moves-perform_volume_health_check}
use seaweedfs_csi_driver.Plugin.{
  Request, stages, publishes, unpublishes, unstages, expands, checks_health, step, run,
}

harmless-Permitted : (e : Event) (s : NodeServer) → IsHarmless e → Permitted e s.log
harmless-Permitted (acted (remove_all p) r) s h = absurd h
harmless-Permitted (acted (unmount p) r) s h = tt
harmless-Permitted (acted (lazy_unmount p) r) s h = tt
harmless-Permitted (acted (cleanup_mount_point p) r) s h = tt
harmless-Permitted (acted (remove p) r) s h = tt
harmless-Permitted (acted (mkdir_all p) r) s h = tt
harmless-Permitted (acted (bind_mount p q b) r) s h = tt
harmless-Permitted (acted (start_mount m) r) s h = tt
harmless-Permitted (acted (stop_mount v) r) s h = tt
harmless-Permitted (acted (set_quota v n) r) s h = tt
harmless-Permitted (acted (remove_cache_dir v) r) s h = tt
harmless-Permitted (acted (remove_local_socket v) r) s h = tt
harmless-Permitted (asked q a) s h = tt
harmless-Permitted (noted n) s h = tt

KeepsGuarded-quiet : IsQuiet KeepsGuarded
KeepsGuarded-quiet = record {
  order = KeepsGuarded-preorder;
  extend = λ s e harmless h. (harmless-Permitted e s harmless, h);
}

KeepsGuarded-conserves : (v : String) → Conserves v KeepsGuarded
KeepsGuarded-conserves v = record {
  quiet = KeepsGuarded-quiet;
  store = λ s vol h. h;
  delete = λ s h. h;
  widen = λ s b h. h;
  forget = λ s h. h;
}

step_guarded : (s : NodeServer) (r : Request) → KeepsGuarded s (step s r)
unfolding step
step_guarded s (stages req) =
    (Moves-node_stage_volume (KeepsGuarded-conserves _) cleanup_stale_staging_path_guarded req
        refl).at
      s
step_guarded s (publishes req) =
    (Moves-node_publish_volume (KeepsGuarded-conserves _) cleanup_stale_staging_path_guarded req
        refl).at
      s
step_guarded s (unpublishes v p) =
    (Moves-node_unpublish_volume (KeepsGuarded-conserves v) cleanup_stale_staging_path_guarded p).at
      s
step_guarded s (unstages v p) =
    (Moves-node_unstage_volume (KeepsGuarded-conserves v) cleanup_stale_staging_path_guarded p).at s
step_guarded s (expands v p n) = (Moves-node_expand_volume KeepsGuarded-quiet v p n).at s
step_guarded s (checks_health v) =
    (Moves-perform_volume_health_check (KeepsGuarded-conserves v)
        cleanup_stale_staging_path_guarded).at
      s

-- Whatever requests and health checks run, in whatever order and whatever the host answers, every
-- recursive removal of a staging path is directly preceded by a mount check that said that the path
-- is no mount point, or by a lazy unmount of the path that succeeded. The removal of a volume's own
-- cache directory after an unstage is no removal of a staging path, and is not among them.
pub run-IsGuarded :
    (s : NodeServer) (requests : List Request) → IsGuarded s.log → IsGuarded (run s requests).log
unfolding run
run-IsGuarded s [] h = h
run-IsGuarded s (r ∷ rs) h = run-IsGuarded (step s r) rs (step_guarded s r h)
