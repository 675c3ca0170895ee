-- ===== src/Plugin/Isolation.antt =====
-- A request touches no volume but its own.
use seaweedfs_csi_driver.Base.{
  String, ◌≡◌, ◌≢◌, refl, ◌∙◌, lookup, lookup-insert_other, lookup-erase_other, arith,
}
use seaweedfs_csi_driver.Base.Exec.{Moves, IsPreorder, ◌>>=◌}
use seaweedfs_csi_driver.Host.{NodeServer, ask, act, note}
use seaweedfs_csi_driver.Host.Quiet.{IsQuiet}
use seaweedfs_csi_driver.Host.Conserves.{Conserves}
use seaweedfs_csi_driver.Staging.{cleanup_stale_staging_path}
use seaweedfs_csi_driver.Node.Steps.{
  Moves-node_stage_volume, Moves-node_publish_volume, Moves-node_unpublish_volume,
  Moves-node_unstage_volume, Moves-node_expand_volume,
}
use seaweedfs_csi_driver.Health.Writes.{Moves-perform_volume_health_check}
use seaweedfs_csi_driver.Plugin.{
  Request, stages, publishes, unpublishes, unstages, expands, checks_health, step, subject,
}

-- The entry and the backoff of `w` are as before.
pub record SameAt (w : String) (s t : NodeServer) : Type 0 where
  pub volume : lookup w t.volumes ≡ lookup w s.volumes
  pub backoff : lookup w t.recovery_backoff ≡ lookup w s.recovery_backoff

SameAt-preorder : (w : String) → IsPreorder (SameAt w)
SameAt-preorder w = record {
  reflexive = λ s. record { volume = refl; backoff = refl };
  transitive = λ p q. record { volume = q.volume ∙ p.volume; backoff = q.backoff ∙ p.backoff };
}

SameAt-quiet : (w : String) → IsQuiet (SameAt w)
SameAt-quiet w = record {
  order = SameAt-preorder w;
  extend = λ s e h. record { volume = refl; backoff = refl };
}

cleanup_same : (w path : String) → Moves (SameAt w) (cleanup_stale_staging_path path)
unfolding cleanup_stale_staging_path ask act note ◌>>=◌
cleanup_same w path = record { at = λ s. record { volume = ground arith; backoff = ground arith } }

SameAt-conserves : (v w : String) → v ≢ w → Conserves v (SameAt w)
SameAt-conserves v w h = record {
  quiet = SameAt-quiet w;
  store = λ s vol. record { volume = lookup-insert_other v w vol s.volumes h; backoff = refl };
  delete = λ s. record { volume = lookup-erase_other v w s.volumes h; backoff = refl };
  widen = λ s b. record { volume = refl; backoff = lookup-insert_other v w b s.recovery_backoff h };
  forget = λ s. record { volume = refl; backoff = lookup-erase_other v w s.recovery_backoff h };
}

-- A request on behalf of one volume, or a health check of it with the recovery that may follow,
-- leaves the entry and the recovery backoff of every other volume as they were, errors included.
pub step_isolated :
    (s : NodeServer) (r : Request) (w : String) → subject r ≢ w → SameAt w s (step s r)
unfolding step
step_isolated s (stages req) w h =
    (Moves-node_stage_volume (SameAt-conserves _ w h) (cleanup_same w) req refl).at s
step_isolated s (publishes req) w h =
    (Moves-node_publish_volume (SameAt-conserves _ w h) (cleanup_same w) req refl).at s
step_isolated s (unpublishes v p) w h =
    (Moves-node_unpublish_volume (SameAt-conserves v w h) (cleanup_same w) p).at s
step_isolated s (unstages v p) w h =
    (Moves-node_unstage_volume (SameAt-conserves v w h) (cleanup_same w) p).at s
step_isolated s (expands v p n) w h = (Moves-node_expand_volume (SameAt-quiet w) v p n).at s
step_isolated s (checks_health v) w h =
    (Moves-perform_volume_health_check (SameAt-conserves v w h) (cleanup_same w)).at s
