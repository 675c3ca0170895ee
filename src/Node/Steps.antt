-- ===== src/Node/Steps.antt =====
-- Every RPC of the node plugin is made of steps on behalf of its own volume.
use seaweedfs_csi_driver.Base.{String, Bool, true, false, Option, none, some, ◌≡◌, sym, subst}
use seaweedfs_csi_driver.Base.Exec.{Moves, modify, moves_rules}
use seaweedfs_csi_driver.Strconv.{ℤ}
use seaweedfs_csi_driver.Host.{Fault, Volume, NodeServer}
use seaweedfs_csi_driver.Host.Quiet.{IsQuiet, host_rules}
use seaweedfs_csi_driver.Host.Conserves.{Conserves, conserves_rules}
use seaweedfs_csi_driver.Staging.{cleanup_stale_staging_path}
use seaweedfs_csi_driver.Staging.Quiet.{staging_rules}
use seaweedfs_csi_driver.Volume.Quiet.{volume_rules}
use seaweedfs_csi_driver.Node.{
  RpcError, StageRequest, PublishRequest, require, cleanup_if, stage_fresh, stage_if_healthy,
  stage_unless_cached, node_stage_volume, restage, heal, known_volume, node_publish_volume,
  forget_if_clean, cleanup_garbage, unpublish_known, node_unpublish_volume, unstage_known,
  forget_backoff, node_unstage_volume, quota_of_known, node_expand_volume,
}

ruleset node_rules = (moves_rules, host_rules, staging_rules, volume_rules, conserves_rules)

module _ {R : NodeServer → NodeServer → Type 0} (q : IsQuiet R) where
  pub Moves-require : (b : Bool) → Moves R (require b)
  unfolding require
  Moves-require true = search (moves_rules, q.order)
  Moves-require false = search (moves_rules, q.order)

  forget_if_clean_steps : (p : String) (r : Option Fault) → Moves R (forget_if_clean p r)
  unfolding forget_if_clean
  forget_if_clean_steps p none = search (node_rules, q)
  forget_if_clean_steps p (some e) = search (node_rules, q.order)

  pub Moves-cleanup_garbage : (p : String) → Moves R (cleanup_garbage p)
  unfolding cleanup_garbage
  Moves-cleanup_garbage p = search (node_rules, q.order, q, forget_if_clean_steps)

  quota_of_known_steps : (n : ℤ) (known : Option Volume) → Moves R (quota_of_known n known)
  unfolding quota_of_known
  quota_of_known_steps n none = search (node_rules, q.order)
  quota_of_known_steps n (some vol) = search (node_rules, q.order, q)

  pub Moves-node_expand_volume : (v p : String) (n : ℤ) → Moves R (node_expand_volume v p n)
  unfolding node_expand_volume
  Moves-node_expand_volume v p n =
      search (node_rules, q.order, q, Moves-require, quota_of_known_steps) depth 9

module _ {v : String} {R : NodeServer → NodeServer → Type 0} (c : Conserves v R)
    (cleanup : (path : String) → Moves R (cleanup_stale_staging_path path)) where
  unpublish_known_steps : (p : String) (known : Option Volume) → Moves R (unpublish_known v p known)
  unfolding unpublish_known
  unpublish_known_steps p none = Moves-cleanup_garbage c.quiet p
  unpublish_known_steps p (some vol) = search (node_rules, c.quiet.order, c.quiet, c)

  pub Moves-node_unpublish_volume : (p : String) → Moves R (node_unpublish_volume v p)
  unfolding node_unpublish_volume
  Moves-node_unpublish_volume p =
      search (node_rules, c.quiet.order, c.quiet, Moves-require, unpublish_known_steps) depth 9

  unstage_known_steps : (p : String) (known : Option Volume) → Moves R (unstage_known v p known)
  unfolding unstage_known
  unstage_known_steps p none = search (node_rules, c.quiet.order, c.quiet, Moves-cleanup_garbage)
  unstage_known_steps p (some vol) = search (node_rules, c.quiet.order, c.quiet, c)

  forget_steps : Moves {E = RpcError} R (modify (forget_backoff v))
  unfolding modify forget_backoff
  forget_steps = record { at = λ s. c.forget s }

  pub Moves-node_unstage_volume : (p : String) → Moves R (node_unstage_volume v p)
  unfolding node_unstage_volume
  Moves-node_unstage_volume p =
      search (node_rules, c.quiet.order, c.quiet, Moves-require, unstage_known_steps, forget_steps)
        depth 12

  cleanup_if_steps : (b : Bool) (p : String) → Moves R (cleanup_if b p)
  unfolding cleanup_if
  cleanup_if_steps true p = search (node_rules, c.quiet.order, cleanup)
  cleanup_if_steps false p = search (node_rules, c.quiet.order)

  module _ (req : StageRequest) (same : req.volume_id ≡ v) where
    own : Conserves req.volume_id R
    own = subst (λ w. Conserves w R) (sym same) c

    stage_fresh_steps : Moves R (stage_fresh req)
    unfolding stage_fresh
    stage_fresh_steps = search (node_rules, c.quiet.order, c.quiet, own, cleanup_if_steps) depth 9

    stage_if_healthy_steps : (b : Bool) → Moves R (stage_if_healthy req b)
    unfolding stage_if_healthy
    stage_if_healthy_steps true = search (node_rules, own)
    stage_if_healthy_steps false = stage_fresh_steps

    stage_unless_cached_steps : (known : Option Volume) → Moves R (stage_unless_cached req known)
    unfolding stage_unless_cached
    stage_unless_cached_steps none =
        search (node_rules, c.quiet.order, c.quiet, stage_if_healthy_steps)
    stage_unless_cached_steps (some vol) = search (node_rules, c.quiet.order)

    pub Moves-node_stage_volume : Moves R (node_stage_volume req)
    unfolding node_stage_volume
    Moves-node_stage_volume =
        search (node_rules, c.quiet.order, c.quiet, Moves-require, stage_unless_cached_steps) depth
          12

  module _ (req : PublishRequest) (same : req.volume_id ≡ v) where
    its : Conserves req.volume_id R
    its = subst (λ w. Conserves w R) (sym same) c

    restage_steps : Moves R (restage req)
    unfolding restage
    restage_steps = search (node_rules, c.quiet.order, c.quiet, its, cleanup) depth 9

    heal_steps : (b : Bool) → Moves R (heal req b)
    unfolding heal
    heal_steps true = search (node_rules, c.quiet.order, its)
    heal_steps false = restage_steps

    known_volume_steps : (known : Option Volume) → Moves R (known_volume req known)
    unfolding known_volume
    known_volume_steps none = search (node_rules, c.quiet.order, c.quiet, heal_steps)
    known_volume_steps (some vol) = search (node_rules, c.quiet.order)

    pub Moves-node_publish_volume : Moves R (node_publish_volume req)
    unfolding node_publish_volume
    Moves-node_publish_volume =
        search (node_rules, c.quiet.order, c.quiet, its, Moves-require, known_volume_steps) depth 14
