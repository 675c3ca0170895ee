-- ===== src/Node/Failures.antt =====
-- A request that fails leaves what the plugin knows as it was.
use seaweedfs_csi_driver.Base.{String, Bool, true, false, Option, none, some, ◌≡◌, refl, ◌∙◌, arith}
use seaweedfs_csi_driver.Base.Exec.{err, Moves, IsPreorder, modify, ◌>>=◌, moves_rules}
use seaweedfs_csi_driver.Base.Outcomes.{
  Fails, IsSure, Fails-IsSure, Fails-Moves, Fails-bind, Fails-first,
}
use seaweedfs_csi_driver.Host.{
  Volume, NodeServer, ask, act, note, store_volume, delete_volume, forget_metrics,
}
use seaweedfs_csi_driver.Host.Quiet.{IsQuiet, host_rules}
use seaweedfs_csi_driver.Staging.{cleanup_stale_staging_path}
use seaweedfs_csi_driver.Staging.Quiet.{staging_rules}
use seaweedfs_csi_driver.Volume.Quiet.{volume_rules}
use seaweedfs_csi_driver.Node.{
  RpcError, StageRequest, cleanup_if, stage_fresh, stage_if_healthy, stage_unless_cached,
  node_stage_volume, unpublish_known, node_unpublish_volume, unstage_known, forget_backoff,
  node_unstage_volume,
}
use seaweedfs_csi_driver.Node.Steps.{Moves-require, Moves-cleanup_garbage}

-- The volumes and their backoff are as before.
pub record IsUnchanged (s t : NodeServer) : Type 0 where
  pub volumes : t.volumes ≡ s.volumes
  pub backoff : t.recovery_backoff ≡ s.recovery_backoff

order : IsPreorder IsUnchanged
order = record {
  reflexive = λ s. record { volumes = refl; backoff = refl };
  transitive = λ p q. record { volumes = q.volumes ∙ p.volumes; backoff = q.backoff ∙ p.backoff };
}

quiet : IsQuiet IsUnchanged
quiet = record { order = order; extend = λ s e h. record { volumes = refl; backoff = refl } }

ruleset unchanged_rules = (moves_rules, host_rules, staging_rules, volume_rules)

cleanup_unchanged : (path : String) → Moves IsUnchanged (cleanup_stale_staging_path path)
unfolding cleanup_stale_staging_path ask act note ◌>>=◌
cleanup_unchanged path = record {
  at = λ s. record { volumes = ground arith; backoff = ground arith };
}

cleanup_if_unchanged : (b : Bool) (path : String) → Moves IsUnchanged (cleanup_if b path)
unfolding cleanup_if
cleanup_if_unchanged true path = search (unchanged_rules, order, cleanup_unchanged)
cleanup_if_unchanged false path = search (unchanged_rules, order)

store-IsSure : (v : String) (vol : Volume) → IsSure {E = RpcError} (store_volume v vol)
unfolding store_volume
store-IsSure v vol = record { at = λ s t e q. ground arith }

delete-IsSure : (v : String) → IsSure {E = RpcError} (delete_volume v)
unfolding delete_volume
delete-IsSure v = record { at = λ s t e q. ground arith }

stage_fresh-Fails : (req : StageRequest) → Fails IsUnchanged (stage_fresh req)
unfolding stage_fresh
stage_fresh-Fails req = Fails-bind order _ _ (search (unchanged_rules, quiet)) λ info.
    Fails-bind order _ _ (cleanup_if_unchanged _ _) λ u.
      Fails-bind order _ _ (search (unchanged_rules, order, quiet))
        λ vol. Fails-IsSure IsUnchanged _ (store-IsSure _ vol)

stage_if_healthy-Fails :
    (req : StageRequest) (b : Bool) → Fails IsUnchanged (stage_if_healthy req b)
unfolding stage_if_healthy
stage_if_healthy-Fails req true = Fails-IsSure IsUnchanged _ (store-IsSure _ _)
stage_if_healthy-Fails req false = stage_fresh-Fails req

stage_unless_cached-Fails :
    (req : StageRequest) (known : Option Volume) → Fails IsUnchanged (stage_unless_cached req known)
unfolding stage_unless_cached
stage_unless_cached-Fails req none =
    Fails-bind order _ _ (search (unchanged_rules, order, quiet)) (stage_if_healthy-Fails req)
stage_unless_cached-Fails req (some vol) = Fails-Moves order _ (search (unchanged_rules, order))

node_stage_volume-Fails : (req : StageRequest) → Fails IsUnchanged (node_stage_volume req)
unfolding node_stage_volume
node_stage_volume-Fails req = Fails-bind order _ _ (Moves-require quiet _) λ a.
    Fails-bind order _ _ (Moves-require quiet _) λ b.
      Fails-bind order _ _ (Moves-require quiet _)
        λ c. Fails-bind order _ _ (search (unchanged_rules, quiet)) (stage_unless_cached-Fails req)

unpublish_known-Fails :
    (v path : String) (known : Option Volume) → Fails IsUnchanged (unpublish_known v path known)
unfolding unpublish_known
unpublish_known-Fails v path none = Fails-Moves order _ (Moves-cleanup_garbage quiet path)
unpublish_known-Fails v path (some vol) =
    Fails-bind order _ _ (search (unchanged_rules, order, quiet))
      λ u. Fails-IsSure IsUnchanged _ (store-IsSure v _)

node_unpublish_volume-Fails : (v path : String) → Fails IsUnchanged (node_unpublish_volume v path)
unfolding node_unpublish_volume
node_unpublish_volume-Fails v path = Fails-bind order _ _ (Moves-require quiet _) λ a.
    Fails-bind order _ _ (Moves-require quiet _)
      λ b. Fails-bind order _ _ (search (unchanged_rules, quiet)) (unpublish_known-Fails v path)

unstage_known-Fails :
    (v path : String) (known : Option Volume) → Fails IsUnchanged (unstage_known v path known)
unfolding unstage_known
unstage_known-Fails v path none =
    Fails-Moves order _ (search (unchanged_rules, order, quiet, Moves-cleanup_garbage quiet))
unstage_known-Fails v path (some vol) =
    Fails-bind order _ _ (search (unchanged_rules, order, quiet))
      λ u. Fails-IsSure IsUnchanged _ (delete-IsSure v)

forget-IsSure : (v : String) → IsSure {E = RpcError} (modify (forget_backoff v))
unfolding modify
forget-IsSure v = record { at = λ s t e q. ground arith }

note-IsSure : (v : String) → IsSure {E = RpcError} (note (forget_metrics v))
unfolding note
note-IsSure v = record { at = λ s t e q. ground arith }

forget_then_note-IsSure :
    (v : String)
    → IsSure {E = RpcError} (modify (forget_backoff v) >>= λ _. note (forget_metrics v))
forget_then_note-IsSure v = Fails-first (λ s t. ⊥) _ _ (forget-IsSure v) λ u. note-IsSure v

node_unstage_volume-Fails : (v path : String) → Fails IsUnchanged (node_unstage_volume v path)
unfolding node_unstage_volume
node_unstage_volume-Fails v path = Fails-bind order _ _ (Moves-require quiet _) λ a.
    Fails-bind order _ _ (Moves-require quiet _) λ b.
      Fails-bind order _ _ (search (unchanged_rules, quiet)) λ known.
        Fails-first IsUnchanged _ _ (unstage_known-Fails v path known)
          λ u. forget_then_note-IsSure v

-- A NodeStageVolume that fails, wherever it fails, leaves the plugin's volumes and their backoff as
-- they were.
pub node_stage_volume_unchanged :
    (req : StageRequest) (s t : NodeServer) (e : RpcError)
    → node_stage_volume req s ≡ (err e, t)
    → IsUnchanged s t
node_stage_volume_unchanged req = (node_stage_volume-Fails req).at

-- A NodeUnpublishVolume that fails leaves the plugin's volumes, with their publish paths, and their
-- backoff as they were.
pub node_unpublish_volume_unchanged :
    (v path : String) (s t : NodeServer) (e : RpcError)
    → node_unpublish_volume v path s ≡ (err e, t)
    → IsUnchanged s t
node_unpublish_volume_unchanged v path = (node_unpublish_volume-Fails v path).at

-- A NodeUnstageVolume that fails leaves the plugin's volumes and their backoff as they were.
pub node_unstage_volume_unchanged :
    (v path : String) (s t : NodeServer) (e : RpcError)
    → node_unstage_volume v path s ≡ (err e, t)
    → IsUnchanged s t
node_unstage_volume_unchanged v path = (node_unstage_volume-Fails v path).at
