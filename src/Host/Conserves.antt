-- ===== src/Host/Conserves.antt =====
-- Relations between states that hold across every step on behalf of one volume: calls of the host,
-- and writes to the volume's entries of the two maps.
use seaweedfs_csi_driver.Base.{String, insert, erase}
use seaweedfs_csi_driver.Base.Exec.{Moves}
use seaweedfs_csi_driver.Host.State.{
  Volume, RecoveryBackoffState, NodeServer, store_volume, delete_volume,
}
use seaweedfs_csi_driver.Host.Quiet.{IsQuiet}

pub record Conserves (v : String) (R : NodeServer → NodeServer → Type 0) : Type 0 where
  pub quiet : IsQuiet R
  pub store : (s : NodeServer) (vol : Volume) → R s (record s { volumes = insert v vol s.volumes })
  pub delete : (s : NodeServer) → R s (record s { volumes = erase v s.volumes })
  pub widen :
      (s : NodeServer) (b : RecoveryBackoffState)
      → R s (record s { recovery_backoff = insert v b s.recovery_backoff })
  pub forget : (s : NodeServer) → R s (record s { recovery_backoff = erase v s.recovery_backoff })

module _ {v : String} {R : NodeServer → NodeServer → Type 0} (c : Conserves v R) where
  pub Moves-store_volume : {E : Type 0} (vol : Volume) → Moves {E = E} R (store_volume v vol)
  unfolding store_volume
  Moves-store_volume vol = record { at = λ s. c.store s vol }

  pub Moves-delete_volume : {E : Type 0} → Moves {E = E} R (delete_volume v)
  unfolding delete_volume
  Moves-delete_volume = record { at = λ s. c.delete s }

pub ruleset conserves_rules = (Moves-store_volume, Moves-delete_volume)
