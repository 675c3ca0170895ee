-- ===== src/Controller/Modify.antt =====
-- What ControllerModifyVolume persists.
use seaweedfs_csi_driver.Base.{
  String, none, some, Assoc, lookup, insert, lookup-insert, eq_refl, ◌≡◌, refl, ◌∙◌, arith, ap,
}
use seaweedfs_csi_driver.Base.Exec.{ok, err, pure, raise, ◌>>=◌}
use seaweedfs_csi_driver.Node.{RpcError}
use seaweedfs_csi_driver.Params.{
  effective_parameters, check_context, merge_persisted_volume_attributes, clone_volume_context,
}
use seaweedfs_csi_driver.Params.Effective.{modify_then_stage}
use seaweedfs_csi_driver.Controller.{
  ControllerServer, refuse_if, write, persist, modify_known, read_pv, controller_modify_volume,
}

-- A ControllerModifyVolume that fails leaves what is persisted as it was.
pub controller_modify_volume_unchanged :
    (v : String) (params : Assoc String) (s t : ControllerServer) (e : RpcError)
    → controller_modify_volume v params s ≡ (err e, t)
    → t.persisted ≡ s.persisted
unfolding controller_modify_volume modify_known read_pv refuse_if persist write pure raise ◌>>=◌
controller_modify_volume_unchanged v params s t e h = ground arith

checked :
    (v : String) (params attrs : Assoc String) (s t : ControllerServer)
    → s.attributes v ≡ some attrs
    → controller_modify_volume v params s ≡ (ok tt, t)
    → check_context (effective_parameters attrs params) ≡ none
unfolding controller_modify_volume modify_known read_pv refuse_if pure raise ◌>>=◌
checked v params attrs s t known h = ground arith

written :
    (v : String) (params : Assoc String) (s t : ControllerServer)
    → controller_modify_volume v params s ≡ (ok tt, t)
    → t.persisted ≡ insert v params s.persisted
unfolding controller_modify_volume modify_known read_pv refuse_if persist write pure raise ◌>>=◌
written v params s t h = ground arith

-- After a ControllerModifyVolume that succeeds the filer keeps exactly the parameters of the request
-- for the volume, and the checks of the next stage accept the attributes of the persistent volume
-- merged with them.
pub controller_modify_volume_stages :
    (v : String) (params attrs : Assoc String) (s t : ControllerServer)
    → s.attributes v ≡ some attrs
    → controller_modify_volume v params s ≡ (ok tt, t)
    → (lookup v t.persisted ≡ some params)
      × (check_context (merge_persisted_volume_attributes (clone_volume_context attrs) params)
          ≡ none)
controller_modify_volume_stages v params attrs s t known h = (
  ap (lookup v) (written v params s t h)
      ∙ lookup-insert v v params s.persisted
      ∙ rw (eq_refl v) refl,
  modify_then_stage attrs params (checked v params attrs s t known h),
)
