-- ===== src/Controller.antt =====
-- ControllerModifyVolume of pkg/driver/controllerserver.go, with Write of pkg/driver/vacstore.go. The
-- orchestrator's answer and whether the filer takes a write are parameters; what the filer keeps is
-- the state.
pub mod Modify
use seaweedfs_csi_driver.Base.{
  String, Bool, true, false, Option, none, some, List, [], ◌∷◌, Assoc, insert, not, ◌==◌,
  if◌then◌else◌,
}
use seaweedfs_csi_driver.Base.Exec.{ok, err, Exec, pure, raise, ◌>>=◌, ◌>>◌}
use seaweedfs_csi_driver.Node.{Code, RpcError, status, invalid_argument, internal}
use seaweedfs_csi_driver.Params.{
  ParameterError, validate_mutable_parameters, effective_parameters, check_context,
}

-- `attributes` is k8s.GetVolumeAttributes, none where it fails; `has_store` says whether the store of
-- a volume can be built, and `takes` whether its filer accepts a write.
pub record ControllerServer : Type 0 where
  pub attributes : String → Option (Assoc String)
  pub has_store : String → Bool
  pub takes : String → Assoc String → Bool
  pub persisted : Assoc (Assoc String)

abbrev pub ControllerRpc : Type 0
ControllerRpc = Exec ControllerServer RpcError (Unit {0})

abbrev pub is_empty : Assoc String → Bool
is_empty [] = true
is_empty (p ∷ params) = false

refuse_if : Code → Bool → ControllerRpc
refuse_if code true = raise (status code)
refuse_if code false = pure tt

abbrev is_refused : Option ParameterError → Bool
is_refused none = false
is_refused (some e) = true

-- filerVacStore.Write replaces the entry of the volume; nothing to write is no write.
unfoldable pub write : String → Assoc String → ControllerRpc
write volume_id [] s = (ok tt, s)
write volume_id (p ∷ params) s =
    if s.takes volume_id (p ∷ params)
    then (ok tt, record s { persisted = insert volume_id (p ∷ params) s.persisted })
    else (err (status internal), s)

persist : String → Assoc String → ControllerRpc
unfolding refuse_if write
persist volume_id params s =
    (refuse_if internal (not (s.has_store volume_id)) >> write volume_id params) s

modify_known : String → Assoc String → Option (Assoc String) → ControllerRpc
unfolding persist
modify_known volume_id params none = raise (status internal)
modify_known volume_id params (some attrs) = do
  refuse_if invalid_argument (is_refused (check_context (effective_parameters attrs params)))
  persist volume_id params

read_pv : String → Exec ControllerServer RpcError (Option (Assoc String))
read_pv volume_id s = (ok (s.attributes volume_id), s)

unfoldable pub controller_modify_volume : String → Assoc String → ControllerRpc
unfolding refuse_if modify_known read_pv
controller_modify_volume volume_id params = do
  refuse_if invalid_argument (volume_id == "")
  refuse_if invalid_argument (is_empty params)
  refuse_if invalid_argument (is_refused (validate_mutable_parameters params))
  attrs ← read_pv volume_id
  modify_known volume_id params attrs
