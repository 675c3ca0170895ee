-- ===== src/Params.antt =====
-- The parameters that a VolumeAttributesClass may change, and their validation
-- (pkg/driver/controllerserver.go), and how persisted ones overlay a volume context
-- (mergePersistedVolumeAttributes of pkg/driver/vacstore.go, cloneVolumeContext of
-- pkg/driver/nodeserver.go).
pub mod Laws
pub mod Accepted
pub mod Effective
use seaweedfs_csi_driver.Base.{
  String, Bool, false, not, ◌&&◌, ◌||◌, Option, none, some, List, [], ◌∷◌, Assoc, lookup, insert,
  overlay, restrict, is_some, ◌==◌, if◌then◌else◌,
}
use seaweedfs_csi_driver.Locality.{from_string}
use seaweedfs_csi_driver.Strconv.{parse_bool, parse_int}

-- m[k] of a map of texts: "" on a missing key.
unfoldable pub text_at : String → Assoc String → String
unfolding lookup
text_at k m = elim (lookup k m) [ none ↦ "" | some v ↦ v ]

unfoldable pub one_of : String → List String → Bool
one_of k [] = false
one_of k (j ∷ ks) = k == j || one_of k ks

abbrev pub mutable_mount_parameters : List String
mutable_mount_parameters =
    "diskType" ∷ "replication" ∷ "ttl" ∷ "dataCenter" ∷ "dataLocality" ∷ "uidMap" ∷ "gidMap"
    ∷ "chunkSizeLimitMB" ∷ "volumeServerAccess" ∷ "readRetryTime" ∷ "concurrentReaders"
    ∷ "concurrentWriters" ∷ "cacheCapacityMB" ∷ "cacheMetaTtlSec" ∷ "writebackCache"
    ∷ "metadataFlushSeconds" ∷ "dlm" ∷ []

unfoldable pub is_mutable : String → Bool
unfolding one_of
is_mutable k = one_of k mutable_mount_parameters

abbrev pub integer_parameters : List String
integer_parameters =
    "concurrentReaders" ∷ "concurrentWriters" ∷ "cacheCapacityMB" ∷ "cacheMetaTtlSec"
    ∷ "chunkSizeLimitMB" ∷ "metadataFlushSeconds" ∷ []

pub data ValueError : Type 0 where
  bad_locality : String → ValueError
  not_integer not_boolean : String → String → ValueError

pub data ParameterError : Type 0 where
  not_modifiable : List String → ParameterError
  bad_values : List ValueError → ParameterError
  bad_value : ValueError → ParameterError
  writeback_with_dlm : ParameterError

-- validateMutableParameterValues: the error, if there is one.
unfoldable pub validate_value : String → String → Option ValueError
unfolding one_of
validate_value key value =
    if value == ""
    then none
    else if key == "dataLocality"
    then if is_some (from_string value) then none else some (bad_locality value)
    else if one_of key integer_parameters
    then if is_some (parse_int value) then none else some (not_integer key value)
    else if key == "writebackCache" || key == "dlm"
    then if is_some (parse_bool value) then none else some (not_boolean key value)
    else none

-- parseBool(s) gave true and no error.
unfoldable pub is_on : String → Bool
is_on s = elim (parse_bool s) [ none ↦ false | some b ↦ b ]

unfoldable pub validate_writeback_dlm_combo : Assoc String → Option ParameterError
unfolding text_at is_on
validate_writeback_dlm_combo params =
    let wb = text_at "writebackCache" params in
    let dlm = text_at "dlm" params in
    if not (wb == "") && not (dlm == "") && is_on wb && is_on dlm
    then some writeback_with_dlm
    else none

-- The loop of validateMutableParameters: the keys that are not modifiable, and the bad values.
unfoldable pub unknown_keys : Assoc String → List String
unknown_keys [] = []
unknown_keys ((key, value) ∷ params) =
    let rest = unknown_keys params in if is_mutable key then rest else key ∷ rest

keep_error : Option ValueError → List ValueError → List ValueError
keep_error none es = es
keep_error (some e) es = e ∷ es

unfoldable pub invalid_values : Assoc String → List ValueError
unfolding keep_error
invalid_values [] = []
invalid_values ((key, value) ∷ params) =
    let rest = invalid_values params in
    if is_mutable key then keep_error (validate_value key value) rest else rest

verdict : List String → List ValueError → Option ParameterError → Option ParameterError
verdict (k ∷ ks) invalid combo = some (not_modifiable (k ∷ ks))
verdict [] (e ∷ es) combo = some (bad_values (e ∷ es))
verdict [] [] combo = combo

unfoldable pub validate_mutable_parameters : Assoc String → Option ParameterError
unfolding verdict
validate_mutable_parameters params =
    verdict (unknown_keys params) (invalid_values params) (validate_writeback_dlm_combo params)

stop_at : Option ValueError → Option ParameterError → Option ParameterError
stop_at none rest = rest
stop_at (some e) rest = some (bad_value e)

unfoldable pub validate_constrained_parameter_values : Assoc String → Option ParameterError
unfolding stop_at
validate_constrained_parameter_values [] = none
validate_constrained_parameter_values ((key, value) ∷ params) =
    let rest = validate_constrained_parameter_values params in
    if is_mutable key then stop_at (validate_value key value) rest else rest

unfoldable pub clone_volume_context : Assoc String → Assoc String
clone_volume_context vol_context = overlay [] vol_context

-- Persisted entries that are not mutable are ignored.
unfoldable pub merge_persisted_volume_attributes : Assoc String → Assoc String → Assoc String
merge_persisted_volume_attributes vol_context [] = vol_context
merge_persisted_volume_attributes vol_context ((key, value) ∷ persisted) =
    merge_persisted_volume_attributes
      (if is_mutable key then insert key value vol_context else vol_context) persisted

-- The checks of ControllerModifyVolume on what the volume will be mounted with: the mutable
-- attributes of the persistent volume, overlaid with the new parameters.
unfoldable pub effective_parameters : Assoc String → Assoc String → Assoc String
effective_parameters attrs params = overlay (overlay [] (restrict is_mutable attrs)) params

unfoldable pub check_context : Assoc String → Option ParameterError
check_context context = elim (validate_constrained_parameter_values context) [
  | none ↦ validate_writeback_dlm_combo context
  | some e ↦ some e
]
