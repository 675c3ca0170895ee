-- ===== src/Driver.antt =====
-- The driver's configuration and its service checks: pkg/driver/driver.go, with
-- isValidVolumeCapabilities, isReadOnlyAccessMode and CheckDataLocality, and the volume ids of
-- pkg/driver/utils.go. What net/url does to a volume id is a parameter, `Urls`.
pub mod Filers
use seaweedfs_csi_driver.Base.{
  ℕ, String, Bool, true, false, ◌&&◌, ◌||◌, Option, none, some, List, [], ◌∷◌, eqb, if◌then◌else◌,
  ◌==◌,
}
use seaweedfs_csi_driver.Locality.{DataLocality}
use seaweedfs_csi_driver.Locality
use seaweedfs_csi_driver.Strconv.{ℤ}

pub data AccessMode : Type 0 where
  unknown single_node_writer single_node_reader_only multi_node_reader_only : AccessMode
  multi_node_single_writer multi_node_multi_writer : AccessMode
  single_node_single_writer single_node_multi_writer : AccessMode

-- The number of the mode in the protocol, which `==` compares.
abbrev pub mode_number : AccessMode → ℕ
mode_number unknown = 0
mode_number single_node_writer = 1
mode_number single_node_reader_only = 2
mode_number multi_node_reader_only = 3
mode_number multi_node_single_writer = 4
mode_number multi_node_multi_writer = 5
mode_number single_node_single_writer = 6
mode_number single_node_multi_writer = 7

pub data RpcType : Type 0 where
  rpc_unknown create_delete_volume publish_unpublish_volume : RpcType
  expand_volume rpc_single_node_multi_writer modify_volume : RpcType

abbrev pub rpc_number : RpcType → ℕ
rpc_number rpc_unknown = 0
rpc_number create_delete_volume = 1
rpc_number publish_unpublish_volume = 2
rpc_number expand_volume = 9
rpc_number rpc_single_node_multi_writer = 13
rpc_number modify_volume = 14

-- What net/url reads of a volume id: the scheme, the host and the decoded path.
pub record Url : Type 0 where
  pub scheme : String
  pub host : String
  pub path : String

pub record Urls : Type 0 where
  pub parse : String → Option Url
  pub print : Url → String

pub record Driver : Type 0 where
  pub name : String
  pub node_id : String
  pub vcap : List AccessMode
  pub cscap : List RpcType
  pub filers : List String
  pub filer_index : ℕ
  pub concurrent_writers : ℤ
  pub concurrent_readers : ℤ
  pub mount_extra_args : List String
  pub cache_capacity_mb : ℤ
  pub cache_meta_ttl_sec : ℤ
  pub uid_map : String
  pub gid_map : String
  pub data_center : String
  pub data_locality : DataLocality
  pub topology_keys : List String

-- DecodeVolumeID: the filer and the path that a volume id names.
unfoldable pub decode_volume_id : Urls → String → String × String
decode_volume_id urls volume_id = elim (urls.parse volume_id) [
  | none ↦ ("", volume_id)
  | some u ↦ if u.scheme == "filer" then (u.host, u.path) else ("", volume_id)
]

-- EncodeVolumeID.
unfoldable pub encode_volume_id : Urls → String → String → String
encode_volume_id urls filer_address volume_path =
    if filer_address == ""
    then volume_path
    else urls.print (record { scheme = "filer"; host = filer_address; path = volume_path })

-- ValidateControllerServiceRequest: whether it returns nil.
has_capability : RpcType → List RpcType → Bool
has_capability c [] = false
has_capability c (cap' ∷ caps) = eqb (rpc_number c) (rpc_number cap') || has_capability c caps

unfoldable pub validate_controller_service_request : Driver → RpcType → Bool
unfolding has_capability
validate_controller_service_request d c = eqb (rpc_number c) 0 || has_capability c d.cscap

has_support : List AccessMode → AccessMode → Bool
has_support [] m = false
has_support (c ∷ caps) m = eqb (mode_number c) (mode_number m) || has_support caps m

unfoldable pub is_valid_volume_capabilities : List AccessMode → List AccessMode → Bool
unfolding has_support
is_valid_volume_capabilities driver_caps [] = true
is_valid_volume_capabilities driver_caps (c ∷ caps) =
    has_support driver_caps c && is_valid_volume_capabilities driver_caps caps

unfoldable pub is_read_only_access_mode : AccessMode → Bool
is_read_only_access_mode single_node_reader_only = true
is_read_only_access_mode multi_node_reader_only = true
is_read_only_access_mode _ = false

-- CheckDataLocality: whether it returns nil.
unfoldable pub check_data_locality : DataLocality → String → Bool
check_data_locality Locality.none data_center = true
check_data_locality Locality.write_prefer_local_dc data_center =
    if data_center == "" then false else true
