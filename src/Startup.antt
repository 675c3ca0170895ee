-- ===== src/Startup.antt =====
-- How the driver is configured: main, convertRequiredValues and checkPreconditions of
-- cmd/seaweedfs-csi-driver/main.go, NewSeaweedFsDriver of pkg/driver/driver.go, ParseTopologyKeys of
-- pkg/driver/utils.go and ParseEndpoint of pkg/mountmanager/endpoint.go. The values of the flags, the
-- JSON of the extra arguments and the process's environment are arguments.
mod Parse
pub mod Configured
unfoldable pub use Parse.{parse_topology_keys, volume_socket_dir}
use Prim.Native.Char.{Char, code}
use seaweedfs_csi_driver.Base.{
  ℕ, String, Bool, true, false, not, ◌&&◌, ◌||◌, Option, none, some, List, [], ◌∷◌, ◌++◌, eqb,
  if◌then◌else◌, ◌==◌, ◌≡◌, refl,
}
use seaweedfs_csi_driver.Base.Exec.{Result, ok, err}
use seaweedfs_csi_driver.Strconv.{ℤ}
use seaweedfs_csi_driver.Chars.{is_space}
use seaweedfs_csi_driver.GoPath.{split, dir}
use seaweedfs_csi_driver.Locality.{DataLocality, from_string}
use seaweedfs_csi_driver.Locality
use seaweedfs_csi_driver.Driver.{
  Driver, AccessMode, single_node_writer, multi_node_multi_writer, single_node_multi_writer,
  single_node_single_writer, RpcType, create_delete_volume, rpc_single_node_multi_writer,
  expand_volume, modify_volume, publish_unpublish_volume, check_data_locality,
}
use seaweedfs_csi_driver.MountArgs.{MountArgError, validate_mount_args}

-- The flags, by their values.
pub record Flags : Type 0 where
  pub components : String
  pub enable_attacher : Bool
  pub driver_name : String
  pub filer : String
  pub mount_endpoint : String
  pub node_id : String
  pub concurrent_writers : ℤ
  pub concurrent_readers : ℤ
  pub mount_extra_args : String
  pub cache_capacity_mb : ℤ
  pub cache_meta_ttl_sec : ℤ
  pub uid_map : String
  pub gid_map : String
  pub data_center : String
  pub data_locality : String
  pub topology_keys : String

-- json.Unmarshal of a list of texts, the addresses of a list of filers, NODE_ID, and os.Hostname.
pub record Surroundings : Type 0 where
  pub unmarshal : String → Option (List String)
  pub to_addresses : String → List String
  pub node_id_variable : String
  pub hostname : Option String

-- Why the program exits.
pub data StartError : Type 0 where
  invalid_mount_extra_args invalid_locality invalid_component no_component : StartError
  locality_undefined no_node_id : StartError
  refused_mount_arg : MountArgError → StartError

-- The driver, the parts that run, and volumeSocketDir.
pub record Started : Type 0 where
  pub driver : Driver
  pub run_node : Bool
  pub run_controller : Bool
  pub volume_socket_dir : String

-- The access modes and capabilities that NewSeaweedFsDriver adds.
abbrev pub added_modes : List AccessMode
added_modes =
    multi_node_multi_writer ∷ single_node_writer ∷ single_node_multi_writer
    ∷ single_node_single_writer ∷ []

unfoldable pub added_capabilities : Bool → List RpcType
added_capabilities enable_attacher =
    (create_delete_volume ∷ rpc_single_node_multi_writer ∷ expand_volume ∷ modify_volume ∷ [])
    ++ (if enable_attacher then publish_unpublish_volume ∷ [] else [])

-- convertRequiredValues.
checked_args : Option MountArgError → List String → Result StartError (List String)
checked_args none args = ok args
checked_args (some e) args = err (refused_mount_arg e)

parsed_args : Option (List String) → Result StartError (List String)
unfolding checked_args validate_mount_args
parsed_args none = err invalid_mount_extra_args
parsed_args (some args) = checked_args (validate_mount_args args) args

parsed_locality : String → Result StartError DataLocality
unfolding from_string
parsed_locality s =
    if not (s == "")
    then elim (from_string s) [ none ↦ err invalid_locality | some l ↦ ok l ]
    else ok Locality.none

with_locality :
    List String → Result StartError DataLocality → Result StartError (List String × DataLocality)
with_locality args (err e) = err e
with_locality args (ok locality) = ok (args, locality)

with_args : Flags → Result StartError (List String) → Result StartError (List String × DataLocality)
unfolding with_locality parsed_locality
with_args flags (err e) = err e
with_args flags (ok args) = with_locality args (parsed_locality flags.data_locality)

unfoldable pub convert_required_values :
    Surroundings → Flags → Result StartError (List String × DataLocality)
unfolding parsed_args with_args
convert_required_values around flags =
    with_args flags (parsed_args (around.unmarshal flags.mount_extra_args))

-- The loop over the components: whether the node and the controller run.
unfoldable pub read_components : Bool → Bool → List String → Option (Bool × Bool)
read_components run_node run_controller [] = some (run_node, run_controller)
read_components run_node run_controller (c ∷ cs) =
    let controller = read_components run_node true cs in
    let node = read_components true run_controller cs in
    if c == "controller" then controller else if c == "node" then node else none

-- The node id of checkPreconditions.
host_id : Option String → String
host_id none = ""
host_id (some name) = name

unfoldable pub detected_node_id : Surroundings → String → String
unfolding host_id
detected_node_id around node_id =
    if node_id == ""
    then (if not (around.node_id_variable == "")
        then around.node_id_variable
        else host_id around.hostname)
    else node_id

-- checkPreconditions: the node id, where it returns nil.
unfoldable pub check_preconditions :
    Surroundings → Flags → DataLocality → Bool → Result StartError String
unfolding detected_node_id check_data_locality
check_preconditions around flags locality run_node =
    let node_id = detected_node_id around flags.node_id in
    if not (check_data_locality locality flags.data_center)
    then err locality_undefined
    else if run_node
    then (if node_id == "" then err no_node_id else ok node_id)
    else ok flags.node_id

-- NewSeaweedFsDriver and the fields that main sets.
unfoldable pub new_driver : Surroundings → Flags → List String → DataLocality → String → Driver
unfolding added_capabilities parse_topology_keys
new_driver around flags args locality node_id = record {
  name = flags.driver_name;
  node_id = node_id;
  vcap = added_modes;
  cscap = added_capabilities flags.enable_attacher;
  filers = around.to_addresses flags.filer;
  filer_index = 0;
  concurrent_writers = flags.concurrent_writers;
  concurrent_readers = flags.concurrent_readers;
  mount_extra_args = args;
  cache_capacity_mb = flags.cache_capacity_mb;
  cache_meta_ttl_sec = flags.cache_meta_ttl_sec;
  uid_map = flags.uid_map;
  gid_map = flags.gid_map;
  data_center = flags.data_center;
  data_locality = locality;
  topology_keys = parse_topology_keys flags.topology_keys;
}

start_with :
    Surroundings
    → Flags
    → List String × DataLocality
    → Bool × Bool
    → Result StartError String
    → Result StartError Started
unfolding new_driver volume_socket_dir
start_with around flags values parts (err e) = err e
start_with around flags (args, locality) (run_node, run_controller) (ok node_id) = ok (record {
  driver = new_driver around flags args locality node_id;
  run_node = run_node;
  run_controller = run_controller;
  volume_socket_dir = volume_socket_dir flags.mount_endpoint;
})

start_parts :
    Surroundings
    → Flags
    → List String × DataLocality
    → Option (Bool × Bool)
    → Result StartError Started
unfolding start_with check_preconditions
start_parts around flags values none = err invalid_component
start_parts around flags values (some (run_node, run_controller)) =
    if not run_node && not run_controller
    then err no_component
    else start_with around flags values (run_node, run_controller)
        (check_preconditions around flags values.1 run_node)

start_values :
    Surroundings
    → Flags
    → Result StartError (List String × DataLocality)
    → Result StartError Started
unfolding start_parts read_components split
start_values around flags (err e) = err e
start_values around flags (ok values) =
    start_parts around flags values (read_components false false (split b',' flags.components))

-- main, up to Run.
unfoldable pub start : Surroundings → Flags → Result StartError Started
unfolding start_values convert_required_values
start around flags = start_values around flags (convert_required_values around flags)
