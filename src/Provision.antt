-- ===== src/Provision.antt =====
-- CreateVolume, DeleteVolume and ValidateVolumeCapabilities of pkg/driver/controllerserver.go. The
-- filer's answers, the S3 names' rules and the store of attributes are parameters; the state is the
-- history of the calls that change the filer.
pub mod Delete
pub mod Own
pub mod Created
pub mod Pages
pub mod Complete
pub mod Ids
pub mod Places
use seaweedfs_csi_driver.Base.{
  ℕ, zero, suc, String, Bool, true, false, not, ◌&&◌, ◌||◌, Option, none, some, List, [], ◌∷◌,
  Assoc, lookup, insert, overlay, ltb, eqb, if◌then◌else◌, ◌==◌,
}
use seaweedfs_csi_driver.Base.Exec.{Result, ok, err, Exec, pure, raise, gets, ◌>>=◌, ◌>>◌}
use seaweedfs_csi_driver.Strconv.{ℤ, pos, negsuc}
use seaweedfs_csi_driver.Strconv.Print.{format_nat}
use seaweedfs_csi_driver.GoPath.{is_abs, clean, dir, base, join_path}
use seaweedfs_csi_driver.Driver.{
  AccessMode, mode_number, single_node_writer, create_delete_volume, Driver, Urls, decode_volume_id,
  encode_volume_id, validate_controller_service_request, is_valid_volume_capabilities,
}
use seaweedfs_csi_driver.Host.{plain_fault}
use seaweedfs_csi_driver.Node.{RpcError, status, plain, invalid_argument, not_found}
use seaweedfs_csi_driver.Params.{text_at, ParameterError, validate_mutable_parameters}

-- Package strings, SHA-1 in hexadecimal, and seaweedfs's s3bucket package, as the names need them:
-- the length in bytes, a prefix of so many bytes, and the replacement of unsafe characters.
pub record S3Names : Type 0 where
  pub to_lower : String → String
  pub len : String → ℕ
  pub first_bytes : ℕ → String → String
  pub sha1_hex : String → String
  pub is_bucket_name : String → Bool
  pub replace_unsafe : String → String
  pub join_dot : String → String → String

-- The filers that a call goes to: the driver's own, or those of a volume id's address.
pub data Client : Type 0 where
  driver_filers : Client
  filers_at : String → Client

-- mkdir: the parent and the name; remove: the parent, the name, and ignoreRecursiveError.
pub data FilerCall : Type 0 where
  mkdir : Client → String → String → FilerCall
  remove : Client → String → String → Bool → FilerCall
  delete_attributes : String → FilerCall

-- A filer's error, by the test that the driver makes on it: isNotFoundError.
pub record FilerFault : Type 0 where
  pub is_not_found : Bool

-- What the filers answer after the calls so far: the configured bucket directory, the entries that
-- SeaweedList passes on (a name, and whether it is the last), Exists, and the outcome of a call.
pub record Filers : Type 0 where
  pub dir_buckets : List FilerCall → Client → Result FilerFault String
  pub seaweed_list :
      List FilerCall → Client → String → String → ℕ → Result FilerFault (List (String × Bool))
  pub exists : List FilerCall → Client → String → String → Result FilerFault Bool
  pub outcome : List FilerCall → FilerCall → Option FilerFault

pub record Provisioner : Type 0 where
  pub driver : Driver
  pub urls : Urls
  pub names : S3Names
  pub filers : Filers
  pub has_store : String → Bool
  pub log : List FilerCall

abbrev pub Provision : Type 0 → Type 0
Provision A = Exec Provisioner RpcError A

abbrev pub logged : FilerCall → Provisioner → Provisioner
logged call s = record s { log = call ∷ s.log }

-- A call, logged whether or not it fails.
unfoldable pub perform : FilerCall → Provision (Option FilerFault)
perform call s = (ok (s.filers.outcome s.log call), logged call s)

unfoldable pub returned : Option FilerFault → Provision (Unit {0})
returned none = pure tt
returned (some e) = raise (plain plain_fault)

unfoldable pub refuse_if : Bool → Provision (Unit {0})
refuse_if true = raise (status invalid_argument)
refuse_if false = pure tt

-- sanitizeVolumeIdS3.
unfoldable pub hash_if_long : S3Names → String → String
hash_if_long n id = if ltb 63 (n.len id) then n.sha1_hex id else id

unfoldable pub cut : S3Names → String → String
cut n name = if ltb 21 (n.len name) then n.first_bytes 21 name else name

unfoldable pub bucket_name : S3Names → String → String
unfolding cut
bucket_name n id =
    if n.is_bucket_name id
    then id
    else n.join_dot (cut n (n.replace_unsafe (n.to_lower id))) (n.sha1_hex id)

unfoldable pub sanitize_volume_id_s3 : S3Names → String → String
unfolding hash_if_long bucket_name
sanitize_volume_id_s3 n id = bucket_name n (hash_if_long n (n.to_lower id))

-- resolveVolume: the client and the path, none where the id is refused.
unfoldable pub is_protected : String → Bool
is_protected path = path == "." || path == "/" || path == "/buckets"

unfoldable pub client_of : String → Client
client_of filer_address = if filer_address == "" then driver_filers else filers_at filer_address

unfoldable pub resolve_volume : Urls → String → Option (Client × String)
unfolding is_protected client_of
resolve_volume urls volume_id =
    let (filer_address, parsed_path) = decode_volume_id urls volume_id in
    if is_protected (clean parsed_path) then none else some (client_of filer_address, parsed_path)

-- The parent and the name: an id that is no absolute path is the name of a bucket.
unfoldable pub parent_and_name : String → String × String
parent_and_name path = if is_abs path then (dir path, base path) else ("/buckets", path)

pub record TopologyRequirement : Type 0 where
  pub requisite : List (Assoc String)
  pub preferred : List (Assoc String)

unfoldable pub accessible_topology : TopologyRequirement → List (Assoc String)
accessible_topology r = elim r.requisite [ [] ↦ r.preferred | t ∷ ts ↦ t ∷ ts ]

-- A nil map of parameters reads as an empty one; `capabilities` is none where the list is nil, and a
-- request without a topology requirement has an empty one.
pub record CreateRequest : Type 0 where
  pub name : String
  pub parameters : Assoc String
  pub mutable_parameters : Assoc String
  pub capabilities : Option (List AccessMode)
  pub required_bytes : ℤ
  pub topology : TopologyRequirement

pub record CreatedVolume : Type 0 where
  pub volume_id : String
  pub capacity_bytes : ℤ
  pub volume_context : Assoc String
  pub accessible : List (Assoc String)

-- Where a volume goes: its path, the parent and the name.
pub record Place : Type 0 where
  pub volume_path : String
  pub parent_dir : String
  pub volume_name : String

unfoldable pub place_under : S3Names → String → String → Place
place_under n name parent =
    let parent_dir = if parent == "" then "/buckets" else parent in
    let volume_name = if parent_dir == "/buckets" then sanitize_volume_id_s3 n name else name in
    record {
      volume_path = join_path parent_dir volume_name;
      parent_dir = parent_dir;
      volume_name = volume_name;
    }

unfoldable pub place_at : String → Place
place_at path =
    let volume_path = clean path in
    record {
      volume_path = volume_path;
      parent_dir = dir volume_path;
      volume_name = base volume_path;
    }

unfoldable pub place_of : S3Names → String → Assoc String → Place
unfolding place_under place_at
place_of n name params =
    if text_at "path" params == ""
    then place_under n name (text_at "parentDir" params)
    else place_at (text_at "path" params)

unfoldable pub with_capacity : ℤ → Assoc String → Assoc String
with_capacity (pos zero) params = params
with_capacity (pos (suc n)) params = insert "volumeCapacity" (format_nat (suc n)) params
with_capacity (negsuc n) params = params

abbrev pub is_refused : Option ParameterError → Bool
is_refused none = false
is_refused (some e) = true

unfoldable pub is_missing : Option (List AccessMode) → Bool
is_missing none = true
is_missing (some capabilities) = false

-- The volume's context: the place's names, the mutable parameters, and the capacity.
unfoldable pub created_context : CreateRequest → Place → Assoc String
unfolding with_capacity
created_context req place = with_capacity req.required_bytes (
    overlay
      (insert "volumeName" place.volume_name (insert "parentDir" place.parent_dir req.parameters))
      req.mutable_parameters)

unfoldable pub create_at : CreateRequest → Place → Provision CreatedVolume
unfolding perform returned refuse_if is_missing
create_at req place = do
  refuse_if (is_refused (validate_mutable_parameters req.mutable_parameters))
  supported ← gets (λ s. validate_controller_service_request s.driver create_delete_volume)
  refuse_if (not supported)
  refuse_if (is_missing req.capabilities)
  let context = created_context req place
  let filer_address = text_at "filer" context
  made ← perform (mkdir (client_of filer_address) place.parent_dir place.volume_name)
  returned made
  urls ← gets (λ s. s.urls)
  pure (record {
    volume_id = encode_volume_id urls filer_address place.volume_path;
    capacity_bytes = req.required_bytes;
    volume_context = context;
    accessible = accessible_topology req.topology;
  })

unfoldable pub create_volume : CreateRequest → Provision CreatedVolume
unfolding create_at
create_volume req = do
  refuse_if (req.name == "")
  names ← gets (λ s. s.names)
  create_at req (place_of names req.name req.parameters)
