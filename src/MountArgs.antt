-- ===== src/MountArgs.antt =====
-- The command line of `weed mount`: buildMountArgs, ValidateMountArgs and
-- initialCollectionQuotaMB, and the choice of the filers in Mount (pkg/driver/mounter.go).
pub mod Context
pub mod Extra
pub mod Final
pub mod Quota
use Prim.Native.Char.{code}
use Prim.Native.String.{◌++◌ as ◌^^◌}
use seaweedfs_csi_driver.Base.{
  ℕ, ◌+◌, ◌/◌, ◌%◌, String, Bool, false, not, ◌&&◌, ◌||◌, Option, none, some, List, [], ◌∷◌, ◌++◌,
  Assoc, lookup, insert, is_some, eqb, leb, if◌then◌else◌, ◌==◌,
}
use seaweedfs_csi_driver.Base.Exec.{Result, ok, err}
use seaweedfs_csi_driver.Strconv.{ℤ, pos, negsuc, parse_int}
use seaweedfs_csi_driver.Strconv.Print.{format_nat, format_int}
use seaweedfs_csi_driver.GoPath
use seaweedfs_csi_driver.Locality.{DataLocality, from_string}
use seaweedfs_csi_driver.Locality
use seaweedfs_csi_driver.Driver.{Driver, Urls, decode_volume_id, check_data_locality}
use seaweedfs_csi_driver.Params.{text_at, one_of}

pub data MountArgError : Type 0 where
  malformed managed : String → MountArgError
  bad_locality : String → MountArgError
  locality_incomplete : MountArgError

-- strings.Cut(s, "="), the part before.
unfoldable pub before_equals : String → String
before_equals String.[] = ""
before_equals (String.◌∷◌ c s) =
    let rest = before_equals s in if eqb (code c) b'=' then "" else String.◌∷◌ c rest

-- strings.HasPrefix(s, "-").
unfoldable pub has_dash : String → Bool
has_dash String.[] = false
has_dash (String.◌∷◌ c s) = eqb (code c) b'-'

-- strings.TrimPrefix(s, "-").
unfoldable pub trim_dash : String → String
trim_dash String.[] = ""
trim_dash (String.◌∷◌ c s) = if eqb (code c) b'-' then s else String.◌∷◌ c s

-- strings.ContainsAny(s, " \t\r\n").
unfoldable pub has_blank : String → Bool
has_blank String.[] = false
has_blank (String.◌∷◌ c s) =
    eqb (code c) 32 || eqb (code c) 9 || eqb (code c) 13 || eqb (code c) 10 || has_blank s

abbrev pub managed_names : List String
managed_names =
    "dir" ∷ "dirAutoCreate" ∷ "localSocket" ∷ "cacheDir" ∷ "readOnly" ∷ "filer" ∷ "filer.path"
    ∷ "collection" ∷ "collectionQuotaMB" ∷ []

unfoldable pub argument_name : String → String
unfolding before_equals trim_dash
argument_name arg = before_equals (trim_dash arg)

unfoldable pub validate_mount_arg : String → Option MountArgError
unfolding has_dash argument_name has_blank one_of
validate_mount_arg arg =
    let name = argument_name arg in
    if not (has_dash arg) || name == "" || has_dash name || has_blank name
    then some (malformed arg)
    else if one_of name managed_names
    then some (managed name)
    else none

unfoldable pub validate_mount_args : List String → Option MountArgError
unfolding validate_mount_arg
validate_mount_args [] = none
validate_mount_args (arg ∷ args) =
    let rest = validate_mount_args args in
    elim (validate_mount_arg arg) [ none ↦ rest | some e ↦ some e ]

-- The capacity in MiB, rounded up; "" where there is none to set.
quota_of_capacity : ℕ → String
quota_of_capacity capacity =
    if leb capacity 1
    then ""
    else if eqb (capacity % 1048576) 0
    then format_nat (capacity / 1048576)
    else format_nat (capacity / 1048576 + 1)

quota_of_parsed : Option ℤ → String
unfolding quota_of_capacity
quota_of_parsed none = ""
quota_of_parsed (some (pos capacity)) = quota_of_capacity capacity
quota_of_parsed (some (negsuc n)) = ""

unfoldable pub initial_collection_quota_mb : String → String
unfolding quota_of_parsed
initial_collection_quota_mb capacity_bytes = quota_of_parsed (parse_int capacity_bytes)

abbrev pub ignored_args : List String
ignored_args =
    "collectionQuotaMB" ∷ "dataLocality" ∷ "path" ∷ "parentDir" ∷ "volumeName" ∷ "volumeCapacity"
    ∷ []

unfoldable pub mapped_key : String → String
mapped_key key =
    if key == "uidMap"
    then "map.uid"
    else if key == "gidMap"
    then "map.gid"
    else if key == "diskType"
    then "disk"
    else key

-- One round of the loop over the volume context.
unfoldable pub apply_entry : Assoc String → String → String → Assoc String
unfolding one_of mapped_key lookup insert
apply_entry args key value =
    if one_of key ignored_args
    then args
    else if is_some (lookup (mapped_key key) args) && not (value == "")
    then insert (mapped_key key) value args
    else args

unfoldable pub apply_context : Assoc String → Assoc String → Assoc String
unfolding apply_entry
apply_context args [] = args
apply_context args ((key, value) ∷ context) = apply_context (apply_entry args key value) context

unfoldable pub print_args : Assoc String → List String
print_args [] = []
print_args ((key, value) ∷ args) =
    let rest = print_args args in if value == "" then rest else ("-" ^^ key ^^ "=" ^^ value) ∷ rest

-- The path on the filer that is mounted.
unfoldable pub filer_path : Urls → String → Assoc String → String
unfolding decode_volume_id text_at
filer_path urls volume_id context =
    let clean_volume_id = (decode_volume_id urls volume_id).1 in
    if GoPath.is_abs clean_volume_id
    then clean_volume_id
    else if text_at "path" context == ""
    then GoPath.join_path "/buckets" volume_id
    else text_at "path" context

unfoldable pub collection_of : Urls → String → Assoc String → String
unfolding filer_path text_at
collection_of urls volume_id context =
    if text_at "collection" context == ""
    then GoPath.base (filer_path urls volume_id context)
    else text_at "collection" context

-- The arguments before the volume context is applied.
unfoldable pub default_args : Driver → Urls → String → List String → Assoc String → Assoc String
unfolding collection_of initial_collection_quota_mb GoPath.join
default_args d urls volume_id filers context =
    ("collection", collection_of urls volume_id context)
    ∷ ("collectionQuotaMB", initial_collection_quota_mb (text_at "volumeCapacity" context))
    ∷ ("filer", GoPath.join "," filers)
    ∷ ("filer.path", filer_path urls volume_id context)
    ∷ ("cacheCapacityMB", format_int d.cache_capacity_mb)
    ∷ ("cacheMetaTtlSec", format_int d.cache_meta_ttl_sec)
    ∷ ("concurrentReaders", format_int d.concurrent_readers)
    ∷ ("concurrentWriters", format_int d.concurrent_writers)
    ∷ ("map.uid", d.uid_map)
    ∷ ("map.gid", d.gid_map)
    ∷ ("disk", "")
    ∷ ("dataCenter", "")
    ∷ ("replication", "")
    ∷ ("ttl", "")
    ∷ ("chunkSizeLimitMB", "")
    ∷ ("volumeServerAccess", "")
    ∷ ("readRetryTime", "")
    ∷ ("writebackCache", "")
    ∷ ("metadataFlushSeconds", "")
    ∷ ("dlm", "")
    ∷ []

effective_locality : Driver → Assoc String → Result MountArgError DataLocality
effective_locality d context =
    if text_at "dataLocality" context == ""
    then ok d.data_locality
    else elim (from_string (text_at "dataLocality" context)) [
      | none ↦ err (bad_locality (text_at "dataLocality" context))
      | some dl ↦ ok dl
    ]

effective_data_center : Driver → Assoc String → String
effective_data_center d context =
    if text_at "dataCenter" context == "" then d.data_center else text_at "dataCenter" context

set_data_center : DataLocality → String → Assoc String → Assoc String
set_data_center Locality.none center args = args
set_data_center Locality.write_prefer_local_dc center args = insert "dataCenter" center args

-- The map that is printed as `-key=value`.
unfoldable pub final_args :
    Driver → Urls → String → List String → Assoc String → DataLocality → Assoc String
unfolding set_data_center default_args effective_data_center apply_context
final_args d urls volume_id filers context locality =
    apply_context
      (set_data_center locality (effective_data_center d context)
        (default_args d urls volume_id filers context))
      context

fixed_args : String → String → String → Bool → List String
fixed_args target local_socket cache_dir read_only =
    "-logtostderr=true"
    ∷ "mount"
    ∷ "-dirAutoCreate=true"
    ∷ "-umask=000"
    ∷ ("-dir=" ^^ target)
    ∷ ("-localSocket=" ^^ local_socket)
    ∷ ("-cacheDir=" ^^ cache_dir)
    ∷ (if read_only then "-readOnly" ∷ [] else [])

-- What a mount is asked for: mountServiceMounter's fields and the paths derived from them.
pub record MountSpec : Type 0 where
  pub volume_id : String
  pub read_only : Bool
  pub context : Assoc String
  pub target : String
  pub cache_dir : String
  pub local_socket : String

located :
    Driver → Urls → MountSpec → List String → DataLocality → Result MountArgError (List String)
unfolding effective_data_center check_data_locality fixed_args print_args final_args
located d urls m filers locality =
    if check_data_locality locality (effective_data_center d m.context)
    then ok (
        (fixed_args m.target m.local_socket m.cache_dir m.read_only
          ++ print_args (final_args d urls m.volume_id filers m.context locality))
        ++ d.mount_extra_args)
    else err locality_incomplete

unfoldable pub build_mount_args :
    Driver → Urls → MountSpec → List String → Result MountArgError (List String)
unfolding located effective_locality validate_mount_args
build_mount_args d urls m filers = elim (validate_mount_args d.mount_extra_args) [
  | some e ↦ err e
  | none ↦ elim (effective_locality d m.context) [
    | err e ↦ err e
    | ok locality ↦ located d urls m filers locality
  ]
]

-- Mount: the filer of the volume id, else the context's, else the driver's.
unfoldable pub mount_filers : Driver → Urls → String → Assoc String → List String
unfolding decode_volume_id text_at
mount_filers d urls volume_id context =
    if not ((decode_volume_id urls volume_id).0 == "")
    then (decode_volume_id urls volume_id).0 ∷ []
    else if not (text_at "filer" context == "")
    then text_at "filer" context ∷ []
    else d.filers
