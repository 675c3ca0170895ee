-- ===== src/Startup/Parse.antt =====
-- The texts of the flags: ParseTopologyKeys of pkg/driver/utils.go, and ParseEndpoint of
-- pkg/mountmanager/endpoint.go with the directory that NewSeaweedFsDriver derives from it.
use Prim.Native.Char.{Char, code}
use seaweedfs_csi_driver.Base.{
  String, not, ◌&&◌, Option, none, some, List, [], ◌∷◌, eqb, if◌then◌else◌, ◌==◌, ◌≡◌, refl,
}
use seaweedfs_csi_driver.Chars.{is_space}
use seaweedfs_csi_driver.GoPath.{split, dir}

-- strings.TrimSpace.
unfoldable pub trim_left : String → String
trim_left String.[] = ""
trim_left (String.◌∷◌ c s) =
    let rest = trim_left s in if is_space (code c) then rest else String.◌∷◌ c s

unfoldable pub trim_right : String → String
trim_right String.[] = ""
trim_right (String.◌∷◌ c s) =
    let rest = trim_right s in if is_space (code c) && rest == "" then "" else String.◌∷◌ c rest

unfoldable pub named_keys : List String → List String
unfolding trim_left trim_right
named_keys [] = []
named_keys (w ∷ ws) =
    let key = trim_right (trim_left w) in
    let rest = named_keys ws in if key == "" then rest else key ∷ rest

-- ParseTopologyKeys.
unfoldable pub parse_topology_keys : String → List String
unfolding named_keys split
parse_topology_keys keys = named_keys (split b',' keys)

prepend_scheme : Char → Option (String × String) → Option (String × String)
prepend_scheme c none = none
prepend_scheme c (some (scheme, address)) = some (String.◌∷◌ c scheme, address)

-- strings.SplitN(endpoint, "://", 2), where it gives two parts.
unfoldable pub split_endpoint : String → Option (String × String)
unfolding prepend_scheme
split_endpoint (String.◌∷◌ a (String.◌∷◌ b (String.◌∷◌ c s))) =
    let rest = split_endpoint (String.◌∷◌ b (String.◌∷◌ c s)) in
    if eqb (code a) b':' && eqb (code b) b'/' && eqb (code c) b'/'
    then some ("", s)
    else prepend_scheme a rest
split_endpoint s = none

-- ParseEndpoint: the address, or none on an error; the scheme is not used here.
unfoldable pub parse_endpoint : String → Option (String × String)
unfolding split_endpoint
parse_endpoint endpoint = elim (split_endpoint endpoint) [
  | none ↦ none
  | some (scheme, address) ↦ if address == "" then none else some (scheme, address)
]

address_dir : Option (String × String) → String
address_dir none = "/var/lib/seaweedfs-mount"
address_dir (some (scheme, address)) =
    if not (address == "") then dir address else "/var/lib/seaweedfs-mount"

-- The directory of the volumes' sockets, as NewSeaweedFsDriver derives it.
unfoldable pub volume_socket_dir : String → String
unfolding address_dir parse_endpoint
volume_socket_dir mount_endpoint =
    if not (mount_endpoint == "")
    then address_dir (parse_endpoint mount_endpoint)
    else "/var/lib/seaweedfs-mount"

socket_dir_runs : volume_socket_dir "unix:///run/csi/mount.sock" ≡ "/run/csi"
unfolding volume_socket_dir dir
socket_dir_runs = refl

topology_keys_run : parse_topology_keys " a/zone, ,b/rack " ≡ "a/zone" ∷ "b/rack" ∷ []
unfolding parse_topology_keys is_space
topology_keys_run = refl
