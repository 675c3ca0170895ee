-- ===== src/MountInfo.antt =====
-- /proc/<pid>/mountinfo, as pkg/driver/container_remount_linux.go parses it, and what the driver
-- looks up in it. Each entry of the list is one line of the file. A text is its code points; an octal
-- escape of a byte above 0x7f, which the kernel does not write, stands for the code point of that
-- number.
pub mod Escape
pub mod Publish
use Prim.Native.Char.{Char, code}
use seaweedfs_csi_driver.Base.{
  ℕ, ◌+◌, ◌-◌, ◌*◌, ◌%◌, String, Bool, true, false, ◌&&◌, ◌||◌, not, Option, none, some, List, [],
  ◌∷◌, Assoc, insert, eqb, leb, if◌then◌else◌, ◌==◌, ◌≡◌, refl,
}
use seaweedfs_csi_driver.Chars.{char_of, fields, pieces, has_text_prefix, contains}
use seaweedfs_csi_driver.GoPath

abbrev backslash : ℕ
backslash = b'\\'

unfoldable pub is_octal_digit : Char → Bool
is_octal_digit c = leb b'0' (code c) && leb (code c) b'7'

octal : Char → Char → Char → ℕ
octal a b c = (code a - b'0') * 64 + (code b - b'0') * 8 + (code c - b'0')

-- A byte is the sum modulo 256.
is_escape : Char → Char → Char → Char → Bool
unfolding is_octal_digit
is_escape c d e f =
    eqb (code c) backslash && is_octal_digit d && is_octal_digit e && is_octal_digit f

-- The loop of unescapeMountField.
unfoldable pub unescape_loop : String → String
unfolding is_escape octal char_of
unescape_loop String.[] = ""
unescape_loop (String.◌∷◌ c String.[]) = String.◌∷◌ c ""
unescape_loop (String.◌∷◌ c (String.◌∷◌ d String.[])) = String.◌∷◌ c (String.◌∷◌ d "")
unescape_loop (String.◌∷◌ c (String.◌∷◌ d (String.◌∷◌ e String.[]))) =
    String.◌∷◌ c (String.◌∷◌ d (String.◌∷◌ e ""))
unescape_loop (String.◌∷◌ c (String.◌∷◌ d (String.◌∷◌ e (String.◌∷◌ f s)))) =
    let decoded = unescape_loop s in
    let copied = unescape_loop (String.◌∷◌ d (String.◌∷◌ e (String.◌∷◌ f s))) in
    if is_escape c d e f
    then String.◌∷◌ (char_of (octal d e f % 256)) decoded
    else String.◌∷◌ c copied

has_backslash : String → Bool
has_backslash String.[] = false
has_backslash (String.◌∷◌ c s) = eqb (code c) backslash || has_backslash s

-- unescapeMountField.
unfoldable pub unescape_mount_field : String → String
unfolding has_backslash unescape_loop
unescape_mount_field s = if has_backslash s then unescape_loop s else s

-- mountInfoEntry.
pub record MountInfoEntry : Type 0 where
  pub device : String
  pub root : String
  pub mountpoint : String
  pub fstype : String
  pub read_only : Bool

-- Whether the options hold "ro".
unfoldable pub has_option : String → List String → Bool
has_option o [] = false
has_option o (w ∷ ws) = w == o || has_option o ws

-- The file system type stands after the first "-" past the six fixed fields; "" without one.
unfoldable pub after_separator : List String → String
after_separator [] = ""
after_separator (w ∷ []) = ""
after_separator (w ∷ v ∷ ws) = let rest = after_separator (v ∷ ws) in if w == "-" then v else rest

-- A line of fewer than seven fields is skipped.
unfoldable pub entry_of_fields : List String → Option MountInfoEntry
unfolding has_option after_separator unescape_mount_field pieces
entry_of_fields (id ∷ parent ∷ device ∷ root ∷ mountpoint ∷ options ∷ w ∷ ws) = some (record {
  device = device;
  root = unescape_mount_field root;
  mountpoint = unescape_mount_field mountpoint;
  fstype = after_separator (w ∷ ws);
  read_only = has_option "ro" (pieces (eqb b',') options);
})
entry_of_fields _ = none

unfoldable pub parse_line : String → Option MountInfoEntry
unfolding fields entry_of_fields
parse_line s = entry_of_fields (fields s)

keep_some : Option MountInfoEntry → List MountInfoEntry → List MountInfoEntry
keep_some none entries = entries
keep_some (some e) entries = e ∷ entries

-- parseMountInfoReader, of the lines of the file.
unfoldable pub parse_lines : List String → List MountInfoEntry
unfolding parse_line keep_some
parse_lines [] = []
parse_lines (s ∷ lines) = keep_some (parse_line s) (parse_lines lines)

-- isFuseFS.
unfoldable pub is_fuse_fs : String → Bool
unfolding has_text_prefix
is_fuse_fs fstype = has_text_prefix "fuse" fstype && not (fstype == "fusectl")

-- The last of the entries at the path; a later one is at least as long.
unfoldable pub last_device : String → String → List MountInfoEntry → String
last_device path best [] = best
last_device path best (e ∷ entries) =
    last_device path (if e.mountpoint == path then e.device else best) entries

-- getMountDevice: none where it returns an error.
unfoldable pub get_mount_device : String → List MountInfoEntry → Option String
unfolding last_device
get_mount_device path entries =
    let device = last_device path "" entries in if device == "" then none else some device

-- findContainerMountsByDevice.
unfoldable pub mounts_by_device : String → List MountInfoEntry → List MountInfoEntry
unfolding is_fuse_fs
mounts_by_device device [] = []
mounts_by_device device (e ∷ entries) =
    let rest = mounts_by_device device entries in
    if e.device == device && is_fuse_fs e.fstype then e ∷ rest else rest

pod_after : List String → String
pod_after [] = ""
pod_after (w ∷ []) = ""
pod_after (w ∷ uid ∷ ws) = let rest = pod_after (uid ∷ ws) in if w == "pods" then uid else rest

-- extractPodUID.
unfoldable pub extract_pod_uid : String → String
unfolding pod_after GoPath.split
extract_pod_uid path = pod_after (GoPath.split b'/' path)

-- isCSIPublishPath.
unfoldable pub is_csi_publish_path : String → Bool
unfolding extract_pod_uid GoPath.base contains
is_csi_publish_path mountpoint =
    GoPath.base mountpoint == "mount"
    && not (extract_pod_uid mountpoint == "")
    && contains "/volumes/kubernetes.io~csi/" mountpoint

-- Whether filterPublishPaths takes the entry.
unfoldable pub is_publish_bind : String → String → MountInfoEntry → Bool
unfolding is_fuse_fs is_csi_publish_path
is_publish_bind device staging_path e =
    e.device == device
    && is_fuse_fs e.fstype
    && not (e.mountpoint == staging_path)
    && is_csi_publish_path e.mountpoint

take_bind : String → String → Assoc Bool → MountInfoEntry → Assoc Bool
unfolding is_publish_bind
take_bind device staging_path paths e =
    if is_publish_bind device staging_path e then insert e.mountpoint e.read_only paths else paths

collect_binds : String → String → Assoc Bool → List MountInfoEntry → Assoc Bool
unfolding take_bind
collect_binds device staging_path paths [] = paths
collect_binds device staging_path paths (e ∷ entries) =
    collect_binds device staging_path (take_bind device staging_path paths e) entries

-- filterPublishPaths.
unfoldable pub filter_publish_paths : List MountInfoEntry → String → String → Assoc Bool
unfolding collect_binds
filter_publish_paths entries device staging_path = collect_binds device staging_path [] entries

-- Where remountViaSetns binds from: the subdirectory that the stale mount was offset into.
unfoldable pub bind_source : String → String → String
unfolding GoPath.join_path
bind_source staging_path sub_path =
    if not (sub_path == "") && not (sub_path == "/")
    then GoPath.join_path staging_path sub_path
    else staging_path

parse_line_runs :
    parse_line "612 600 0:51 /store /var/lib/my\\040app rw,ro shared:7 - fuse.seaweedfs weed rw"
    ≡ some (record {
      device = "0:51";
      root = "/store";
      mountpoint = "/var/lib/my app";
      fstype = "fuse.seaweedfs";
      read_only = true;
    })
unfolding parse_line
parse_line_runs = refl
