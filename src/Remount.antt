-- ===== src/Remount.antt =====
-- The remounts inside the containers of a pod, pkg/driver/container_remount_linux.go: which processes
-- stand for its containers, and which of their mounts are replaced from where. What /proc holds is a
-- parameter; the system calls of remountViaSetns are the items of the list that is returned.
pub mod Choice
pub mod Setns
use Prim.Native.Char.{code}
use seaweedfs_csi_driver.Base.{
  ℕ, eqb, String, Bool, true, false, ◌&&◌, ◌||◌, not, Option, none, some, List, [], ◌∷◌, ◌++◌,
  if◌then◌else◌, ◌==◌,
}
use seaweedfs_csi_driver.Params.{one_of}
use seaweedfs_csi_driver.Chars.{contains}
use seaweedfs_csi_driver.MountInfo.{
  MountInfoEntry, extract_pod_uid, get_mount_device, is_fuse_fs, mounts_by_device, bind_source,
}

-- A directory of /proc: none where its file cannot be read.
pub record Process : Type 0 where
  pub pid : ℕ
  pub cgroup : Option String
  pub namespace : Option String

-- What the driver reads of /proc: its processes (none where /proc cannot be read), its own mount
-- namespace, the mountinfo of a process, and whether a path in a container answers ENOTCONN or EIO.
pub record Proc : Type 0 where
  pub processes : Option (List Process)
  pub self_namespace : String
  pub own_mounts : Option (List MountInfoEntry)
  pub mounts : ℕ → Option (List MountInfoEntry)
  pub is_dead : ℕ → String → Bool

pub record Remount : Type 0 where
  pub pid : ℕ
  pub mountpoint : String
  pub source : String
  pub read_only : Bool

-- Whether the process is one of the pod's: its cgroup names the pod, with dashes or underscores.
names_pod : String → String → Option String → Bool
names_pod uid normalized none = false
names_pod uid normalized (some content) = contains uid content || contains normalized content

-- The namespace of a process that is to be entered: not the driver's, and not seen before.
fresh_namespace : String → List String → Option String → Bool
fresh_namespace own seen none = false
fresh_namespace own seen (some ns) = not (not (own == "") && ns == own) && not (one_of ns seen)

see : Option String → List String → List String
see none seen = seen
see (some ns) seen = ns ∷ seen

-- The loop of findContainerPIDsForPod.
unfoldable pub pids_of : String → String → String → List String → List Process → List Process
unfolding names_pod fresh_namespace see
pids_of uid normalized own seen [] = []
pids_of uid normalized own seen (p ∷ ps) =
    let later = pids_of uid normalized own (see p.namespace seen) ps in
    let skipped = pids_of uid normalized own seen ps in
    if names_pod uid normalized p.cgroup && fresh_namespace own seen p.namespace
    then p ∷ later
    else skipped

-- strings.ReplaceAll(uid, "-", "_").
unfoldable pub underscored : String → String
underscored String.[] = ""
underscored (String.◌∷◌ c s) = String.◌∷◌ (if eqb (code c) b'-' then "_" else c) (underscored s)

-- findContainerPIDsForPod; its callers take an error like no processes.
unfoldable pub find_container_pids : Proc → String → List Process
unfolding pids_of underscored
find_container_pids proc uid = elim proc.processes [
  | none ↦ []
  | some ps ↦ pids_of uid (underscored uid) proc.self_namespace [] ps
]

unfoldable pub remounts_of : ℕ → String → Bool → List MountInfoEntry → List Remount
unfolding bind_source
remounts_of pid staging_path read_only [] = []
remounts_of pid staging_path read_only (e ∷ entries) =
    (record {
      pid = pid;
      mountpoint = e.mountpoint;
      source = bind_source staging_path e.root;
      read_only = read_only;
    })
    ∷ remounts_of pid staging_path read_only entries

-- The mounts of a process, none where its mountinfo cannot be read.
entries_or_none : Option (List MountInfoEntry) → List MountInfoEntry
entries_or_none none = []
entries_or_none (some entries) = entries

by_device : Proc → String → String → Bool → List Process → List Remount
unfolding entries_or_none remounts_of mounts_by_device
by_device proc old_device staging_path read_only [] = []
by_device proc old_device staging_path read_only (p ∷ ps) =
    remounts_of p.pid staging_path read_only
      (mounts_by_device old_device (entries_or_none (proc.mounts p.pid)))
    ++ by_device proc old_device staging_path read_only ps

-- remountInContainers.
unfoldable pub remount_in_containers : Proc → String → String → String → Bool → List Remount
unfolding by_device extract_pod_uid find_container_pids
remount_in_containers proc publish_path staging_path old_device read_only =
    let uid = extract_pod_uid publish_path in
    if uid == ""
    then []
    else by_device proc old_device staging_path read_only (find_container_pids proc uid)

-- Whether remountStaleFuseInContainers replaces the mount.
unfoldable pub is_stale_fuse : Proc → String → ℕ → MountInfoEntry → Bool
unfolding is_fuse_fs
is_stale_fuse proc staging_device pid e =
    is_fuse_fs e.fstype && not (e.device == staging_device) && proc.is_dead pid e.mountpoint

unfoldable pub stale_mounts : Proc → String → ℕ → List MountInfoEntry → List MountInfoEntry
unfolding is_stale_fuse
stale_mounts proc staging_device pid [] = []
stale_mounts proc staging_device pid (e ∷ entries) =
    let rest = stale_mounts proc staging_device pid entries in
    if is_stale_fuse proc staging_device pid e then e ∷ rest else rest

by_staleness : Proc → String → String → Bool → List Process → List Remount
unfolding entries_or_none remounts_of stale_mounts
by_staleness proc staging_device staging_path read_only [] = []
by_staleness proc staging_device staging_path read_only (p ∷ ps) =
    remounts_of p.pid staging_path read_only
      (stale_mounts proc staging_device p.pid (entries_or_none (proc.mounts p.pid)))
    ++ by_staleness proc staging_device staging_path read_only ps

remount_known_device : Proc → String → Bool → List Process → Option String → List Remount
unfolding by_staleness
remount_known_device proc staging_path read_only ps none = []
remount_known_device proc staging_path read_only ps (some device) =
    by_staleness proc device staging_path read_only ps

unfoldable pub own_device : String → Option (List MountInfoEntry) → Option String
unfolding get_mount_device
own_device path none = none
own_device path (some entries) = get_mount_device path entries

-- remountStaleFuseInContainers.
unfoldable pub remount_stale_fuse : Proc → String → String → Bool → List Remount
unfolding remount_known_device own_device extract_pod_uid find_container_pids
remount_stale_fuse proc publish_path staging_path read_only =
    let uid = extract_pod_uid publish_path in
    if uid == ""
    then []
    else remount_known_device proc staging_path read_only (find_container_pids proc uid)
        (own_device staging_path proc.own_mounts)
