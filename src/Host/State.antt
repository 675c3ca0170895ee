-- ===== src/Host/State.antt =====
-- The plugin's state, and its calls of the host.
use seaweedfs_csi_driver.Base.{
  ℕ, String, Bool, Option, none, some, List, [], ◌∷◌, Assoc, lookup, insert, erase,
}
use seaweedfs_csi_driver.Base.Exec.{Result, ok, err, Exec}
use seaweedfs_csi_driver.Strconv.{ℤ}
use seaweedfs_csi_driver.Driver.{Driver}
use seaweedfs_csi_driver.Host.Calls.{
  Fault, Ask, Act, Note, attributes_read, capacity_read, device_read, asked, acted, noted, History,
  AttributesFault, Host, plain_fault, ListedMount, publish_paths_read, mounts_listed,
}
use seaweedfs_csi_driver.MountInfo.{parse_lines, get_mount_device, filter_publish_paths}

-- Volume of pkg/driver/volume.go. The unmounter of the mount service is known by its volume id;
-- `vol_context` is none where the Go map is nil.
pub record Volume : Type 0 where
  pub volume_id : String
  pub staged_path : String
  pub unmounter : Option String
  pub publish_paths : Assoc Bool
  pub vol_context : Option (Assoc String)
  pub read_only : Bool

pub record RecoveryBackoffState : Type 0 where
  pub attempts : ℕ
  pub not_before : ℕ

-- NodeServer of pkg/driver/nodeserver.go, with the host and the history of the calls to it.
pub record NodeServer : Type 0 where
  pub driver : Driver
  pub host : Host
  pub volumes : Assoc Volume
  pub recovery_backoff : Assoc RecoveryBackoffState
  pub log : History

abbrev pub Node : Type 0 → Type 0
Node A = Exec NodeServer Fault A

abbrev pub put_log : NodeServer → History → NodeServer
put_log s log = record s { log = log }

device_result : Option String → Result Fault String
device_result none = err plain_fault
device_result (some d) = ok d

-- getMountDevice.
device_at : String → Option (List String) → Result Fault String
unfolding device_result get_mount_device parse_lines
device_at path none = err plain_fault
device_at path (some lines) = device_result (get_mount_device path (parse_lines lines))

publish_paths_at : String → String → Option (List String) → Assoc Bool
unfolding filter_publish_paths parse_lines
publish_paths_at device staging_path none = []
publish_paths_at device staging_path (some lines) =
    filter_publish_paths (parse_lines lines) device staging_path

module _ {E : Type 0} where
  unfoldable pub ask : Ask → Exec NodeServer E (Result Fault Bool)
  ask q s = let a = s.host.answer s.log q in (ok a, put_log s (asked q a ∷ s.log))

  -- The error of the call, if there is one.
  unfoldable pub act : Act → Exec NodeServer E (Option Fault)
  act c s = let r = s.host.outcome s.log c in (ok r, put_log s (acted c r ∷ s.log))

  unfoldable pub note : Note → Exec NodeServer E (Unit {0})
  note n s = (ok tt, put_log s (noted n ∷ s.log))

  unfoldable pub now : Exec NodeServer E ℕ
  now s = (ok (s.host.clock s.log), s)

  unfoldable pub read_attributes :
      String → Exec NodeServer E (Result AttributesFault (Assoc String))
  read_attributes v s =
      let r = s.host.attributes s.log v in (ok r, put_log s (noted (attributes_read v) ∷ s.log))

  unfoldable pub read_capacity : String → Exec NodeServer E (Result Fault ℤ)
  read_capacity v s =
      let r = s.host.capacity s.log v in (ok r, put_log s (noted (capacity_read v) ∷ s.log))

  unfoldable pub read_device : String → Exec NodeServer E (Result Fault String)
  unfolding device_at
  read_device p s =
      let r = device_at p (s.host.mount_info s.log) in
      (ok r, put_log s (noted (device_read p) ∷ s.log))

  -- findPublishPathsByDevice, without the paths where mountinfo cannot be read.
  unfoldable pub read_publish_paths : String → String → Exec NodeServer E (Assoc Bool)
  unfolding publish_paths_at
  read_publish_paths device staging_path s = (
    ok (publish_paths_at device staging_path (s.host.mount_info s.log)),
    put_log s (noted (publish_paths_read staging_path) ∷ s.log),
  )

  -- List of the mount service's client.
  unfoldable pub list_mounts : Exec NodeServer E (Option (List ListedMount))
  list_mounts s = (ok (s.host.listing s.log), put_log s (noted mounts_listed ∷ s.log))

  unfoldable pub get_volume : String → Exec NodeServer E (Option Volume)
  get_volume v s = (ok (lookup v s.volumes), s)

  unfoldable pub store_volume : String → Volume → Exec NodeServer E (Unit {0})
  store_volume v vol s = (ok tt, record s { volumes = insert v vol s.volumes })

  unfoldable pub delete_volume : String → Exec NodeServer E (Unit {0})
  delete_volume v s = (ok tt, record s { volumes = erase v s.volumes })
