-- ===== src/Host/Calls.antt =====
-- Calls, their answers, and what code under src/ can tell of an error.
use seaweedfs_csi_driver.Base.{ℕ, String, Bool, true, false, ◌||◌, Option, none, some, List, Assoc}
use seaweedfs_csi_driver.Base.Exec.{Result}
use seaweedfs_csi_driver.Strconv.{ℤ}
use seaweedfs_csi_driver.Driver.{Urls}

-- A Go error, by the tests that the driver makes on it: os.IsNotExist, mount.IsCorruptedMnt,
-- os.IsPermission, and whether its text contains "invalid argument".
pub record Fault : Type 0 where
  pub not_exist : Bool
  pub corrupted : Bool
  pub permission : Bool
  pub invalid_argument : Bool

-- errors.New, and fmt.Errorf around values, with a text that does not contain "invalid argument".
abbrev pub plain_fault : Fault
plain_fault = record {
  not_exist = false;
  corrupted = false;
  permission = false;
  invalid_argument = false;
}

-- fmt.Errorf("invalid argument: %w", err).
abbrev pub invalid_fault : Fault
invalid_fault = record plain_fault { invalid_argument = true }

-- fmt.Errorf("…: %w", err): the text stays, and the tests of package os see no PathError.
abbrev pub wrap : Fault → Fault
wrap f = record plain_fault { invalid_argument = f.invalid_argument }

-- fmt.Errorf("… %v … %v", err, other), where `other` may be nil.
unfoldable pub wrap_both : Fault → Option Fault → Fault
wrap_both f none = wrap f
wrap_both f (some g) = record plain_fault {
  invalid_argument = f.invalid_argument || g.invalid_argument;
}

-- A request to start a `weed mount` process for a volume.
pub record MountCall : Type 0 where
  pub volume_id : String
  pub target : String
  pub read_only : Bool
  pub context : Assoc String
  pub args : List String

-- Questions, answered by a Boolean or an error. `probe_statfs` answers false where the bounded
-- probe timed out; `within_budget` says whether a check that runWithTimeout bounds came back in
-- time, and `stat` whether the path is a directory.
pub data Ask : Type 0 where
  stat lstat is_mount_point is_likely_not_mount_point probe_statfs within_budget : String → Ask

-- Calls that change something outside the plugin. remove_all is the os.RemoveAll of a staging path, and
-- remove_cache_dir that of a volume's cache directory, in CleanupVolumeResources.
pub data Act : Type 0 where
  unmount lazy_unmount cleanup_mount_point remove_all remove mkdir_all : String → Act
  bind_mount : String → String → Bool → Act
  start_mount : MountCall → Act
  stop_mount : String → Act
  set_quota : String → ℤ → Act
  remove_cache_dir remove_local_socket : String → Act

pub data ProbeResult : Type 0 where
  probe_healthy probe_timeout probe_unhealthy probe_dead : ProbeResult

pub data RecoveryOutcome : Type 0 where
  success failed skipped_still_live throttled : RecoveryOutcome

-- What the plugin records: metrics, probes forgotten, reads of text, and the remounts inside
-- containers, of which only the call is modelled.
pub data Note : Type 0 where
  reset_probe : String → Note
  health_probe : String → ProbeResult → Note
  recovery : String → RecoveryOutcome → Note
  session_up : String → Bool → Note
  forget_metrics : String → Note
  attributes_read capacity_read device_read publish_paths_read : String → Note
  mounts_listed : Note
  remount_in_containers : String → String → String → Bool → Note
  remount_stale_fuse : String → String → Bool → Note

pub data Event : Type 0 where
  asked : Ask → Result Fault Bool → Event
  acted : Act → Option Fault → Event
  noted : Note → Event

-- Newest first.
abbrev pub History : Type 0
History = List Event

-- How reading the persisted parameters of a volume fails.
pub data AttributesFault : Type 0 where
  no_store unreadable corrupt_entry : AttributesFault

-- MountInfo of pkg/mountmanager/types.go: a mount that the mount service owns.
pub record ListedMount : Type 0 where
  pub volume_id : String
  pub target_path : String
  pub cache_dir : String
  pub local_socket : String
  pub volume_context : Assoc String
  pub read_only : Bool

-- `mount_info` is the lines of /proc/self/mountinfo, none where it cannot be read, and `listing` what
-- the mount service lists, none on an error. `client` is the error of mountmanager.NewClient at the driver's mount endpoint.
pub record Host : Type 0 where
  pub answer : History → Ask → Result Fault Bool
  pub outcome : History → Act → Option Fault
  pub attributes : History → String → Result AttributesFault (Assoc String)
  pub capacity : History → String → Result Fault ℤ
  pub mount_info : History → Option (List String)
  pub listing : History → Option (List ListedMount)
  pub clock : History → ℕ
  pub cache_dir : String → String
  pub local_socket : String → String
  pub client : Option Fault
  pub urls : Urls
