-- ===== src/MountManager.antt =====
-- The mount service's manager of weed processes, pkg/mountmanager/manager.go: the requests, the
-- checks before a process starts and the waits on it. Machine has the manager's steps.
pub mod Machine
pub mod Wait
pub mod Clean
pub mod Tracking
pub mod Revival
use seaweedfs_csi_driver.Base.{
  ℕ, zero, suc, ◌+◌, leb, String, Bool, true, false, ◌||◌, Option, none, some, List, [], ◌∷◌, Assoc,
  if◌then◌else◌, ◌==◌,
}
use seaweedfs_csi_driver.Base.Exec.{Result, ok, err}

-- VolumeContext may be nil, which the driver reads as unknown.
pub record MountRequest : Type 0 where
  pub volume_id : String
  pub target_path : String
  pub cache_dir : String
  pub mount_args : List String
  pub local_socket : String
  pub volume_context : Option (Assoc String)
  pub read_only : Bool

-- What the calls outside the package return: the file system's errors as the code tells them
-- apart, and the texts of the manager's own.
pub data MountFault : Type 0 where
  not_exist corrupted_mount other_fault : MountFault
  invalid : String → MountFault
  mount_timeout stop_timeout : MountFault

-- The answers that the mounter, the file system and the process give during one phase: the i-th
-- IsLikelyNotMountPoint, Unmount, LazyUnmount, MkdirAll of a path, the start of the command, and
-- whether `done` closes within five seconds of SIGTERM and within one more of the kill.
pub record Answers : Type 0 where
  pub likely_not_mount_point : ℕ → Result MountFault Bool
  pub unmount : Option MountFault
  pub lazy_unmount : Option MountFault
  pub mkdir_all : String → Option MountFault
  pub start_command : Option MountFault
  pub done_after_term : Bool
  pub done_after_kill : Bool

-- len(args) == 0
unfoldable no_args : List String → Bool
no_args [] = true
no_args (arg ∷ args) = false

unfoldable pub validate_mount_request : MountRequest → Option MountFault
unfolding no_args
validate_mount_request req =
    if req.volume_id == ""
    then some (invalid "volumeId is required")
    else if req.target_path == ""
    then some (invalid "targetPath is required")
    else if req.cache_dir == ""
    then some (invalid "cacheDir is required")
    else if req.local_socket == ""
    then some (invalid "localSocket is required")
    else if no_args req.mount_args
    then some (invalid "mountArgs is required")
    else none

-- The unmount of a corrupted mount, lazily when it fails.
unfoldable pub drop_corrupted : Option MountFault → Option MountFault → Option MountFault
drop_corrupted none lazy = none
drop_corrupted (some e) lazy = lazy

-- What is left on the target path before it is made: an error, when it cannot be cleaned.
unfoldable pub clear_target : Answers → Result MountFault Bool → Option MountFault
unfolding drop_corrupted
clear_target a (err not_exist) = none
clear_target a (err corrupted_mount) = drop_corrupted a.unmount a.lazy_unmount
clear_target a (err e) = some e
clear_target a (ok true) = none
clear_target a (ok false) = a.unmount

unfoldable pub or_else : Option MountFault → Option MountFault → Option MountFault
or_else (some e) next = some e
or_else none next = next

unfoldable pub ensure_target_clean : Answers → String → Option MountFault
unfolding clear_target or_else
ensure_target_clean a target_path =
    or_else (clear_target a (a.likely_not_mount_point 0)) (a.mkdir_all target_path)

-- startMount up to the start of the command; the tests of the fields repeat those of the request.
unfoldable pub prepare : Answers → MountRequest → Option MountFault
unfolding ensure_target_clean no_args or_else
prepare a req = or_else (ensure_target_clean a req.target_path) (
    if req.cache_dir == ""
    then some (invalid "cacheDir is required")
    else or_else (a.mkdir_all req.cache_dir) (
        if req.local_socket == ""
        then some (invalid "localSocket is required")
        else if no_args req.mount_args
        then some (invalid "mountArgs is required")
        else a.start_command))

-- waitForMount from the i-th probe on, with the milliseconds elapsed; the outer `none` means that
-- the fuel ran out.
unfoldable pub wait_loop : Answers → (fuel i elapsed timeout : ℕ) → Option (Option MountFault)
wait_loop a zero i elapsed timeout = none
wait_loop a (suc fuel) i elapsed timeout =
    let rest = wait_loop a fuel (1 + i) (10 + elapsed) timeout in
    elim (a.likely_not_mount_point i) [
      | err e ↦ some (some e)
      | ok not_mount ↦
          if not_mount
          then (if leb timeout (10 + elapsed) then some (some mount_timeout) else rest)
          else some none
    ]

abbrev pub wait_for_mount : Answers → ℕ → Option (Option MountFault)
wait_for_mount a timeout = wait_loop a (1 + timeout) 0 0 timeout

-- stop: SIGTERM, and the kill when that does not end the process in time.
unfoldable pub stop : Answers → Option MountFault
stop a = if a.done_after_term then none else if a.done_after_kill then none else some stop_timeout
