-- ===== src/MountManager/Clean.antt =====
-- What holds of the target path when a weed process is started on it.
use seaweedfs_csi_driver.Base.{true, false, none, ◌≡◌, ◌⊎◌, arith}
use seaweedfs_csi_driver.Base.Exec.{ok, err}
use seaweedfs_csi_driver.MountManager.{
  MountRequest, Answers, not_exist, corrupted_mount, clear_target, ensure_target_clean, prepare,
  or_else, drop_corrupted,
}

-- Nothing is mounted on the target, or it was unmounted.
abbrev pub IsClean : Answers → Type 0
IsClean a =
    (a.likely_not_mount_point 0 ≡ ok true)
    ⊎ (a.likely_not_mount_point 0 ≡ err not_exist)
    ⊎ ((a.likely_not_mount_point 0 ≡ ok false) × (a.unmount ≡ none))
    ⊎ ((a.likely_not_mount_point 0 ≡ err corrupted_mount)
        × ((a.unmount ≡ none) ⊎ (a.lazy_unmount ≡ none)))

clear_target-IsClean :
    (a : Answers) → clear_target a (a.likely_not_mount_point 0) ≡ none → IsClean a
unfolding clear_target drop_corrupted
clear_target-IsClean a h = ground arith

-- Whenever startMount starts a process, the target path was no mount point, did not exist, or a
-- mount on it, live or corrupted, was unmounted; and the target and cache directories were made.
pub prepare-IsClean :
    (a : Answers) (req : MountRequest)
    → prepare a req ≡ none
    → IsClean a
      × (a.mkdir_all req.target_path ≡ none)
      × (a.mkdir_all req.cache_dir ≡ none)
      × (a.start_command ≡ none)
unfolding prepare ensure_target_clean or_else
prepare-IsClean a req h =
    (clear_target-IsClean a (ground arith), ground arith, ground arith, ground arith)
