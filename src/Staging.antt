-- ===== src/Staging.antt =====
-- pkg/driver/mount_util.go, with checkMount of pkg/driver/utils.go.
pub mod Guard
pub mod Quiet
use seaweedfs_csi_driver.Base.{
  String, Bool, true, false, not, ◌&&◌, Option, none, some, if◌then◌else◌,
}
use mathlib.Core.Option
use seaweedfs_csi_driver.Base.Exec.{Result, ok, err, pure, raise, attempt, ◌>>=◌, ◌>>◌}
use seaweedfs_csi_driver.Host.{
  Fault, plain_fault, wrap, wrap_both, Node, ask, act, note, stat, lstat, is_mount_point,
  is_likely_not_mount_point, probe_statfs, unmount, lazy_unmount, cleanup_mount_point, remove_all,
  mkdir_all, reset_probe,
}

-- return err
unfoldable pub fail_if : Option Fault → Node (Unit {0})
fail_if none = pure tt
fail_if (some e) = raise e

abbrev pub is_ok_true : Result Fault Bool → Bool
is_ok_true (ok b) = b
is_ok_true (err e) = false

-- probeStatfs answered, and its error is not that of a corrupted mount.
answers_statfs : Result Fault Bool → Bool
answers_statfs (ok in_time) = in_time
answers_statfs (err e) = not e.corrupted

unfoldable pub healthy_mount : String → Bool → Node Bool
unfolding answers_statfs
healthy_mount path false = pure false
healthy_mount path true = do probed ← ask (probe_statfs path); pure (answers_statfs probed)

unfoldable pub healthy_directory : String → Bool → Node Bool
unfolding healthy_mount
healthy_directory path false = pure false
healthy_directory path true = do
  mounted ← ask (is_mount_point path)
  healthy_mount path (is_ok_true mounted)

unfoldable pub is_staging_path_healthy : String → Node Bool
unfolding healthy_directory
is_staging_path_healthy path = do info ← ask (stat path); healthy_directory path (is_ok_true info)

unfoldable pub live_path : String → Result Fault Bool → Node Bool
live_path path (err e) = pure false
live_path path (ok directory) = do mounted ← ask (is_mount_point path); pure (is_ok_true mounted)

unfoldable pub is_staging_path_live : String → Node Bool
unfolding live_path
is_staging_path_live path = do info ← ask (stat path); live_path path info

-- isDeadMount: a probe that times out says nothing.
dead_by : Result Fault Bool → Bool
dead_by (ok in_time) = false
dead_by (err e) = e.corrupted

unfoldable pub is_dead_mount : String → Node Bool
unfolding dead_by
is_dead_mount path = do probed ← ask (probe_statfs path); pure (dead_by probed)

fail_unless_missing : Option Fault → Node (Unit {0})
fail_unless_missing none = pure tt
fail_unless_missing (some e) = if e.not_exist then pure tt else raise e

detach_corrupted : String → Option Fault → Node (Unit {0})
unfolding fail_if fail_unless_missing wrap_both
detach_corrupted path none = note (reset_probe path)
detach_corrupted path (some e) = do
  lazily ← act (lazy_unmount path)
  fail_if (Option.map (λ f. wrap_both e (some f)) lazily)
  removed ← act (remove_all path)
  fail_unless_missing removed
  note (reset_probe path)

unfoldable pub cleanup_corrupted_staging_path : String → Node (Unit {0})
unfolding detach_corrupted
cleanup_corrupted_staging_path path = do
  cleaned ← act (cleanup_mount_point path)
  detach_corrupted path cleaned

remove_unmounted : String → Option Fault → Result Fault Bool → Node (Unit {0})
unfolding fail_if wrap_both
remove_unmounted path unmount_err (err e) =
    if e.corrupted then cleanup_corrupted_staging_path path else raise (wrap e)
remove_unmounted path unmount_err (ok true) = raise (wrap_both plain_fault unmount_err)
remove_unmounted path unmount_err (ok false) = do
  removed ← act (remove_all path)
  fail_if removed
  note (reset_probe path)

clean_stat : String → Option Fault → Result Fault Bool → Node (Unit {0})
unfolding remove_unmounted
clean_stat path unmount_err (err e) =
    if e.not_exist
    then note (reset_probe path)
    else if e.corrupted
    then cleanup_corrupted_staging_path path
    else raise e
clean_stat path unmount_err (ok directory) = do
  mounted ← ask (is_mount_point path)
  remove_unmounted path unmount_err mounted

unfoldable pub cleanup_stale_staging_path : String → Node (Unit {0})
unfolding clean_stat cleanup_corrupted_staging_path
cleanup_stale_staging_path path = do
  unmount_err ← act (unmount path)
  info ← ask (lstat path)
  clean_stat path unmount_err info

-- After the unmount of a corrupted mount the error of the second check is dropped.
checked_mount : String → Result Fault Bool → Node Bool
unfolding fail_if
checked_mount path (ok mounted) = pure mounted
checked_mount path (err e) =
    if e.not_exist
    then (do made ← act (mkdir_all path); fail_if made; pure false)
    else if e.corrupted
    then (do
      gone ← act (unmount path)
      fail_if gone
      note (reset_probe path)
      again ← ask (is_mount_point path)
      pure (is_ok_true again))
    else raise e

unfoldable pub check_mount : String → Node Bool
unfolding checked_mount
check_mount path = do mounted ← ask (is_mount_point path); checked_mount path mounted
