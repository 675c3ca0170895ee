-- ===== src/Tests/Mounts.antt =====
-- The theorems on the mount service's manager, mountinfo, the remounts and the restore at concrete
-- inputs.
use seaweedfs_csi_driver.Base.{
  ℕ, eqb, true, false, ◌||◌, Option, none, some, List, [], ◌∷◌, lookup, ◌≡◌, refl, arith,
}
use seaweedfs_csi_driver.Base.Exec.{ok, err}
use seaweedfs_csi_driver.MountManager.{
  MountRequest, MountFault, corrupted_mount, Answers, validate_mount_request, prepare,
  wait_for_mount, wait_loop,
}
use seaweedfs_csi_driver.MountManager.Wait.{WaitEnds, wait_for_mount-WaitEnds}
use seaweedfs_csi_driver.MountManager.Machine.{
  Manager, new_manager, Event, mounts_volume, advances, entry_of, handle_all,
}
use seaweedfs_csi_driver.MountManager.Tracking.{entry_has, phase_has}
use seaweedfs_csi_driver.MountManager.Tracking.Running.{
  running_process_is_known, one_process_per_volume,
}
use seaweedfs_csi_driver.MountInfo.{unescape_mount_field, parse_lines}
use seaweedfs_csi_driver.MountInfo.Escape.{escape_mount_field, unescape-escape_mount_field}
use seaweedfs_csi_driver.Remount.{Proc}
use seaweedfs_csi_driver.Restore.{restore_volumes}
use seaweedfs_csi_driver.Restore.Adopted.{restore_volumes-IsWellFormed}
use seaweedfs_csi_driver.Volume.Staged.{IsWellFormed}
use seaweedfs_csi_driver.Samples.{sample_mounts, server, host_where}
use seaweedfs_csi_driver.Host.{NodeServer}

abbrev mount_a : MountRequest
mount_a = record {
  volume_id = "/buckets/a";
  target_path = "/staging/a";
  cache_dir = "/var/cache/seaweedfs/a";
  mount_args = "mount" ∷ [];
  local_socket = "/tmp/seaweedfs.sock";
  volume_context = none;
  read_only = false;
}

-- The target is no mount point at the first probe, and is one later.
abbrev good_answers : Answers
good_answers = record {
  likely_not_mount_point = λ i. ok (eqb i 0);
  unmount = none;
  lazy_unmount = none;
  mkdir_all = λ path. none;
  start_command = none;
  done_after_term = true;
  done_after_kill = true;
}

abbrev start_a : List Event
start_a =
    mounts_volume mount_a
    ∷ advances "/buckets/a" good_answers
    ∷ advances "/buckets/a" good_answers
    ∷ []

running_process_is_known_example :
    (entry_has 0 (lookup "/buckets/a" (handle_all start_a new_manager).mounts)
      || phase_has 0 ((handle_all start_a new_manager).phase "/buckets/a"))
    ≡ true
unfolding handle_all validate_mount_request lookup prepare wait_loop
running_process_is_known_example =
    running_process_is_known start_a "/buckets/a" 0 ((omega arith, refl), refl, refl)

one_process_per_volume_example : ◌≡◌ {A = ℕ} 0 0
unfolding handle_all validate_mount_request lookup prepare wait_loop
one_process_per_volume_example =
    one_process_per_volume start_a "/buckets/a" 0 0 ((omega arith, refl), refl, refl)
      ((omega arith, refl), refl, refl)

-- The process of the volume's entry has exited, and its target is unmounted.
abbrev dead_manager : Manager
dead_manager = record new_manager {
  mounts = ("/buckets/a", entry_of mount_a 0) ∷ [];
  started = 1;
  owner = λ n. "/buckets/a";
  exited = λ n. true;
  done = λ n. true;
}

-- The target is still a dead mount when the call starts.
abbrev corrupted_answers : Answers
corrupted_answers = record good_answers { likely_not_mount_point = λ i. err corrupted_mount }

wait_for_mount-WaitEnds_example :
    (r : Option MountFault) × (wait_for_mount good_answers 20 ≡ some r)
    × WaitEnds good_answers 0 0 20 r
wait_for_mount-WaitEnds_example = wait_for_mount-WaitEnds good_answers 20

unescape-escape_mount_field_example :
    unescape_mount_field (escape_mount_field "/var/my app\\") ≡ "/var/my app\\"
unescape-escape_mount_field_example = unescape-escape_mount_field "/var/my app\\"

-- Two processes of a pod share a mount namespace; both have a dead FUSE mount of another device.
abbrev sample_proc : Proc
sample_proc = record {
  processes = some (
      (record { pid = 7; cgroup = some "kubepods-pod1"; namespace = some "mnt:[2]" })
      ∷ (record { pid = 8; cgroup = some "kubepods-pod1"; namespace = some "mnt:[2]" })
      ∷ []);
  self_namespace = "mnt:[1]";
  own_mounts = some (parse_lines sample_mounts);
  mounts = λ pid. some (parse_lines ("9 8 0:33 / /data rw - fuse.seaweedfs weed rw" ∷ []));
  is_dead = λ pid path. true;
}

-- A server that has restarted: the mount service lists the volume, and its mount is live.
abbrev restarted : NodeServer
restarted = record (server true []) {
  host = record (host_where true) {
    listing = λ log. some (
        (record {
          volume_id = "/buckets/a";
          target_path = "/staging/a";
          cache_dir = "/var/cache/seaweedfs";
          local_socket = "/tmp/seaweedfs.sock";
          volume_context = [];
          read_only = false;
        })
        ∷ []);
  };
}

restore_volumes-IsWellFormed_example : IsWellFormed (restore_volumes restarted).1
unfolding lookup
restore_volumes-IsWellFormed_example =
    restore_volumes-IsWellFormed restarted (record { entry = λ v vol h. cc })
