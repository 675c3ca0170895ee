-- ===== src/Tests/Systems.antt =====
-- The theorems on remounts inside containers, volume usage, and the start of the driver at
-- concrete inputs.
use seaweedfs_csi_driver.Base.{
  List, String, true, false, none, some, [], ◌∷◌, lookup, ◌≡◌, ◌≢◌, refl, arith, ◌≤◌, ◌+◌, ◌-◌, ◌*◌,
}
use seaweedfs_csi_driver.Base.Exec.{ok, err}
use seaweedfs_csi_driver.Strconv.{pos}
use seaweedfs_csi_driver.GoPath.{split, is_abs}
use seaweedfs_csi_driver.Locality.{write_prefer_local_dc}
use seaweedfs_csi_driver.Host.{plain_fault}
use seaweedfs_csi_driver.Remount.Setns.{
  set_namespace, own_namespace, Kernel, Thread, remount_via_setns,
}
use seaweedfs_csi_driver.Remount.Setns.Confined.{IsReturned, remount_via_setns-IsReturned}
use seaweedfs_csi_driver.VolumeStats.{validate_volume_stats_path, volume_stats_path_owner}
use seaweedfs_csi_driver.VolumeStats.Usage.{
  Statfs, StatsCalls, statfs_failed, usage_of, report, node_get_volume_stats,
}
use seaweedfs_csi_driver.VolumeStats.Exact.{plain_usage, IsPlausible, usage_exact}
use seaweedfs_csi_driver.Startup.{
  Flags, Surroundings, Started, start, new_driver, volume_socket_dir,
}
use seaweedfs_csi_driver.VolumeStats.Flights.{StatsEvent, asks, in_flight, Asked}
use seaweedfs_csi_driver.VolumeStats.Shared.{IsReport, node_get_volume_stats-IsReport}
use seaweedfs_csi_driver.Startup.Configured.{IsConfigured, start-IsConfigured}
use seaweedfs_csi_driver.Samples.{sample_volume}

-- A kernel that does not let the thread go back.
abbrev one_way : Kernel
one_way log (set_namespace own_namespace) = some plain_fault
one_way log _ = none

abbrev fresh_thread : Thread
fresh_thread = record { locked = false; namespace = own_namespace; files = []; log = [] }

remount_via_setns-IsReturned_example :
    let o = remount_via_setns one_way 7 "/data" "/staging/a" "/store" true fresh_thread in
    (o.1.locked ≡ false) × IsReturned 7 "/data" fresh_thread o
remount_via_setns-IsReturned_example =
    remount_via_setns-IsReturned one_way 7 "/data" "/staging/a" "/store" true fresh_thread refl tt

abbrev half_full : Statfs
half_full = record {
  blocks = 1000;
  bfree = 500;
  bavail = 400;
  files = 64;
  ffree = 60;
  bsize = 4096;
}

half_full-IsPlausible : IsPlausible half_full
half_full-IsPlausible = record {
  blocks_word = omega arith;
  free_blocks = omega arith;
  free_available = omega arith;
  free_files = omega arith;
  files_fit = omega arith;
  bytes_fit = omega arith;
}

usage_exact_example :
    (usage_of half_full ≡ plain_usage half_full)
    × ((half_full.blocks - half_full.bfree) * half_full.bsize + half_full.bavail * half_full.bsize
        ≤ half_full.blocks * half_full.bsize)
    × ((half_full.files - half_full.ffree) + half_full.ffree ≡ half_full.files)
usage_exact_example = usage_exact half_full half_full-IsPlausible

abbrev quiet_calls : StatsCalls
quiet_calls = record {
  lock_error = none;
  wait_error = none;
  is_healthy = λ path. true;
  statfs = λ path. ok half_full;
}

abbrev volume_id : String
volume_id = "/buckets/a"

abbrev path : String
path = "/staging/a"

-- A request of which a call is in flight, and a later one whose own statfs would fail.
abbrev earlier : List StatsEvent
earlier = asks quiet_calls "/buckets/a" "/staging/a" (("/buckets/a", sample_volume) ∷ []) ∷ []

abbrev late_calls : StatsCalls
late_calls = record quiet_calls { statfs = λ path. err statfs_failed }

node_get_volume_stats-IsReport_example :
    (volume_id ≢ "")
    × (path ≢ "")
    × (validate_volume_stats_path "/buckets/a" "/staging/a" (("/buckets/a", sample_volume) ∷ [])
        ≡ none)
    × ((origin : StatsCalls) × Asked
          (asks late_calls "/buckets/a" "/staging/a" (("/buckets/a", sample_volume) ∷ []) ∷ earlier)
          origin
          "/buckets/a"
          "/staging/a"
        × IsReport origin "/staging/a" (report (usage_of half_full)))
unfolding node_get_volume_stats validate_volume_stats_path is_abs volume_stats_path_owner lookup
    in_flight
node_get_volume_stats-IsReport_example =
    node_get_volume_stats-IsReport earlier late_calls "/buckets/a" "/staging/a"
      (("/buckets/a", sample_volume) ∷ []) (report (usage_of half_full)) refl

abbrev flags : Flags
flags = record {
  components = "node";
  enable_attacher = true;
  driver_name = "seaweedfs-csi-driver";
  filer = "localhost:8888";
  mount_endpoint = "unix:///run/csi/mount.sock";
  node_id = "";
  concurrent_writers = pos 128;
  concurrent_readers = pos 128;
  mount_extra_args = "[]";
  cache_capacity_mb = pos 0;
  cache_meta_ttl_sec = pos 60;
  uid_map = "";
  gid_map = "";
  data_center = "dc1";
  data_locality = "write_preferLocalDc";
  topology_keys = "zone";
}

abbrev around : Surroundings
around = record {
  unmarshal = λ text. some [];
  to_addresses = λ text. text ∷ [];
  node_id_variable = "node-1";
  hostname = none;
}

abbrev started : Started
started = record {
  driver = new_driver around flags [] write_prefer_local_dc "node-1";
  run_node = true;
  run_controller = false;
  volume_socket_dir = volume_socket_dir flags.mount_endpoint;
}

start-IsConfigured_example : IsConfigured flags started
unfolding start split
start-IsConfigured_example = start-IsConfigured around flags started refl
