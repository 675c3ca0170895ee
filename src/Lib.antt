-- ===== src/Lib.antt =====
-- The SeaweedFS CSI driver: its start, its node plugin and health monitor, the controller's
-- provisioning, the mount service with its client and its manager of weed processes, volume parameters
-- and mount arguments.
--
-- Parts and files
--   pkg/driver/nodeserver.go       Node: the RPCs node_stage_volume (NodeStageVolume),
--                                  node_publish_volume, node_unpublish_volume,
--                                  node_unstage_volume and node_expand_volume on the state
--                                  NodeServer of Host/State.
--   pkg/driver/volume.go           Volume: stage, publish, quota, unpublish, unstage, the mounter
--                                  and unmounter of pkg/driver/mounter.go, and stage_new_volume.
--   pkg/driver/mount_util.go       Staging: the health and liveness of a staging path, the
--                                  cleanups, and checkMount of pkg/driver/utils.go. Probes: the
--                                  shared statfs probes (probeStatfs, resetStatfsProbe).
--   pkg/driver/health_monitor.go   Health and Health/Backoff: probe_staging, recover_volume,
--                                  retry_publish_paths, perform_volume_health_check. Health/Sweep:
--                                  the loop, the sweeps and their goroutines, and NodeCleanup.
--   pkg/driver/controllerserver.go Params: the validators and the effective parameters of
--                                  ControllerModifyVolume; with the merge of pkg/driver/vacstore.go.
--   pkg/driver/mounter.go          MountArgs: validate_mount_args, build_mount_args, mount_filers.
--   pkg/driver/driver.go           Driver: the configuration and the service checks, and the volume
--                                  ids of pkg/driver/utils.go.
--   pkg/driver/controllerserver.go Controller: ControllerModifyVolume, with the store's Write.
--                                  Provision: create_volume (CreateVolume), resolve_volume,
--                                  sanitize_volume_id_s3; Provision/Delete: delete_volume,
--                                  empty_bucket_children, validate_volume_capabilities.
--   pkg/driver/vacstore.go         VacStore: read_entry, write_entry, delete_entry, round_trip.
--                                  VacStore/Path: vac_path (vacPath), on bytes.
--   pkg/driver/driver.go           Driver/Filers: WithFilerClient.
--   pkg/driver/restore.go          Restore: restore_volumes, on the state of Host/State.
--   pkg/driver/volume_stats.go     VolumeStats: validate_volume_stats_path, and
--                                  read_volume_usage_with_timeout with the shared calls (activeStats),
--                                  in VolumeStats/Usage:
--                                  usage_of (readVolumeUsage of pkg/driver/volume_stats_linux.go)
--                                  and node_get_volume_stats (NodeGetVolumeStats).
--   pkg/driver/identityserver.go   Node/Info: get_plugin_capabilities, with node_get_info
--                                  (NodeGetInfo) of pkg/driver/nodeserver.go.
--   cmd/seaweedfs-csi-driver/main.go  Startup: start (main up to Run) from the values of the flags,
--                                  with NewSeaweedFsDriver and ParseTopologyKeys.
--   pkg/driver/container_remount_linux.go  MountInfo: the parser and the choice of publish paths.
--                                  Remount: find_container_pids, remount_in_containers,
--                                  remount_stale_fuse. Remount/Setns: remount_via_setns
--                                  (remountViaSetns), its system calls on the state of a thread.
--   pkg/k8s/client.go              K8s: resolve_persistent_volume.
--   pkg/mountmanager/manager.go    MountManager: the requests, ensure_target_clean, wait_for_mount,
--                                  stop. MountManager/Machine: Mount and Unmount in phases, the
--                                  processes, watch_process_exit, list_mounts.
--   cmd/seaweedfs-mount/main.go    MountService: the handlers and serve, the mux.
--   pkg/mountmanager/client.go     MountService/Client: client_mount, client_unmount, client_list.
--   pkg/mountmanager/keymutex.go   Locks: keyMutex, and KeyMutex of pkg/driver/utils.go, with the
--                                  goroutines that lock and unlock in any interleaving.
--   pkg/datalocality/mapping.go    Locality.
--   Plugin                         the RPCs and the health checks as steps on one state, run in any
--                                  order.
--   Base, Strconv, Chars and GoPath hold what the parts share: maps, the state and error monad, and
--   the functions of strconv, strings and path. Samples and Tests apply the theorems at concrete inputs.
--
-- How the parts interact
--   The driver calls mount utilities, the mount service, the orchestrator and the filer. Each
--   such call is a question to, or an act on, a Host (Host/Calls), and its answer is a function
--   of the history of the calls before, so a theorem about every host covers every answer the
--   world can give. The history is kept in the state, newest first. An RPC holds the lock of its
--   volume for all that it does, so it is one step (Locks has the lock itself; RemoveMutex of
--   KeyMutex, which can let a second request in, is left out of Plugin); the health check of a
--   volume runs without other steps in between, and the recovery loads the volume again, as the
--   code does.
--   The mount manager is a program of its own, and has its own state: a call of Mount or Unmount
--   is a chain of phases, one step each, and the steps of other calls, of the processes and of
--   the watchers come in between. The node plugin reaches it over a socket: MountService has both
--   ends, where the handlers take the manager's functions as arguments and encoding/json is a
--   parameter, Codecs. A watcher may run for any entry, which includes those that Mount starts.
--   The controller's state is the history of its calls of the filers, whose answers are functions
--   of it.
--
-- Bounds
--   A time.Duration is an int64 of nanoseconds, and shift_left writes its wrap-around out. A
--   number that strconv parses is an int64 with its range checks. Reading and printing recurse on
--   the digits; print_digits takes 19 rounds, which every int64 fits in. wait_for_mount has one
--   round more than milliseconds and each round takes ten of them; delete_volume takes the number
--   of pages that it may list as an argument, and more pages than the bucket has children are
--   enough.
--
-- Errors
--   A Go error is a Fault: what os.IsNotExist, mount.IsCorruptedMnt and os.IsPermission say of it
--   and whether its text contains "invalid argument", the tests that the driver makes.
--
-- Not modelled
--   Logging, metrics beyond the order of their updates (they are notes in the history), gRPC and
--   HTTP plumbing beside the mount service's, the parsing of flags, the goroutines behind time
--   limits except the statfs probes and the shared calls for volume statistics (a probe is one question
--   to the host in the node plugin's steps, and a remount inside a container is a note there), the limit of bufio.Scanner on a line of mountinfo, the filepath.Rel test of
--   CleanupVolumeResources (the removal of a volume's cache directory is an act of its own, apart from
--   the recursive removal of a staging path), the paths of cache directories and sockets (functions of the Host)
--   and net/url (the parameter Urls). A map is an association list; where the code ranges over a
--   map, the order is that of the list. strings.ToLower is exact where it is compared with ASCII
--   text.
pub mod Base
pub mod Chars
pub mod Strconv
pub mod GoPath
pub mod Locality
pub mod Params
pub mod MountInfo
pub mod Remount
pub mod Driver
pub mod MountArgs
pub mod Host
pub mod Staging
pub mod Volume
pub mod Node
pub mod Restore
pub mod Health
pub mod Controller
pub mod Provision
pub mod K8s
pub mod VolumeStats
pub mod VacStore
pub mod Locks
pub mod MountManager
pub mod Plugin
pub mod Samples
pub mod Tests
pub mod Probes
pub mod MountService
pub mod Startup
