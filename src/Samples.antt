-- ===== src/Samples.antt =====
-- Concrete inputs for the tests: a host on which nothing is mounted and a persisted entry is corrupt,
-- one on which everything is mounted and answers, and requests about a volume.
use seaweedfs_csi_driver.Base.{
  String, Bool, true, false, none, some, List, [], ◌∷◌, Assoc, if◌then◌else◌, length,
}
use seaweedfs_csi_driver.Base.Exec.{ok, err}
use seaweedfs_csi_driver.Strconv.{pos}
use seaweedfs_csi_driver.Locality
use seaweedfs_csi_driver.Driver.{Driver, Urls, single_node_writer}
use seaweedfs_csi_driver.Host.{
  plain_fault, corrupt_entry, Ask, is_mount_point, Volume, Host, NodeServer,
}
use seaweedfs_csi_driver.Node.{StageRequest, PublishRequest}
use seaweedfs_csi_driver.Plugin.{Request, stages, publishes, unpublishes, unstages, checks_health}

-- A net/url that knows only paths.
abbrev pub plain_urls : Urls
plain_urls = record { parse = λ s. none; print = λ u. u.path }

abbrev pub sample_driver : Driver
sample_driver = record {
  name = "seaweedfs-csi-driver";
  node_id = "node-1";
  vcap = single_node_writer ∷ [];
  cscap = [];
  filers = "filer-1:8888" ∷ "filer-2:8888" ∷ [];
  filer_index = 0;
  concurrent_writers = pos 32;
  concurrent_readers = pos 0;
  mount_extra_args = [];
  cache_capacity_mb = pos 0;
  cache_meta_ttl_sec = pos 60;
  uid_map = "";
  gid_map = "";
  data_center = "";
  data_locality = Locality.none;
  topology_keys = [];
}

abbrev pub is_mount_question : Ask → Bool
is_mount_question (is_mount_point p) = true
is_mount_question q = false

-- The staging mount and one publish bind of a volume.
abbrev pub sample_mounts : List String
sample_mounts =
    "612 600 0:51 / /staging/a rw shared:7 - fuse.seaweedfs weed rw"
    ∷ "613 600 0:51 / /pods/1/volumes/kubernetes.io~csi/pv/mount ro - fuse.seaweedfs weed rw" ∷ []

-- A host on which every path exists and every call succeeds.
abbrev pub host_where : Bool → Host
host_where mounted = record {
  answer = λ log q. if is_mount_question q then ok mounted else ok true;
  outcome = λ log c. none;
  attributes = λ log v. if mounted then ok [] else err corrupt_entry;
  capacity = λ log v. ok (pos 1);
  mount_info = λ log. some (sample_mounts);
  listing = λ log. none;
  clock = length;
  cache_dir = λ v. "/var/cache/seaweedfs";
  local_socket = λ v. "/tmp/seaweedfs.sock";
  client = none;
  urls = plain_urls;
}

abbrev pub sample_volume : Volume
sample_volume = record {
  volume_id = "/buckets/a";
  staged_path = "/staging/a";
  unmounter = some "/buckets/a";
  publish_paths = ("/publish/a", false) ∷ [];
  vol_context = some (("replication", "001") ∷ []);
  read_only = false;
}

abbrev pub server : Bool → Assoc Volume → NodeServer
server mounted volumes = record {
  driver = sample_driver;
  host = host_where mounted;
  volumes = volumes;
  recovery_backoff = [];
  log = [];
}

abbrev pub stage_a : StageRequest
stage_a = record {
  volume_id = "/buckets/a";
  staging_target_path = "/staging/a";
  capability = some (record { access_mode = some single_node_writer });
  volume_context = some (("replication", "001") ∷ []);
}

abbrev pub publish_a : PublishRequest
publish_a = record {
  volume_id = "/buckets/a";
  target_path = "/publish/a";
  staging_target_path = "/staging/a";
  capability = some (record { access_mode = some single_node_writer });
  volume_context = some (("replication", "001") ∷ []);
  read_only = false;
}

abbrev pub requests : List Request
requests =
    stages stage_a
    ∷ publishes publish_a
    ∷ checks_health "/buckets/a"
    ∷ unpublishes "/buckets/a" "/publish/a"
    ∷ unstages "/buckets/a" "/staging/a"
    ∷ []

abbrev pub known_server : NodeServer
known_server = server true (("/buckets/a", sample_volume) ∷ [])

abbrev pub broken_server : NodeServer
broken_server = record known_server {
  host = record (host_where true) { outcome = λ log c. some plain_fault };
}

abbrev pub context : Assoc String
context =
    ("volumeCapacity", "1073741824") ∷ ("collectionQuotaMB", "1") ∷ ("filer", "other:8888") ∷ []

-- A net/url that reads the filer "filer-1:8888" in every volume id.
abbrev pub filer_urls : Urls
filer_urls = record {
  parse = λ s. some (record { scheme = "filer"; host = "filer-1:8888"; path = s });
  print = λ u. u.path;
}

abbrev pub parameters : Assoc String
parameters = ("cacheCapacityMB", "512") ∷ ("dlm", "true") ∷ []
