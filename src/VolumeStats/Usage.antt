-- ===== src/VolumeStats/Usage.antt =====
-- The usage of a volume: readVolumeUsage of pkg/driver/volume_stats_linux.go, the calls that requests
-- for one volume and path share, of pkg/driver/volume_stats.go, and NodeGetVolumeStats of
-- pkg/driver/nodeserver.go.
use seaweedfs_csi_driver.Base.{
  ℕ, ◌+◌, ◌-◌, ◌*◌, ◌%◌, ◌^◌, ltb, String, Bool, false, not, ◌&&◌, Option, none, some, List, [],
  ◌∷◌, Assoc, if◌then◌else◌, ◌==◌,
}
use seaweedfs_csi_driver.Base.Exec.{Result, ok, err}
use seaweedfs_csi_driver.Strconv.{ℤ, pos, negsuc, int64_half}
use seaweedfs_csi_driver.Host.{Volume}
use seaweedfs_csi_driver.Node.{Code, invalid_argument, internal, not_found}
use seaweedfs_csi_driver.VolumeStats.{validate_volume_stats_path}

-- syscall.Statfs_t: the counts are uint64 and the block size is an int64, each as its 64-bit word.
pub record Statfs : Type 0 where
  pub blocks : ℕ
  pub bfree : ℕ
  pub bavail : ℕ
  pub files : ℕ
  pub ffree : ℕ
  pub bsize : ℕ

pub record VolumeUsage : Type 0 where
  pub capacity_bytes : ℤ
  pub used_bytes : ℤ
  pub available_bytes : ℤ
  pub inodes : ℤ
  pub inodes_used : ℤ
  pub inodes_free : ℤ

pub data StatfsError : Type 0 where
  no_such_path statfs_failed : StatfsError

-- The int64 of a 64-bit word.
unfoldable pub int64 : ℕ → ℤ
int64 w = if ltb w int64_half then pos w else negsuc (2 ^ 64 - w - 1)

-- The difference and the product of words.
unfoldable pub sub_word : ℕ → ℕ → ℕ
sub_word a b = (a + 2 ^ 64 - b) % 2 ^ 64

unfoldable pub mul_word : ℕ → ℕ → ℕ
mul_word a b = (a * b) % 2 ^ 64

-- A negative number becomes zero.
unfoldable pub not_negative : ℤ → ℤ
not_negative (pos n) = pos n
not_negative (negsuc n) = pos 0

unfoldable pub usage_of : Statfs → VolumeUsage
unfolding int64 sub_word mul_word not_negative
usage_of f = record {
  capacity_bytes = int64 (mul_word f.blocks f.bsize);
  used_bytes = int64 (mul_word (sub_word f.blocks f.bfree) f.bsize);
  available_bytes = int64 (mul_word f.bavail f.bsize);
  inodes = int64 f.files;
  inodes_used = not_negative (int64 (sub_word f.files f.ffree));
  inodes_free = int64 f.ffree;
}

-- readVolumeUsage.
unfoldable pub read_volume_usage : Result StatfsError Statfs → Result Code VolumeUsage
unfolding usage_of
read_volume_usage (err no_such_path) = err not_found
read_volume_usage (err statfs_failed) = err internal
read_volume_usage (ok f) = ok (usage_of f)

-- The outcome of lockVolumeStats, the end of the request's time before the shared call is done, the
-- health test of a path and its statfs.
pub record StatsCalls : Type 0 where
  pub lock_error : Option Code
  pub wait_error : Option Code
  pub is_healthy : String → Bool
  pub statfs : String → Result StatfsError Statfs

-- readVolumeUsageForStats.
unfoldable pub read_volume_usage_for_stats : StatsCalls → String → Result Code VolumeUsage
unfolding read_volume_usage
read_volume_usage_for_stats calls path =
    if not (calls.is_healthy path) then err not_found else read_volume_usage (calls.statfs path)

-- waitVolumeStatsCall.
unfoldable pub wait_volume_stats_call :
    Option Code → Result Code VolumeUsage → Result Code VolumeUsage
wait_volume_stats_call none answer = answer
wait_volume_stats_call (some c) answer = err c

pub data UsageUnit : Type 0 where
  bytes inodes : UsageUnit

pub record UsageEntry : Type 0 where
  pub unit : UsageUnit
  pub total : ℤ
  pub used : ℤ
  pub available : ℤ

unfoldable pub is_positive : ℤ → Bool
is_positive (pos n) = ltb 0 n
is_positive (negsuc n) = false

unfoldable pub report : VolumeUsage → List UsageEntry
unfolding is_positive
report u =
    (record {
      unit = bytes;
      total = u.capacity_bytes;
      used = u.used_bytes;
      available = u.available_bytes;
    })
    ∷ (if is_positive u.inodes
        then (record {
          unit = inodes;
          total = u.inodes;
          used = u.inodes_used;
          available = u.inodes_free;
        })
          ∷ []
        else [])

unfoldable pub reported : Result Code VolumeUsage → Result Code (List UsageEntry)
unfolding report
reported (err c) = err c
reported (ok u) = ok (report u)

-- volumeStatsRequest
pub record StatsRequest : Type 0 where
  pub volume_id : String
  pub volume_path : String

-- activeStats: the calls in flight by their request, each with what it gives when it is done.
abbrev pub Active : Type 0
Active = List (StatsRequest × Result Code VolumeUsage)

unfoldable pub is_same_request : StatsRequest → StatsRequest → Bool
is_same_request r q = r.volume_id == q.volume_id && r.volume_path == q.volume_path

unfoldable pub find_call : StatsRequest → Active → Option (Result Code VolumeUsage)
unfolding is_same_request
find_call r [] = none
find_call r ((q, answer) ∷ active) =
    let rest = find_call r active in if is_same_request q r then some answer else rest

-- The goroutine of a call is done, and deletes it.
unfoldable pub delete_call : StatsRequest → Active → Active
unfolding is_same_request
delete_call r [] = []
delete_call r ((q, answer) ∷ active) =
    let rest = delete_call r active in if is_same_request q r then rest else (q, answer) ∷ rest

-- readVolumeUsageWithTimeout: a request with a call in flight waits for that one.
unfoldable pub joined :
    StatsCalls
    → StatsRequest
    → Active
    → Option (Result Code VolumeUsage)
    → Result Code VolumeUsage × Active
unfolding wait_volume_stats_call read_volume_usage_for_stats
joined calls r active (some answer) = (wait_volume_stats_call calls.wait_error answer, active)
joined calls r active none =
    let answer = read_volume_usage_for_stats calls r.volume_path in
    (wait_volume_stats_call calls.wait_error answer, (r, answer) ∷ active)

unfoldable pub read_volume_usage_with_timeout :
    StatsCalls → StatsRequest → Active → Result Code VolumeUsage × Active
unfolding joined find_call
read_volume_usage_with_timeout calls r active = joined calls r active (find_call r active)

unfoldable pub with_reported :
    Result Code VolumeUsage × Active → Result Code (List UsageEntry) × Active
unfolding reported
with_reported (r, active) = (reported r, active)

-- What a code that is there makes of the rest.
unfoldable pub unless_refused :
    Option Code
    → Active
    → Result Code (List UsageEntry) × Active
    → Result Code (List UsageEntry) × Active
unless_refused (some c) active rest = (err c, active)
unless_refused none active rest = rest

-- NodeGetVolumeStats; volumeStatsSupported returns nil on Linux.
unfoldable pub node_get_volume_stats :
    StatsCalls → String → String → Assoc Volume → Active → Result Code (List UsageEntry) × Active
unfolding unless_refused with_reported read_volume_usage_with_timeout
node_get_volume_stats calls volume_id path volumes active =
    if volume_id == ""
    then (err invalid_argument, active)
    else if path == ""
    then (err invalid_argument, active)
    else unless_refused calls.lock_error active (
        unless_refused (validate_volume_stats_path volume_id path volumes) active (
          with_reported (
            read_volume_usage_with_timeout calls
              (record { volume_id = volume_id; volume_path = path }) active)))
