-- ===== src/Health/Backoff.antt =====
-- The throttle on recoveries of one volume (pkg/driver/health_monitor.go). A time.Duration is an
-- int64 of nanoseconds, so the shift wraps.
pub mod Schedule
use seaweedfs_csi_driver.Base.{
  ℕ, suc, ◌+◌, ◌-◌, ◌*◌, ◌%◌, ◌^◌, String, Bool, false, Option, none, some, lookup, insert, erase,
  ltb, if◌then◌else◌,
}
use seaweedfs_csi_driver.Base.Exec.{ok}
use seaweedfs_csi_driver.Strconv.{ℤ, pos, negsuc, int64_half}
use seaweedfs_csi_driver.Host.{RecoveryBackoffState, NodeServer, Node}

abbrev pub recovery_backoff_base : ℕ
recovery_backoff_base = 60000000000

abbrev pub recovery_backoff_max : ℕ
recovery_backoff_max = 1800000000000

abbrev pub recovery_backoff_max_shift : ℕ
recovery_backoff_max_shift = 20

-- x << k at int64.
unfoldable pub shift_left : ℕ → ℕ → ℤ
shift_left x k =
    let w = (x * 2 ^ k) % 2 ^ 64 in if ltb w int64_half then pos w else negsuc (2 ^ 64 - w - 1)

cap_wait : ℤ → ℤ
cap_wait (pos w) = if ltb recovery_backoff_max w then pos recovery_backoff_max else pos w
cap_wait (negsuc n) = negsuc n

-- The wait after the given number of attempts.
unfoldable pub recovery_wait : ℕ → ℤ
unfolding shift_left cap_wait
recovery_wait attempts =
    let shift = attempts - 1 in
    cap_wait (
      shift_left recovery_backoff_base
        (if ltb recovery_backoff_max_shift shift then recovery_backoff_max_shift else shift))

-- t.Add(d).
add_duration : ℕ → ℤ → ℕ
add_duration t (pos d) = t + d
add_duration t (negsuc n) = t - suc n

attempts_after : Option RecoveryBackoffState → ℕ
attempts_after none = 1
attempts_after (some b) = b.attempts + 1

unfoldable pub note_recovery_attempt : String → Node (Unit {0})
unfolding recovery_wait add_duration attempts_after
note_recovery_attempt volume_id s =
    let attempts = attempts_after (lookup volume_id s.recovery_backoff) in
    (
      ok tt,
      record s {
        recovery_backoff =
            insert volume_id
              (record {
                attempts = attempts;
                not_before = add_duration (s.host.clock s.log) (recovery_wait attempts);
              })
              s.recovery_backoff;
      },
    )

throttles : ℕ → Option RecoveryBackoffState → Bool
throttles time none = false
throttles time (some b) = ltb time b.not_before

-- Whether the volume is still inside the window that an earlier attempt opened.
unfoldable pub recovery_throttled : String → Node Bool
unfolding throttles
recovery_throttled volume_id s =
    (ok (throttles (s.host.clock s.log) (lookup volume_id s.recovery_backoff)), s)

unfoldable pub reset_recovery_backoff : String → NodeServer → NodeServer
reset_recovery_backoff volume_id s = record s {
  recovery_backoff = erase volume_id s.recovery_backoff;
}
