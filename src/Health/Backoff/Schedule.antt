-- ===== src/Health/Backoff/Schedule.antt =====
-- The schedule of recoveries: one minute after the first attempt, doubled after each further one,
-- at most thirty minutes, with no overflow of the int64 shift.
use seaweedfs_csi_driver.Base.{
  ℕ, zero, suc, ◌+◌, ◌*◌, ◌^◌, ◌≤◌, ◌<◌, String, Bool, true, false, ◌&&◌, Option, none, some, ◌≡◌,
  refl, arith, ltb, leb, eqb, if◌then◌else◌, lookup, lookup-insert, eq_refl, Bool-cases, inl, inr,
  ◌∙◌, ap, ◌-◌,
}
use seaweedfs_csi_driver.Base.Exec.{ok}
use seaweedfs_csi_driver.Strconv.{ℤ, pos, negsuc}
use seaweedfs_csi_driver.Host.{RecoveryBackoffState, NodeServer}
use seaweedfs_csi_driver.Health.Backoff.{
  recovery_backoff_base, recovery_backoff_max, recovery_wait, add_duration, attempts_after,
  note_recovery_attempt, recovery_throttled, throttles,
}

-- The wait after `suc k` attempts, as a number of nanoseconds.
abbrev pub scheduled : ℕ → ℕ
scheduled k = if ltb k 5 then recovery_backoff_base * 2 ^ k else recovery_backoff_max

-- The recursion waits for the range, so a number out of the table needs no evaluation.
same_wait : ℕ → ℤ → Bool
same_wait w (pos n) = eqb n w
same_wait w (negsuc n) = false

passes : (ℕ → Bool) → ℕ → Bool
passes test zero = true
passes test (suc n) = passes test n && test n

passes_at : (test : ℕ → Bool) (n k : ℕ) → k < n → passes test n ≡ true → test k ≡ true
unfolding passes
passes_at test zero k bound all = absurd (omega arith)
passes_at test (suc n) k bound all = let below = passes_at test n k in ground (arith, below)

schedule_table : passes (λ k. same_wait (scheduled k) (recovery_wait (suc k))) 21 ≡ true
unfolding passes same_wait recovery_wait
schedule_table = refl

same_wait_eq : (w : ℕ) (d : ℤ) → same_wait w d ≡ true → d ≡ pos w
unfolding same_wait
same_wait_eq w d h = ground arith

-- Past the last shift the wait no longer changes.
wait_settles : (k : ℕ) → 20 < k → recovery_wait (suc k) ≡ pos recovery_backoff_max
unfolding recovery_wait
wait_settles k h =
    let e : suc k - 1 ≡ k = omega arith in let l : ltb 20 k ≡ true = ground arith in rw (e, l)

-- After n + 1 attempts the wait is one minute times 2 to the n while n is below 5, and thirty
-- minutes from then on: the shift of the int64 duration never wraps, for any number of attempts.
pub recovery_wait_lem : (k : ℕ) → recovery_wait (suc k) ≡ pos (scheduled k)
recovery_wait_lem k = elim (Bool-cases (ltb k 21)) [
  | inl e ↦ same_wait_eq _ _ (passes_at _ 21 k (ground arith) schedule_table)
  | inr e ↦ wait_settles k (ground arith) ∙ ground arith
]

scheduled_table :
    passes
      (λ k. leb recovery_backoff_base (scheduled k) && leb (scheduled k) recovery_backoff_max)
      5
    ≡ true
unfolding passes
scheduled_table = refl

pub scheduled_bounds :
    (k : ℕ) → (recovery_backoff_base ≤ scheduled k) × (scheduled k ≤ recovery_backoff_max)
scheduled_bounds k = elim (Bool-cases (ltb k 5)) [
  | inl e ↦
      let both =
        passes_at
          (λ j. leb recovery_backoff_base (scheduled j) && leb (scheduled j) recovery_backoff_max) 5
          k (ground arith) scheduled_table in
      ground (arith, both)
  | inr e ↦ ground arith
]

attempts_positive : (o : Option RecoveryBackoffState) → (k : ℕ) × (attempts_after o ≡ suc k)
unfolding attempts_after
attempts_positive none = (0, refl)
attempts_positive (some b) = (b.attempts, omega arith)

-- The time until which an attempt throttles its volume.
until_lem :
    (s : NodeServer) (v : String) (k : ℕ)
    → attempts_after (lookup v s.recovery_backoff) ≡ suc k
    → (b : RecoveryBackoffState) × (lookup v (note_recovery_attempt v s).1.recovery_backoff
        ≡ some b)
      × (b.not_before ≡ s.host.clock s.log + scheduled k)
unfolding note_recovery_attempt add_duration
until_lem s v k e = (
  record {
    attempts = attempts_after (lookup v s.recovery_backoff);
    not_before =
        add_duration (s.host.clock s.log)
          (recovery_wait (attempts_after (lookup v s.recovery_backoff)));
  },
  lookup-insert v v _ s.recovery_backoff ∙ rw (eq_refl v) refl,
  rw (e, recovery_wait_lem k) refl,
)

-- A recovery attempt throttles its volume for at least one minute and for at most thirty: with the
-- attempt's entry still in place, a recovery is throttled at every time less than a minute later,
-- and is not at any time thirty minutes later or more.
pub attempt_throttles :
    (s t : NodeServer) (v : String)
    → t.recovery_backoff ≡ (note_recovery_attempt v s).1.recovery_backoff
    → (t.host.clock t.log < s.host.clock s.log + recovery_backoff_base
        → (recovery_throttled v t).0 ≡ ok true)
      × (s.host.clock s.log + recovery_backoff_max ≤ t.host.clock t.log
          → (recovery_throttled v t).0 ≡ ok false)
unfolding recovery_throttled throttles
attempt_throttles s t v same =
    let (k, e) = attempts_positive (lookup v s.recovery_backoff) in
    let (b, found, time) = until_lem s v k e in
    let entry : lookup v t.recovery_backoff ≡ some b = ap (lookup v) same ∙ found in
    (
      λ h. rw entry (ground (arith, scheduled_bounds k)),
      λ h. rw entry (ground (arith, scheduled_bounds k)),
    )
