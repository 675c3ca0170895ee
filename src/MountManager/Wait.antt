-- ===== src/MountManager/Wait.antt =====
-- How waitForMount ends.
use seaweedfs_csi_driver.Base.{
  ℕ, zero, suc, ◌+◌, ◌*◌, ◌≤◌, ◌<◌, leb, Bool, true, false, Option, none, some, ◌≡◌, refl, arith,
  subst, if◌then◌else◌, Bool-cases, inl, inr,
}
use seaweedfs_csi_driver.Base.Exec.{Result, ok, err}
use seaweedfs_csi_driver.MountManager.{
  Answers, MountFault, mount_timeout, wait_loop, wait_for_mount,
}

-- The probes from the i-th on, `k` of them, say that the path is no mount point yet.
abbrev pub AllAbsent : Answers → (i k : ℕ) → Type 0
AllAbsent a i zero = Unit
AllAbsent a i (suc k) = (a.likely_not_mount_point i ≡ ok true) × AllAbsent a (1 + i) k

-- How a wait ends that begins with the i-th probe: `k` probes find no mount, and then one finds it
-- or fails before the time is over, or the time is over with the last of them.
pub data WaitEnds (a : Answers) (i elapsed timeout : ℕ) : Option MountFault → Type 0 where
  mounted :
      (k : ℕ)
      → AllAbsent a i k
      → a.likely_not_mount_point (i + k) ≡ ok false
      → elapsed + 10 * k ≤ timeout
      → WaitEnds a i elapsed timeout none
  failed :
      (k : ℕ) (e : MountFault)
      → AllAbsent a i k
      → a.likely_not_mount_point (i + k) ≡ err e
      → elapsed + 10 * k ≤ timeout
      → WaitEnds a i elapsed timeout (some e)
  timed_out :
      (k : ℕ)
      → AllAbsent a i k
      → timeout ≤ elapsed + 10 * k
      → elapsed + 10 * k ≤ timeout + 10
      → WaitEnds a i elapsed timeout (some mount_timeout)

module _ (a : Answers) where
  probe_moved :
      (i k : ℕ) (r : Result MountFault Bool)
      → a.likely_not_mount_point (1 + i + k) ≡ r
      → a.likely_not_mount_point (i + suc k) ≡ r
  probe_moved i k r h =
      let same : 1 + i + k ≡ i + suc k = omega arith in
      subst (λ j. a.likely_not_mount_point j ≡ r) same h

  ends_later :
      (i elapsed timeout : ℕ) (r : Option MountFault)
      → a.likely_not_mount_point i ≡ ok true
      → WaitEnds a (1 + i) (10 + elapsed) timeout r
      → WaitEnds a i elapsed timeout r
  ends_later i elapsed timeout none h (mounted k all p le) =
      mounted (suc k) (h, all) (probe_moved i k (ok false) p) (omega (arith, le))
  ends_later i elapsed timeout (some _) h (failed k e all p le) =
      failed (suc k) e (h, all) (probe_moved i k (err e) p) (omega (arith, le))
  ends_later i elapsed timeout (some mount_timeout) h (timed_out k all le ge) =
      timed_out (suc k) (h, all) (omega (arith, le)) (omega (arith, ge))

  probe_here :
      (i : ℕ) (r : Result MountFault Bool)
      → a.likely_not_mount_point i ≡ r
      → a.likely_not_mount_point (i + 0) ≡ r
  probe_here i r h =
      let same : i ≡ i + 0 = omega arith in subst (λ j. a.likely_not_mount_point j ≡ r) same h

  abbrev Ends : ℕ → ℕ → ℕ → Option (Option MountFault) → Type 0
  Ends i elapsed timeout out =
      (r : Option MountFault) × (out ≡ some r) × WaitEnds a i elapsed timeout r

  step-Ends :
      (i elapsed timeout : ℕ) (rest : Option (Option MountFault)) (r : Result MountFault Bool)
      → elapsed ≤ timeout
      → a.likely_not_mount_point i ≡ r
      → (10 + elapsed ≤ timeout → Ends (1 + i) (10 + elapsed) timeout rest)
      → Ends i elapsed timeout (elim r [
        | err e ↦ some (some e)
        | ok not_mount ↦
            if not_mount
            then (if leb timeout (10 + elapsed) then some (some mount_timeout) else rest)
            else some none
      ])
  step-Ends i elapsed timeout rest (err e) le h later =
      (some e, refl, failed 0 e tt (probe_here i (err e) h) (omega (arith, le)))
  step-Ends i elapsed timeout rest (ok false) le h later =
      (none, refl, mounted 0 tt (probe_here i (ok false) h) (omega (arith, le)))
  step-Ends i elapsed timeout rest (ok true) le h later =
      elim (Bool-cases (leb timeout (10 + elapsed))) [
        | inl e ↦
            rw e ((some mount_timeout, refl, timed_out 1 (h, tt) (ground arith) (ground arith)))
        | inr e ↦ rw e (
            let (r, q, ends) = later (ground arith) in
            (r, q, ends_later i elapsed timeout r h ends))
      ]

  wait_loop-Ends :
      (fuel i elapsed timeout : ℕ)
      → elapsed ≤ timeout
      → timeout < elapsed + fuel
      → Ends i elapsed timeout (wait_loop a fuel i elapsed timeout)
  unfolding wait_loop
  wait_loop-Ends zero i elapsed timeout le lt = absurd (omega (arith, le, lt))
  wait_loop-Ends (suc fuel) i elapsed timeout le lt =
      step-Ends i elapsed timeout _ (a.likely_not_mount_point i) le refl
        λ more. wait_loop-Ends fuel (1 + i) (10 + elapsed) timeout more (omega (arith, lt))

  -- Whatever the probes answer, waitForMount returns: without an error when a probe finds the mount
  -- after probes that did not, each ten milliseconds later; with the first error of a probe; or,
  -- when the time is over and no probe has found the mount, with the timeout.
  pub wait_for_mount-WaitEnds :
      (timeout : ℕ)
      → (r : Option MountFault) × (wait_for_mount a timeout ≡ some r) × WaitEnds a 0 0 timeout r
  wait_for_mount-WaitEnds timeout =
      wait_loop-Ends (1 + timeout) 0 0 timeout (omega arith) (omega arith)
