-- ===== src/MountArgs/Quota.antt =====
-- The quota that a mount starts with.
use seaweedfs_csi_driver.Base.{
  ℕ, ◌≡◌, arith, ◌<◌, ◌≤◌, ◌+◌, ◌*◌, ◌/◌, ◌%◌, ◌^◌, eqb, Bool-cases, inl, inr,
}
use seaweedfs_csi_driver.Strconv.Print.{format_nat, parse_int-format_nat}
use seaweedfs_csi_driver.MountArgs.{initial_collection_quota_mb, quota_of_parsed, quota_of_capacity}

-- A quota in MiB that is no less than the capacity, and by less than one MiB more.
abbrev pub IsCeiling : ℕ → ℕ → Type 0
IsCeiling n q = (n ≤ q * 1048576) × (q * 1048576 < n + 1048576)

quota_of_capacity-IsCeiling :
    (n : ℕ) → 1 < n → (q : ℕ) × (quota_of_capacity n ≡ format_nat q) × IsCeiling n q
unfolding quota_of_capacity
quota_of_capacity-IsCeiling n h = elim (Bool-cases (eqb (n % 1048576) 0)) [
  | inl e ↦ (n / 1048576, ground arith, (ground arith, ground arith))
  | inr e ↦ (n / 1048576 + 1, ground arith, (ground arith, ground arith))
]

-- The initial quota of a collection, for a capacity of more than one byte in the volume context, is
-- the capacity in MiB rounded up: never below the capacity, and less than one MiB above it.
pub initial_collection_quota_mb-IsCeiling :
    (n : ℕ)
    → 1 < n
    → n < 2 ^ 63
    → (q : ℕ) × (initial_collection_quota_mb (format_nat n) ≡ format_nat q) × IsCeiling n q
unfolding initial_collection_quota_mb quota_of_parsed
initial_collection_quota_mb-IsCeiling n h bound =
    let (q, e, c) = quota_of_capacity-IsCeiling n h in (q, rw (parse_int-format_nat n bound) e, c)
