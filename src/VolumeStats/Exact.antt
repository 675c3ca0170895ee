-- ===== src/VolumeStats/Exact.antt =====
-- The arithmetic of a usage.
use native.Mathlib.Nat.{mul-le-mul_right, add-mul}
use seaweedfs_csi_driver.Base.{ℕ, ◌+◌, ◌-◌, ◌*◌, ◌%◌, ◌^◌, ◌≤◌, ◌<◌, ◌≡◌, refl, sym, ◌∙◌, ap, arith}
use seaweedfs_csi_driver.Strconv.{pos}
use seaweedfs_csi_driver.VolumeStats.Usage.{
  Statfs, VolumeUsage, int64, sub_word, mul_word, not_negative, usage_of,
}

-- A file system that holds no more than it can say: what is available is free, and the totals fit in
-- an int64.
pub record IsPlausible (f : Statfs) : Type 0 where
  pub blocks_word : f.blocks < 2 ^ 64
  pub free_blocks : f.bfree ≤ f.blocks
  pub free_available : f.bavail ≤ f.bfree
  pub free_files : f.ffree ≤ f.files
  pub files_fit : f.files < 2 ^ 63
  pub bytes_fit : f.blocks * f.bsize < 2 ^ 63

int64-pos : (w : ℕ) → w < 2 ^ 63 → int64 w ≡ pos w
unfolding int64
int64-pos w h = ground arith

mul_word-int64 : (a b : ℕ) → a * b < 2 ^ 63 → int64 (mul_word a b) ≡ pos (a * b)
unfolding mul_word
mul_word-int64 a b h =
    let small : (a * b) % 2 ^ 64 ≡ a * b = omega arith in rw small (int64-pos (a * b) h)

sub_word-exact : (a b : ℕ) → a < 2 ^ 64 → b ≤ a → sub_word a b ≡ a - b
unfolding sub_word
sub_word-exact a b h k = omega arith

split_product : (a b c : ℕ) → b ≤ a → (a - b) * c + b * c ≡ a * c
split_product a b c h = sym (add-mul (a - b) b c) ∙ ap (λ x. x * c) (omega arith)

-- What usage_of says without wrap-around.
abbrev pub plain_usage : Statfs → VolumeUsage
plain_usage f = record {
  capacity_bytes = pos (f.blocks * f.bsize);
  used_bytes = pos ((f.blocks - f.bfree) * f.bsize);
  available_bytes = pos (f.bavail * f.bsize);
  inodes = pos f.files;
  inodes_used = pos (f.files - f.ffree);
  inodes_free = pos f.ffree;
}

-- For a file system whose free space and inodes are at most all of it, and whose size in bytes and
-- number of inodes fit in an int64, no step of readVolumeUsage wraps: the usage has the exact
-- products and differences, the used and the available bytes together are at most the capacity, and
-- the used and the free inodes together are all inodes.
pub usage_exact :
    (f : Statfs)
    → IsPlausible f
    → (usage_of f ≡ plain_usage f)
      × ((f.blocks - f.bfree) * f.bsize + f.bavail * f.bsize ≤ f.blocks * f.bsize)
      × ((f.files - f.ffree) + f.ffree ≡ f.files)
unfolding usage_of not_negative
usage_exact f h =
    let free = mul-le-mul_right f.bsize h.free_blocks in
    let available = mul-le-mul_right f.bsize h.free_available in
    let used = split_product f.blocks f.bfree f.bsize h.free_blocks in
    let fits = h.bytes_fit in
    let files = h.files_fit in
    let taken = h.free_files in
    (
      rw
          (
            mul_word-int64 f.blocks f.bsize fits,
            sub_word-exact f.blocks f.bfree h.blocks_word h.free_blocks,
            mul_word-int64 (f.blocks - f.bfree) f.bsize (omega arith),
            mul_word-int64 f.bavail f.bsize (omega arith),
            int64-pos f.files files,
            sub_word-exact f.files f.ffree (omega arith) taken,
            int64-pos (f.files - f.ffree) (omega arith),
            int64-pos f.ffree (omega arith),
          )
          refl,
      omega arith,
      omega arith,
    )
