-- ===== src/Staging/Guard.antt =====
-- No recursive removal through a live mount.
use seaweedfs_csi_driver.Base.{String, false, none, [], ◌∷◌, ◌≡◌, arith}
use seaweedfs_csi_driver.Base.Exec.{ok, Moves, IsPreorder, ◌>>=◌}
use seaweedfs_csi_driver.Host.{
  Event, asked, acted, History, NodeServer, ask, act, note, is_mount_point, lazy_unmount,
  remove_all,
}
use seaweedfs_csi_driver.Staging.{cleanup_corrupted_staging_path, cleanup_stale_staging_path}

-- The last call before said that `path` is no mount point, or detached the mount there.
abbrev pub Cleared : String → History → Type 0
Cleared path (asked (is_mount_point p) (ok false) ∷ log) = p ≡ path
Cleared path (acted (lazy_unmount p) none ∷ log) = p ≡ path
Cleared path _ = ⊥

abbrev pub Permitted : Event → History → Type 0
Permitted (acted (remove_all path) r) log = Cleared path log
Permitted _ log = Unit

-- Every recursive removal in the history was permitted when it was made.
abbrev pub IsGuarded : History → Type 0
IsGuarded [] = Unit
IsGuarded (e ∷ log) = Permitted e log × IsGuarded log

abbrev pub KeepsGuarded : NodeServer → NodeServer → Type 0
KeepsGuarded s t = IsGuarded s.log → IsGuarded t.log

pub KeepsGuarded-preorder : IsPreorder KeepsGuarded
KeepsGuarded-preorder = record { reflexive = λ s h. h; transitive = λ p q h. q (p h) }

corrupted_guarded : (path : String) → Moves KeepsGuarded (cleanup_corrupted_staging_path path)
unfolding cleanup_corrupted_staging_path ask act note ◌>>=◌
corrupted_guarded path = record { at = λ s h. ground arith }

-- cleanupStaleStagingPath makes no recursive removal but directly after the mount check said that
-- the path is no mount point, or directly after a lazy unmount detached it.
pub cleanup_stale_staging_path_guarded :
    (path : String) → Moves KeepsGuarded (cleanup_stale_staging_path path)
unfolding cleanup_stale_staging_path ask act note ◌>>=◌
cleanup_stale_staging_path_guarded path = record { at = λ s h. ground arith }
