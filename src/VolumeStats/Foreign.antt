-- ===== src/VolumeStats/Foreign.antt =====
-- Statistics of a path that another volume has.
use seaweedfs_csi_driver.Base.{
  String, true, Option, none, some, Assoc, lookup, All, ◌≡◌, ◌≢◌, ◌⊎◌, inl, inr, refl, ◌∙◌, ap,
  arith, eq_iff, eq_false, Bool, false, [], ◌∷◌,
}
use seaweedfs_csi_driver.Base.Exec.{err}
use seaweedfs_csi_driver.GoPath.{is_abs}
use seaweedfs_csi_driver.Host.{Volume}
use seaweedfs_csi_driver.Node.{not_found}
use seaweedfs_csi_driver.VolumeStats.{has_path, validate_volume_stats_path-foreign, NotOwn}
use seaweedfs_csi_driver.VolumeStats.Usage.{
  StatsCalls, Active, unless_refused, node_get_volume_stats,
}

-- The path is where the volume is staged, or one of those where it is published.
abbrev pub IsPlacedAt : String → Volume → Type 0
IsPlacedAt path vol =
    (vol.staged_path ≡ path) ⊎ ((ro : Bool) × (lookup path vol.publish_paths ≡ some ro))

-- A volume at the path has another id, and an id.
abbrev pub IsForeign : String → String → String × Volume → Type 0
IsForeign volume_id path entry = IsPlacedAt path entry.1 → (entry.0 ≢ volume_id) × (entry.0 ≢ "")

placed-has_path : (path : String) (vol : Volume) → IsPlacedAt path vol → has_path path vol ≡ true
unfolding has_path
placed-has_path path vol (inl e) = ground (arith, e, eq_iff vol.staged_path path)
placed-has_path path vol (inr (ro, e)) = ground (arith, e)

has_path-placed : (path : String) (vol : Volume) → has_path path vol ≡ true → IsPlacedAt path vol
unfolding has_path
has_path-placed path vol h = go (lookup path vol.publish_paths) refl
  where
    go : (o : Option Bool) → lookup path vol.publish_paths ≡ o → IsPlacedAt path vol
    go (some ro) e = inr (ro, e)
    go none e = inl (ground (arith, e, h, eq_iff vol.staged_path path))

foreign-NotOwn :
    (volume_id path : String) (volumes : Assoc Volume)
    → All (IsForeign volume_id path) volumes
    → All (NotOwn volume_id path) volumes
foreign-NotOwn volume_id path [] h = tt
foreign-NotOwn volume_id path ((key, vol) ∷ volumes) h =
    (λ e. h.0 (has_path-placed path vol e), foreign-NotOwn volume_id path volumes h.1)

is_abs-given : (path : String) → is_abs path ≡ true → path ≢ ""
unfolding is_abs
is_abs-given path a e =
    let none_there : is_abs path ≡ false = ap is_abs e ∙ refl in
    absurd (ground (arith, a, none_there))

-- Once it has the volume's lock, NodeGetVolumeStats of an absolute path answers NotFound, and reads
-- nothing, if another volume is staged or published there and the volume itself, an id given, is
-- not: in whatever order the volumes are visited, and although the path looks like a publish path of
-- the kubelet.
pub foreign_path_refused :
    (calls : StatsCalls) (volume_id path other : String) (vol : Volume) (volumes : Assoc Volume)
    (active : Active)
    → volume_id ≢ ""
    → calls.lock_error ≡ none
    → is_abs path ≡ true
    → lookup other volumes ≡ some vol
    → IsPlacedAt path vol
    → All (IsForeign volume_id path) volumes
    → node_get_volume_stats calls volume_id path volumes active ≡ (err not_found, active)
unfolding node_get_volume_stats unless_refused
foreign_path_refused calls volume_id path other vol volumes active named locked a h placed all =
    let refused =
      validate_volume_stats_path-foreign volume_id path other vol volumes a h
        (placed-has_path path vol placed) (foreign-NotOwn volume_id path volumes all) in
    rw (eq_false volume_id "" named)
      (rw (eq_false path "" (is_abs-given path a)) (rw locked (rw refused refl)))
