-- ===== src/VolumeStats.antt =====
-- Which path a volume's statistics are read of: pkg/driver/volume_stats.go.
pub mod Usage
pub mod Exact
pub mod Foreign
pub mod Flights
pub mod Shared
use seaweedfs_csi_driver.Base.{
  String, Bool, true, false, not, ◌&&◌, ◌||◌, Option, none, some, List, [], ◌∷◌, Assoc, lookup,
  is_some, All, ◌≡◌, ◌≢◌, inl, inr, refl, arith, eq_false, Bool-cases, if◌then◌else◌, ◌==◌,
}
use seaweedfs_csi_driver.GoPath.{is_abs, clean, split}
use seaweedfs_csi_driver.Host.{Volume}
use seaweedfs_csi_driver.Node.{Code, invalid_argument, not_found}

-- vol.StagedPath == volumePath || vol.HasPublishPath(volumePath)
unfoldable pub has_path : String → Volume → Bool
has_path path vol = vol.staged_path == path || is_some (lookup path vol.publish_paths)

-- volumeStatsPathOwner: the first volume of the range that has the path.
unfoldable pub volume_stats_path_owner : String → Assoc Volume → String
unfolding has_path
volume_stats_path_owner path [] = ""
volume_stats_path_owner path ((key, vol) ∷ volumes) =
    let rest = volume_stats_path_owner path volumes in if has_path path vol then key else rest

abbrev no_parts : List String → Bool
no_parts [] = true
no_parts (p ∷ parts) = false

-- The six parts of `pods/<uid>/volumes/kubernetes.io~csi/<pv>/mount`, from the front; the answer of
-- the function where they are found, none where they are not.
unfoldable publish_end : List String → Option Bool
unfolding no_parts
publish_end (a ∷ b ∷ c ∷ d ∷ e ∷ f ∷ parts) =
    if a == "pods"
      && not (b == "")
      && c == "volumes"
      && d == "kubernetes.io~csi"
      && not (e == "")
      && f == "mount"
    then some (no_parts parts)
    else none
publish_end parts = none

unfoldable find_publish : List String → Bool
unfolding publish_end
find_publish [] = false
find_publish (p ∷ parts) =
    let rest = find_publish parts in
    elim (publish_end (p ∷ parts)) [ some is_end ↦ is_end | none ↦ rest ]

unfoldable pub is_kubelet_csi_publish_path : String → Bool
unfolding find_publish
is_kubelet_csi_publish_path path = find_publish (split b'/' (clean path))

unfoldable pub is_known_at : String → Option Volume → Bool
unfolding has_path
is_known_at path none = false
is_known_at path (some vol) = has_path path vol

-- validateVolumeStatsPath: the code of the error, if there is one.
unfoldable pub validate_volume_stats_path : String → String → Assoc Volume → Option Code
unfolding is_known_at
validate_volume_stats_path volume_id path volumes =
    let owner = volume_stats_path_owner path volumes in
    if not (is_abs path)
    then some invalid_argument
    else if not (owner == "") && not (owner == volume_id)
    then some not_found
    else if is_known_at path (lookup volume_id volumes)
    then none
    else if is_kubelet_csi_publish_path path
    then none
    else some not_found

kubelet_path_found :
    is_kubelet_csi_publish_path "/var/lib/kubelet/pods/u/volumes/kubernetes.io~csi/pv/mount" ≡ true
unfolding is_kubelet_csi_publish_path split clean
kubelet_path_found = refl

kubelet_path_below :
    is_kubelet_csi_publish_path "/pods/u/volumes/kubernetes.io~csi/pv/mount/data" ≡ false
unfolding is_kubelet_csi_publish_path split clean
kubelet_path_below = refl

-- The volumes that have the path are none of the id's, and have ids.
abbrev pub NotOwn : String → String → String × Volume → Type 0
NotOwn volume_id path entry = has_path path entry.1 ≡ true → (entry.0 ≢ volume_id) × (entry.0 ≢ "")

owner_foreign :
    (volume_id path other : String) (vol : Volume) (volumes : Assoc Volume)
    → lookup other volumes ≡ some vol
    → has_path path vol ≡ true
    → All (NotOwn volume_id path) volumes
    → (volume_stats_path_owner path volumes ≢ volume_id)
      × (volume_stats_path_owner path volumes ≢ "")
unfolding volume_stats_path_owner lookup
owner_foreign volume_id path other vol [] h k all = absurd (ground (arith, h))
owner_foreign volume_id path other vol ((key, v) ∷ volumes) h k all =
    elim (Bool-cases (has_path path v)) [
      | inl e ↦ rw e (all.0 e)
      | inr e ↦
          rw e (owner_foreign volume_id path other vol volumes (ground (arith, h, k, e)) k all.1)
    ]

pub validate_volume_stats_path-foreign :
    (volume_id path other : String) (vol : Volume) (volumes : Assoc Volume)
    → is_abs path ≡ true
    → lookup other volumes ≡ some vol
    → has_path path vol ≡ true
    → All (NotOwn volume_id path) volumes
    → validate_volume_stats_path volume_id path volumes ≡ some not_found
unfolding validate_volume_stats_path
validate_volume_stats_path-foreign volume_id path other vol volumes a h k all =
    let (apart, given) = owner_foreign volume_id path other vol volumes h k all in
    rw a (
      rw (eq_false (volume_stats_path_owner path volumes) "" given)
        (rw (eq_false (volume_stats_path_owner path volumes) volume_id apart) refl))
