-- ===== src/MountInfo/Publish.antt =====
-- Which publish paths the driver finds for a device.
use seaweedfs_csi_driver.Base.{
  String, Bool, true, Option, none, some, List, [], ◌∷◌, Assoc, lookup, lookup-insert, eq_iff,
  is_some, ◌≡◌, ◌⊎◌, ◌↔◌, inl, inr, refl, arith,
}
use seaweedfs_csi_driver.MountInfo.{
  MountInfoEntry, is_publish_bind, take_bind, collect_binds, filter_publish_paths,
}

module _ (device staging_path : String) where
  -- An entry of the list that is a publish bind of the device at the path.
  abbrev pub HasBind : String → Bool → List MountInfoEntry → Type 0
  HasBind path read_only [] = ⊥
  HasBind path read_only (e ∷ entries) =
      ((is_publish_bind device staging_path e ≡ true)
        × (e.mountpoint ≡ path)
        × (e.read_only ≡ read_only))
      ⊎ HasBind path read_only entries

  collect_sound :
      (path : String) (ro : Bool) (paths : Assoc Bool) (entries : List MountInfoEntry)
      → lookup path (collect_binds device staging_path paths entries) ≡ some ro
      → (lookup path paths ≡ some ro) ⊎ HasBind path ro entries
  unfolding collect_binds take_bind
  collect_sound path ro paths [] h = inl h
  collect_sound path ro paths (e ∷ entries) h = ground (
    arith,
    collect_sound path ro (take_bind device staging_path paths e) entries h,
    lookup-insert e.mountpoint path e.read_only paths,
    eq_iff e.mountpoint path,
  )

  collect_keeps :
      (path : String) (paths : Assoc Bool) (entries : List MountInfoEntry)
      → is_some (lookup path paths) ≡ true
      → is_some (lookup path (collect_binds device staging_path paths entries)) ≡ true
  unfolding collect_binds take_bind
  collect_keeps path paths [] h = h
  collect_keeps path paths (e ∷ entries) h =
      collect_keeps path (take_bind device staging_path paths e) entries
        (ground (arith, lookup-insert e.mountpoint path e.read_only paths))

  collect_complete :
      (path : String) (ro : Bool) (paths : Assoc Bool) (entries : List MountInfoEntry)
      → HasBind path ro entries
      → is_some (lookup path (collect_binds device staging_path paths entries)) ≡ true
  unfolding collect_binds take_bind
  collect_complete path ro paths [] h = absurd h
  collect_complete path ro paths (e ∷ entries) (inl h) =
      collect_keeps path (take_bind device staging_path paths e) entries (
        ground
          (arith, h, eq_iff e.mountpoint path, lookup-insert e.mountpoint path e.read_only paths))
  collect_complete path ro paths (e ∷ entries) (inr h) =
      collect_complete path ro (take_bind device staging_path paths e) entries h

  found :
      (path : String) (o : Option Bool) (entries : List MountInfoEntry)
      → lookup path (filter_publish_paths entries device staging_path) ≡ o
      → is_some o ≡ true
      → (ro : Bool) × HasBind path ro entries
  unfolding filter_publish_paths lookup
  found path none entries e h = absurd (ground (arith, h))
  found path (some ro) entries e h =
      (ro, elim (collect_sound path ro [] entries e) [ inl e ↦ absurd (ground arith) | inr b ↦ b ])

  -- The publish paths found for a device are those of its publish binds: a path is found exactly when
  -- it is the mountpoint of a FUSE entry of the device that is a kubelet CSI publish target and not
  -- the staging path.
  pub filter_publish_paths_iff :
      (entries : List MountInfoEntry) (path : String)
      → (is_some (lookup path (filter_publish_paths entries device staging_path)) ≡ true)
        ↔ ((ro : Bool) × HasBind path ro entries)
  unfolding filter_publish_paths
  filter_publish_paths_iff entries path =
      (found path _ entries refl, λ (ro, h). collect_complete path ro [] entries h)
