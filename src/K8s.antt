-- ===== src/K8s.antt =====
-- How a volume's PersistentVolume is found: pkg/k8s/client.go. The API server's answers to Get and
-- List and the test of a DNS-1123 name are parameters.
use seaweedfs_csi_driver.Base.{
  String, Bool, true, false, not, ◌&&◌, ◌||◌, Option, none, some, List, [], ◌∷◌, Assoc, ◌≡◌, ◌⊎◌,
  inl, inr, refl, sym, ◌∙◌, subst, arith, eq_iff, Bool-cases, Option-cases, if◌then◌else◌, ◌==◌,
}
use seaweedfs_csi_driver.Base.Exec.{Result, ok, err}
use seaweedfs_csi_driver.GoPath.{base}
use seaweedfs_csi_driver.Strconv.{ℤ}

pub record CsiSource : Type 0 where
  pub driver : String
  pub volume_handle : String
  pub volume_attributes : Assoc String

-- `storage` is the capacity, if the volume has one, and none inside where it is no int64.
pub record PersistentVolume : Type 0 where
  pub name : String
  pub csi : Option CsiSource
  pub storage : Option (Option ℤ)

pub data LookupError : Type 0 where
  list_failed multiple_volumes volume_not_found no_csi_source no_capacity too_large : LookupError

pub record Cluster : Type 0 where
  pub is_dns1123_subdomain : String → Bool
  pub get : String → Option PersistentVolume
  pub list : Option (List PersistentVolume)

-- The second list has exactly the elements of the first that satisfy the predicate, in order.
pub data Picked (P : PersistentVolume → Type 0)
    : List PersistentVolume → List PersistentVolume → Type 0 where
  all_seen : Picked P [] []
  taken :
      (v : PersistentVolume) (volumes found : List PersistentVolume)
      → P v
      → Picked P volumes found
      → Picked P (v ∷ volumes) (v ∷ found)
  passed :
      (v : PersistentVolume) (volumes found : List PersistentVolume)
      → (P v → ⊥)
      → Picked P volumes found
      → Picked P (v ∷ volumes) found

-- The element of a list of one.
abbrev pub the_only : List PersistentVolume → Result LookupError PersistentVolume
the_only [] = err volume_not_found
the_only (v ∷ []) = ok v
the_only (v ∷ w ∷ volumes) = err multiple_volumes

module _ (driver_name volume_id : String) where
  unfoldable pub is_got_source : String → Option CsiSource → Bool
  is_got_source name none = false
  is_got_source name (some c) =
      c.driver == driver_name && (c.volume_handle == volume_id || name == volume_id)

  unfoldable pub is_got : Option PersistentVolume → Option PersistentVolume
  unfolding is_got_source
  is_got none = none
  is_got (some v) = if is_got_source v.name v.csi then some v else none

  unfoldable pub has_handle : Option CsiSource → Bool
  has_handle none = false
  has_handle (some c) = c.driver == driver_name && c.volume_handle == volume_id

  -- The loop over the list, with what matched so far.
  unfoldable pub match_handle :
      List PersistentVolume → Option PersistentVolume → Result LookupError (Option PersistentVolume)
  unfolding has_handle
  match_handle [] matched = ok matched
  match_handle (v ∷ volumes) matched =
      let rest = match_handle volumes matched in
      let rest_with = match_handle volumes (some v) in
      if not (has_handle v.csi)
      then rest
      else elim matched [ none ↦ rest_with | some m ↦ err multiple_volumes ]

  unfoldable pub only_match :
      Result LookupError (Option PersistentVolume) → Result LookupError PersistentVolume
  only_match (err e) = err e
  only_match (ok none) = err volume_not_found
  only_match (ok (some v)) = ok v

  unfoldable pub match_listed : Option (List PersistentVolume) → Result LookupError PersistentVolume
  unfolding match_handle only_match
  match_listed none = err list_failed
  match_listed (some volumes) = only_match (match_handle volumes none)

  unfoldable pub fast_path : Cluster → Option PersistentVolume
  unfolding is_got
  fast_path c =
      if c.is_dns1123_subdomain (base volume_id) then is_got (c.get (base volume_id)) else none

  unfoldable pub resolve_persistent_volume : Cluster → Result LookupError PersistentVolume
  unfolding fast_path match_listed
  resolve_persistent_volume c = elim (fast_path c) [ some v ↦ ok v | none ↦ match_listed c.list ]

  -- The volume is the driver's, and its handle or, on the fast path, its name is the id.
  abbrev pub IsFor : PersistentVolume → Type 0
  IsFor v =
      (c : CsiSource) × (v.csi ≡ some c)
      × (c.driver ≡ driver_name)
      × ((c.volume_handle ≡ volume_id) ⊎ (v.name ≡ volume_id))

  -- The volume is one of the driver's, and its handle is the id.
  abbrev pub HasHandle : PersistentVolume → Type 0
  HasHandle v =
      (c : CsiSource) × (v.csi ≡ some c) × (c.driver ≡ driver_name) × (c.volume_handle ≡ volume_id)

  -- The volumes that the loop takes.
  abbrev with_handle : List PersistentVolume → List PersistentVolume
  with_handle [] = []
  with_handle (v ∷ volumes) =
      if has_handle v.csi then v ∷ with_handle volumes else with_handle volumes

  -- With one match already, one more is an error.
  one_more : PersistentVolume → List PersistentVolume → Result LookupError PersistentVolume
  one_more m [] = ok m
  one_more m (v ∷ volumes) = err multiple_volumes

  match_after :
      (m : PersistentVolume) (volumes : List PersistentVolume)
      → only_match (match_handle volumes (some m)) ≡ one_more m (with_handle volumes)
  unfolding match_handle only_match one_more
  match_after m [] = refl
  match_after m (v ∷ volumes) = elim (Bool-cases (has_handle v.csi)) [
    | inl e ↦ rw e refl
    | inr e ↦ rw e (match_after m volumes)
  ]

  the_only-one_more :
      (v : PersistentVolume) (volumes : List PersistentVolume)
      → one_more v volumes ≡ the_only (v ∷ volumes)
  unfolding one_more
  the_only-one_more v [] = refl
  the_only-one_more v (w ∷ volumes) = refl

  match_listed_only :
      (volumes : List PersistentVolume)
      → only_match (match_handle volumes none) ≡ the_only (with_handle volumes)
  unfolding match_handle only_match
  match_listed_only [] = refl
  match_listed_only (v ∷ volumes) = elim (Bool-cases (has_handle v.csi)) [
    | inl e ↦ rw e (match_after v volumes ∙ the_only-one_more v (with_handle volumes))
    | inr e ↦ rw e (match_listed_only volumes)
  ]

  the_only-IsFor :
      (volumes : List PersistentVolume) (v : PersistentVolume)
      → the_only (with_handle volumes) ≡ ok v
      → has_handle v.csi ≡ true
  the_only-IsFor [] v h = absurd (ground (arith, h))
  the_only-IsFor (w ∷ volumes) v h = elim (Bool-cases (has_handle w.csi)) [
    | inl e ↦ go (with_handle volumes) e (rw e at h)
    | inr e ↦ the_only-IsFor volumes v (rw e at h)
  ]
    where
      go :
          (rest : List PersistentVolume)
          → has_handle w.csi ≡ true
          → the_only (w ∷ rest) ≡ ok v
          → has_handle v.csi ≡ true
      go [] e h = ground (arith, h, e)
      go (x ∷ rest) e h = absurd (ground (arith, h))

  handle-IsFor :
      (v : PersistentVolume) (o : Option CsiSource) → v.csi ≡ o → has_handle o ≡ true → IsFor v
  unfolding has_handle
  handle-IsFor v none e h = absurd (ground (arith, h))
  handle-IsFor v (some c) e h = (
    c,
    e,
    ground (arith, eq_iff c.driver driver_name, h),
    inl (ground (arith, eq_iff c.volume_handle volume_id, h)),
  )

  got-IsFor :
      (v : PersistentVolume) (o : Option CsiSource)
      → v.csi ≡ o
      → is_got_source v.name o ≡ true
      → IsFor v
  unfolding is_got_source
  got-IsFor v none e h = absurd (ground (arith, h))
  got-IsFor v (some c) e h = (
    c,
    e,
    ground (arith, eq_iff c.driver driver_name, h),
    ground (arith, eq_iff c.volume_handle volume_id, eq_iff v.name volume_id, h),
  )

  is_got-IsFor : (o : Option PersistentVolume) (v : PersistentVolume) → is_got o ≡ some v → IsFor v
  unfolding is_got
  is_got-IsFor none v h = absurd (ground (arith, h))
  is_got-IsFor (some w) v h = elim (Bool-cases (is_got_source w.name w.csi)) [
    | inl e ↦ let same : w ≡ v = ground (arith, h, e) in subst IsFor same (got-IsFor w w.csi refl e)
    | inr e ↦ absurd (ground (arith, h, e))
  ]

  fast_path-IsFor : (c : Cluster) (v : PersistentVolume) → fast_path c ≡ some v → IsFor v
  unfolding fast_path
  fast_path-IsFor c v h = elim (Bool-cases (c.is_dns1123_subdomain (base volume_id))) [
    | inl e ↦ is_got-IsFor (c.get (base volume_id)) v (rw e at h)
    | inr e ↦ absurd (ground (arith, h, e))
  ]

  listed-IsFor :
      (o : Option (List PersistentVolume)) (v : PersistentVolume) → match_listed o ≡ ok v → IsFor v
  unfolding match_listed
  listed-IsFor none v h = absurd (ground (arith, h))
  listed-IsFor (some volumes) v h =
      handle-IsFor v v.csi refl (the_only-IsFor volumes v (sym (match_listed_only volumes) ∙ h))

  -- The volume that the lookup finds is one of the driver's, and has the id as its handle or, if it
  -- was got by its name, as its name.
  pub resolve_persistent_volume-IsFor :
      (c : Cluster) (v : PersistentVolume) → resolve_persistent_volume c ≡ ok v → IsFor v
  unfolding resolve_persistent_volume
  resolve_persistent_volume-IsFor c v h = elim (Option-cases (fast_path c)) [
    | inl e ↦ listed-IsFor c.list v (rw (e, resolve_persistent_volume) at h)
    | inr (w, e) ↦ fast_path-IsFor c v (e ∙ ground (arith, h, e))
  ]

  handle-HasHandle :
      (v : PersistentVolume) (o : Option CsiSource) → v.csi ≡ o → has_handle o ≡ true → HasHandle v
  unfolding has_handle
  handle-HasHandle v none e h = absurd (ground (arith, h))
  handle-HasHandle v (some c) e h = (
    c,
    e,
    ground (arith, eq_iff c.driver driver_name, h),
    ground (arith, eq_iff c.volume_handle volume_id, h),
  )

  HasHandle-handle : (v : PersistentVolume) → HasHandle v → has_handle v.csi ≡ true
  unfolding has_handle
  HasHandle-handle v (c, e, d, h) =
      rw e (ground (arith, eq_iff c.driver driver_name, eq_iff c.volume_handle volume_id, d, h))

  with_handle-Picked :
      (volumes : List PersistentVolume) → Picked HasHandle volumes (with_handle volumes)
  with_handle-Picked [] = all_seen
  with_handle-Picked (v ∷ volumes) = elim (Bool-cases (has_handle v.csi)) [
    | inl e ↦
        rw e (taken v volumes _ (handle-HasHandle v v.csi refl e) (with_handle-Picked volumes))
    | inr e ↦ rw e (
        passed v volumes _ (λ h. let hit = HasHandle-handle v h in absurd (ground (arith, e, hit)))
          (with_handle-Picked volumes))
  ]

  -- When the volume is not found by the id's last element, the lookup is by the list: it goes by the
  -- volumes of the list whose CSI source has the driver and the id as its handle, returns the volume
  -- if there is one of them, and is an error if there is none, or if there are two.
  pub resolve_persistent_volume_only :
      (c : Cluster) (volumes : List PersistentVolume)
      → fast_path c ≡ none
      → c.list ≡ some volumes
      → (found : List PersistentVolume) × Picked HasHandle volumes found
        × (resolve_persistent_volume c ≡ the_only found)
  unfolding resolve_persistent_volume match_listed
  resolve_persistent_volume_only c volumes e l =
      let looked : resolve_persistent_volume c ≡ the_only (with_handle volumes) =
        rw (e, resolve_persistent_volume) (rw (l, match_listed) (match_listed_only volumes)) in
      (with_handle volumes, with_handle-Picked volumes, looked)
