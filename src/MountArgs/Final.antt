-- ===== src/MountArgs/Final.antt =====
-- The arguments that a mount ends up with.
use seaweedfs_csi_driver.Base.{
  String, none, some, List, [], ◌∷◌, Assoc, lookup, lookup-insert, false, ◌==◌, ◌≡◌, ◌≢◌, refl, ◌∙◌,
  ap, subst, arith, eq_iff, eq_false, Bool-cases, inl, inr,
}
use seaweedfs_csi_driver.GoPath
use seaweedfs_csi_driver.Locality.{DataLocality}
use seaweedfs_csi_driver.Locality
use seaweedfs_csi_driver.Driver.{Driver, Urls, decode_volume_id}
use seaweedfs_csi_driver.Params.{text_at, one_of}
use seaweedfs_csi_driver.Params.Laws.{Distinct}
use seaweedfs_csi_driver.MountArgs.{
  initial_collection_quota_mb, default_args, set_data_center, final_args, mount_filers,
}
use seaweedfs_csi_driver.MountArgs.Context.{
  last_set, lookup-apply_context, lookup-apply_context_ignored,
}

last_set-missing : (k old : String) (m : Assoc String) → lookup k m ≡ none → last_set k old m ≡ old
unfolding lookup
last_set-missing k old [] h = refl
last_set-missing k old ((j, v) ∷ m) h = elim (Bool-cases (j == k)) [
  | inl e ↦ absurd (ground (arith, h, e))
  | inr e ↦ rw e (last_set-missing k old m (ground (arith, h, e)))
]

last_set-given :
    (k old : String) (m : Assoc String) (f : String)
    → Distinct m
    → lookup k m ≡ some f
    → f ≢ ""
    → last_set k old m ≡ f
unfolding lookup
last_set-given k old [] f d h given = absurd (ground (arith, h))
last_set-given k old ((j, v) ∷ m) f d h given = elim (Bool-cases (j == k)) [
  | inl e ↦
      let same : v ≡ f = ground (arith, h, e) in
      let named : j ≡ k = ground (arith, e, eq_iff j k) in
      let gone : lookup k m ≡ none = subst (λ x. lookup x m ≡ none) named d.0 in
      rw e (rw same (rw (eq_false f "" given) (last_set-missing k f m gone)))
  | inr e ↦ rw e (last_set-given k old m f d.1 (ground (arith, h, e)) given)
]

last_set-unset :
    (k old : String) (m : Assoc String) → Distinct m → text_at k m ≡ "" → last_set k old m ≡ old
unfolding text_at lookup
last_set-unset k old [] d h = refl
last_set-unset k old ((j, v) ∷ m) d h = elim (Bool-cases (j == k)) [
  | inl e ↦
      let empty : v ≡ "" = ground (arith, h, e) in
      let named : j ≡ k = ground (arith, e, eq_iff j k) in
      let gone : lookup k m ≡ none = subst (λ x. lookup x m ≡ none) named d.0 in
      rw e (rw empty (last_set-missing k old m gone))
  | inr e ↦ rw e (last_set-unset k old m d.1 (ground (arith, h, e)))
]

module _ (d : Driver) (urls : Urls) (v : String) (context : Assoc String) where
  set_data_center_other :
      (locality : DataLocality) (center k : String) (args : Assoc String)
      → ("dataCenter" == k) ≡ false
      → lookup k (set_data_center locality center args) ≡ lookup k args
  unfolding set_data_center
  set_data_center_other Locality.none center k args h = refl
  set_data_center_other Locality.write_prefer_local_dc center k args h =
      lookup-insert "dataCenter" k center args ∙ rw h refl

  -- Whatever the volume context holds, the collection's quota is the one that follows from its
  -- capacity entry: a context cannot set the argument itself.
  pub final_args_quota :
      (filers : List String) (locality : DataLocality)
      → lookup "collectionQuotaMB" (final_args d urls v filers context locality)
        ≡ some (initial_collection_quota_mb (text_at "volumeCapacity" context))
  unfolding final_args default_args one_of lookup
  final_args_quota filers locality =
      lookup-apply_context_ignored _ context "collectionQuotaMB" refl refl
      ∙ set_data_center_other locality _ "collectionQuotaMB" _ refl

  final_args-filer_last :
      (locality : DataLocality)
      → lookup "filer" (final_args d urls v (mount_filers d urls v context) context locality)
        ≡ some (last_set "filer" (GoPath.join "," (mount_filers d urls v context)) context)
  unfolding final_args default_args one_of lookup
  final_args-filer_last locality =
      lookup-apply_context _ context "filer" _ refl refl
        (set_data_center_other locality _ "filer" _ refl)

  -- The filer that the volume id encodes, "" where it encodes none.
  abbrev encoded : String
  encoded = (decode_volume_id urls v).0

  join_one : (s : String) → GoPath.join "," (s ∷ []) ≡ s
  unfolding GoPath.join
  join_one s = refl

  chosen_encoded : encoded ≢ "" → GoPath.join "," (mount_filers d urls v context) ≡ encoded
  unfolding mount_filers
  chosen_encoded h = rw (eq_false encoded "" h) (join_one encoded)

  chosen_default :
      encoded ≡ "" → text_at "filer" context ≡ "" → mount_filers d urls v context ≡ d.filers
  unfolding mount_filers
  chosen_default e h = rw (e, h) refl

  -- The filer of a mount. A nonempty filer entry of the volume context is the filer, even where the
  -- volume id encodes another one, against the comment in Mount; without such an entry it is the
  -- filer that the id encodes, and where the id encodes none, the driver's filers, joined by commas.
  -- The entries of the context have different keys.
  pub final_args_filer :
      (locality : DataLocality)
      → Distinct context
      → let filer =
          lookup "filer" (final_args d urls v (mount_filers d urls v context) context locality) in
        ((f : String) → lookup "filer" context ≡ some f → f ≢ "" → filer ≡ some f)
        × (text_at "filer" context ≡ "" → encoded ≢ "" → filer ≡ some encoded)
        × (text_at "filer" context ≡ "" → encoded ≡ "" → filer ≡ some (GoPath.join "," d.filers))
  final_args_filer locality distinct = (
    λ f h given.
        final_args-filer_last locality
        ∙ ap some (last_set-given "filer" _ context f distinct h given),
    λ h given.
        final_args-filer_last locality
        ∙ ap some (last_set-unset "filer" _ context distinct h ∙ chosen_encoded given),
    λ h e.
        final_args-filer_last locality
        ∙ ap some (
            last_set-unset "filer" _ context distinct h
            ∙ ap (GoPath.join ",") (chosen_default e h)),
  )
