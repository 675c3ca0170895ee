-- ===== src/Tests/Requests.antt =====
-- The theorems on single requests and on mount arguments at concrete inputs.
use seaweedfs_csi_driver.Base.{ℕ, String, true, false, some, [], lookup, ◌≡◌, ◌≢◌, refl, arith}
use seaweedfs_csi_driver.Base.Exec.{ok, ◌>>=◌}
use seaweedfs_csi_driver.Strconv.Print.{format_nat}
use seaweedfs_csi_driver.Locality
use seaweedfs_csi_driver.Driver.{decode_volume_id}
use seaweedfs_csi_driver.Params.{text_at}
use seaweedfs_csi_driver.Host.{
  ask, act, note, read_attributes, get_volume, store_volume, delete_volume,
}
use seaweedfs_csi_driver.GoPath
use seaweedfs_csi_driver.MountArgs.{initial_collection_quota_mb, final_args, mount_filers}
use seaweedfs_csi_driver.MountArgs.Quota.{IsCeiling, initial_collection_quota_mb-IsCeiling}
use seaweedfs_csi_driver.MountArgs.Final.{final_args_filer}
use seaweedfs_csi_driver.Staging.{cleanup_stale_staging_path, is_staging_path_healthy, check_mount}
use seaweedfs_csi_driver.Volume.{
  stage_new_volume, load_persisted_volume_attributes, unpublish, unstage, unmounter_unmount,
  publish, cleanup_volume_resources,
}
use seaweedfs_csi_driver.Node.{
  status, internal, node_stage_volume, node_publish_volume, node_unpublish_volume,
  node_unstage_volume,
}
use seaweedfs_csi_driver.Node.Failures.{
  IsUnchanged, node_stage_volume_unchanged, node_unstage_volume_unchanged,
}
use seaweedfs_csi_driver.Node.Success.{
  IsPublished, node_publish_volume-IsPublished, IsUnpublished, node_unpublish_volume-IsUnpublished,
  IsForgotten, node_unstage_volume-IsForgotten,
}
use seaweedfs_csi_driver.Node.Idempotence.{node_stage_volume_idempotent}
use seaweedfs_csi_driver.Controller.{ControllerServer, controller_modify_volume, write}
use seaweedfs_csi_driver.Controller.Modify.{controller_modify_volume_stages}
use seaweedfs_csi_driver.Params.{
  validate_mutable_parameters, check_context, effective_parameters,
  merge_persisted_volume_attributes, clone_volume_context, validate_constrained_parameter_values,
  is_mutable, validate_value, validate_writeback_dlm_combo, unknown_keys, invalid_values,
}
use seaweedfs_csi_driver.Strconv.{parse_int, parse_bool}
use seaweedfs_csi_driver.Base.{
  insert, overlay, restrict, Bool, true, false, some, [], ◌∷◌, lookup, none,
}
use seaweedfs_csi_driver.Base.{List, String}
use seaweedfs_csi_driver.Samples.{
  parameters, publish_a, sample_driver, server, stage_a, known_server, broken_server, context,
  filer_urls,
}

-- On the host where nothing is mounted, the persisted entry of the volume is corrupt.
node_stage_volume_unchanged_example :
    IsUnchanged (server false []) (node_stage_volume stage_a (server false [])).1
unfolding node_stage_volume ◌>>=◌ get_volume lookup is_staging_path_healthy ask stage_new_volume
    load_persisted_volume_attributes read_attributes cleanup_stale_staging_path act note
node_stage_volume_unchanged_example =
    node_stage_volume_unchanged stage_a (server false [])
      (node_stage_volume stage_a (server false [])).1 (status internal) refl

node_unstage_volume_unchanged_example :
    IsUnchanged broken_server (node_unstage_volume "/buckets/a" "/staging/a" broken_server).1
unfolding node_unstage_volume ◌>>=◌ get_volume lookup unstage unmounter_unmount act
node_unstage_volume_unchanged_example =
    node_unstage_volume_unchanged "/buckets/a" "/staging/a" broken_server
      (node_unstage_volume "/buckets/a" "/staging/a" broken_server).1 (status internal) refl

node_publish_volume-IsPublished_example :
    IsPublished "/buckets/a" "/publish/a" false (node_publish_volume publish_a known_server).1
unfolding node_publish_volume ◌>>=◌ get_volume lookup publish check_mount ask store_volume
node_publish_volume-IsPublished_example =
    node_publish_volume-IsPublished publish_a known_server
      (node_publish_volume publish_a known_server).1 refl

node_unpublish_volume-IsUnpublished_example :
    IsUnpublished "/buckets/a" "/publish/a"
      (node_unpublish_volume "/buckets/a" "/publish/a" known_server).1
unfolding node_unpublish_volume ◌>>=◌ get_volume lookup unpublish act note store_volume
node_unpublish_volume-IsUnpublished_example =
    node_unpublish_volume-IsUnpublished "/buckets/a" "/publish/a" known_server
      (node_unpublish_volume "/buckets/a" "/publish/a" known_server).1 refl

node_unstage_volume-IsForgotten_example :
    IsForgotten "/buckets/a" (node_unstage_volume "/buckets/a" "/staging/a" known_server).1
unfolding node_unstage_volume ◌>>=◌ get_volume lookup unstage unmounter_unmount act note
    cleanup_volume_resources delete_volume
node_unstage_volume-IsForgotten_example =
    node_unstage_volume-IsForgotten "/buckets/a" "/staging/a" known_server
      (node_unstage_volume "/buckets/a" "/staging/a" known_server).1 refl

node_stage_volume_idempotent_example :
    node_stage_volume stage_a (node_stage_volume stage_a (server true [])).1
    ≡ (ok tt, (node_stage_volume stage_a (server true [])).1)
unfolding node_stage_volume ◌>>=◌ get_volume lookup is_staging_path_healthy ask store_volume
node_stage_volume_idempotent_example =
    node_stage_volume_idempotent stage_a (server true [])
      (node_stage_volume stage_a (server true [])).1 refl

initial_collection_quota_mb-IsCeiling_example :
    (q : ℕ) × (initial_collection_quota_mb (format_nat 1073741825) ≡ format_nat q)
    × IsCeiling 1073741825 q
initial_collection_quota_mb-IsCeiling_example =
    initial_collection_quota_mb-IsCeiling 1073741825 (ground arith) (ground arith)

final_args_filer_example :
    let filer = lookup "filer" (
      final_args sample_driver filer_urls "/buckets/a"
        (mount_filers sample_driver filer_urls "/buckets/a" context)
        context
        Locality.none) in
    let encoded = (decode_volume_id filer_urls "/buckets/a").0 in
    ((f : String) → lookup "filer" context ≡ some f → f ≢ "" → filer ≡ some f)
    × (text_at "filer" context ≡ "" → encoded ≢ "" → filer ≡ some encoded)
    × (text_at "filer" context ≡ ""
        → encoded ≡ ""
        → filer ≡ some (GoPath.join "," sample_driver.filers))
unfolding lookup
final_args_filer_example =
    final_args_filer sample_driver filer_urls "/buckets/a" context Locality.none
      (refl, (refl, (refl, tt)))

-- A controller whose orchestrator knows the volume, with a filer that takes every write.
abbrev controller : Bool → ControllerServer
controller works = record {
  attributes = λ v. some (("path", "/buckets/a") ∷ []);
  has_store = λ v. works;
  takes = λ v params. works;
  persisted = [];
}

controller_modify_volume_stages_example :
    (lookup "/buckets/a"
        (controller_modify_volume "/buckets/a" parameters (controller true)).1.persisted
      ≡ some parameters)
    × (check_context (
          merge_persisted_volume_attributes
            (clone_volume_context (("path", "/buckets/a") ∷ []))
            parameters)
        ≡ none)
unfolding controller_modify_volume ◌>>=◌ validate_mutable_parameters check_context
    effective_parameters validate_constrained_parameter_values overlay insert restrict is_mutable
    validate_value parse_int parse_bool validate_writeback_dlm_combo write unknown_keys
    invalid_values
controller_modify_volume_stages_example =
    controller_modify_volume_stages "/buckets/a" parameters (("path", "/buckets/a") ∷ [])
      (controller true) (controller_modify_volume "/buckets/a" parameters (controller true)).1 refl
      refl

abbrev extra_args : List String
extra_args = "-debug" ∷ "-volumeServerAccess=filerProxy" ∷ []
