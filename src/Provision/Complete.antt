-- ===== src/Provision/Complete.antt =====
-- A volume's deletion, on filers that take every removal.
use seaweedfs_csi_driver.Base.{
  ℕ, ◌<◌, String, Bool, true, false, none, some, List, length, ◌≡◌, ◌≢◌, refl, eq_false,
  if◌then◌else◌, ◌==◌,
}
use seaweedfs_csi_driver.Base.Exec.{ok, pure, gets, ◌>>=◌}
use seaweedfs_csi_driver.GoPath.{dir, join_path}
use seaweedfs_csi_driver.Driver.{create_delete_volume, validate_controller_service_request}
use seaweedfs_csi_driver.Provision.{
  Client, remove, delete_attributes, Provisioner, perform, returned, refuse_if, resolve_volume,
  parent_and_name, logged,
}
use seaweedfs_csi_driver.Provision.Delete.{
  bucket_dir_of, filer_bucket_dir, empty_bucket_children, forget_attributes, delete_emptied,
  delete_resolved, delete_volume,
}
use seaweedfs_csi_driver.Provision.Pages.{removed, emptied, IsDirectory, empty_directory_all}

-- The bucket directory, by what the filer has configured.
abbrev pub bucket_dir : String → String
bucket_dir found = if found == "" then "/buckets" else found

abbrev pub bucket_path : String → String
bucket_path path = join_path (parent_and_name path).0 (parent_and_name path).1

-- The calls of a whole deletion, latest first, but for the attributes' removal.
abbrev pub gone : Client → String → List String → Provisioner → Provisioner
gone client path children s =
    logged (remove client (parent_and_name path).0 (parent_and_name path).1 true)
      (emptied client (bucket_path path) children s)

-- With the attributes' removal, where it is asked for.
abbrev pub with_forgotten : String → Bool → Provisioner → Provisioner
with_forgotten volume_id b s = if b then logged (delete_attributes volume_id) s else s

forgotten :
    (volume_id : String) (b : Bool) (s : Provisioner)
    → (forget_attributes volume_id b >>= λ u. pure true) s ≡ (ok true, with_forgotten volume_id b s)
unfolding forget_attributes perform pure ◌>>=◌
forgotten volume_id true s = refl
forgotten volume_id false s = refl

delete_emptied_all :
    (volume_id : String) (client : Client) (path : String) (s : Provisioner)
    → s.filers.outcome s.log (remove client (parent_and_name path).0 (parent_and_name path).1 true)
      ≡ none
    → delete_emptied volume_id client (parent_and_name path) true s ≡ (
      ok true,
      with_forgotten volume_id
          (s.has_store volume_id)
          (logged (remove client (parent_and_name path).0 (parent_and_name path).1 true) s),
    )
unfolding delete_emptied perform returned ◌>>=◌ gets pure
delete_emptied_all volume_id client path s h = rw h (
    forgotten volume_id (s.has_store volume_id)
      (logged (remove client (parent_and_name path).0 (parent_and_name path).1 true) s))

emptied_all :
    (fuel : ℕ) (client : Client) (path found : String) (rest : String → List String)
    (s : Provisioner)
    → s.filers.dir_buckets s.log client ≡ ok found
    → (dir path == bucket_dir found) ≡ true
    → IsDirectory client path s.filers rest
    → length (rest "") < fuel
    → empty_bucket_children fuel client path s ≡ (ok true, emptied client path (rest "") s)
unfolding empty_bucket_children filer_bucket_dir bucket_dir_of ◌>>=◌ gets pure
emptied_all fuel client path found rest s f b d lt =
    rw f (rw b (empty_directory_all client path rest fuel "" s d lt))

-- DeleteVolume of a bucket on filers that list its directory, as much of it at a time as they like,
-- and take each removal: with more rounds than the bucket has children it succeeds, having removed each child once, in the
-- filer's order, then the bucket, then, where a store can be built, the persisted attributes.
pub delete_volume_complete :
    (fuel : ℕ) (volume_id : String) (client : Client) (path found : String)
    (rest : String → List String) (s : Provisioner)
    → volume_id ≢ ""
    → validate_controller_service_request s.driver create_delete_volume ≡ true
    → resolve_volume s.urls volume_id ≡ some (client, path)
    → s.filers.dir_buckets s.log client ≡ ok found
    → (dir (bucket_path path) == bucket_dir found) ≡ true
    → IsDirectory client (bucket_path path) s.filers rest
    → s.filers.outcome
        (removed client (bucket_path path) (rest "") s.log)
        (remove client (parent_and_name path).0 (parent_and_name path).1 true)
      ≡ none
    → length (rest "") < fuel
    → delete_volume fuel volume_id s
      ≡ (ok true, with_forgotten volume_id (s.has_store volume_id) (gone client path (rest "") s))
unfolding delete_volume delete_resolved refuse_if ◌>>=◌ gets pure
delete_volume_complete fuel volume_id client path found rest s named supported r f b d o lt =
    rw (eq_false volume_id "" named) (
      rw supported (
        rw r (
          rw (emptied_all fuel client (bucket_path path) found rest s f b d lt) (
            delete_emptied_all volume_id client path (emptied client (bucket_path path) (rest "") s)
              o))))
