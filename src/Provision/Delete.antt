-- ===== src/Provision/Delete.antt =====
-- DeleteVolume with emptyBucketChildren, and ValidateVolumeCapabilities, of
-- pkg/driver/controllerserver.go.
use seaweedfs_csi_driver.Base.{
  ℕ, zero, suc, String, Bool, true, false, not, ◌&&◌, ◌||◌, Option, none, some, List, [], ◌∷◌, eqb,
  if◌then◌else◌, ◌==◌,
}
use seaweedfs_csi_driver.Base.Exec.{Result, ok, err, pure, raise, gets, ◌>>=◌, ◌>>◌}
use seaweedfs_csi_driver.GoPath.{dir, join_path}
use seaweedfs_csi_driver.Driver.{
  AccessMode, mode_number, single_node_writer, create_delete_volume, Driver,
  validate_controller_service_request, is_valid_volume_capabilities,
}
use seaweedfs_csi_driver.Host.{plain_fault}
use seaweedfs_csi_driver.Node.{status, plain, invalid_argument, not_found}
use seaweedfs_csi_driver.Provision.{
  Client, remove, delete_attributes, FilerFault, Provision, perform, returned, refuse_if,
  resolve_volume, parent_and_name, is_missing,
}

-- filerBucketDir.
unfoldable pub bucket_dir_of : Result FilerFault String → Provision String
bucket_dir_of (err e) = raise (plain plain_fault)
bucket_dir_of (ok found) = pure (if found == "" then "/buckets" else found)

unfoldable pub filer_bucket_dir : Client → Provision String
unfolding bucket_dir_of
filer_bucket_dir client = gets (λ s. s.filers.dir_buckets s.log client) >>= bucket_dir_of

pub record Page : Type 0 where
  pub children : List String
  pub last : String
  pub saw_last : Bool

-- listFilerChildrenPage: an entry without a name is left out, and may still be the last.
unfoldable pub page_of : String → List (String × Bool) → Page
page_of last [] = record { children = []; last = last; saw_last = false }
page_of last ((name, is_last) ∷ entries) =
    let rest = page_of (if name == "" then last else name) entries in
    record {
      children = if name == "" then rest.children else name ∷ rest.children;
      last = rest.last;
      saw_last = is_last || rest.saw_last;
    }

unfoldable pub has_any : List String → Bool
has_any [] = false
has_any (child ∷ children) = true

unfoldable pub has_more : Page → Bool
unfolding has_any
has_more page = has_any page.children && not page.saw_last

unfoldable pub remove_children : Client → String → List String → Provision (Unit {0})
remove_children client bucket_path [] = pure tt
remove_children client bucket_path (child ∷ children) = do
  removed ← perform (remove client bucket_path child false)
  returned removed
  remove_children client bucket_path children

-- One round of the loop: `next` is the round after it. The answer is whether the loop ended.
unfoldable pub empty_page :
    Client
    → String
    → (String → Provision Bool)
    → Result FilerFault (List (String × Bool))
    → Provision Bool
unfolding remove_children
empty_page client bucket_path next (err e) =
    if e.is_not_found then pure true else raise (plain plain_fault)
empty_page client bucket_path next (ok entries) = do
  let page = page_of "" entries
  remove_children client bucket_path page.children
  if not (has_more page) || page.last == "" then pure true else next page.last

unfoldable pub empty_pages : Client → String → ℕ → String → Provision Bool
unfolding empty_page
empty_pages client bucket_path zero after = pure false
empty_pages client bucket_path (suc fuel) after =
    gets (λ s. s.filers.seaweed_list s.log client bucket_path after 1000)
    >>= empty_page client bucket_path (λ last. empty_pages client bucket_path fuel last)

unfoldable pub empty_bucket_children : ℕ → Client → String → Provision Bool
unfolding filer_bucket_dir empty_pages
empty_bucket_children fuel client bucket_path = do
  bucket_dir ← filer_bucket_dir client
  if dir bucket_path == bucket_dir then empty_pages client bucket_path fuel "" else pure true

-- The persisted attributes go as well, and a failure of that is only logged.
unfoldable pub forget_attributes : String → Bool → Provision (Unit {0})
forget_attributes volume_id false = pure tt
forget_attributes volume_id true = perform (delete_attributes volume_id) >> pure tt

unfoldable pub delete_emptied : String → Client → String × String → Bool → Provision Bool
unfolding perform returned forget_attributes
delete_emptied volume_id client place false = pure false
delete_emptied volume_id client place true = do
  removed ← perform (remove client place.0 place.1 true)
  returned removed
  has_store ← gets (λ s. s.has_store volume_id)
  forget_attributes volume_id has_store
  pure true

unfoldable pub delete_resolved : ℕ → String → Option (Client × String) → Provision Bool
unfolding empty_bucket_children delete_emptied
delete_resolved fuel volume_id none = raise (status invalid_argument)
delete_resolved fuel volume_id (some (client, path)) =
    let place = parent_and_name path in
    empty_bucket_children fuel client (join_path place.0 place.1)
    >>= delete_emptied volume_id client place

-- DeleteVolume, with at most `fuel` pages of children: whether they were enough.
unfoldable pub delete_volume : ℕ → String → Provision Bool
unfolding delete_resolved refuse_if
delete_volume fuel volume_id = do
  refuse_if (volume_id == "")
  supported ← gets (λ s. validate_controller_service_request s.driver create_delete_volume)
  refuse_if (not supported)
  urls ← gets (λ s. s.urls)
  delete_resolved fuel volume_id (resolve_volume urls volume_id)

-- ValidateVolumeCapabilities: what is confirmed, none where the answer is a message or nothing.
unfoldable all_single_node_writer : List AccessMode → Bool
all_single_node_writer [] = true
all_single_node_writer (m ∷ modes) =
    eqb (mode_number m) (mode_number single_node_writer) && all_single_node_writer modes

unfoldable pub confirm : Driver → List AccessMode → Provision (Option (List AccessMode))
unfolding all_single_node_writer
confirm d [] = raise (status invalid_argument)
confirm d (m ∷ modes) =
    if not (all_single_node_writer (m ∷ modes))
    then pure none
    else pure (if is_valid_volume_capabilities d.vcap (m ∷ modes) then some (m ∷ modes) else none)

unfoldable pub confirm_existing :
    Result FilerFault Bool → List AccessMode → Provision (Option (List AccessMode))
unfolding confirm
confirm_existing (err e) modes = raise (plain plain_fault)
confirm_existing (ok false) modes = raise (status not_found)
confirm_existing (ok true) modes = gets (λ s. s.driver) >>= λ d. confirm d modes

unfoldable pub validate_resolved :
    List AccessMode → Option (Client × String) → Provision (Option (List AccessMode))
unfolding confirm_existing
validate_resolved modes none = raise (status invalid_argument)
validate_resolved modes (some (client, path)) =
    let place = parent_and_name path in
    gets (λ s. s.filers.exists s.log client place.0 place.1) >>= λ found.
    confirm_existing found modes

unfoldable pub modes_of : Option (List AccessMode) → List AccessMode
modes_of none = []
modes_of (some modes) = modes

unfoldable pub validate_volume_capabilities :
    String → Option (List AccessMode) → Provision (Option (List AccessMode))
unfolding validate_resolved refuse_if modes_of
validate_volume_capabilities volume_id capabilities = do
  refuse_if (volume_id == "")
  refuse_if (is_missing capabilities)
  urls ← gets (λ s. s.urls)
  validate_resolved (modes_of capabilities) (resolve_volume urls volume_id)

-- ControllerPublishVolume and ControllerUnpublishVolume check their arguments and do nothing.
unfoldable pub controller_publish_volume : String → String → Provision (Unit {0})
controller_publish_volume volume_id node_id = do
  refuse_if (volume_id == "")
  refuse_if (node_id == "")

unfoldable pub controller_unpublish_volume : String → Provision (Unit {0})
controller_unpublish_volume volume_id = refuse_if (volume_id == "")
