-- ===== src/Provision/Created.antt =====
-- DeleteVolume of a volume that CreateVolume made.
use seaweedfs_csi_driver.Base.{
  ℕ, String, true, false, Option, none, some, List, ◌∷◌, ◌≡◌, ◌⊎◌, inl, inr, refl, sym, ◌∙◌, ap,
  subst,
}
use seaweedfs_csi_driver.Base.Exec.{ok}
use seaweedfs_csi_driver.GoPath.{join_path}
use seaweedfs_csi_driver.Params.{text_at}
use seaweedfs_csi_driver.Provision.{
  Client, driver_filers, FilerCall, mkdir, remove, delete_attributes, Provisioner, resolve_volume,
  parent_and_name, CreateRequest, CreatedVolume, place_of, create_volume, created_context,
}
use seaweedfs_csi_driver.Provision.Delete.{delete_volume}
use seaweedfs_csi_driver.Provision.Own.{Since, same, more, IsOwn, delete_volume-IsOwn}
use seaweedfs_csi_driver.Provision.Ids.{AreUrls, filers_named}
use seaweedfs_csi_driver.Provision.Places.{
  IsPlaced, created_volume_resolves, created_volume-filers_named,
}

-- A call that takes back what a volume has: its directory, by parent and name on its filer, a child of
-- the directory, or the attributes under its id.
abbrev pub TakesBack : String → Client → String → String → FilerCall → Type 0
TakesBack volume_id client parent name (mkdir c p n) = ⊥
TakesBack volume_id client parent name (delete_attributes id) = id ≡ volume_id
TakesBack volume_id client parent name (remove c p n ignore) =
    (c ≡ client)
    × (((p ≡ parent) × (n ≡ name) × (ignore ≡ true))
        ⊎ ((p ≡ join_path parent name) × (ignore ≡ false)))

Since-widen :
    (P Q : FilerCall → Type 0) (old log : List FilerCall)
    → ((call : FilerCall) → P call → Q call)
    → Since P old log
    → Since Q old log
Since-widen P Q old _ f same = same
Since-widen P Q old _ f (more call log p h) = more call log (f call p) (Since-widen P Q old log f h)

module _ (volume_id : String) (client : Client) (path : String) where
  own-TakesBack :
      (call : FilerCall)
      → IsOwn volume_id (some (client, path)) call
      → TakesBack volume_id client (parent_and_name path).0 (parent_and_name path).1 call
  own-TakesBack (mkdir c p n) h = h
  own-TakesBack (delete_attributes id) h = h
  own-TakesBack (remove c p n ignore) (on, inl (place, kept)) =
      (on, inl (ap (λ x. x.0) place, ap (λ x. x.1) place, kept))
  own-TakesBack (remove c p n ignore) (on, inr h) = (on, inr h)

-- The one call of a log of one more.
abbrev place_in : List FilerCall → Client × (String × String)
place_in (mkdir c p n ∷ log) = (c, (p, n))
place_in log = (driver_filers, ("", ""))

resolved-TakesBack :
    (o : Option (Client × String)) (volume_id : String) (client on : Client) (parent name : String)
    (made log old new : List FilerCall)
    → made ≡ mkdir client parent name ∷ log
    → ((c : Client) (path : String)
        → o ≡ some (c, path)
        → made ≡ mkdir c (parent_and_name path).0 (parent_and_name path).1 ∷ log)
    → ((c : Client) (path : String) → o ≡ some (c, path) → c ≡ on)
    → Since (IsOwn volume_id o) old new
    → Since (TakesBack volume_id on parent name) old new
resolved-TakesBack none volume_id client on parent name made log old new m r k h =
    Since-widen _ _ old new (λ call no. absurd no) h
resolved-TakesBack (some (c, path)) volume_id client on parent name made log old new m r k h =
    let place = ap (λ log. (place_in log).1) (sym (r c path refl) ∙ m) in
    subst (λ x. Since (TakesBack volume_id on x.0 x.1) old new) place
      (subst
        (λ x.
          Since (TakesBack volume_id x (parent_and_name path).0 (parent_and_name path).1) old new)
        (k c path refl) (Since-widen _ _ old new (own-TakesBack volume_id c path) h))

-- DeleteVolume of a volume that CreateVolume made with a call to make the directory `name` in
-- `parent`, whenever it comes, whatever the filers then answer and wherever it ends, makes no changing
-- call of the filers but to remove that very directory or children of it, and the attributes under the
-- volume's id; and it removes them on the filer that the volume's context names, or on the driver's
-- filers if it names none. The volume has an explicit absolute path or, without a path, a parent
-- directory that is an absolute path in its clean form and a name that is one component.
pub delete_created_volume-TakesBack :
    (fuel : ℕ) (req : CreateRequest) (s t u : Provisioner) (v : CreatedVolume) (client : Client)
    (parent name : String)
    → IsPlaced s.names req
    → AreUrls s.urls
        (text_at "filer" (created_context req (place_of s.names req.name req.parameters)))
    → create_volume req s ≡ (ok v, t)
    → t.log ≡ mkdir client parent name ∷ s.log
    → u.urls ≡ s.urls
    → Since
        (TakesBack v.volume_id
          (filers_named
            (text_at "filer" (created_context req (place_of s.names req.name req.parameters))))
          parent
          name)
        u.log
        (delete_volume fuel v.volume_id u).1.log
delete_created_volume-TakesBack fuel req s t u v client parent name placed urls e made same_urls =
    resolved-TakesBack (resolve_volume u.urls v.volume_id) v.volume_id client
      (filers_named
        (text_at "filer" (created_context req (place_of s.names req.name req.parameters))))
      parent name t.log s.log u.log _ made
      (λ c path r.
        created_volume_resolves req s t v c path placed urls e
          (ap (λ x. resolve_volume x v.volume_id) (sym same_urls) ∙ r))
      (λ c path r.
        created_volume-filers_named req s t v c path placed urls e
          (ap (λ x. resolve_volume x v.volume_id) (sym same_urls) ∙ r))
      (delete_volume-IsOwn fuel v.volume_id u)
