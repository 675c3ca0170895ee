-- ===== src/Provision/Places.antt =====
-- Where CreateVolume puts a volume, and what the volume's id resolves to.
use seaweedfs_csi_driver.Base.{
  String, true, some, List, ◌∷◌, ◌++◌, [], All, ◌≡◌, ◌≢◌, refl, sym, ap, ◌∙◌, subst, ◌⊎◌, eq_false,
  inl, inr,
}
use seaweedfs_csi_driver.Base.Exec.{ok}
use seaweedfs_csi_driver.GoPath.{is_abs, clean, dir, base, join_path}
use seaweedfs_csi_driver.GoPath.Split.{IsComponent}
use seaweedfs_csi_driver.GoPath.Normal.{
  absolute, is_abs-absolute, join_path-absolute, dir-absolute, base-absolute,
}
use seaweedfs_csi_driver.Params.{text_at}
use seaweedfs_csi_driver.Provision.{
  Client, resolve_volume, parent_and_name, CreateRequest, CreatedVolume, Place, place_under,
  place_of, S3Names, place_at, create_volume, mkdir, Provisioner, created_context,
}
use seaweedfs_csi_driver.Provision.Ids.{
  AreUrls, filers_named, IsRemovable, IsSplit, create_volume-IsRemovable,
}

-- The parent is the absolute path of components, and the name is a component.
pub record IsChild (w : String) (ws : List String) (place : Place) : Type 0 where
  pub parent : place.parent_dir ≡ absolute (w ∷ ws)
  pub above : All IsComponent (w ∷ ws)
  pub name : IsComponent place.volume_name

joined-IsSplit :
    (parent name w : String) (ws : List String)
    → parent ≡ absolute (w ∷ ws)
    → All IsComponent (w ∷ ws)
    → IsComponent name
    → IsSplit
        (record { volume_path = join_path parent name; parent_dir = parent; volume_name = name })
joined-IsSplit parent name w ws e h k =
    let path : join_path parent name ≡ absolute (w ∷ (ws ++ name ∷ [])) =
      ap (λ p. join_path p name) e ∙ join_path-absolute w name ws h k in
    record {
      absolute = ap is_abs path ∙ is_abs-absolute (w ∷ (ws ++ name ∷ []));
      parent = ap dir path ∙ dir-absolute w name ws h k ∙ sym e;
      name = ap base path ∙ base-absolute w name ws h k;
    }

place_under-IsSplit :
    (n : S3Names) (name parent w : String) (ws : List String)
    → IsChild w ws (place_under n name parent)
    → IsSplit (place_under n name parent)
unfolding place_under
place_under-IsSplit n name parent w ws h =
    let s = joined-IsSplit _ _ w ws h.parent h.above h.name in
    record { absolute = s.absolute; parent = s.parent; name = s.name }

-- The place of a request without a path.
abbrev pub implicit_place : S3Names → CreateRequest → Place
implicit_place n req = place_under n req.name (text_at "parentDir" req.parameters)

-- Where a volume may go: to an explicit absolute path, or, without one, under a parent directory.
abbrev pub IsPlaced : S3Names → CreateRequest → Type 0
IsPlaced n req =
    ((text_at "path" req.parameters ≢ "") × (is_abs (clean (text_at "path" req.parameters)) ≡ true))
    ⊎ ((text_at "path" req.parameters ≡ "")
        × ((w : String) × (ws : List String) × IsChild w ws (implicit_place n req)))

placed-IsSplit :
    (n : S3Names) (req : CreateRequest)
    → IsPlaced n req
    → IsSplit (place_of n req.name req.parameters)
unfolding place_of place_at
placed-IsSplit n req (inl (given, a)) =
    rw (eq_false (text_at "path" req.parameters) "" given)
      (record { absolute = a; parent = refl; name = refl })
placed-IsSplit n req (inr (none_given, (w, ws, child))) =
    rw none_given (place_under-IsSplit n req.name (text_at "parentDir" req.parameters) w ws child)

created_volume-IsRemovable :
    (req : CreateRequest) (s t : Provisioner) (v : CreatedVolume)
    → IsPlaced s.names req
    → AreUrls s.urls
        (text_at "filer" (created_context req (place_of s.names req.name req.parameters)))
    → create_volume req s ≡ (ok v, t)
    → IsRemovable s
        (text_at "filer" (created_context req (place_of s.names req.name req.parameters)))
        (ok v, t)
created_volume-IsRemovable req s t v placed h e =
    subst (IsRemovable s _) e
      (create_volume-IsRemovable req s (placed-IsSplit s.names req placed) h)

-- On which filers the id of a created volume resolves.
pub created_volume-filers_named :
    (req : CreateRequest) (s t : Provisioner) (v : CreatedVolume) (client : Client) (path : String)
    → IsPlaced s.names req
    → AreUrls s.urls
        (text_at "filer" (created_context req (place_of s.names req.name req.parameters)))
    → create_volume req s ≡ (ok v, t)
    → resolve_volume s.urls v.volume_id ≡ some (client, path)
    → client
      ≡ filers_named
          (text_at "filer" (created_context req (place_of s.names req.name req.parameters)))
created_volume-filers_named req s t v client path placed h e r =
    (created_volume-IsRemovable req s t v placed h e client path r).1

-- When CreateVolume succeeds, with an explicit absolute path, or without a path, under a parent
-- directory that is an absolute path in its clean form and with a name that is one component of a
-- path, and the id of the volume resolves, then the directory whose parent, name and filer DeleteVolume
-- takes from the id is the one that CreateVolume made, with the one call of the filer that it made.
pub created_volume_resolves :
    (req : CreateRequest) (s t : Provisioner) (v : CreatedVolume) (client : Client) (path : String)
    → IsPlaced s.names req
    → AreUrls s.urls
        (text_at "filer" (created_context req (place_of s.names req.name req.parameters)))
    → create_volume req s ≡ (ok v, t)
    → resolve_volume s.urls v.volume_id ≡ some (client, path)
    → t.log ≡ mkdir client (parent_and_name path).0 (parent_and_name path).1 ∷ s.log
created_volume_resolves req s t v client path placed h e r =
    (created_volume-IsRemovable req s t v placed h e client path r).0
