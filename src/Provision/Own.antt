-- ===== src/Provision/Own.antt =====
-- What DeleteVolume removes.
use seaweedfs_csi_driver.Base.{
  ℕ, zero, suc, String, Bool, true, false, Option, none, some, List, [], ◌∷◌, ◌≡◌, ◌⊎◌, inl, inr,
  refl, Bool-cases, ◌==◌,
}
use seaweedfs_csi_driver.Base.Exec.{
  Result, ok, err, pure, raise, gets, Moves, IsPreorder, Moves-pure, Moves-bind, Moves-if,
  moves_rules, ◌>>=◌,
}
use seaweedfs_csi_driver.GoPath.{join_path}
use seaweedfs_csi_driver.Driver.{create_delete_volume, validate_controller_service_request}
use seaweedfs_csi_driver.Provision.{
  Client, FilerCall, mkdir, remove, delete_attributes, FilerFault, Provisioner, Provision, perform,
  returned, refuse_if, resolve_volume, parent_and_name,
}
use seaweedfs_csi_driver.Provision.Delete.{
  bucket_dir_of, filer_bucket_dir, page_of, remove_children, empty_page, empty_pages,
  empty_bucket_children, forget_attributes, delete_emptied, delete_resolved, delete_volume,
}

-- The calls made since the log was `old` all pass the predicate.
pub data Since (P : FilerCall → Type 0) (old : List FilerCall) : List FilerCall → Type 0 where
  same : Since P old old
  more :
      (call : FilerCall) (log : List FilerCall)
      → P call
      → Since P old log
      → Since P old (call ∷ log)

Since-transitive :
    (P : FilerCall → Type 0) (a b c : List FilerCall) → Since P a b → Since P b c → Since P a c
Since-transitive P a b _ h same = h
Since-transitive P a b _ h (more call log p k) = more call log p (Since-transitive P a b log h k)

module _ (P : FilerCall → Type 0) where
  abbrev Calls : Provisioner → Provisioner → Type 0
  Calls s t = Since P s.log t.log

  order : IsPreorder Calls
  order = record {
    reflexive = λ s. same;
    transitive = λ {s} {t} {u} h k. Since-transitive P s.log t.log u.log h k;
  }

  Moves-perform : (call : FilerCall) → P call → Moves Calls (perform call)
  unfolding perform
  Moves-perform call p = record { at = λ s. more call s.log p same }

  Moves-returned : (o : Option FilerFault) → Moves Calls (returned o)
  unfolding returned
  Moves-returned none = search (moves_rules, order)
  Moves-returned (some e) = search (moves_rules, order)

  Moves-refuse_if : (b : Bool) → Moves Calls (refuse_if b)
  unfolding refuse_if
  Moves-refuse_if true = search (moves_rules, order)
  Moves-refuse_if false = search (moves_rules, order)

  Moves-remove_children :
      (client : Client) (path : String) (children : List String)
      → ((child : String) → P (remove client path child false))
      → Moves Calls (remove_children client path children)
  unfolding remove_children
  Moves-remove_children client path [] p = Moves-pure order tt
  Moves-remove_children client path (child ∷ children) p =
      Moves-bind order _ _ (Moves-perform (remove client path child false) (p child)) λ removed.
        Moves-bind order _ _ (Moves-returned removed)
          λ u. Moves-remove_children client path children p

  Moves-empty_page :
      (client : Client) (path : String) (next : String → Provision Bool)
      (r : Result FilerFault (List (String × Bool)))
      → ((child : String) → P (remove client path child false))
      → ((last : String) → Moves Calls (next last))
      → Moves Calls (empty_page client path next r)
  unfolding empty_page
  Moves-empty_page client path next (err e) p k =
      Moves-if order e.is_not_found _ _ (search (moves_rules, order)) (search (moves_rules, order))
  Moves-empty_page client path next (ok entries) p k =
      Moves-bind order _ _ (Moves-remove_children client path (page_of "" entries).children p)
        λ u. Moves-if order _ _ _ (Moves-pure order true) (k (page_of "" entries).last)

  Moves-empty_pages :
      (client : Client) (path : String) (fuel : ℕ) (after : String)
      → ((child : String) → P (remove client path child false))
      → Moves Calls (empty_pages client path fuel after)
  unfolding empty_pages
  Moves-empty_pages client path zero after p = Moves-pure order false
  Moves-empty_pages client path (suc fuel) after p =
      Moves-bind order _ _ (search (moves_rules, order))
        λ r. Moves-empty_page client path _ r p (λ last. Moves-empty_pages client path fuel last p)

  Moves-bucket_dir_of : (r : Result FilerFault String) → Moves Calls (bucket_dir_of r)
  unfolding bucket_dir_of
  Moves-bucket_dir_of (err e) = search (moves_rules, order)
  Moves-bucket_dir_of (ok found) = search (moves_rules, order)

  Moves-empty_bucket_children :
      (fuel : ℕ) (client : Client) (path : String)
      → ((child : String) → P (remove client path child false))
      → Moves Calls (empty_bucket_children fuel client path)
  unfolding empty_bucket_children filer_bucket_dir
  Moves-empty_bucket_children fuel client path p =
      Moves-bind order _ _ (Moves-bind order _ _ (search (moves_rules, order)) Moves-bucket_dir_of)
        λ found.
          Moves-if order _ _ _ (Moves-empty_pages client path fuel "" p) (Moves-pure order true)

  Moves-forget_attributes :
      (volume_id : String) (b : Bool)
      → P (delete_attributes volume_id)
      → Moves Calls (forget_attributes volume_id b)
  unfolding forget_attributes
  Moves-forget_attributes volume_id false p = Moves-pure order tt
  Moves-forget_attributes volume_id true p =
      Moves-bind order _ _ (Moves-perform (delete_attributes volume_id) p) λ o. Moves-pure order tt

  Moves-delete_emptied :
      (volume_id : String) (client : Client) (place : String × String) (b : Bool)
      → P (delete_attributes volume_id)
      → P (remove client place.0 place.1 true)
      → Moves Calls (delete_emptied volume_id client place b)
  unfolding delete_emptied
  Moves-delete_emptied volume_id client place false p q = Moves-pure order false
  Moves-delete_emptied volume_id client place true p q =
      Moves-bind order _ _ (Moves-perform (remove client place.0 place.1 true) q) λ removed.
        Moves-bind order _ _ (Moves-returned removed) λ u.
          Moves-bind order _ _ (search (moves_rules, order)) λ b.
            Moves-bind order _ _ (Moves-forget_attributes volume_id b p) λ u. Moves-pure order true

-- A call that the deletion of a volume may make, by what its id resolves to: the removal of the
-- volume's own directory, of a child of it, or of the attributes under the id.
abbrev pub IsOwn : String → Option (Client × String) → FilerCall → Type 0
IsOwn volume_id none call = ⊥
IsOwn volume_id (some (client, path)) (mkdir c parent name) = ⊥
IsOwn volume_id (some (client, path)) (delete_attributes id) = id ≡ volume_id
IsOwn volume_id (some (client, path)) (remove c parent name ignore) =
    (c ≡ client)
    × ((((parent, name) ≡ parent_and_name path) × (ignore ≡ true))
        ⊎ ((parent ≡ join_path (parent_and_name path).0 (parent_and_name path).1)
            × (ignore ≡ false)))

resolved-IsOwn :
    (fuel : ℕ) (volume_id : String) (o : Option (Client × String))
    → Moves (Calls (IsOwn volume_id o)) (delete_resolved fuel volume_id o)
unfolding delete_resolved
resolved-IsOwn fuel volume_id none = search (moves_rules, order (IsOwn volume_id none))
resolved-IsOwn fuel volume_id (some (client, path)) =
    let P = IsOwn volume_id (some (client, path)) in
    Moves-bind (order P) _ _
      (Moves-empty_bucket_children P fuel client _ (λ child. (refl, inr (refl, refl))))
      λ b.
        Moves-delete_emptied P volume_id client (parent_and_name path) b refl
          (refl, inl (refl, refl))

pub delete_volume-IsOwn :
    (fuel : ℕ) (volume_id : String) (s : Provisioner)
    → Since
        (IsOwn volume_id (resolve_volume s.urls volume_id))
        s.log
        (delete_volume fuel volume_id s).1.log
unfolding delete_volume refuse_if pure raise gets ◌>>=◌
delete_volume-IsOwn fuel volume_id s = elim (Bool-cases (volume_id == "")) [
  | inl e ↦ rw e same
  | inr e ↦
      rw e (elim (Bool-cases (validate_controller_service_request s.driver create_delete_volume)) [
        | inl k ↦ rw k ((resolved-IsOwn fuel volume_id (resolve_volume s.urls volume_id)).at s)
        | inr k ↦ rw k same
      ])
]
