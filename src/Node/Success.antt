-- ===== src/Node/Success.antt =====
-- What the plugin knows after a request that succeeds.
use seaweedfs_csi_driver.Base.{
  String, Bool, Option, none, some, ◌≡◌, refl, sym, ◌∙◌, arith, lookup, ap, subst, Assoc,
  lookup-insert, lookup-erase, eq_refl,
}
use seaweedfs_csi_driver.Base.Exec.{ok, Exec, IsPreorder, modify, moves_rules}
use seaweedfs_csi_driver.Base.Outcomes.{Ensures, Ensures-bind, Ensures-Moves}
use seaweedfs_csi_driver.Host.{
  Volume, NodeServer, note, get_volume, store_volume, delete_volume, forget_metrics,
}
use seaweedfs_csi_driver.Host.Quiet.{IsQuiet, host_rules}
use seaweedfs_csi_driver.Volume.{remove_publish_path, add_publish_path}
use seaweedfs_csi_driver.Staging.Quiet.{staging_rules}
use seaweedfs_csi_driver.Volume.Quiet.{volume_rules}
use seaweedfs_csi_driver.Node.{
  RpcError, PublishRequest, node_publish_volume, unpublish_known, node_unpublish_volume,
  unstage_known, forget_backoff, node_unstage_volume,
}
use seaweedfs_csi_driver.Node.Steps.{Moves-cleanup_garbage}

abbrev Any : NodeServer → Type 0
Any s = Unit

module _ {E : Type 0} where
  any : {A : Type 0} (P : NodeServer → Type 0) (m : Exec NodeServer E A) → Ensures P (λ a. Any) m
  any P m = record { at = λ s t a p q. tt }

  Ensures-get_volume :
      (v : String) → Ensures {E = E} Any (λ known s. lookup v s.volumes ≡ known) (get_volume v)
  unfolding get_volume
  Ensures-get_volume v = record { at = λ s t a p q. ground arith }

  Ensures-store_volume :
      (P Q : NodeServer → Type 0) (v : String) (vol : Volume)
      → ((t : NodeServer) → lookup v t.volumes ≡ some vol → Q t)
      → Ensures {E = E} P (λ u. Q) (store_volume v vol)
  unfolding store_volume
  Ensures-store_volume P Q v vol h = record {
    at = λ s t a p q. h t (
        ap (λ r. lookup v r.1.volumes) (sym q)
        ∙ lookup-insert v v vol s.volumes
        ∙ rw (eq_refl v) refl);
  }

  Ensures-delete_volume :
      (P : NodeServer → Type 0) (v : String)
      → Ensures {E = E} P (λ u t. lookup v t.volumes ≡ none) (delete_volume v)
  unfolding delete_volume
  Ensures-delete_volume P v = record {
    at = λ s t a p q.
        ap (λ r. lookup v r.1.volumes) (sym q) ∙ lookup-erase v v s.volumes ∙ rw (eq_refl v) refl;
  }

-- A property of the volumes, which no call of the host touches.
abbrev Holds : (Assoc Volume → Type 0) → NodeServer → Type 0
Holds P s = P s.volumes

abbrev Kept : (NodeServer → Type 0) → NodeServer → NodeServer → Type 0
Kept P s t = P s → P t

kept : (P : NodeServer → Type 0) → IsPreorder (Kept P)
kept P = record { reflexive = λ s p. p; transitive = λ f g p. g (f p) }

Holds-quiet : (P : Assoc Volume → Type 0) → IsQuiet (Kept (Holds P))
Holds-quiet P = record { order = kept (Holds P); extend = λ s e h p. p }

ruleset quiet_rules = (moves_rules, host_rules, staging_rules, volume_rules)

-- The volume is known, and the path is one of its publish paths with the flag.
abbrev pub IsPublished : String → String → Bool → NodeServer → Type 0
IsPublished v path read_only t =
    (vol : Volume) × (lookup v t.volumes ≡ some vol)
    × (lookup path vol.publish_paths ≡ some read_only)

publish-Ensures :
    (req : PublishRequest)
    → Ensures Any
        (λ u. IsPublished req.volume_id req.target_path req.read_only)
        (node_publish_volume req)
unfolding node_publish_volume
publish-Ensures req =
    Ensures-bind _ (λ a. Any) _ _ _ (any _ _)
      λ a.
        Ensures-bind _ (λ a. Any) _ _ _ (any _ _)
          λ b.
            Ensures-bind _ (λ a. Any) _ _ _ (any _ _)
              λ c.
                Ensures-bind _ (λ a. Any) _ _ _ (any _ _)
                  λ d.
                    Ensures-bind _ (λ a. Any) _ _ _ (any _ _)
                      λ cached.
                        Ensures-bind _ (λ a. Any) _ _ _ (any _ _)
                          λ vol.
                            Ensures-bind _ (λ a. Any) _ _ _ (any _ _)
                              λ u.
                                Ensures-store_volume _ _ _
                                  (add_publish_path req.target_path req.read_only vol)
                                  λ t known. (
                                    add_publish_path req.target_path req.read_only vol,
                                    known,
                                    lookup-insert req.target_path req.target_path req.read_only
                                          vol.publish_paths
                                        ∙ rw (eq_refl req.target_path) refl,
                                  )

-- After a NodePublishVolume that succeeds the plugin knows the volume, with the target among its
-- publish paths under the flag of the request.
pub node_publish_volume-IsPublished :
    (req : PublishRequest) (s t : NodeServer)
    → node_publish_volume req s ≡ (ok tt, t)
    → IsPublished req.volume_id req.target_path req.read_only t
node_publish_volume-IsPublished req s t h = (publish-Ensures req).at s t tt tt h

-- The path is a publish path of no volume known under the id.
abbrev pub IsUnpublished : String → String → NodeServer → Type 0
IsUnpublished v path t =
    (vol : Volume) → lookup v t.volumes ≡ some vol → lookup path vol.publish_paths ≡ none

unpublish_known-Ensures :
    (v path : String) (known : Option Volume)
    → Ensures
        (λ s. lookup v s.volumes ≡ known)
        (λ u. IsUnpublished v path)
        (unpublish_known v path known)
unfolding unpublish_known
unpublish_known-Ensures v path none = record {
  at = λ s t a p q vol e. absurd (
      let still : lookup v t.volumes ≡ none =
        (Ensures-Moves (λ s. lookup v s.volumes ≡ none) _
            (Moves-cleanup_garbage (Holds-quiet (λ m. lookup v m ≡ none)) path)).at
          s t a p q in
      ground (arith, still, e));
}
unpublish_known-Ensures v path (some vol) =
    Ensures-bind _ (λ a. Any) _ _ _ (any _ _)
      λ u. Ensures-store_volume _ _ v (remove_publish_path path vol) λ t known w e.
        let same : remove_publish_path path vol ≡ w = cc in
        subst (λ x. lookup path x.publish_paths ≡ none) same
          (lookup-erase path path vol.publish_paths ∙ rw (eq_refl path) refl)

unpublish-Ensures :
    (v path : String) → Ensures Any (λ u. IsUnpublished v path) (node_unpublish_volume v path)
unfolding node_unpublish_volume
unpublish-Ensures v path =
    Ensures-bind _ (λ a. Any) _ _ _ (any _ _)
      λ a.
        Ensures-bind _ (λ a. Any) _ _ _ (any _ _)
          λ b.
            Ensures-bind _ (λ known s. lookup v s.volumes ≡ known) _ _ _ (Ensures-get_volume v)
              (unpublish_known-Ensures v path)

-- After a NodeUnpublishVolume that succeeds the target is a publish path of no volume that the
-- plugin knows under the id of the request.
pub node_unpublish_volume-IsUnpublished :
    (v path : String) (s t : NodeServer)
    → node_unpublish_volume v path s ≡ (ok tt, t)
    → IsUnpublished v path t
node_unpublish_volume-IsUnpublished v path s t h = (unpublish-Ensures v path).at s t tt tt h

-- Neither a volume nor a backoff is kept under the id.
pub record IsForgotten (v : String) (t : NodeServer) : Type 0 where
  pub volume : lookup v t.volumes ≡ none
  pub backoff : lookup v t.recovery_backoff ≡ none

abbrev IsUnknown : String → NodeServer → Type 0
IsUnknown v s = lookup v s.volumes ≡ none

unstage_known-Ensures :
    (v path : String) (known : Option Volume)
    → Ensures (λ s. lookup v s.volumes ≡ known) (λ u. IsUnknown v) (unstage_known v path known)
unfolding unstage_known
unstage_known-Ensures v path none =
    let quiet = Holds-quiet (λ m. lookup v m ≡ none) in
    Ensures-Moves (IsUnknown v) _
      (search (quiet_rules, quiet.order, quiet, Moves-cleanup_garbage quiet))
unstage_known-Ensures v path (some vol) =
    Ensures-bind _ (λ a. Any) _ _ _ (any _ _) λ u. Ensures-delete_volume _ v

forget-Ensures :
    (v : String)
    → Ensures {E = RpcError} (IsUnknown v) (λ u. IsForgotten v) (modify (forget_backoff v))
unfolding modify forget_backoff
forget-Ensures v = record {
  at = λ s t a p q.
      subst (λ r. IsForgotten v r.1) q
        (record {
          volume = p;
          backoff = lookup-erase v v s.recovery_backoff ∙ rw (eq_refl v) refl;
        });
}

note-Ensures :
    (v : String)
    → Ensures {E = RpcError} (IsForgotten v) (λ u. IsForgotten v) (note (forget_metrics v))
unfolding note
note-Ensures v = record {
  at = λ s t a p q.
      subst (λ r. IsForgotten v r.1) q (record { volume = p.volume; backoff = p.backoff });
}

unstage-Ensures : (v path : String) → Ensures Any (λ u. IsForgotten v) (node_unstage_volume v path)
unfolding node_unstage_volume
unstage-Ensures v path =
    Ensures-bind _ (λ a. Any) _ _ _ (any _ _)
      λ a.
        Ensures-bind _ (λ a. Any) _ _ _ (any _ _)
          λ b.
            Ensures-bind _ (λ known s. lookup v s.volumes ≡ known) _ _ _ (Ensures-get_volume v)
              λ known.
                Ensures-bind _ (λ u. IsUnknown v) _ _ _ (unstage_known-Ensures v path known)
                  λ u.
                    Ensures-bind _ (λ u. IsForgotten v) _ _ _ (forget-Ensures v) λ w. note-Ensures v

-- After a NodeUnstageVolume that succeeds the plugin keeps neither the volume nor its backoff,
-- whether it knew the volume before or not.
pub node_unstage_volume-IsForgotten :
    (v path : String) (s t : NodeServer)
    → node_unstage_volume v path s ≡ (ok tt, t)
    → IsForgotten v t
node_unstage_volume-IsForgotten v path s t h = (unstage-Ensures v path).at s t tt tt h
