-- ===== src/Startup/Configured.antt =====
-- The driver that main runs.
use seaweedfs_csi_driver.Base.{
  String, Bool, true, false, ◌||◌, Option, none, some, List, [], ◌∷◌, ◌≡◌, ◌≢◌, refl, ap, subst,
  arith, eq_iff, Bool-cases, inl, inr, ◌==◌,
}
use seaweedfs_csi_driver.Base.Exec.{Result, ok, err}
use seaweedfs_csi_driver.GoPath.{split}
use seaweedfs_csi_driver.Params.{one_of}
use seaweedfs_csi_driver.Locality.{DataLocality}
use seaweedfs_csi_driver.Locality
use seaweedfs_csi_driver.Driver.{
  create_delete_volume, modify_volume, publish_unpublish_volume, check_data_locality,
  validate_controller_service_request,
}
use seaweedfs_csi_driver.MountArgs.{MountArgError, validate_mount_args}
use seaweedfs_csi_driver.Startup.{
  Flags, Surroundings, StartError, Started, added_capabilities, checked_args, parsed_args,
  parsed_locality, read_components, with_locality, with_args, convert_required_values,
  check_preconditions, new_driver, volume_socket_dir, start_with, start_parts, start_values, start,
}

-- What holds of the driver and its parts.
pub record IsConfigured (flags : Flags) (t : Started) : Type 0 where
  pub some_part : t.run_node || t.run_controller ≡ true
  pub extra_args : validate_mount_args t.driver.mount_extra_args ≡ none
  pub locality : t.driver.data_locality ≡ Locality.write_prefer_local_dc → t.driver.data_center ≢ ""
  pub runs_node : t.run_node ≡ one_of "node" (split b',' flags.components)
  pub runs_controller : t.run_controller ≡ one_of "controller" (split b',' flags.components)
  pub node_named : t.run_node ≡ true → t.driver.node_id ≢ ""
  pub provisions : validate_controller_service_request t.driver create_delete_volume ≡ true
  pub modifies : validate_controller_service_request t.driver modify_volume ≡ true
  pub attaches :
      validate_controller_service_request t.driver publish_unpublish_volume ≡ flags.enable_attacher

locality-center :
    (locality : DataLocality) (center : String)
    → check_data_locality locality center ≡ true
    → locality ≡ Locality.write_prefer_local_dc
    → center ≢ ""
unfolding check_data_locality
locality-center locality center h e =
    let at_dc : check_data_locality Locality.write_prefer_local_dc center ≡ true =
      subst (λ l. check_data_locality l center ≡ true) e h in
    λ same. absurd (ground (arith, at_dc, eq_iff center "", same))

read_components-one_of :
    (n c : Bool) (names : List String) (parts : Bool × Bool)
    → read_components n c names ≡ some parts
    → (parts.0 ≡ (n || one_of "node" names)) × (parts.1 ≡ (c || one_of "controller" names))
unfolding read_components one_of
read_components-one_of n c [] parts h = (ground (arith, h), ground (arith, h))
read_components-one_of n c (name ∷ names) parts h = elim (Bool-cases (name == "controller")) [
  | inl e ↦
      let (node, controller) = read_components-one_of n true names parts (ground (arith, h, e)) in
      let named : name ≡ "controller" = ground (arith, e, eq_iff name "controller") in
      let other : ("node" == name) ≡ false = ap (λ x. "node" == x) named in
      let this : ("controller" == name) ≡ true = ap (λ x. "controller" == x) named in
      (ground (arith, node, other), ground (arith, controller, this))
  | inr e ↦ elim (Bool-cases (name == "node")) [
    | inl k ↦
        let (node, controller) =
          read_components-one_of true c names parts (ground (arith, h, e, k)) in
        let named : name ≡ "node" = ground (arith, k, eq_iff name "node") in
        let this : ("node" == name) ≡ true = ap (λ x. "node" == x) named in
        let other : ("controller" == name) ≡ false = ap (λ x. "controller" == x) named in
        (ground (arith, node, this), ground (arith, controller, other))
    | inr k ↦ absurd (ground (arith, h, e, k))
  ]
]

-- What the components make of the parts that run.
abbrev AreAsked : Flags → Bool × Bool → Type 0
AreAsked flags parts =
    (parts.0 ≡ one_of "node" (split b',' flags.components))
    × (parts.1 ≡ one_of "controller" (split b',' flags.components))

with_locality-valid :
    (args : List String) (r : Result StartError DataLocality) (v : List String × DataLocality)
    → validate_mount_args args ≡ none
    → with_locality args r ≡ ok v
    → validate_mount_args v.0 ≡ none
unfolding with_locality
with_locality-valid args (err e) v h q = absurd (ground (arith, q))
with_locality-valid args (ok l) v h q =
    let same : args ≡ v.0 = ground (arith, q) in subst (λ a. validate_mount_args a ≡ none) same h

checked_args-valid :
    (flags : Flags) (o : Option MountArgError) (args : List String) (v : List String × DataLocality)
    → validate_mount_args args ≡ o
    → with_args flags (checked_args o args) ≡ ok v
    → validate_mount_args v.0 ≡ none
unfolding with_args checked_args
checked_args-valid flags (some e) args v h q = absurd (ground (arith, q))
checked_args-valid flags none args v h q =
    with_locality-valid args (parsed_locality flags.data_locality) v h q

convert-valid :
    (flags : Flags) (o : Option (List String)) (v : List String × DataLocality)
    → with_args flags (parsed_args o) ≡ ok v
    → validate_mount_args v.0 ≡ none
unfolding parsed_args with_args
convert-valid flags none v q = absurd (ground (arith, q))
convert-valid flags (some args) v q =
    checked_args-valid flags (validate_mount_args args) args v refl q

preconditions-named :
    (around : Surroundings) (flags : Flags) (locality : DataLocality) (run_node : Bool)
    (id : String)
    → check_preconditions around flags locality run_node ≡ ok id
    → (check_data_locality locality flags.data_center ≡ true) × (run_node ≡ true → id ≢ "")
unfolding check_preconditions
preconditions-named around flags locality run_node id q =
    (ground (arith, q), λ runs. ground (arith, q, runs, eq_iff id ""))

with_attacher :
    (around : Surroundings) (flags : Flags) (args : List String) (locality : DataLocality)
    (id : String)
    → let d = new_driver around flags args locality id in
      (validate_controller_service_request d create_delete_volume ≡ true)
      × (validate_controller_service_request d modify_volume ≡ true)
      × (validate_controller_service_request d publish_unpublish_volume ≡ flags.enable_attacher)
unfolding new_driver validate_controller_service_request added_capabilities
with_attacher around flags args locality id = go flags.enable_attacher refl
  where
    go :
        (b : Bool)
        → flags.enable_attacher ≡ b
        → let d = new_driver around flags args locality id in
          (validate_controller_service_request d create_delete_volume ≡ true)
          × (validate_controller_service_request d modify_volume ≡ true)
          × (validate_controller_service_request d publish_unpublish_volume ≡ flags.enable_attacher)
    go true e = rw e (refl, refl, refl)
    go false e = rw e (refl, refl, refl)

start_with-IsConfigured :
    (around : Surroundings) (flags : Flags) (v : List String × DataLocality)
    (run_node run_controller : Bool) (r : Result StartError String) (t : Started)
    → validate_mount_args v.0 ≡ none
    → run_node || run_controller ≡ true
    → AreAsked flags (run_node, run_controller)
    → check_preconditions around flags v.1 run_node ≡ r
    → start_with around flags v (run_node, run_controller) r ≡ ok t
    → IsConfigured flags t
unfolding start_with new_driver
start_with-IsConfigured around flags v run_node run_controller (err e) t h p asked c q =
    absurd (ground (arith, q))
start_with-IsConfigured around flags (args, locality) run_node run_controller (ok id) t h p asked c
      q =
    let (defined, named) = preconditions-named around flags locality run_node id c in
    let (provisions, modifies, attaches) = with_attacher around flags args locality id in
    let configured : Started = record {
      driver = new_driver around flags args locality id;
      run_node = run_node;
      run_controller = run_controller;
      volume_socket_dir = volume_socket_dir flags.mount_endpoint;
    } in
    let same : configured ≡ t = ground (arith, q) in
    subst (λ x. IsConfigured flags x) same
      (record {
        some_part = p;
        extra_args = h;
        locality = locality-center locality flags.data_center defined;
        runs_node = asked.0;
        runs_controller = asked.1;
        node_named = named;
        provisions = provisions;
        modifies = modifies;
        attaches = attaches;
      })

start_parts-IsConfigured :
    (around : Surroundings) (flags : Flags) (v : List String × DataLocality)
    (o : Option (Bool × Bool)) (t : Started)
    → validate_mount_args v.0 ≡ none
    → ((parts : Bool × Bool) → o ≡ some parts → AreAsked flags parts)
    → start_parts around flags v o ≡ ok t
    → IsConfigured flags t
unfolding start_parts
start_parts-IsConfigured around flags v none t h asked q = absurd (ground (arith, q))
start_parts-IsConfigured around flags v (some (true, run_controller)) t h asked q =
    start_with-IsConfigured around flags v true run_controller _ t h refl (asked _ refl) refl q
start_parts-IsConfigured around flags v (some (false, true)) t h asked q =
    start_with-IsConfigured around flags v false true _ t h refl (asked _ refl) refl q
start_parts-IsConfigured around flags v (some (false, false)) t h asked q =
    absurd (ground (arith, q))

start_values-IsConfigured :
    (around : Surroundings) (flags : Flags) (r : Result StartError (List String × DataLocality))
    (t : Started)
    → convert_required_values around flags ≡ r
    → start_values around flags r ≡ ok t
    → IsConfigured flags t
unfolding start_values convert_required_values
start_values-IsConfigured around flags (err e) t c q = absurd (ground (arith, q))
start_values-IsConfigured around flags (ok v) t c q =
    start_parts-IsConfigured around flags v _ t
      (convert-valid flags (around.unmarshal flags.mount_extra_args) v c)
      (λ parts e. read_components-one_of false false (split b',' flags.components) parts e) q

-- When main gets as far as to run a driver, the node runs exactly if the components name it, and so
-- does the controller, and at least one of them runs; the extra mount arguments pass
-- ValidateMountArgs, which every mount calls on them again; a driver that prefers its local data
-- center has one; a driver that runs the node has a node id; and the controller's own check lets the
-- calls for provisioning and modifying through, and those for attaching exactly if the attacher is
-- enabled.
pub start-IsConfigured :
    (around : Surroundings) (flags : Flags) (t : Started)
    → start around flags ≡ ok t
    → IsConfigured flags t
unfolding start
start-IsConfigured around flags t q =
    start_values-IsConfigured around flags (convert_required_values around flags) t refl q
