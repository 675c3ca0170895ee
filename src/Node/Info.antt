-- ===== src/Node/Info.antt =====
-- What the node and the plugin tell the orchestrator of themselves: NodeGetInfo,
-- nodeTopologySegments and NodeGetCapabilities of pkg/driver/nodeserver.go, and GetPluginInfo,
-- GetPluginCapabilities of pkg/driver/identityserver.go. The node's labels are an argument.
use seaweedfs_csi_driver.Base.{
  String, Bool, true, false, Option, none, some, List, [], ◌∷◌, ◌++◌, Assoc, lookup, insert,
  lookup-insert, if◌then◌else◌, ◌==◌, ◌≡◌, refl, sym, ap, ◌∙◌, arith, eq_iff,
}
use seaweedfs_csi_driver.Base.Exec.{Result, ok, err}
use seaweedfs_csi_driver.Params.{one_of}
use seaweedfs_csi_driver.Driver.{Driver}
use seaweedfs_csi_driver.Node.{Code, internal}

add_segment : String → Option String → Assoc String → Assoc String
add_segment key none segments = segments
add_segment key (some value) segments = insert key value segments

-- The loop of nodeTopologySegments.
unfoldable pub collect_segments : Assoc String → List String → Assoc String → Assoc String
unfolding add_segment
collect_segments labels [] segments = segments
collect_segments labels (key ∷ keys) segments =
    collect_segments labels keys (add_segment key (lookup key labels) segments)

-- nodeTopologySegments; `labels` is none where they cannot be read.
unfoldable pub node_topology_segments :
    List String → Option (Assoc String) → Result Code (Assoc String)
unfolding collect_segments
node_topology_segments [] labels = ok []
node_topology_segments (key ∷ keys) none = err internal
node_topology_segments (key ∷ keys) (some labels) = ok (collect_segments labels (key ∷ keys) [])

pub record NodeInfo : Type 0 where
  pub node_id : String
  pub accessible_topology : Option (Assoc String)

topology_of : Assoc String → Option (Assoc String)
topology_of [] = none
topology_of (entry ∷ segments) = some (entry ∷ segments)

info_of : Driver → Result Code (Assoc String) → Result Code NodeInfo
unfolding topology_of
info_of d (err c) = err c
info_of d (ok segments) =
    ok (record { node_id = d.node_id; accessible_topology = topology_of segments })

-- NodeGetInfo.
unfoldable pub node_get_info : Driver → Option (Assoc String) → Result Code NodeInfo
unfolding info_of node_topology_segments
node_get_info d labels = info_of d (node_topology_segments d.topology_keys labels)

pub data NodeCapability : Type 0 where
  stage_unstage_volume node_expand_volume get_volume_stats : NodeCapability

-- NodeGetCapabilities.
abbrev pub node_get_capabilities : List NodeCapability
node_get_capabilities = stage_unstage_volume ∷ node_expand_volume ∷ get_volume_stats ∷ []

pub data PluginCapability : Type 0 where
  controller_service online_expansion volume_accessibility_constraints : PluginCapability

topology_capability : List String → List PluginCapability
topology_capability [] = []
topology_capability (key ∷ keys) = volume_accessibility_constraints ∷ []

-- GetPluginCapabilities.
unfoldable pub get_plugin_capabilities : Driver → List PluginCapability
unfolding topology_capability
get_plugin_capabilities d =
    (controller_service ∷ online_expansion ∷ []) ++ topology_capability d.topology_keys

-- The plugin says that its volumes are not accessible from every node.
abbrev pub declares_topology : List PluginCapability → Bool
declares_topology [] = false
declares_topology (volume_accessibility_constraints ∷ capabilities) = true
declares_topology (controller_service ∷ capabilities) = declares_topology capabilities
declares_topology (online_expansion ∷ capabilities) = declares_topology capabilities

lookup-add_segment :
    (k key : String) (o : Option String) (segments : Assoc String)
    → lookup k (add_segment key o segments) ≡ (
        if key == k
        then (elim o [ none ↦ lookup k segments | some v ↦ some v ])
        else lookup k segments)
unfolding add_segment
lookup-add_segment k key none segments = ground arith
lookup-add_segment k key (some v) segments = lookup-insert key k v segments

-- The segments that the loop adds hide those before only where a key is one of the list.
lookup-collect_segments :
    (k : String) (labels : Assoc String) (keys : List String) (segments : Assoc String)
    → lookup k (collect_segments labels keys segments) ≡ (
        if one_of k keys
        then (elim (lookup k labels) [ none ↦ lookup k segments | some v ↦ some v ])
        else lookup k segments)
unfolding collect_segments one_of
lookup-collect_segments k labels [] segments = refl
lookup-collect_segments k labels (key ∷ keys) segments =
    let rest =
      lookup-collect_segments k labels keys (add_segment key (lookup key labels) segments) in
    ground (
      arith,
      rest,
      lookup-add_segment k key (lookup key labels) segments,
      eq_iff key k,
      eq_iff k key,
    )

-- The segments of a topology, and that the plugin has declared it.
pub record IsTopology (d : Driver) (labels : Assoc String) (segments : Assoc String) : Type 0 where
  pub declared : declares_topology (get_plugin_capabilities d) ≡ true
  pub values :
      (k : String)
      → lookup k segments ≡ (if one_of k d.topology_keys then lookup k labels else none)

topology_of-some :
    (segments : Assoc String) (topology : Assoc String)
    → topology_of segments ≡ some topology
    → segments ≡ topology
unfolding topology_of
topology_of-some [] topology h = absurd (ground (arith, h))
topology_of-some (entry ∷ segments) topology h = ground (arith, h)

over_nothing :
    (k : String) (b : Bool) (o : Option String)
    → (if b then (elim o [ none ↦ lookup {V = String} k [] | some v ↦ some v ]) else lookup k [])
      ≡ (if b then o else none)
unfolding lookup
over_nothing k true none = refl
over_nothing k true (some v) = refl
over_nothing k false o = refl

info-IsTopology :
    (d : Driver) (keys : List String) (labels topology : Assoc String) (info : NodeInfo)
    → d.topology_keys ≡ keys
    → info_of d (node_topology_segments keys (some labels)) ≡ ok info
    → info.accessible_topology ≡ some topology
    → IsTopology d labels topology
unfolding info_of node_topology_segments topology_of get_plugin_capabilities topology_capability
info-IsTopology d [] labels topology info same q h = absurd (ground (arith, q, h))
info-IsTopology d (key ∷ keys) labels topology info same q h =
    let segments : Assoc String = collect_segments labels (key ∷ keys) [] in
    let told : topology_of segments ≡ some topology = ground (arith, q, h) in
    let equal = topology_of-some segments topology told in
    record {
      declared = rw same refl;
      values = λ k. rw same (
          ap (lookup k) (sym equal)
          ∙ lookup-collect_segments k labels (key ∷ keys) []
          ∙ over_nothing k (one_of k (key ∷ keys)) (lookup k labels));
    }

-- Where NodeGetInfo reports a topology, GetPluginCapabilities declares that volumes have one, as the
-- orchestrator requires; and the topology has the node's label of each configured key that the node
-- has, and nothing else.
pub node_get_info-IsTopology :
    (d : Driver) (labels topology : Assoc String) (info : NodeInfo)
    → node_get_info d (some labels) ≡ ok info
    → info.accessible_topology ≡ some topology
    → IsTopology d labels topology
unfolding node_get_info
node_get_info-IsTopology d labels topology info q h =
    info-IsTopology d d.topology_keys labels topology info refl q h
