-- ===== src/Remount/Choice.antt =====
-- Which processes and mounts the remounts take.
use seaweedfs_csi_driver.Base.{
  ℕ, String, Bool, true, ◌&&◌, Option, none, some, List, [], ◌∷◌, All, ◌≡◌, ◌≢◌, ◌⊎◌, inl, inr,
  refl, arith, eq_refl, Bool-cases, ap,
}
use seaweedfs_csi_driver.Params.{one_of}
use seaweedfs_csi_driver.Chars.{has_text_prefix}
use seaweedfs_csi_driver.MountInfo.{MountInfoEntry, bind_source}
use seaweedfs_csi_driver.Remount.{
  Process, Proc, Remount, underscored, names_pod, fresh_namespace, see, pids_of,
  find_container_pids,
}

-- The process has a mount namespace, which is not `ns`.
abbrev Elsewhere : String → Process → Type 0
Elsewhere ns p = (other : String) × (p.namespace ≡ some other) × (other ≢ ns)

-- No two of the processes are in one mount namespace.
abbrev pub OnePerNamespace : List Process → Type 0
OnePerNamespace [] = Unit
OnePerNamespace (p ∷ ps) =
    ((ns : String) × (p.namespace ≡ some ns) × All (Elsewhere ns) ps) × OnePerNamespace ps

fresh_elsewhere :
    (own ns : String) (seen : List String) (o : Option String)
    → one_of ns seen ≡ true
    → fresh_namespace own seen o ≡ true
    → (other : String) × (o ≡ some other) × (other ≢ ns)
unfolding fresh_namespace
fresh_elsewhere own ns seen none h f = absurd (ground arith)
fresh_elsewhere own ns seen (some other) h f = (
  other,
  refl,
  λ same. absurd (
      let both : one_of other seen ≡ one_of ns seen = ap (λ x. one_of x seen) same in ground arith),
)

see_keeps :
    (ns : String) (seen : List String) (o : Option String)
    → one_of ns seen ≡ true
    → one_of ns (see o seen) ≡ true
unfolding see one_of
see_keeps ns seen none h = h
see_keeps ns seen (some other) h = ground arith

pids-Elsewhere :
    (ns uid normalized own : String) (seen : List String) (ps : List Process)
    → one_of ns seen ≡ true
    → All (Elsewhere ns) (pids_of uid normalized own seen ps)
unfolding pids_of
pids-Elsewhere ns uid normalized own seen [] h = tt
pids-Elsewhere ns uid normalized own seen (p ∷ ps) h = elim (Bool-cases (taken p)) [
  | inl e ↦ rw e (
    fresh_elsewhere own ns seen p.namespace h (ground arith),
    pids-Elsewhere ns uid normalized own (see p.namespace seen) ps
        (see_keeps ns seen p.namespace h),
  )
  | inr e ↦ rw e (pids-Elsewhere ns uid normalized own seen ps h)
]
  where
    taken : Process → Bool
    taken p = names_pod uid normalized p.cgroup && fresh_namespace own seen p.namespace

first-Elsewhere :
    (uid normalized own : String) (seen : List String) (o : Option String) (ps : List Process)
    → fresh_namespace own seen o ≡ true
    → (ns : String) × (o ≡ some ns)
      × All (Elsewhere ns) (pids_of uid normalized own (see o seen) ps)
unfolding fresh_namespace see one_of
first-Elsewhere uid normalized own seen none ps f = absurd (ground arith)
first-Elsewhere uid normalized own seen (some ns) ps f =
    (ns, refl, pids-Elsewhere ns uid normalized own (ns ∷ seen) ps (ground (arith, eq_refl ns)))

pids_of-OnePerNamespace :
    (uid normalized own : String) (seen : List String) (ps : List Process)
    → OnePerNamespace (pids_of uid normalized own seen ps)
unfolding pids_of
pids_of-OnePerNamespace uid normalized own seen [] = tt
pids_of-OnePerNamespace uid normalized own seen (p ∷ ps) = elim (Bool-cases (taken p)) [
  | inl e ↦ rw e (
    first-Elsewhere uid normalized own seen p.namespace ps (ground arith),
    pids_of-OnePerNamespace uid normalized own (see p.namespace seen) ps,
  )
  | inr e ↦ rw e (pids_of-OnePerNamespace uid normalized own seen ps)
]
  where
    taken : Process → Bool
    taken p = names_pod uid normalized p.cgroup && fresh_namespace own seen p.namespace

-- The driver enters each mount namespace at most once: the processes that it finds for a pod are in
-- pairwise different mount namespaces.
pub find_container_pids-OnePerNamespace :
    (proc : Proc) (uid : String) → OnePerNamespace (find_container_pids proc uid)
unfolding find_container_pids
find_container_pids-OnePerNamespace proc uid = go proc.processes
  where
    go :
        (o : Option (List Process))
        → OnePerNamespace (elim o [
          | none ↦ []
          | some ps ↦ pids_of uid (underscored uid) proc.self_namespace [] ps
        ])
    go none = tt
    go (some ps) = pids_of-OnePerNamespace uid (underscored uid) proc.self_namespace [] ps

-- An element of the list satisfies the predicate.
abbrev pub Some : {A : Type 0} → (A → Type 0) → List A → Type 0
Some P [] = ⊥
Some P (x ∷ xs) = P x ⊎ Some P xs

-- The remount replaces the mount of the entry: a stale FUSE mount of a device other than `device`,
-- from the same subdirectory of the staging path.
abbrev pub Replaces : Proc → String → String → Bool → Remount → MountInfoEntry → Type 0
Replaces proc device staging_path read_only r e =
    (has_text_prefix "fuse" e.fstype ≡ true)
    × (e.fstype ≢ "fusectl")
    × (e.device ≢ device)
    × (proc.is_dead r.pid e.mountpoint ≡ true)
    × (r.mountpoint ≡ e.mountpoint)
    × (r.source ≡ bind_source staging_path e.root)
    × (r.read_only ≡ read_only)

-- The remount replaces one of the mounts that mountinfo lists for the process, which is one of those
-- in the list.
abbrev pub IsStaleRemount : Proc → List Process → String → String → Bool → Remount → Type 0
IsStaleRemount proc ps device staging_path read_only r =
    Some
      (λ p.
        (r.pid ≡ p.pid)
        × ((entries : List MountInfoEntry) × (proc.mounts p.pid ≡ some entries)
            × Some (Replaces proc device staging_path read_only r) entries))
      ps

module _ (proc : Proc) (device staging_path : String) (ro : Bool) where
  -- The remount is one of the process, for one of the entries.
  abbrev OfEntries : ℕ → List MountInfoEntry → Remount → Type 0
  OfEntries pid entries r = (r.pid ≡ pid) × Some (Replaces proc device staging_path ro r) entries
