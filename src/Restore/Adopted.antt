-- ===== src/Restore/Adopted.antt =====
-- The volumes that are restored.
use seaweedfs_csi_driver.Base.{
  String, Bool, true, false, ◌||◌, Option, none, some, List, [], ◌∷◌, Assoc, ◌==◌, ◌≢◌, refl, arith,
  eq_iff, Bool-cases, inl, inr,
}
use seaweedfs_csi_driver.Base.Exec.{Result, ok, err, Moves, Moves-pure, Moves-bind, moves_rules}
use seaweedfs_csi_driver.Host.{Fault, ListedMount, NodeServer}
use seaweedfs_csi_driver.Host.Quiet.{IsQuiet, host_rules}
use seaweedfs_csi_driver.Staging.Quiet.{staging_rules}
use seaweedfs_csi_driver.Volume.Staged.{
  IsSound, IsWellFormed, KeepsWellFormed, KeepsWellFormed-quiet, Moves-store_sound,
}
use seaweedfs_csi_driver.Restore.{
  adopted, paths_of, adopt, restore_live, restore_volume, restore_each, restore_listed,
  restore_with, restore_volumes,
}

ruleset restore_rules = (moves_rules, host_rules, staging_rules)

abbrev quiet : IsQuiet KeepsWellFormed
quiet = KeepsWellFormed-quiet

adopted-IsSound :
    (info : ListedMount) (paths : Assoc Bool)
    → info.target_path ≢ ""
    → IsSound info.volume_id (adopted info paths)
unfolding adopted
adopted-IsSound info paths h = record { keyed = refl; staged = h }

paths_of_steps : (path : String) (r : Result Fault String) → Moves KeepsWellFormed (paths_of path r)
unfolding paths_of
paths_of_steps path (err e) = search (restore_rules, quiet.order)
paths_of_steps path (ok d) = search (restore_rules, quiet.order, quiet)

adopt_steps :
    (info : ListedMount) (o : Option Fault)
    → info.target_path ≢ ""
    → Moves KeepsWellFormed (adopt info o)
unfolding adopt
adopt_steps info (some e) h = search (restore_rules, quiet.order)
adopt_steps info none h = Moves-bind quiet.order _ _ (search (restore_rules, quiet)) λ found.
    Moves-bind quiet.order _ _ (paths_of_steps info.target_path found) λ paths.
      Moves-bind quiet.order _ _ (Moves-store_sound info.volume_id _ (adopted-IsSound info paths h))
        λ u. Moves-pure quiet.order true

restore_live_steps :
    (info : ListedMount) (b : Bool)
    → info.target_path ≢ ""
    → Moves KeepsWellFormed (restore_live info b)
unfolding restore_live
restore_live_steps info false h = search (restore_rules, quiet.order)
restore_live_steps info true h =
    Moves-bind quiet.order _ _ (search (restore_rules, quiet.order)) λ o. adopt_steps info o h

pub restore_volume_sound : (info : ListedMount) → Moves KeepsWellFormed (restore_volume info)
unfolding restore_volume
restore_volume_sound info = elim (Bool-cases (info.volume_id == "" || info.target_path == "")) [
  | inl e ↦ rw e (Moves-pure quiet.order false)
  | inr e ↦ rw e (
      Moves-bind quiet.order _ _ (search (restore_rules, quiet.order, quiet)) λ b.
        restore_live_steps info b (λ same. absurd (ground (arith, eq_iff info.target_path ""))))
]

restore_each_sound : (infos : List ListedMount) → Moves KeepsWellFormed (restore_each infos)
unfolding restore_each
restore_each_sound [] = Moves-pure quiet.order tt
restore_each_sound (info ∷ infos) =
    Moves-bind quiet.order _ _ (restore_volume_sound info) λ b. restore_each_sound infos

restore_listed_sound : (o : Option (List ListedMount)) → Moves KeepsWellFormed (restore_listed o)
unfolding restore_listed
restore_listed_sound none = Moves-pure quiet.order tt
restore_listed_sound (some infos) = restore_each_sound infos

restore_with_sound : (o : Option Fault) → Moves KeepsWellFormed (restore_with o)
unfolding restore_with
restore_with_sound none =
    Moves-bind quiet.order _ _ (search (restore_rules, quiet)) restore_listed_sound
restore_with_sound (some e) = Moves-pure quiet.order tt

restore_volumes_sound : Moves KeepsWellFormed restore_volumes
unfolding restore_volumes
restore_volumes_sound =
    Moves-bind quiet.order _ _ (search (restore_rules, quiet.order)) restore_with_sound

-- The volumes that the driver restores at its start, whatever the mount service lists and mountinfo
-- holds, are well formed: each is kept under its own id and has a staging path.
pub restore_volumes-IsWellFormed :
    (s : NodeServer) → IsWellFormed s → IsWellFormed (restore_volumes s).1
restore_volumes-IsWellFormed s h = restore_volumes_sound.at s h
