-- ===== src/Volume/Staged.antt =====
-- What a successful stage returns.
use seaweedfs_csi_driver.Base.{
  String, Bool, Option, none, some, Assoc, ◌≡◌, ◌≢◌, refl, lookup, lookup-insert, lookup-erase,
  eq_iff, arith,
}
use seaweedfs_csi_driver.Base.Exec.{Result, ok, err, Exec, attempt, ◌>>=◌, Moves}
use seaweedfs_csi_driver.Base.Returns.{
  Returns, Returns-pure, Returns-raise, Returns-then, Returns-bind,
}
use seaweedfs_csi_driver.Strconv.{ℤ}
use seaweedfs_csi_driver.Host.{Fault, Volume, NodeServer, get_volume, store_volume, delete_volume}
use seaweedfs_csi_driver.Host.Quiet.{IsQuiet}
use seaweedfs_csi_driver.Volume.{
  Mounter, mounter_mount, stage, quota, undo_stage, apply_quota, stage_with, stage_new_volume,
}

-- The volume has the id under which it is kept, and a staging path.
pub record IsSound (v : String) (vol : Volume) : Type 0 where
  pub keyed : vol.volume_id ≡ v
  pub staged : vol.staged_path ≢ ""

abbrev IsStagedAt : String → String → Volume → Type 0
IsStagedAt v path vol = (vol.volume_id ≡ v) × (vol.staged_path ≡ path)

stage-Returns :
    (m : Mounter) (vol : Volume) (path : String)
    → Returns (IsStagedAt vol.volume_id path) (stage m vol path)
unfolding stage
stage-Returns m vol path = Returns-then _ _ _ λ mounted.
    Returns-then _ _ _
      λ u. Returns-then _ (mounter_mount m path) _ (λ x. Returns-pure _ _ (refl, refl))

undo_stage-Returns :
    (P : Volume → Type 0) (vol : Volume) (path : String) (r : Result Fault (Unit {0}))
    → P vol
    → Returns P (undo_stage vol path r)
unfolding undo_stage
undo_stage-Returns P vol path (ok u) h = Returns-pure _ _ h
undo_stage-Returns P vol path (err e) h = Returns-then _ _ _ (λ r. Returns-raise _ _)

apply_quota-Returns :
    (P : Volume → Type 0) (vol : Volume) (path : String) (n : Option ℤ)
    → P vol
    → Returns P (apply_quota vol path n)
unfolding apply_quota
apply_quota-Returns P vol path none h = Returns-pure _ _ h
apply_quota-Returns P vol path (some n) h =
    Returns-then _ (attempt (quota vol.volume_id n)) _ (λ r. undo_stage-Returns P vol path r h)

stage_with-Returns :
    (v path : String) (c : Assoc String) (ro : Bool)
    → Returns (IsStagedAt v path) (stage_with v path c ro)
unfolding stage_with
stage_with-Returns v path c ro = Returns-then _ _ _ λ u. Returns-then _ _ _ λ n.
    Returns-then _ _ _ λ client. Returns-then _ _ _ λ w.
      Returns-bind _ (IsStagedAt v path) _ _ (stage-Returns _ _ path)
        (λ vol h. apply_quota-Returns _ vol path n h)

-- stageNewVolume returns a volume with the requested id, staged at the requested path.
pub stage_new_volume-Returns :
    (v path : String) (c : Assoc String) (ro : Bool)
    → Returns (λ vol. (vol.volume_id ≡ v) × (vol.staged_path ≡ path)) (stage_new_volume v path c ro)
unfolding stage_new_volume
stage_new_volume-Returns v path c ro =
    Returns-then _ _ _ (λ persisted. stage_with-Returns v path _ ro)

-- Every volume that the plugin knows is kept under its own id and has a staging path.
pub record IsWellFormed (s : NodeServer) : Type 0 where
  pub entry : (v : String) (vol : Volume) → lookup v s.volumes ≡ some vol → IsSound v vol

abbrev pub KeepsWellFormed : NodeServer → NodeServer → Type 0
KeepsWellFormed s t = IsWellFormed s → IsWellFormed t

pub KeepsWellFormed-quiet : IsQuiet KeepsWellFormed
KeepsWellFormed-quiet = record {
  order = record { reflexive = λ s h. h; transitive = λ p q h. q (p h) };
  extend = λ s e harmless h. record { entry = h.entry };
}

pub Moves-store_sound :
    {E : Type 0} (v : String) (vol : Volume)
    → IsSound v vol
    → Moves {E = E} KeepsWellFormed (store_volume v vol)
unfolding store_volume
Moves-store_sound v vol sound = record {
  at = λ s h. record {
    entry = λ w x e. ground (arith, lookup-insert v w vol s.volumes, eq_iff v w, h.entry w x);
  };
}

pub Moves-delete_sound : {E : Type 0} (v : String) → Moves {E = E} KeepsWellFormed (delete_volume v)
unfolding delete_volume
Moves-delete_sound v = record {
  at = λ s h. record { entry = λ w x e. ground (arith, lookup-erase v w s.volumes, h.entry w x) };
}

-- What a lookup finds in a well-formed state.
abbrev pub IsFound : String → Option Volume → Type 0
IsFound v none = Unit
IsFound v (some vol) = IsSound v vol

IsFound-sound :
    (v : String) (o : Option Volume) (s : NodeServer)
    → lookup v s.volumes ≡ o
    → IsWellFormed s
    → IsFound v o
IsFound-sound v none s e h = tt
IsFound-sound v (some vol) s e h = h.entry v vol e

pub Moves-get_sound :
    {E B : Type 0} (v : String) (f : Option Volume → Exec NodeServer E B)
    → ((o : Option Volume) → IsFound v o → Moves KeepsWellFormed (f o))
    → Moves KeepsWellFormed (get_volume v >>= f)
unfolding get_volume ◌>>=◌
Moves-get_sound v f kf = record {
  at = λ s h. (kf (lookup v s.volumes) (IsFound-sound v (lookup v s.volumes) s refl h)).at s h;
}
