-- ===== src/Node/WellFormed.antt =====
-- The RPCs keep the plugin's map well formed.
use seaweedfs_csi_driver.Base.{
  String, Bool, true, false, Option, none, some, ◌≡◌, ◌≢◌, refl, sym, ◌∙◌, ap, lookup, arith,
  eq_iff,
}
use seaweedfs_csi_driver.Base.Exec.{
  Exec, modify, ◌>>=◌, Moves, Moves-bind, Moves-pure, Moves-with_error, moves_rules,
}
use seaweedfs_csi_driver.Base.Returns.{
  Returns, Returns-pure, Returns-raise, Returns-then, Returns-bind, Returns-with_error,
  Moves-bind-Returns,
}
use seaweedfs_csi_driver.Host.{Volume, NodeServer, ask, act, note, store_volume, stat}
use seaweedfs_csi_driver.Host.Quiet.{host_rules}
use seaweedfs_csi_driver.Staging.{cleanup_stale_staging_path}
use seaweedfs_csi_driver.Staging.Quiet.{staging_rules}
use seaweedfs_csi_driver.Volume.Quiet.{
  volume_rules, Moves-stage_new_volume, Moves-publish, Moves-unpublish,
}
use seaweedfs_csi_driver.Volume.Staged.{
  IsSound, KeepsWellFormed, KeepsWellFormed-quiet, Moves-store_sound, Moves-delete_sound,
  Moves-get_sound, IsFound, stage_new_volume-Returns,
}
use seaweedfs_csi_driver.Node.{
  RpcError, StageRequest, PublishRequest, require, present, has_capability, is_stale, stage_error,
  internal_error, cleanup_if, stage_fresh, stage_if_healthy, stage_unless_cached, node_stage_volume,
  restage, heal, known_volume, node_publish_volume, unpublish_known, node_unpublish_volume,
  unstage_known, forget_backoff, node_unstage_volume,
}
use seaweedfs_csi_driver.Node.Steps.{Moves-require, Moves-cleanup_garbage}

ruleset sound_rules = (moves_rules, host_rules, staging_rules, volume_rules)

cleanup_volumes :
    (path : String) → Moves (λ s t. t.volumes ≡ s.volumes) (cleanup_stale_staging_path path)
unfolding cleanup_stale_staging_path ask act note ◌>>=◌
cleanup_volumes path = record { at = λ s. ground arith }

pub cleanup_sound : (path : String) → Moves KeepsWellFormed (cleanup_stale_staging_path path)
cleanup_sound path = record {
  at = λ s h. record {
    entry = λ v vol l. h.entry v vol (ap (lookup v) (sym ((cleanup_volumes path).at s)) ∙ l);
  };
}

pub require-Returns : (b : Bool) → Returns (λ u. b ≡ true) (require b)
unfolding require
require-Returns true = Returns-pure _ tt refl
require-Returns false = Returns-raise _ _

pub present_ne : (s : String) → present s ≡ true → s ≢ ""
present_ne s h = ground (arith, eq_iff s "")

-- The rest of an RPC after a guard, with what the guard says.
after_require :
    {B : Type 0} (b : Bool) (f : Unit {0} → Exec NodeServer RpcError B)
    → (b ≡ true → Moves KeepsWellFormed (f tt))
    → Moves KeepsWellFormed (require b >>= f)
after_require b f k =
    Moves-bind-Returns KeepsWellFormed-quiet.order (λ u. b ≡ true) (require b) f
      (Moves-require KeepsWellFormed-quiet b) (require-Returns b) (λ u e. k e)

module _ (req : StageRequest) (staged : req.staging_target_path ≢ "") where
  stage_fresh_sound : Moves KeepsWellFormed (stage_fresh req)
  unfolding stage_fresh
  stage_fresh_sound =
      Moves-bind KeepsWellFormed-quiet.order (ask (stat req.staging_target_path)) _
        (search (host_rules, KeepsWellFormed-quiet))
        λ info.
          Moves-bind KeepsWellFormed-quiet.order
            (cleanup_if (is_stale info) req.staging_target_path) _
            (cleanup_if_sound (is_stale info))
            λ u.
              Moves-bind-Returns KeepsWellFormed-quiet.order _ _ _
                (Moves-with_error KeepsWellFormed-quiet.order stage_error _
                  (Moves-stage_new_volume KeepsWellFormed-quiet _ _ _ _))
                (Returns-with_error _ stage_error _ (stage_new_volume-Returns _ _ _ _))
                λ vol h.
                  Moves-store_sound _ vol
                    (record { keyed = h.0; staged = λ e. staged (sym h.1 ∙ e) })
    where
      cleanup_if_sound : (b : Bool) → Moves KeepsWellFormed (cleanup_if b req.staging_target_path)
      cleanup_if_sound true =
          unfold cleanup_if in search (moves_rules, KeepsWellFormed-quiet.order, cleanup_sound)
      cleanup_if_sound false =
          unfold cleanup_if in search (moves_rules, KeepsWellFormed-quiet.order)

  stage_if_healthy_sound : (b : Bool) → Moves KeepsWellFormed (stage_if_healthy req b)
  unfolding stage_if_healthy
  stage_if_healthy_sound true = Moves-store_sound _ _ (record { keyed = refl; staged = staged })
  stage_if_healthy_sound false = stage_fresh_sound

  stage_unless_cached_sound :
      (o : Option Volume) → Moves KeepsWellFormed (stage_unless_cached req o)
  unfolding stage_unless_cached
  stage_unless_cached_sound (some vol) = search (moves_rules, KeepsWellFormed-quiet.order)
  stage_unless_cached_sound none =
      search
        (sound_rules, KeepsWellFormed-quiet.order, KeepsWellFormed-quiet, stage_if_healthy_sound)

-- NodeStageVolume keeps the map well formed.
pub node_stage_volume_sound : (req : StageRequest) → Moves KeepsWellFormed (node_stage_volume req)
unfolding node_stage_volume
node_stage_volume_sound req = after_require (has_capability req.capability) _ λ c.
    after_require (present req.volume_id) _ λ d.
      after_require (present req.staging_target_path) _ λ e.
        Moves-get_sound req.volume_id _ (λ o h. stage_unless_cached_sound req (present_ne _ e) o)

module _ (req : PublishRequest) (staged : req.staging_target_path ≢ "") where
  restage_sound : Moves KeepsWellFormed (restage req)
  unfolding restage
  restage_sound =
      Moves-bind KeepsWellFormed-quiet.order _ _
        (Moves-with_error KeepsWellFormed-quiet.order internal_error _ (cleanup_sound _))
        λ u.
          Moves-bind-Returns KeepsWellFormed-quiet.order _ _ _
            (Moves-with_error KeepsWellFormed-quiet.order internal_error _
              (Moves-stage_new_volume KeepsWellFormed-quiet _ _ _ _))
            (Returns-with_error _ internal_error _ (stage_new_volume-Returns _ _ _ _))
            λ vol h.
              Moves-bind KeepsWellFormed-quiet.order (store_volume req.volume_id vol) _
                (Moves-store_sound _ vol
                  (record { keyed = h.0; staged = λ e. staged (sym h.1 ∙ e) }))
                (λ x. Moves-pure KeepsWellFormed-quiet.order vol)

  restage-Returns : Returns (IsSound req.volume_id) (restage req)
  unfolding restage
  restage-Returns = Returns-then _ _ _ λ u.
      Returns-bind _ _ _ _
        (Returns-with_error _ internal_error _ (stage_new_volume-Returns _ _ _ _))
        λ vol h.
          Returns-then _ (store_volume req.volume_id vol) _
            (λ x. Returns-pure _ vol (record { keyed = h.0; staged = λ e. staged (sym h.1 ∙ e) }))

  heal_sound : (b : Bool) → Moves KeepsWellFormed (heal req b)
  unfolding heal
  heal_sound true =
      Moves-bind KeepsWellFormed-quiet.order _ _
        (Moves-store_sound _ _ (record { keyed = refl; staged = staged }))
        (λ x. Moves-pure KeepsWellFormed-quiet.order _)
  heal_sound false = restage_sound

  heal-Returns : (b : Bool) → Returns (IsSound req.volume_id) (heal req b)
  unfolding heal
  heal-Returns true =
      Returns-then _ _ _ (λ x. Returns-pure _ _ (record { keyed = refl; staged = staged }))
  heal-Returns false = restage-Returns

  known_volume_sound : (o : Option Volume) → Moves KeepsWellFormed (known_volume req o)
  unfolding known_volume
  known_volume_sound (some vol) = search (moves_rules, KeepsWellFormed-quiet.order)
  known_volume_sound none =
      search (sound_rules, KeepsWellFormed-quiet.order, KeepsWellFormed-quiet, heal_sound)

  known_volume-Returns :
      (o : Option Volume)
      → IsFound req.volume_id o
      → Returns (IsSound req.volume_id) (known_volume req o)
  unfolding known_volume
  known_volume-Returns (some vol) h = Returns-pure _ vol h
  known_volume-Returns none h = Returns-then _ _ _ (λ b. heal-Returns b)

-- NodePublishVolume keeps the map well formed.
pub node_publish_volume_sound :
    (req : PublishRequest) → Moves KeepsWellFormed (node_publish_volume req)
unfolding node_publish_volume
node_publish_volume_sound req = after_require (has_capability req.capability) _ λ a.
    after_require (present req.volume_id) _ λ b. after_require (present req.target_path) _ λ c.
      after_require (present req.staging_target_path) _ λ d.
        Moves-get_sound req.volume_id _ λ o found.
          Moves-bind-Returns KeepsWellFormed-quiet.order _ _ _
            (known_volume_sound req (present_ne _ d) o)
            (known_volume-Returns req (present_ne _ d) o found)
            λ vol sound.
              Moves-bind KeepsWellFormed-quiet.order _ _
                (Moves-with_error KeepsWellFormed-quiet.order internal_error _
                  (Moves-publish KeepsWellFormed-quiet _ _ _))
                λ u. Moves-store_sound _ _ (record { keyed = sound.keyed; staged = sound.staged })

unpublish_known_sound :
    (v p : String) (o : Option Volume) → IsFound v o → Moves KeepsWellFormed (unpublish_known v p o)
unfolding unpublish_known
unpublish_known_sound v p none h = Moves-cleanup_garbage KeepsWellFormed-quiet p
unpublish_known_sound v p (some vol) h =
    Moves-bind KeepsWellFormed-quiet.order _ _
      (Moves-with_error KeepsWellFormed-quiet.order internal_error _
        (Moves-unpublish KeepsWellFormed-quiet p))
      (λ u. Moves-store_sound _ _ (record { keyed = h.keyed; staged = h.staged }))

-- NodeUnpublishVolume keeps the map well formed.
pub node_unpublish_volume_sound : (v p : String) → Moves KeepsWellFormed (node_unpublish_volume v p)
unfolding node_unpublish_volume
node_unpublish_volume_sound v p =
    after_require (present v) _ λ a.
      after_require (present p) _ λ b. Moves-get_sound v _ (λ o h. unpublish_known_sound v p o h)

unstage_known_sound :
    (v p : String) (o : Option Volume) → Moves KeepsWellFormed (unstage_known v p o)
unfolding unstage_known
unstage_known_sound v p none =
    search (sound_rules, KeepsWellFormed-quiet.order, KeepsWellFormed-quiet, Moves-cleanup_garbage)
unstage_known_sound v p (some vol) =
    search (sound_rules, KeepsWellFormed-quiet.order, KeepsWellFormed-quiet, Moves-delete_sound)

forget_sound : (v : String) → Moves {E = RpcError} KeepsWellFormed (modify (forget_backoff v))
unfolding modify forget_backoff
forget_sound v = record { at = λ s h. record { entry = h.entry } }

-- NodeUnstageVolume keeps the map well formed.
pub node_unstage_volume_sound : (v p : String) → Moves KeepsWellFormed (node_unstage_volume v p)
unfolding node_unstage_volume
node_unstage_volume_sound v p =
    search
      (
        sound_rules, KeepsWellFormed-quiet.order, KeepsWellFormed-quiet, Moves-require,
        unstage_known_sound, forget_sound,
      )
      depth 12
