-- ===== src/Node/Idempotence.antt =====
-- Staging is idempotent.
use seaweedfs_csi_driver.Base.{
  String, Bool, true, false, Option, none, some, ◌≡◌, refl, sym, ◌∙◌, arith, lookup, ap,
  lookup-insert, eq_refl,
}
use seaweedfs_csi_driver.Base.Exec.{ok, Exec, pure, raise, ◌>>=◌}
use seaweedfs_csi_driver.Base.Outcomes.{Ensures, Ensures-bind}
use seaweedfs_csi_driver.Host.{Volume, NodeServer, get_volume, store_volume}
use seaweedfs_csi_driver.Node.{
  RpcError, StageRequest, require, present, has_capability, stage_fresh, stage_if_healthy,
  stage_unless_cached, node_stage_volume,
}

-- The volume of the request is known.
abbrev IsKnown : StageRequest → NodeServer → Type 0
IsKnown req t = (vol : Volume) × (lookup req.volume_id t.volumes ≡ some vol)

abbrev Done : Type 0 → StageRequest → NodeServer → Type 0
Done C req t = C × IsKnown req t

-- A fact that is not about the state.
carry :
    {E A : Type 0} (C : Type 0) (P : NodeServer → Type 0) (m : Exec NodeServer E A)
    → ((s : NodeServer) → P s → C)
    → Ensures P (λ a s. C) m
carry C P m h = record { at = λ s t a p q. h s p }

require-Ensures : (C : Type 0) (b : Bool) → Ensures (λ s. C) (λ u s. C × (b ≡ true)) (require b)
unfolding require pure raise
require-Ensures C true = record { at = λ s t a p q. (p, refl) }
require-Ensures C false = record { at = λ s t a p q. absurd (ground arith) }

known-Ensures :
    {E : Type 0} (C : Type 0) (v : String)
    → Ensures {E = E} (λ s. C) (λ known s. C × (lookup v s.volumes ≡ known)) (get_volume v)
unfolding get_volume
known-Ensures C v = record {
  at = λ s t a p q. (p, ap (λ r. lookup v r.1.volumes) (sym q) ∙ ground arith);
}

store-Ensures :
    {E : Type 0} (C : Type 0) (req : StageRequest) (vol : Volume)
    → Ensures {E = E} (λ s. C) (λ u. Done C req) (store_volume req.volume_id vol)
unfolding store_volume
store-Ensures C req vol = record {
  at = λ s t a p q. (
    p,
    (
      vol,
      ap (λ r. lookup req.volume_id r.1.volumes) (sym q)
          ∙ lookup-insert req.volume_id req.volume_id vol s.volumes
          ∙ rw (eq_refl req.volume_id) refl,
    ),
  );
}

fresh-Ensures :
    (C : Type 0) (req : StageRequest) → Ensures (λ s. C) (λ u. Done C req) (stage_fresh req)
unfolding stage_fresh
fresh-Ensures C req =
    Ensures-bind _ (λ a s. C) _ _ _ (carry C _ _ (λ s p. p))
      λ info.
        Ensures-bind _ (λ a s. C) _ _ _ (carry C _ _ (λ s p. p))
          λ u.
            Ensures-bind _ (λ a s. C) _ _ _ (carry C _ _ (λ s p. p)) λ vol. store-Ensures C req vol

healthy-Ensures :
    (C : Type 0) (req : StageRequest) (b : Bool)
    → Ensures (λ s. C) (λ u. Done C req) (stage_if_healthy req b)
unfolding stage_if_healthy
healthy-Ensures C req true = store-Ensures C req _
healthy-Ensures C req false = fresh-Ensures C req

pure-Ensures :
    (C : Type 0) (req : StageRequest) (vol : Volume)
    → Ensures {E = RpcError}
        (λ s. C × (lookup req.volume_id s.volumes ≡ some vol))
        (λ u. Done C req)
        (pure tt)
unfolding pure
pure-Ensures C req vol = record {
  at = λ s t a p q. (p.0, (vol, ap (λ r. lookup req.volume_id r.1.volumes) (sym q) ∙ p.1));
}

cached-Ensures :
    (C : Type 0) (req : StageRequest) (known : Option Volume)
    → Ensures
        (λ s. C × (lookup req.volume_id s.volumes ≡ known))
        (λ u. Done C req)
        (stage_unless_cached req known)
unfolding stage_unless_cached
cached-Ensures C req none =
    Ensures-bind _ (λ a s. C) _ _ _ (carry C _ _ (λ s p. p.0)) (healthy-Ensures C req)
cached-Ensures C req (some vol) = pure-Ensures C req vol

-- The request is complete.
abbrev Complete : StageRequest → Type 0
Complete req =
    ((Unit {0} × (has_capability req.capability ≡ true)) × (present req.volume_id ≡ true))
    × (present req.staging_target_path ≡ true)

stage-Ensures :
    (req : StageRequest)
    → Ensures (λ s. Unit) (λ u. Done (Complete req) req) (node_stage_volume req)
unfolding node_stage_volume
stage-Ensures req = Ensures-bind _ _ _ _ _ (require-Ensures _ _) λ a.
    Ensures-bind _ _ _ _ _ (require-Ensures _ _) λ b.
      Ensures-bind _ _ _ _ _ (require-Ensures _ _)
        λ c. Ensures-bind _ _ _ _ _ (known-Ensures _ _) (cached-Ensures (Complete req) req)

repeat :
    (req : StageRequest) (t : NodeServer)
    → Done (Complete req) req t
    → node_stage_volume req t ≡ (ok tt, t)
unfolding node_stage_volume require get_volume stage_unless_cached ◌>>=◌
repeat req t ((((u, a), b), c), (vol, known)) = rw (a, b, c, known) refl

-- Staging is idempotent: after a NodeStageVolume that succeeded, the same request succeeds again
-- at once, and neither calls the host nor changes anything.
pub node_stage_volume_idempotent :
    (req : StageRequest) (s t : NodeServer)
    → node_stage_volume req s ≡ (ok tt, t)
    → node_stage_volume req t ≡ (ok tt, t)
node_stage_volume_idempotent req s t h = repeat req t ((stage-Ensures req).at s t tt tt h)
