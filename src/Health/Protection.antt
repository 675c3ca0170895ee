-- ===== src/Health/Protection.antt =====
-- A slow probe is no reason to tear down a working mount.
use seaweedfs_csi_driver.Base.{String, Bool, true, List, [], ◌∷◌, Assoc, ◌≡◌, refl, sym, ◌∙◌, subst}
use seaweedfs_csi_driver.Base.Exec.{Result, err, ok, IsPreorder}
use seaweedfs_csi_driver.Host.{
  Event, device_read, Fault, Act, asked, acted, noted, History, Host, Volume, NodeServer, stat,
  is_mount_point, within_budget,
}

-- The calls of a history that change something outside the plugin.
abbrev pub acts : History → List Act
acts [] = []
acts (acted a r ∷ log) = a ∷ acts log
acts (asked q r ∷ log) = acts log
acts (noted n ∷ log) = acts log

-- The history goes on from `old`.
pub data Extends (old : History) : History → Type 0 where
  same : Extends old old
  longer : (e : Event) (log : History) → Extends old log → Extends old (e ∷ log)

-- The history goes on from `old`, and the device of the path was asked for since.
pub data Devised (path : String) (old : History) : History → Type 0 where
  reached : (log : History) → Extends old log → Devised path old (noted (device_read path) ∷ log)
  later : (e : Event) (log : History) → Devised path old log → Devised path old (e ∷ log)

-- From `old` on, whenever it is asked, the host says that the path exists and is a mount point. A
-- probe answers in time once the device of the path was asked for: the health probe that is made
-- before that may miss its time budget.
pub record StaysLive (h : Host) (path : String) (old : History) : Type 0 where
  pub stats : (log : History) → (b : Bool) × (h.answer log (stat path) ≡ ok b)
  pub mounted : (log : History) → h.answer log (is_mount_point path) ≡ ok true
  pub prompt : (log : History) → Devised path old log → h.answer log (within_budget path) ≡ ok true

-- Nothing but questions, notes and the backoff.
pub record IsCalm (s t : NodeServer) : Type 0 where
  pub host : t.host ≡ s.host
  pub volumes : t.volumes ≡ s.volumes
  pub log : acts t.log ≡ acts s.log

-- Steps from a history of which `K` holds, while the path stays live.
module _ (path : String) (old : History) (K : History → Type 0)
    (grows : (e : Event) (log : History) → K log → K (e ∷ log)) where
  abbrev WhileLive : NodeServer → NodeServer → Type 0
  WhileLive s t = StaysLive s.host path old → K s.log → IsCalm s t × K t.log

  while_live : IsPreorder WhileLive
  while_live = record {
    reflexive = λ s h k. (record { host = refl; volumes = refl; log = refl }, k);
    transitive = λ {s} p q h k.
        let (first, kept) = p h k in
        let (then', kept') = q (subst (λ x. StaysLive x path old) (sym first.host) h) kept in
        (
          record {
            host = then'.host ∙ first.host;
            volumes = then'.volumes ∙ first.volumes;
            log = then'.log ∙ first.log;
          },
          kept',
        );
  }

abbrev found_in : Result Fault (Result Fault String) → Result Fault String
found_in (ok found) = found
found_in (err e) = err e

module _ (v : String) (vol : Volume) (old : History) {p : String × Bool} {ps : Assoc Bool}
    (published : vol.publish_paths ≡ p ∷ ps) where
  -- Before and after the device of the staging path was asked for.
  abbrev Before : NodeServer → NodeServer → Type 0
  Before = WhileLive vol.staged_path old (Extends old) longer

  abbrev After : NodeServer → NodeServer → Type 0
  After = WhileLive vol.staged_path old (Devised vol.staged_path old) later

  abbrev before : IsPreorder Before
  before = while_live vol.staged_path old (Extends old) longer

  abbrev after : IsPreorder After
  after = while_live vol.staged_path old (Devised vol.staged_path old) later
