-- ===== src/Host/Quiet.antt =====
-- Relations between states that no call of the host breaks, recursive removals apart.
use seaweedfs_csi_driver.Base.{String, ◌∷◌}
use seaweedfs_csi_driver.Base.Exec.{Moves, IsPreorder}
use seaweedfs_csi_driver.Host.Calls.{
  Ask, Act, Note, Event, asked, acted, noted, remove_all, attributes_read, capacity_read,
  device_read, publish_paths_read, mounts_listed,
}
use seaweedfs_csi_driver.Host.State.{
  NodeServer, put_log, ask, act, note, now, read_attributes, read_capacity, read_device, get_volume,
  read_publish_paths, list_mounts,
}

abbrev pub IsHarmlessAct : Act → Type 0
IsHarmlessAct (remove_all path) = ⊥
IsHarmlessAct _ = Unit

abbrev pub IsHarmless : Event → Type 0
IsHarmless (acted a r) = IsHarmlessAct a
IsHarmless _ = Unit

pub record IsQuiet (R : NodeServer → NodeServer → Type 0) : Type 0 where
  pub order : IsPreorder R
  pub extend : (s : NodeServer) (e : Event) → IsHarmless e → R s (put_log s (e ∷ s.log))

module _ {R : NodeServer → NodeServer → Type 0} (q : IsQuiet R) where
  pub Moves-ask : {E : Type 0} (c : Ask) → Moves {E = E} R (ask c)
  unfolding ask
  Moves-ask c = record { at = λ s. q.extend s (asked c (s.host.answer s.log c)) tt }

  pub Moves-act : {E : Type 0} (c : Act) → IsHarmlessAct c → Moves {E = E} R (act c)
  unfolding act
  Moves-act c h = record { at = λ s. q.extend s (acted c (s.host.outcome s.log c)) h }

  pub Moves-note : {E : Type 0} (n : Note) → Moves {E = E} R (note n)
  unfolding note
  Moves-note n = record { at = λ s. q.extend s (noted n) tt }

  pub Moves-now : {E : Type 0} → Moves {E = E} R now
  unfolding now
  Moves-now = record { at = λ s. q.order.reflexive s }

  pub Moves-read_attributes : {E : Type 0} (v : String) → Moves {E = E} R (read_attributes v)
  unfolding read_attributes
  Moves-read_attributes v = record { at = λ s. q.extend s (noted (attributes_read v)) tt }

  pub Moves-read_capacity : {E : Type 0} (v : String) → Moves {E = E} R (read_capacity v)
  unfolding read_capacity
  Moves-read_capacity v = record { at = λ s. q.extend s (noted (capacity_read v)) tt }

  pub Moves-read_device : {E : Type 0} (p : String) → Moves {E = E} R (read_device p)
  unfolding read_device
  Moves-read_device p = record { at = λ s. q.extend s (noted (device_read p)) tt }

  pub Moves-read_publish_paths :
      {E : Type 0} (d p : String) → Moves {E = E} R (read_publish_paths d p)
  unfolding read_publish_paths
  Moves-read_publish_paths d p = record { at = λ s. q.extend s (noted (publish_paths_read p)) tt }

  pub Moves-list_mounts : {E : Type 0} → Moves {E = E} R list_mounts
  unfolding list_mounts
  Moves-list_mounts = record { at = λ s. q.extend s (noted mounts_listed) tt }

  pub Moves-get_volume : {E : Type 0} (v : String) → Moves {E = E} R (get_volume v)
  unfolding get_volume
  Moves-get_volume v = record { at = λ s. q.order.reflexive s }

pub ruleset host_rules = (
  Moves-ask, Moves-act, Moves-note, Moves-now, Moves-read_attributes, Moves-read_capacity,
  Moves-read_device, Moves-get_volume, Moves-read_publish_paths, Moves-list_mounts,
)
