-- ===== src/MountManager/Tracking/Running.antt =====
-- The running processes that the manager knows of.
use seaweedfs_csi_driver.Base.{
  ℕ, ltb, eqb, String, true, false, ◌||◌, Option, none, some, List, [], ◌∷◌, lookup, erase,
  lookup-erase, lookup-erase_other, eq_refl, ◌≡◌, inl, inr, refl, ◌∙◌, subst, arith, Bool-cases,
  ◌==◌,
}
use seaweedfs_csi_driver.MountManager.{MountRequest, MountFault}
use seaweedfs_csi_driver.MountManager.Machine.{
  MountEntry, Phase, free, starting, awaiting, launching, aborting, storing, stopping, clearing,
  Manager, new_manager, set_number, watched, watch_process_exit, locked_mount, found,
  locked_unmount, exit, finish, Event, mounts_volume, unmounts_volume, advances, exits, finishes,
  watches, handle, handle_all,
}
use seaweedfs_csi_driver.MountManager.Tracking.{
  Fits, Settled, Settled-Leaves, Settled-none, IsRunning, entry_has, phase_has,
}
use seaweedfs_csi_driver.MountManager.Tracking.Steps.{
  IsTracked, changed, enter-IsTracked, replied-IsTracked, reply-IsTracked, Leaves-same,
}
use seaweedfs_csi_driver.MountManager.Tracking.Handlers.{
  here, look-IsTracked, advance-IsTracked, next,
}

module _ (s : Manager) (c : IsTracked s) where
  mount-IsTracked :
      (req : MountRequest) (o : Option MountFault) (p : Phase)
      → s.phase req.volume_id ≡ p
      → IsTracked (locked_mount req o p s)
  unfolding locked_mount
  mount-IsTracked req (some e) p f = replied-IsTracked s _ c
  mount-IsTracked req none free f = look-IsTracked s c req (lookup req.volume_id s.mounts) refl f
  mount-IsTracked req none (starting q) f = c
  mount-IsTracked req none (awaiting q n) f = c
  mount-IsTracked req none (launching q n) f = c
  mount-IsTracked req none (aborting n e) f = c
  mount-IsTracked req none (storing e) f = c
  mount-IsTracked req none (stopping e) f = c
  mount-IsTracked req none (clearing e) f = c

  found-IsTracked :
      (v : String) (o : Option MountEntry)
      → lookup v s.mounts ≡ o
      → s.phase v ≡ free
      → IsTracked (found v o s)
  unfolding found
  found-IsTracked v none e f = reply-IsTracked v _ s (here s c v free f) c
  found-IsTracked v (some entry) e f =
      enter-IsTracked v (stopping entry) s
        (next s c v free (stopping entry) f (λ n q. q) (rw e refl)) c

  unmount-IsTracked : (v : String) (p : Phase) → s.phase v ≡ p → IsTracked (locked_unmount v p s)
  unfolding locked_unmount
  unmount-IsTracked v free f = found-IsTracked v (lookup v s.mounts) refl f
  unmount-IsTracked v (starting q) f = c
  unmount-IsTracked v (awaiting q n) f = c
  unmount-IsTracked v (launching q n) f = c
  unmount-IsTracked v (aborting n e) f = c
  unmount-IsTracked v (storing e) f = c
  unmount-IsTracked v (stopping e) f = c
  unmount-IsTracked v (clearing e) f = c

  erased-IsTracked :
      (v : String) (e : MountEntry)
      → lookup v s.mounts ≡ some e
      → s.done e.process ≡ true
      → IsTracked (record s { mounts = erase v s.mounts })
  erased-IsTracked v e q d =
      changed s (record s { mounts = erase v s.mounts }) v none (s.phase v)
        (lookup-erase v v s.mounts ∙ rw (eq_refl v) refl) refl
        (Settled-Leaves s (record s { mounts = erase v s.mounts }) v none (s.phase v)
          (Leaves-same s v _ _ _)
          (Settled-none s v e (s.phase v) d (subst (λ x. Settled s v x (s.phase v)) q (c.at v))))
        (λ w apart. (lookup-erase_other v w s.mounts apart, refl, Leaves-same s w _ _ _)) c

  watched-IsTracked :
      (v : String) (e : MountEntry) (o : Option MountEntry)
      → lookup v s.mounts ≡ o
      → s.done e.process ≡ true
      → IsTracked (watched v e o s)
  unfolding watched
  watched-IsTracked v e none q d = c
  watched-IsTracked v e (some existing) q d = elim (Bool-cases (eqb existing.process e.process)) [
    | inl same ↦ rw same (erased-IsTracked v existing q (ground arith))
    | inr other ↦ rw other c
  ]

  watch-IsTracked : (v : String) (e : MountEntry) → IsTracked (watch_process_exit v e s)
  unfolding watch_process_exit
  watch-IsTracked v e = elim (Bool-cases (s.done e.process)) [
    | inl d ↦ rw d (watched-IsTracked v e (lookup v s.mounts) refl d)
    | inr d ↦ rw d c
  ]

  exit-IsTracked : (n : ℕ) → IsTracked (exit n s)
  unfolding exit
  exit-IsTracked n = elim (Bool-cases (ltb n s.started)) [
    | inl e ↦ rw e (record {
      at = λ v.
          Settled-Leaves s (record s { exited = set_number n true s.exited }) v _ _
            (record { keeps = λ m o. o; ends = λ m d. d; adds = λ m r. r }) (c.at v);
    })
    | inr e ↦ rw e c
  ]

  finish-IsTracked : (n : ℕ) → IsTracked (finish n s)
  unfolding finish
  finish-IsTracked n = elim (Bool-cases (s.exited n)) [
    | inl e ↦ rw e (record {
      at = λ v.
          Settled-Leaves s (record s { done = set_number n true s.done }) v _ _
            (record {
              keeps = λ m o. o;
              ends = λ m d. ground (arith, d);
              adds = λ m r. ground (arith, r);
            })
            (c.at v);
    })
    | inr e ↦ rw e c
  ]

  handle-IsTracked : (event : Event) → IsTracked (handle event s)
  unfolding handle
  handle-IsTracked (mounts_volume req) = mount-IsTracked req _ (s.phase req.volume_id) refl
  handle-IsTracked (unmounts_volume v) = elim (Bool-cases (v == "")) [
    | inl e ↦ rw e (replied-IsTracked s _ c)
    | inr e ↦ rw e (unmount-IsTracked v (s.phase v) refl)
  ]
  handle-IsTracked (advances v a) = advance-IsTracked s c v a (s.phase v) refl
  handle-IsTracked (exits n) = exit-IsTracked n
  handle-IsTracked (finishes n) = finish-IsTracked n
  handle-IsTracked (watches v e) = watch-IsTracked v e

handle_all-IsTracked :
    (events : List Event) (s : Manager) → IsTracked s → IsTracked (handle_all events s)
unfolding handle_all
handle_all-IsTracked [] s c = c
handle_all-IsTracked (event ∷ events) s c =
    handle_all-IsTracked events (handle event s) (handle-IsTracked s c event)

new_manager-IsTracked : IsTracked new_manager
unfolding lookup
new_manager-IsTracked = record {
  at = λ v. record { owned = tt; fits = tt; tracked = λ n r. absurd (omega (arith, r.0.0)) };
}

-- However calls, the processes' ends and the watchers interleave, a weed process that was started
-- for a volume, that is not over and that no failed start has given up, is the volume's entry in
-- the manager's map or in the hands of the call that holds the volume's lock.
pub running_process_is_known :
    (events : List Event) (v : String) (n : ℕ)
    → IsRunning (handle_all events new_manager) v n
    → (entry_has n (lookup v (handle_all events new_manager).mounts)
        || phase_has n ((handle_all events new_manager).phase v))
      ≡ true
running_process_is_known events v n r =
    ((handle_all-IsTracked events new_manager new_manager-IsTracked).at v).tracked n r

-- A phase with a process of its own means that the map has no entry.
phase_apart :
    (s : Manager) (v : String) (e : MountEntry) (p : Phase) (n : ℕ)
    → Fits s v (some e) p
    → phase_has n p ≡ false
phase_apart s v e free n h = refl
phase_apart s v e (starting req) n h = refl
phase_apart s v e (awaiting req m) n h = refl
phase_apart s v e (launching req m) n h = absurd (ground (arith, h.0))
phase_apart s v e (aborting m x) n h = absurd (ground (arith, h.0))
phase_apart s v e (storing x) n h = absurd (ground (arith, h.0))
phase_apart s v e (stopping x) n h = refl
phase_apart s v e (clearing x) n h = refl

phase_single : (p : Phase) (n m : ℕ) → phase_has n p ≡ true → phase_has m p ≡ true → n ≡ m
phase_single p n m h k = ground arith

Settled-single :
    (s : Manager) (v : String) (o : Option MountEntry) (p : Phase) (n m : ℕ)
    → Settled s v o p
    → IsRunning s v n
    → IsRunning s v m
    → n ≡ m
Settled-single s v none p n m h r q = phase_single p n m (h.tracked n r) (h.tracked m q)
Settled-single s v (some e) p n m h r q = ground (
  arith,
  h.tracked n r,
  h.tracked m q,
  phase_apart s v e p n h.fits,
  phase_apart s v e p m h.fits,
)

-- However calls, the processes' ends and the watchers interleave, a volume has at most one weed
-- process that is not over and that no failed start has given up.
pub one_process_per_volume :
    (events : List Event) (v : String) (n m : ℕ)
    → IsRunning (handle_all events new_manager) v n
    → IsRunning (handle_all events new_manager) v m
    → n ≡ m
one_process_per_volume events v n m r q =
    let c = handle_all-IsTracked events new_manager new_manager-IsTracked in
    Settled-single (handle_all events new_manager) v _ _ n m (c.at v) r q
