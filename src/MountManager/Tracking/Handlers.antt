-- ===== src/MountManager/Tracking/Handlers.antt =====
-- The steps of the manager and the processes that it tracks.
use seaweedfs_csi_driver.Base.{
  ℕ, String, true, Option, none, some, ◌∷◌, lookup, lookup-insert, lookup-insert_other, eq_refl,
  ◌≡◌, inl, inr, refl, ◌∙◌, subst, arith, Bool-cases, ◌==◌,
}
use seaweedfs_csi_driver.MountManager.{
  MountRequest, MountFault, Answers, prepare, wait_for_mount, stop,
}
use seaweedfs_csi_driver.MountManager.Machine.{
  MountEntry, Phase, free, starting, awaiting, launching, aborting, storing, stopping, clearing,
  Reply, Manager, reply, remove_mount, look, waited, launch, abort, stopped, store, advance,
  entry_of,
}
use seaweedfs_csi_driver.MountManager.Tracking.{OnlyOf, Fits, Settled, Settled-none, phase_has}
use seaweedfs_csi_driver.MountManager.Tracking.Steps.{
  IsTracked, changed, enter-IsTracked, left, left-IsTracked, replied-IsTracked, reply-IsTracked,
  passed, set_at_same, set_at_other,
}

module _ (s : Manager) (c : IsTracked s) where
  -- The volume's part of the state, its phase known.
  pub here : (v : String) (p : Phase) → s.phase v ≡ p → Settled s v (lookup v s.mounts) p
  here v p f = subst (λ x. Settled s v (lookup v s.mounts) x) f (c.at v)

  -- The next phase has the process that the phase had.
  pub next :
      (v : String) (p q : Phase)
      → s.phase v ≡ p
      → ((n : ℕ) → phase_has n p ≡ true → phase_has n q ≡ true)
      → Fits s v (lookup v s.mounts) q
      → Settled s v (lookup v s.mounts) q
  next v p q f still fits = passed s v _ p q (λ n r. still n) fits (here v p f)

  pub look-IsTracked :
      (req : MountRequest) (o : Option MountEntry)
      → lookup req.volume_id s.mounts ≡ o
      → s.phase req.volume_id ≡ free
      → IsTracked (look req o s)
  unfolding look
  look-IsTracked req none e f =
      enter-IsTracked req.volume_id (starting req) s
        (next req.volume_id free (starting req) f (λ n q. absurd (ground (arith, q))) e) c
  look-IsTracked req (some entry) e f =
      let settled = here req.volume_id free f in
      elim (Bool-cases (s.exited entry.process)) [
        | inl x ↦ rw x (
            enter-IsTracked req.volume_id (awaiting req entry.process) s
              (next req.volume_id free _ f (λ n q. absurd (ground (arith, q))) (rw e refl)) c)
        | inr x ↦ rw x (elim (Bool-cases (entry.target_path == req.target_path)) [
          | inl y ↦ rw y (reply-IsTracked req.volume_id _ s settled c)
          | inr y ↦ rw y (reply-IsTracked req.volume_id _ s settled c)
        ])
      ]

  -- The entry goes, its process being the one that is done.
  emptied :
      (v : String) (p : Phase) (n : ℕ) (o : Option MountEntry)
      → OnlyOf n o
      → s.done n ≡ true
      → Settled s v o p
      → Settled s v none p
  emptied v p n none only d h = h
  emptied v p n (some e) only d h = Settled-none s v e p (rw only d) h

  removed-IsTracked :
      (v : String) (p q : Phase) (n : ℕ)
      → s.phase v ≡ p
      → ((m : ℕ) → phase_has m p ≡ true → phase_has m q ≡ true)
      → OnlyOf n (lookup v s.mounts)
      → s.done n ≡ true
      → Fits s v none q
      → IsTracked (left v q s)
  removed-IsTracked v p q n f still only d fits =
      left-IsTracked v q s
        (passed s v none p q (λ m r. still m) fits
          (emptied v p n (lookup v s.mounts) only d (here v p f)))
        c

  launch-IsTracked :
      (v : String) (req : MountRequest) (o : Option MountFault)
      → s.phase v ≡ starting req
      → IsTracked (launch v req o s)
  unfolding launch
  launch-IsTracked v req (some e) f =
      reply-IsTracked v _ s (next v (starting req) free f (λ n q. q) tt) c
  launch-IsTracked v req none f =
      let h = here v (starting req) f in
      changed s (launch v req none s) v none (launching req s.started) h.fits
        (set_at_same v (launching req s.started) s.phase)
        (record {
          owned = tt;
          fits = (refl, (omega arith, ground arith));
          tracked = λ n r. ground (arith, h.tracked n, r, h.fits);
        })
        (λ w apart. (
          refl,
          set_at_other v w (launching req s.started) s.phase apart,
          record {
            keeps = λ n o. (omega (arith, o.0), ground (arith, o));
            ends = λ n d. d;
            adds = λ n r. ground (arith, r, apart);
          },
        ))
        c

  waited-IsTracked :
      (v : String) (req : MountRequest) (n : ℕ) (o : Option (Option MountFault))
      → s.phase v ≡ launching req n
      → IsTracked (waited v req n o s)
  unfolding waited entry_of
  waited-IsTracked v req n none f = c
  waited-IsTracked v req n (some none) f =
      let h = here v (launching req n) f in
      enter-IsTracked v (storing (entry_of req n)) s
        (next v (launching req n) (storing (entry_of req n)) f (λ m q. q) h.fits) c
  waited-IsTracked v req n (some (some e)) f =
      let h = here v (launching req n) f in
      enter-IsTracked v (aborting n e) s
        (next v (launching req n) (aborting n e) f (λ m q. q) h.fits) c

  abort-IsTracked :
      (v : String) (n : ℕ) (e : MountFault) (o : Option MountFault)
      → s.phase v ≡ aborting n e
      → IsTracked (abort v n e o s)
  unfolding abort
  abort-IsTracked v n e none f = elim (Bool-cases (s.done n)) [
    | inl d ↦ rw d (
        let h = here v (aborting n e) f in
        reply-IsTracked v _ s
          (record {
            owned = h.owned;
            fits = tt;
            tracked = λ m r. ground (arith, h.tracked m r, r, d);
          })
          c)
    | inr d ↦ rw d c
  ]
  abort-IsTracked v n e (some timeout) f =
      let h = here v (aborting n e) f in
      changed s (abort v n e (some timeout) s) v (lookup v s.mounts) free refl
        (set_at_same v free s.phase)
        (record {
          owned = rw (h.fits.0) tt;
          fits = tt;
          tracked = λ m r. ground (arith, h.tracked m, r);
        })
        (λ w apart. (
          refl,
          set_at_other v w free s.phase apart,
          record { keeps = λ m o. o; ends = λ m d. d; adds = λ m r. ground (arith, r) },
        ))
        c

  stopped-IsTracked :
      (v : String) (e : MountEntry) (o : Option MountFault)
      → s.phase v ≡ stopping e
      → IsTracked (stopped v e o s)
  unfolding stopped
  stopped-IsTracked v e none f = elim (Bool-cases (s.done e.process)) [
    | inl d ↦ rw d (
        let h = here v (stopping e) f in
        enter-IsTracked v (clearing e) s (next v (stopping e) (clearing e) f (λ m q. q) (h.fits, d))
          c)
    | inr d ↦ rw d c
  ]
  stopped-IsTracked v e (some timeout) f =
      reply-IsTracked v _ s (next v (stopping e) free f (λ m q. q) tt) c

  store-IsTracked : (v : String) (e : MountEntry) → s.phase v ≡ storing e → IsTracked (store v e s)
  unfolding store
  store-IsTracked v e f =
      let h = here v (storing e) f in
      changed s (store v e s) v (some e) free (lookup-insert v v e s.mounts ∙ rw (eq_refl v) refl)
        (set_at_same v free s.phase)
        (record {
          owned = h.fits.1;
          fits = tt;
          tracked = λ m r. ground (arith, h.tracked m, r, h.fits.0);
        })
        (λ w apart. (
          lookup-insert_other v w e s.mounts apart,
          set_at_other v w free s.phase apart,
          record { keeps = λ m o. o; ends = λ m d. d; adds = λ m r. r },
        ))
        c

  clearing-IsTracked :
      (v : String) (e : MountEntry) (r : Reply)
      → s.phase v ≡ clearing e
      → IsTracked (reply v r (remove_mount v s))
  unfolding remove_mount
  clearing-IsTracked v e r f =
      let h = here v (clearing e) f in
      replied-IsTracked (left v free s) ((v, r) ∷ s.replies)
        (removed-IsTracked v (clearing e) free e.process f (λ m q. q) h.fits.0 h.fits.1 tt)

  pub advance-IsTracked :
      (v : String) (a : Answers) (p : Phase) → s.phase v ≡ p → IsTracked (advance v a p s)
  unfolding advance remove_mount
  advance-IsTracked v a free f = c
  advance-IsTracked v a (awaiting req n) f = elim (Bool-cases (s.done n)) [
    | inl d ↦ rw d (
        let h = here v (awaiting req n) f in
        removed-IsTracked v (awaiting req n) (starting req) n f (λ m q. q) h.fits d refl)
    | inr d ↦ rw d c
  ]
  advance-IsTracked v a (starting req) f = launch-IsTracked v req (prepare a req) f
  advance-IsTracked v a (launching req n) f = waited-IsTracked v req n (wait_for_mount a 10000) f
  advance-IsTracked v a (aborting n e) f = abort-IsTracked v n e (stop a) f
  advance-IsTracked v a (storing e) f = store-IsTracked v e f
  advance-IsTracked v a (stopping e) f = stopped-IsTracked v e (stop a) f
  advance-IsTracked v a (clearing e) f = clearing-IsTracked v e _ f
