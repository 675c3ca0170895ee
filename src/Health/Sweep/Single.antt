-- ===== src/Health/Sweep/Single.antt =====
-- Which checks run, and when none runs any more.
use seaweedfs_csi_driver.Base.{
  String, Bool, true, false, Option, none, some, List, [], ◌∷◌, All, ◌==◌, ◌≡◌, ◌≢◌, refl, sym,
  subst, arith, eq_iff, Bool-cases, inl, inr,
}
use seaweedfs_csi_driver.Base.Take.{
  take_first, Taken, take_first-Taken, TakenApart, take_first-TakenApart, Pairwise,
}
use seaweedfs_csi_driver.Health.Sweep.{
  Loop, idle, returned, sweeping, Monitor, Happening, ticks, launches, sees_stop, stops, waits,
  finishes, holds, launch_check, forget, end_check, start_sweep, next_volume, leave_loop, happen,
  happen_all, new_monitor,
}

-- The checks that run are the active ones, each once.
pub record IsCounted (s : Monitor) : Type 0 where
  pub apart : Pairwise (λ v w. v ≢ w) s.running
  pub known : All (λ v. holds v s.active ≡ true) s.running

holds-later :
    (v : String) (active running : List String)
    → All (λ w. holds w active ≡ true) running
    → All (λ w. holds w (v ∷ active) ≡ true) running
unfolding holds
holds-later v active [] h = tt
holds-later v active (w ∷ ws) h = (ground (arith, h.0), holds-later v active ws h.1)

unknown_apart :
    (v : String) (active running : List String)
    → holds v active ≡ false
    → All (λ w. holds w active ≡ true) running
    → All (λ w. v ≢ w) running
unfolding holds
unknown_apart v active [] e h = tt
unknown_apart v active (w ∷ ws) e h = (
  λ same.
      let there : holds v active ≡ true = subst (λ x. holds x active ≡ true) (sym same) h.0 in
      absurd (ground (arith, there, e)),
  unknown_apart v active ws e h.1,
)

launch_check-IsCounted : (v : String) (s : Monitor) → IsCounted s → IsCounted (launch_check v s)
unfolding launch_check holds
launch_check-IsCounted v s c = elim (Bool-cases (holds v s.active)) [
  | inl e ↦ rw e c
  | inr e ↦ rw e (record {
    apart = (unknown_apart v s.active s.running e c.known, c.apart);
    known = (ground (arith, eq_iff v v), holds-later v s.active s.running c.known);
  })
]

holds-forget :
    (v w : String) (active : List String)
    → v ≢ w
    → holds w active ≡ true
    → holds w (forget v active) ≡ true
unfolding holds forget
holds-forget v w [] apart h = h
holds-forget v w (x ∷ xs) apart h = elim (Bool-cases (holds w xs)) [
  | inl e ↦
      let rest = holds-forget v w xs apart e in
      ground (arith, rest, eq_iff x v, eq_iff x w, apart, h)
  | inr e ↦ ground (arith, e, eq_iff x v, eq_iff x w, apart, h)
]

others_known :
    (v : String) (active others : List String)
    → All (λ w. v ≢ w) others
    → All (λ w. holds w active ≡ true) others
    → All (λ w. holds w (forget v active) ≡ true) others
others_known v active [] a h = tt
others_known v active (w ∷ ws) a h =
    (holds-forget v w active a.0 h.0, others_known v active ws a.1 h.1)

end_check-IsCounted :
    (s : Monitor) (o : Option (String × List String))
    → TakenApart (λ v w. v ≢ w) o
    → Taken (λ v. holds v s.active ≡ true) o
    → IsCounted s
    → IsCounted (end_check o s)
unfolding end_check
end_check-IsCounted s none a k c = c
end_check-IsCounted s (some (v, others)) a k c = record {
  apart = a.1;
  known = others_known v s.active others a.0 k.1;
}

next_volume-IsCounted : (l : Loop) (s : Monitor) → IsCounted s → IsCounted (next_volume l s)
unfolding next_volume
next_volume-IsCounted idle s c = c
next_volume-IsCounted returned s c = c
next_volume-IsCounted (sweeping []) s c = record { apart = c.apart; known = c.known }
next_volume-IsCounted (sweeping (v ∷ volumes)) s c =
    launch_check-IsCounted v (record s { loop = sweeping volumes })
      (record { apart = c.apart; known = c.known })

happen-IsCounted : (s : Monitor) (h : Happening) → IsCounted s → IsCounted (happen s h)
unfolding happen
happen-IsCounted s (ticks volumes) c = record { apart = c.apart; known = c.known }
happen-IsCounted s launches c = next_volume-IsCounted s.loop s c
happen-IsCounted s sees_stop c = record { apart = c.apart; known = c.known }
happen-IsCounted s stops c = record { apart = c.apart; known = c.known }
happen-IsCounted s waits c = record { apart = c.apart; known = c.known }
happen-IsCounted s (finishes v) c =
    end_check-IsCounted s (take_first _ s.running)
      (take_first-TakenApart (λ x y. x ≢ y) (λ x y a e. a (sym e)) _ s.running c.apart)
      (take_first-Taken _ _ s.running c.known) c

happen_all-IsCounted :
    (s : Monitor) (hs : List Happening) → IsCounted s → IsCounted (happen_all s hs)
unfolding happen_all
happen_all-IsCounted s [] c = c
happen_all-IsCounted s (h ∷ hs) c = happen_all-IsCounted (happen s h) hs (happen-IsCounted s h c)

-- Nothing runs, and the loop has returned.
record IsOver (s : Monitor) : Type 0 where
  loop : s.loop ≡ returned
  running : s.running ≡ []

next_volume-IsOver : (l : Loop) (s : Monitor) → l ≡ returned → IsOver s → IsOver (next_volume l s)
unfolding next_volume
next_volume-IsOver returned s e o = o
next_volume-IsOver idle s e o = o
next_volume-IsOver (sweeping volumes) s e o = absurd (ground (arith, e))

end_check-IsOver :
    (v : String) (s : Monitor) (running : List String)
    → running ≡ []
    → IsOver s
    → IsOver (end_check (take_first (λ w. w == v) running) s)
unfolding end_check take_first
end_check-IsOver v s [] e o = o
end_check-IsOver v s (w ∷ running) e o = absurd (ground (arith, e))

happen-IsOver : (s : Monitor) (h : Happening) → IsOver s → IsOver (happen s h)
unfolding happen start_sweep next_volume leave_loop end_check take_first
happen-IsOver s (ticks volumes) o = record { loop = rw o.loop refl; running = o.running }
happen-IsOver s launches o = next_volume-IsOver s.loop s o.loop o
happen-IsOver s sees_stop o = record { loop = left s.closed; running = o.running }
  where
    left : (b : Bool) → leave_loop b s.loop ≡ returned
    left true = rw o.loop refl
    left false = o.loop
happen-IsOver s stops o = record { loop = o.loop; running = o.running }
happen-IsOver s waits o = record { loop = o.loop; running = o.running }
happen-IsOver s (finishes v) o = end_check-IsOver v s s.running o.running o

happen_all-IsOver : (s : Monitor) (hs : List Happening) → IsOver s → IsOver (happen_all s hs)
unfolding happen_all
happen_all-IsOver s [] o = o
happen_all-IsOver s (h ∷ hs) o = happen_all-IsOver (happen s h) hs (happen-IsOver s h o)

-- However ticks, sweeps, ends of checks and the cleanup interleave, no two checks of one volume run at
-- the same time; and once the loop has returned and no check runs, none ever runs again.
pub one_check_per_volume :
    (before after : List Happening)
    → Pairwise (λ v w. v ≢ w) (happen_all new_monitor before).running
      × ((happen_all new_monitor before).loop ≡ returned
          → (happen_all new_monitor before).running ≡ []
          → (happen_all (happen_all new_monitor before) after).running ≡ [])
one_check_per_volume before after = (
  IsCounted.apart (happen_all-IsCounted new_monitor before (record { apart = tt; known = tt })),
  λ l r.
      IsOver.running (
        happen_all-IsOver (happen_all new_monitor before) after (record { loop = l; running = r })),
)
