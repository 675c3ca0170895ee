-- ===== src/MountManager/Tracking/Steps.antt =====
-- What a step of the manager may change without losing track of a process.
use seaweedfs_csi_driver.Base.{
  ℕ, String, true, false, ◌||◌, Option, none, List, ◌∷◌, lookup, erase, lookup-erase,
  lookup-erase_other, eq_refl, eq_iff, eq_false, ◌≡◌, ◌≢◌, ◌⊎◌, inl, inr, refl, sym, ◌∙◌, subst,
  arith, Bool-cases, ◌==◌,
}
use seaweedfs_csi_driver.MountManager.Machine.{
  MountEntry, Phase, free, Reply, Manager, set_at, enter, reply,
}
use seaweedfs_csi_driver.MountManager.Tracking.{
  Fits, Settled, At, Leaves, Settled-Leaves, IsRunning, entry_has, phase_has,
}

-- Every volume's part of the state is settled.
pub record IsTracked (s : Manager) : Type 0 where
  pub at : (v : String) → At s v

-- The rest of the state, which a step of `v` leaves alone.
abbrev pub Others : Manager → Manager → String → Type 0
Others s t v =
    (w : String)
    → v ≢ w
    → (lookup w t.mounts ≡ lookup w s.mounts) × (t.phase w ≡ s.phase w) × Leaves s t w

pub set_at_same : {A : Type 0} (v : String) (a : A) (f : String → A) → set_at v a f v ≡ a
set_at_same v a f = rw (eq_refl v) refl

pub set_at_other :
    {A : Type 0} (v w : String) (a : A) (f : String → A) → v ≢ w → set_at v a f w ≡ f w
set_at_other v w a f h = rw (eq_false v w h) refl

settled_as :
    (t : Manager) (w : String) (e f : Option MountEntry) (p q : Phase)
    → f ≡ e
    → q ≡ p
    → Settled t w e p
    → Settled t w f q
settled_as t w e f p q same also h =
    subst (λ x. Settled t w x q) (sym same) (subst (λ x. Settled t w e x) (sym also) h)

pub changed :
    (s t : Manager) (v : String) (entry : Option MountEntry) (phase : Phase)
    → lookup v t.mounts ≡ entry
    → t.phase v ≡ phase
    → Settled t v entry phase
    → Others s t v
    → IsTracked s
    → IsTracked t
changed s t v entry phase here also h others c = record { at = λ w. go w (Bool-cases (v == w)) }
  where
    go : (w : String) → ((v == w) ≡ true) ⊎ ((v == w) ≡ false) → At t w
    go w (inl e) =
        let same : v ≡ w = ground (arith, eq_iff v w) in
        subst (λ x. At t x) same (settled_as t v entry _ phase _ here also h)
    go w (inr e) =
        let (m, p, l) = others w (λ same. absurd (ground (arith, eq_iff v w))) in
        settled_as t w _ _ _ _ m p (Settled-Leaves s t w _ _ l (c.at w))

-- The map, the phases and the replies do not touch the processes.
pub Leaves-same :
    (s : Manager) (w : String)
    → (m : List (String × MountEntry)) (p : String → Phase) (r : List (String × Reply))
    → Leaves s (record s { mounts = m; phase = p; replies = r }) w
Leaves-same s w m p r = record { keeps = λ n o. o; ends = λ n d. d; adds = λ n x. x }

pub enter-IsTracked :
    (v : String) (phase : Phase) (s : Manager)
    → Settled s v (lookup v s.mounts) phase
    → IsTracked s
    → IsTracked (enter v phase s)
enter-IsTracked v phase s h c =
    changed s (enter v phase s) v (lookup v s.mounts) phase refl (set_at_same v phase s.phase)
      (Settled-Leaves s (enter v phase s) v _ phase (Leaves-same s v _ _ _) h)
      (λ w apart. (refl, set_at_other v w phase s.phase apart, Leaves-same s w _ _ _)) c

-- removeMount and then another phase.
abbrev pub left : String → Phase → Manager → Manager
left v phase s = record s { mounts = erase v s.mounts; phase = set_at v phase s.phase }

lookup-erase_same : (v : String) (s : Manager) → lookup v (erase v s.mounts) ≡ none
lookup-erase_same v s = lookup-erase v v s.mounts ∙ rw (eq_refl v) refl

pub left-IsTracked :
    (v : String) (phase : Phase) (s : Manager)
    → Settled s v none phase
    → IsTracked s
    → IsTracked (left v phase s)
left-IsTracked v phase s h c =
    changed s (left v phase s) v none phase (lookup-erase_same v s) (set_at_same v phase s.phase)
      (Settled-Leaves s (left v phase s) v _ phase (Leaves-same s v _ _ _) h)
      (λ w apart. (
        lookup-erase_other v w s.mounts apart,
        set_at_other v w phase s.phase apart,
        Leaves-same s w _ _ _,
      ))
      c

-- More replies change nothing.
pub replied-IsTracked :
    (s : Manager) (r : List (String × Reply)) → IsTracked s → IsTracked (record s { replies = r })
replied-IsTracked s r c = record {
  at = λ v. Settled-Leaves s (record s { replies = r }) v _ _ (Leaves-same s v _ _ _) (c.at v);
}

pub reply-IsTracked :
    (v : String) (r : Reply) (s : Manager)
    → Settled s v (lookup v s.mounts) free
    → IsTracked s
    → IsTracked (reply v r s)
reply-IsTracked v r s h c =
    replied-IsTracked (enter v free s) ((v, r) ∷ s.replies) (enter-IsTracked v free s h c)

-- A phase that holds no process may be left for another that fits.
pub passed :
    (s : Manager) (v : String) (entry : Option MountEntry) (p q : Phase)
    → ((n : ℕ) → IsRunning s v n → phase_has n p ≡ true → phase_has n q ≡ true)
    → Fits s v entry q
    → Settled s v entry p
    → Settled s v entry q
passed s v entry p q still fits h = record {
  owned = h.owned;
  fits = fits;
  tracked = λ n r. go n r (Bool-cases (phase_has n p));
}
  where
    go :
        (n : ℕ)
        → IsRunning s v n
        → (phase_has n p ≡ true) ⊎ (phase_has n p ≡ false)
        → (entry_has n entry || phase_has n q) ≡ true
    go n r (inl e) = ground (arith, still n r e)
    go n r (inr e) = ground (arith, h.tracked n r)
