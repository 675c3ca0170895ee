-- ===== src/Base/Outcomes.antt =====
-- What holds after an action of Exec that succeeds, and after one that fails.
use mathlib.Core.Path.{◌≡◌, refl, subst}
use native.Mathlib.Omega.{arith}
use seaweedfs_csi_driver.Base.Exec.{Result, ok, err, Exec, continue, ◌>>=◌, Moves, IsPreorder}

-- What a success returns and leaves, from a state with `P`.
pub record Ensures {S E A : Type 0} (P : S → Type 0) (Q : A → S → Type 0) (m : Exec S E A)
    : Type 0 where
  pub at : (s t : S) (a : A) → P s → m s ≡ (ok a, t) → Q a t

-- The states before and after a failure.
pub record Fails {S E A : Type 0} (R : S → S → Type 0) (m : Exec S E A) : Type 0 where
  pub at : (s t : S) (e : E) → m s ≡ (err e, t) → R s t

module _ {S : Type 0} where
  Ensures-continue :
      {E A B : Type 0} (P : S → Type 0) (M : A → S → Type 0) (Q : B → S → Type 0) (m : Exec S E A)
      (f : A → Exec S E B)
      → Ensures P M m
      → ((a : A) → Ensures (M a) Q (f a))
      → (s t : S) (b : B) → P s
      → (r : Result E A × S) → m s ≡ r
      → continue r.0 f r.1 ≡ (ok b, t)
      → Q b t
  Ensures-continue P M Q m f hm kf s t b p (ok a, u) e q = (kf a).at u t b (hm.at s u a p e) q
  Ensures-continue P M Q m f hm kf s t b p (err x, u) e q = absurd (ground arith)

  pub Ensures-bind :
      {E A B : Type 0} (P : S → Type 0) (M : A → S → Type 0) (Q : B → S → Type 0) (m : Exec S E A)
      (f : A → Exec S E B)
      → Ensures P M m
      → ((a : A) → Ensures (M a) Q (f a))
      → Ensures P Q (m >>= f)
  unfolding ◌>>=◌
  Ensures-bind P M Q m f hm kf = record {
    at = λ s t b p q. Ensures-continue P M Q m f hm kf s t b p (m s) refl q;
  }

  pub Ensures-Moves :
      {E A : Type 0} (P : S → Type 0) (m : Exec S E A)
      → Moves (λ s t. P s → P t) m
      → Ensures P (λ a. P) m
  Ensures-Moves P m h = record { at = λ s t a p q. subst (λ r. P r.1) q (h.at s p) }

module _ {S : Type 0} {R : S → S → Type 0} (order : IsPreorder R) where
  pub Fails-Moves : {E A : Type 0} (m : Exec S E A) → Moves R m → Fails R m
  Fails-Moves m h = record { at = λ s t e q. subst (λ r. R s r.1) q (h.at s) }

  Fails-continue :
      {E A B : Type 0} (f : A → Exec S E B)
      → ((a : A) → Fails R (f a))
      → (s t : S) (e : E) (r : Result E A × S) → R s r.1
      → continue r.0 f r.1 ≡ (err e, t)
      → R s t
  Fails-continue f kf s t e (ok a, u) h q = order.transitive h ((kf a).at u t e q)
  Fails-continue f kf s t e (err x, u) h q = let same : u ≡ t = ground arith in subst (R s) same h

  pub Fails-bind :
      {E A B : Type 0} (m : Exec S E A) (f : A → Exec S E B)
      → Moves R m
      → ((a : A) → Fails R (f a))
      → Fails R (m >>= f)
  unfolding ◌>>=◌
  Fails-bind m f km kf = record { at = λ s t e q. Fails-continue f kf s t e (m s) (km.at s) q }

-- An action that always succeeds.
abbrev pub IsSure : {S E A : Type 0} → Exec S E A → Type 0
IsSure m = Fails (λ s t. ⊥) m

module _ {S : Type 0} (R : S → S → Type 0) where
  pub Fails-IsSure : {E A : Type 0} (m : Exec S E A) → IsSure m → Fails R m
  Fails-IsSure m h = record { at = λ s t e q. absurd (h.at s t e q) }

  Fails-continue_sure :
      {E A B : Type 0} (m : Exec S E A) (f : A → Exec S E B)
      → Fails R m
      → ((a : A) → IsSure (f a))
      → (s t : S) (e : E) (r : Result E A × S) → m s ≡ r
      → continue r.0 f r.1 ≡ (err e, t)
      → R s t
  Fails-continue_sure m f hm kf s t e (ok a, u) h q = absurd ((kf a).at u t e q)
  Fails-continue_sure m f hm kf s t e (err x, u) h q =
      let same : u ≡ t = ground arith in subst (R s) same (hm.at s u x h)

  -- Only the first part can fail.
  pub Fails-first :
      {E A B : Type 0} (m : Exec S E A) (f : A → Exec S E B)
      → Fails R m
      → ((a : A) → IsSure (f a))
      → Fails R (m >>= f)
  unfolding ◌>>=◌
  Fails-first m f hm kf = record {
    at = λ s t e q. Fails-continue_sure m f hm kf s t e (m s) refl q;
  }
