-- ===== src/Base/Returns.antt =====
-- What an action of Exec returns, and relations between its states that rest on that.
use mathlib.Core.Path.{◌≡◌, refl, subst}
use mathlib.Core.Bool.{Bool, true, false}
use native.Mathlib.Omega.{arith}
use seaweedfs_csi_driver.Base.Tests.{if◌then◌else◌}
use seaweedfs_csi_driver.Base.Exec.{
  Result, ok, err, Exec, pure, raise, with_error, continue, map_err, ◌>>=◌, Moves, IsPreorder,
}

-- What `m` returns, if it returns no error.
pub record Returns {S E A : Type 0} (P : A → Type 0) (m : Exec S E A) : Type 0 where
  pub at : (s t : S) (a : A) → m s ≡ (ok a, t) → P a

module _ {S : Type 0} where
  pub Returns-pure :
      {E A : Type 0} (P : A → Type 0) (a : A) → P a → Returns P (pure {S = S} {E = E} a)
  unfolding pure
  Returns-pure P a h = record { at = λ s t b e. ground arith }

  pub Returns-raise : {E A : Type 0} (P : A → Type 0) (e : E) → Returns P (raise {S = S} {A = A} e)
  unfolding raise
  Returns-raise P e = record { at = λ s t b q. absurd (ground arith) }

  pub Returns-if :
      {E A : Type 0} (P : A → Type 0) (b : Bool) (m n : Exec S E A)
      → Returns P m
      → Returns P n
      → Returns P (if b then m else n)
  Returns-if P true m n km kn = km
  Returns-if P false m n km kn = kn

  pub Returns-with_error :
      {E F A : Type 0} (P : A → Type 0) (f : E → F) (m : Exec S E A)
      → Returns P m
      → Returns P (with_error f m)
  unfolding with_error
  Returns-with_error {E} {F} {A} P f m h = record { at = λ s t a e. go s (m s) refl t a e }
    where
      go :
          (s : S) (r : Result E A × S)
          → m s ≡ r
          → (t : S) (a : A) → ◌≡◌ {A = Result F A × S} (map_err f r.0, r.1) (ok a, t)
          → P a
      go s (ok b, u) q t a e = let same : b ≡ a = ground arith in subst P same (h.at s u b q)
      go s (err b, u) q t a e = absurd (ground arith)

  Returns-continue :
      {E A B : Type 0} (P : B → Type 0) (Q : A → Type 0) (m : Exec S E A) (f : A → Exec S E B)
      → Returns Q m
      → ((a : A) → Q a → Returns P (f a))
      → (s t : S) (b : B) (r : Result E A × S) → m s ≡ r
      → continue r.0 f r.1 ≡ (ok b, t)
      → P b
  Returns-continue P Q m f hq kf s t b (ok a, u) e h = (kf a (hq.at s u a e)).at u t b h
  Returns-continue P Q m f hq kf s t b (err x, u) e h = absurd (ground arith)

  -- The rest of a block may use what the first part returns.
  pub Returns-bind :
      {E A B : Type 0} (P : B → Type 0) (Q : A → Type 0) (m : Exec S E A) (f : A → Exec S E B)
      → Returns Q m
      → ((a : A) → Q a → Returns P (f a))
      → Returns P (m >>= f)
  unfolding ◌>>=◌
  Returns-bind P Q m f hq kf = record {
    at = λ s t b h. Returns-continue P Q m f hq kf s t b (m s) refl h;
  }

  pub Returns-then :
      {E A B : Type 0} (P : B → Type 0) (m : Exec S E A) (f : A → Exec S E B)
      → ((a : A) → Returns P (f a))
      → Returns P (m >>= f)
  Returns-then P m f kf =
      Returns-bind P (λ a. Unit {0}) m f (record { at = λ s t a e. tt }) (λ a q. kf a)

pub ruleset returns_rules =
    (Returns-pure, Returns-raise, Returns-if, Returns-with_error, Returns-then)

module _ {S : Type 0} {R : S → S → Type 0} (order : IsPreorder R) where
  Moves-known :
      {E A B : Type 0} (Q : A → Type 0) (f : A → Exec S E B) (m : Exec S E A)
      → Returns Q m
      → ((a : A) → Q a → Moves R (f a))
      → (s : S) (r : Result E A × S) → m s ≡ r
      → R r.1 (continue r.0 f r.1).1
  Moves-known Q f m hq kf s (ok a, u) e = (kf a (hq.at s u a e)).at u
  Moves-known Q f m hq kf s (err x, u) e = order.reflexive u

  pub Moves-bind-Returns :
      {E A B : Type 0} (Q : A → Type 0) (m : Exec S E A) (f : A → Exec S E B)
      → Moves R m
      → Returns Q m
      → ((a : A) → Q a → Moves R (f a))
      → Moves R (m >>= f)
  unfolding ◌>>=◌
  Moves-bind-Returns Q m f km hq kf = record {
    at = λ s. order.transitive (km.at s) (Moves-known Q f m hq kf s (m s) refl);
  }
