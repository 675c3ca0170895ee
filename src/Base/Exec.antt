-- ===== src/Base/Exec.antt =====
-- State with failure: a Go function that mutates what it can reach and may return an error. What
-- was written before the error stays written.
use mathlib.Core.Bool.{Bool, true, false}
use seaweedfs_csi_driver.Base.Tests.{if◌then◌else◌}

pub data Result (E A : Type 0) : Type 0 where
  ok : A → Result E A
  err : E → Result E A

abbrev pub Exec : Type 0 → Type 0 → Type 0 → Type 0
Exec S E A = S → Result E A × S

module _ {S E A : Type 0} where
  unfoldable pub pure : A → Exec S E A
  pure a s = (ok a, s)

  unfoldable pub raise : E → Exec S E A
  raise e s = (err e, s)

  -- if err := m; err != nil { ... }: the error as a value.
  unfoldable pub attempt : Exec S E A → Exec S E (Result E A)
  attempt m s = let (r, s') = m s in (ok r, s')

  unfoldable pub gets : (S → A) → Exec S E A
  gets f s = (ok (f s), s)

  unfoldable pub lift : Result E A → Exec S E A
  lift r s = (r, s)

module _ {E F A : Type 0} where
  abbrev pub map_err : (E → F) → Result E A → Result F A
  map_err f (ok a) = ok a
  map_err f (err e) = err (f e)

module _ {S E F A : Type 0} where
  -- The error, as the caller returns it.
  unfoldable pub with_error : (E → F) → Exec S E A → Exec S F A
  with_error f m s = let (r, s') = m s in (map_err f r, s')

module _ {S E : Type 0} where
  unfoldable pub modify : (S → S) → Exec S E (Unit {0})
  modify f s = (ok tt, f s)

module _ {S E A B : Type 0} where
  abbrev pub continue : Result E A → (A → Exec S E B) → Exec S E B
  continue (ok a) f s = f a s
  continue (err e) f s = (err e, s)

  infixl 10 ◌>>=◌ ◌>>◌
  unfoldable pub ◌>>=◌ : Exec S E A → (A → Exec S E B) → Exec S E B
  unfolding pure raise attempt gets lift modify with_error
  ◌>>=◌ m f s = let (r, s') = m s in continue r f s'

  abbrev pub ◌>>◌ : Exec S E A → Exec S E B → Exec S E B
  m >> n = m >>= λ _. n

-- Whatever `m` returns, the states before and after it are related.
pub record Moves {S E A : Type 0} (R : S → S → Type 0) (m : Exec S E A) : Type 0 where
  pub at : (s : S) → R s (m s).1

-- What a relation must be for its rules to chain.
pub record IsPreorder {S : Type 0} (R : S → S → Type 0) : Type 0 where
  pub reflexive : (s : S) → R s s
  pub transitive : {s t u : S} → R s t → R t u → R s u

module _ {S : Type 0} {R : S → S → Type 0} (order : IsPreorder R) where
  pub Moves-pure : {E A : Type 0} (a : A) → Moves R (pure {E = E} a)
  unfolding pure
  Moves-pure a = record { at = λ s. order.reflexive s }

  pub Moves-raise : {E A : Type 0} (e : E) → Moves R (raise {A = A} e)
  unfolding raise
  Moves-raise e = record { at = λ s. order.reflexive s }

  pub Moves-lift : {E A : Type 0} (r : Result E A) → Moves R (lift r)
  unfolding lift
  Moves-lift r = record { at = λ s. order.reflexive s }

  pub Moves-gets : {E A : Type 0} (f : S → A) → Moves R (gets {E = E} f)
  unfolding gets
  Moves-gets f = record { at = λ s. order.reflexive s }

  pub Moves-attempt : {E A : Type 0} (m : Exec S E A) → Moves R m → Moves R (attempt m)
  unfolding attempt
  Moves-attempt m h = record { at = λ s. h.at s }

  pub Moves-with_error :
      {E F A : Type 0} (f : E → F) (m : Exec S E A) → Moves R m → Moves R (with_error f m)
  unfolding with_error
  Moves-with_error f m h = record { at = λ s. h.at s }

  Moves-continue :
      {E A B : Type 0} (r : Result E A) (f : A → Exec S E B)
      → ((a : A) → Moves R (f a))
      → Moves R (continue r f)
  Moves-continue (ok a) f kf = record { at = λ s. (kf a).at s }
  Moves-continue (err e) f kf = record { at = λ s. order.reflexive s }

  pub Moves-bind :
      {E A B : Type 0} (m : Exec S E A) (f : A → Exec S E B)
      → Moves R m
      → ((a : A) → Moves R (f a))
      → Moves R (m >>= f)
  unfolding ◌>>=◌
  Moves-bind m f km kf = record {
    at = λ s. let (r, s') = m s in order.transitive (km.at s) ((Moves-continue r f kf).at s');
  }

  pub Moves-if :
      {E A : Type 0} (b : Bool) (m n : Exec S E A)
      → Moves R m
      → Moves R n
      → Moves R (if b then m else n)
  Moves-if true m n km kn = km
  Moves-if false m n km kn = kn

pub ruleset moves_rules = (
  Moves-pure, Moves-raise, Moves-lift, Moves-gets, Moves-attempt, Moves-with_error, Moves-bind,
  Moves-if,
)
