-- ===== src/Base/Take.antt =====
-- One element taken out of a list, and pairs of its elements.
use mathlib.Core.Path.{◌≡◌}
use mathlib.Core.Bool.{Bool, true}
use mathlib.Core.Option.{Option, none, some}
use mathlib.Core.List.{List, [], ◌∷◌}
use mathlib.Core.Logic.{inl, inr}
use seaweedfs_csi_driver.Base.Tests.{if◌then◌else◌, All, Bool-cases}

module _ {A : Type 0} where
  -- With the others in their order.
  abbrev pub put_back : A → Option (A × List A) → Option (A × List A)
  put_back x none = none
  put_back x (some (found, others)) = some (found, x ∷ others)

  -- The first element that passes the test, and the others.
  unfoldable pub take_first : (A → Bool) → List A → Option (A × List A)
  take_first test [] = none
  take_first test (x ∷ xs) =
      let rest = take_first test xs in if test x then some (x, xs) else put_back x rest

  -- What holds of all elements, of the one taken and of the others.
  abbrev pub Taken : (A → Type 0) → Option (A × List A) → Type 0
  Taken P none = Unit
  Taken P (some (x, others)) = P x × All P others

  -- The relation holds of each element and each later one.
  abbrev pub Pairwise : (A → A → Type 0) → List A → Type 0
  Pairwise R [] = Unit
  Pairwise R (x ∷ xs) = All (R x) xs × Pairwise R xs

  abbrev pub TakenApart : (A → A → Type 0) → Option (A × List A) → Type 0
  TakenApart R none = Unit
  TakenApart R (some (x, others)) = All (R x) others × Pairwise R others

  put_back-Taken :
      (P : A → Type 0) (x : A) (o : Option (A × List A)) → P x → Taken P o → Taken P (put_back x o)
  put_back-Taken P x none h k = tt
  put_back-Taken P x (some (y, others)) h k = (k.0, (h, k.1))

  pub take_first-Taken :
      (P : A → Type 0) (test : A → Bool) (xs : List A) → All P xs → Taken P (take_first test xs)
  unfolding take_first
  take_first-Taken P test [] h = tt
  take_first-Taken P test (x ∷ xs) h = elim (Bool-cases (test x)) [
    | inl e ↦ rw e (h.0, h.1)
    | inr e ↦ rw e (put_back-Taken P x (take_first test xs) h.0 (take_first-Taken P test xs h.1))
  ]

  put_back-TakenApart :
      (R : A → A → Type 0) (symmetric : (x y : A) → R x y → R y x) (x : A) (o : Option (A × List A))
      → Taken (R x) o
      → TakenApart R o
      → TakenApart R (put_back x o)
  put_back-TakenApart R symmetric x none h k = tt
  put_back-TakenApart R symmetric x (some (y, others)) h k = ((symmetric x y h.0, k.0), (h.1, k.1))

  pub take_first-TakenApart :
      (R : A → A → Type 0) (symmetric : (x y : A) → R x y → R y x) (test : A → Bool) (xs : List A)
      → Pairwise R xs
      → TakenApart R (take_first test xs)
  unfolding take_first
  take_first-TakenApart R symmetric test [] h = tt
  take_first-TakenApart R symmetric test (x ∷ xs) h = elim (Bool-cases (test x)) [
    | inl e ↦ rw e h
    | inr e ↦ rw e (
        put_back-TakenApart R symmetric x (take_first test xs) (take_first-Taken (R x) test xs h.0)
          (take_first-TakenApart R symmetric test xs h.1))
  ]

  pub All-map : (P Q : A → Type 0) (xs : List A) → ((x : A) → P x → Q x) → All P xs → All Q xs
  All-map P Q [] f h = tt
  All-map P Q (x ∷ xs) f h = (f x h.0, All-map P Q xs f h.1)

  -- The one taken passes the test.
  abbrev pub Found : (A → Bool) → Option (A × List A) → Type 0
  Found test none = Unit
  Found test (some (x, others)) = test x ≡ true

  put_back-Found :
      (test : A → Bool) (x : A) (o : Option (A × List A)) → Found test o → Found test (put_back x o)
  put_back-Found test x none h = tt
  put_back-Found test x (some (y, others)) h = h

  pub take_first-Found : (test : A → Bool) (xs : List A) → Found test (take_first test xs)
  unfolding take_first
  take_first-Found test [] = tt
  take_first-Found test (x ∷ xs) = elim (Bool-cases (test x)) [
    | inl e ↦ rw e e
    | inr e ↦ rw e (put_back-Found test x (take_first test xs) (take_first-Found test xs))
  ]
