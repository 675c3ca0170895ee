-- ===== src/Base/Maps.antt =====
-- Go maps with string keys, as association lists. A `range` over a map visits the list in its
-- order: Go leaves the order open, and the theorems hold for each.
use Prim.Native.String.{String}
use mathlib.Core.Path.{◌≡◌, refl}
use mathlib.Core.Logic.{◌≢◌}
use mathlib.Core.Bool.{Bool, true}
use mathlib.Core.Option.{Option, none, some}
use mathlib.Core.List.{List, [], ◌∷◌}
use native.Mathlib.Omega.{arith}
use text.Mathlib.Text.{◌==◌}
use text.Mathlib.TextEquality.{eq_iff}
use seaweedfs_csi_driver.Base.Tests.{if◌then◌else◌, eq_false}

abbrev pub Assoc {ℓ} : Type ℓ → Type ℓ
Assoc V = List (String × V)

module _ {ℓ} {V : Type ℓ} where
  -- v, ok := m[key]
  unfoldable pub lookup : (key : String) (m : Assoc V) → Option V
  lookup key [] = none
  lookup key (entry ∷ rest) = if entry.0 == key then some entry.1 else lookup key rest

  -- m[key] = v
  unfoldable pub insert : (key : String) (v : V) (m : Assoc V) → Assoc V
  insert key v [] = (key, v) ∷ []
  insert key v (entry ∷ rest) =
      if entry.0 == key then (key, v) ∷ rest else entry ∷ insert key v rest

  -- delete(m, key)
  unfoldable pub erase : (key : String) (m : Assoc V) → Assoc V
  erase key [] = []
  erase key (entry ∷ m) = let rest = erase key m in if entry.0 == key then rest else entry ∷ rest

  -- for k, v := range src { dst[k] = v }
  unfoldable pub overlay : Assoc V → Assoc V → Assoc V
  overlay dst [] = dst
  overlay dst ((k, v) ∷ src) = overlay (insert k v dst) src

  -- The entry of `k` that an overlay leaves, beginning with `old`: the last one of the source.
  unfoldable pub remember : String → Option V → Assoc V → Option V
  remember k old [] = old
  remember k old ((j, v) ∷ src) = remember k (if j == k then some v else old) src

  -- The entries whose key passes the test.
  unfoldable pub restrict : (String → Bool) → Assoc V → Assoc V
  restrict p [] = []
  restrict p ((k, v) ∷ m) = let rest = restrict p m in if p k then (k, v) ∷ rest else rest

  pub lookup-insert :
      (k j : String) (v : V) (m : Assoc V)
      → lookup j (insert k v m) ≡ (if k == j then some v else lookup j m)
  unfolding lookup insert
  lookup-insert k j v [] = refl
  lookup-insert k j v (entry ∷ m) =
      let rest = lookup-insert k j v m in
      ground (arith, eq_iff entry.0 j, eq_iff entry.0 k, eq_iff k j, rest)

  pub lookup-erase :
      (k j : String) (m : Assoc V) → lookup j (erase k m) ≡ (if k == j then none else lookup j m)
  unfolding lookup erase
  lookup-erase k j [] = ground arith
  lookup-erase k j (entry ∷ m) =
      let rest = lookup-erase k j m in
      ground (arith, eq_iff entry.0 j, eq_iff entry.0 k, eq_iff k j, rest)

  pub lookup-insert_other :
      (k j : String) (v : V) (m : Assoc V) → k ≢ j → lookup j (insert k v m) ≡ lookup j m
  lookup-insert_other k j v m h = ground (arith, lookup-insert k j v m, eq_false k j h)

  pub lookup-erase_other : (k j : String) (m : Assoc V) → k ≢ j → lookup j (erase k m) ≡ lookup j m
  lookup-erase_other k j m h = ground (arith, lookup-erase k j m, eq_false k j h)

  pub lookup-overlay :
      (k : String) (dst src : Assoc V) → lookup k (overlay dst src) ≡ remember k (lookup k dst) src
  unfolding overlay remember
  lookup-overlay k dst [] = refl
  lookup-overlay k dst ((j, v) ∷ src) =
      ground (arith, lookup-overlay k (insert j v dst) src, lookup-insert j k v dst)

  pub lookup-restrict :
      (p : String → Bool) (k : String) (m : Assoc V)
      → p k ≡ true
      → lookup k (restrict p m) ≡ lookup k m
  unfolding lookup restrict
  lookup-restrict p k [] h = refl
  lookup-restrict p k ((j, v) ∷ m) h = ground (arith, eq_iff j k, lookup-restrict p k m h)

  -- A test on keys that `k` passes hides nothing of `k`.
  pub lookup-remember :
      (p : String → Bool) (k : String) (old : Option V) (src : Assoc V)
      → p k ≡ true
      → remember k old (restrict p src) ≡ remember k old src
  unfolding remember restrict
  lookup-remember p k old [] h = refl
  lookup-remember p k old ((j, v) ∷ src) h =
      ground (arith, eq_iff j k, lookup-remember p k old src h, lookup-remember p k (some v) src h)
