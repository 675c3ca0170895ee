-- ===== src/Params/Laws.antt =====
-- What the validators of Params accept.
use seaweedfs_csi_driver.Base.{
  String, true, none, some, [], ◌∷◌, Assoc, lookup, insert, overlay, lookup-insert, eq_iff, eq_refl,
  ◌≡◌, refl, arith, Bool-cases, inl, inr,
}
use seaweedfs_csi_driver.Params.{is_mutable, validate_value, validate_constrained_parameter_values}

-- The map has one entry for each key.
abbrev pub Distinct : Assoc String → Type 0
Distinct [] = Unit
Distinct ((k, v) ∷ m) = (lookup k m ≡ none) × Distinct m

insert-Distinct : (k v : String) (m : Assoc String) → Distinct m → Distinct (insert k v m)
unfolding insert
insert-Distinct k v [] h = (unfold lookup in refl, tt)
insert-Distinct k v ((j, w) ∷ m) h =
    ground (arith, insert-Distinct k v m h.1, lookup-insert k j v m, eq_iff j k, eq_iff k j)

pub overlay-Distinct : (m src : Assoc String) → Distinct m → Distinct (overlay m src)
unfolding overlay
overlay-Distinct m [] h = h
overlay-Distinct m ((k, v) ∷ src) h = overlay-Distinct (insert k v m) src (insert-Distinct k v m h)

pub validate_constrained_sound :
    (m : Assoc String) (k v : String)
    → validate_constrained_parameter_values m ≡ none
    → lookup k m ≡ some v
    → is_mutable k ≡ true
    → validate_value k v ≡ none
unfolding validate_constrained_parameter_values lookup
validate_constrained_sound [] k v h l e = cc
validate_constrained_sound ((j, w) ∷ m) k v h l e =
    ground (arith, eq_iff j k, validate_constrained_sound m k v)

lookup_here : (j w : String) (m : Assoc String) → lookup j ((j, w) ∷ m) ≡ some w
unfolding lookup
lookup_here j w m = rw (eq_refl j)

lookup_later :
    (j k w v : String) (m : Assoc String)
    → lookup j m ≡ none
    → lookup k m ≡ some v
    → lookup k ((j, w) ∷ m) ≡ some v
unfolding lookup
lookup_later j k w v m d l = ground (arith, eq_iff j k)

pub validate_constrained_complete :
    (m : Assoc String)
    → Distinct m
    → ((k v : String) → lookup k m ≡ some v → is_mutable k ≡ true → validate_value k v ≡ none)
    → validate_constrained_parameter_values m ≡ none
unfolding validate_constrained_parameter_values
validate_constrained_complete [] d h = refl
validate_constrained_complete ((j, w) ∷ m) d h =
    let rest : validate_constrained_parameter_values m ≡ none =
      validate_constrained_complete m d.1 (λ k v l e. h k v (lookup_later j k w v m d.0 l) e) in
    elim (Bool-cases (is_mutable j)) [
      | inl e ↦ ground (arith, h j w (lookup_here j w m) e, rest)
      | inr e ↦ ground (arith, rest)
    ]
