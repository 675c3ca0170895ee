-- ===== src/Params/Effective.antt =====
-- What ControllerModifyVolume accepts is what the next stage accepts.
use seaweedfs_csi_driver.Base.{
  String, Bool, true, false, Option, none, [], ◌∷◌, Assoc, lookup, insert, overlay, restrict,
  remember, lookup-overlay, lookup-remember, eq_iff, ◌≡◌, refl, ◌∙◌, arith, if◌then◌else◌,
}
use seaweedfs_csi_driver.Params.{
  is_mutable, text_at, validate_writeback_dlm_combo, validate_constrained_parameter_values,
  clone_volume_context, merge_persisted_volume_attributes, effective_parameters, check_context,
}
use seaweedfs_csi_driver.Params.Laws.{
  Distinct, overlay-Distinct, validate_constrained_sound, validate_constrained_complete,
}

merge-overlay :
    (ctx persisted : Assoc String)
    → merge_persisted_volume_attributes ctx persisted ≡ overlay ctx (restrict is_mutable persisted)
unfolding merge_persisted_volume_attributes overlay restrict
merge-overlay ctx [] = refl
merge-overlay ctx ((k, v) ∷ persisted) =
    ground (arith, merge-overlay ctx persisted, merge-overlay (insert k v ctx) persisted)

remember-restrict_other :
    (p : String → Bool) (k : String) (old : Option String) (src : Assoc String)
    → p k ≡ false
    → remember k old (restrict p src) ≡ old
unfolding remember restrict
remember-restrict_other p k old [] h = refl
remember-restrict_other p k old ((j, v) ∷ src) h =
    ground (arith, eq_iff j k, remember-restrict_other p k old src)

-- A persisted entry never reaches a structural key such as the path or the collection: under a key
-- that is not modifiable the merged context has what the volume context had, whatever is persisted.
-- Under a modifiable key it has the last persisted value, and the volume context's if there is none.
pub lookup-merge :
    (ctx persisted : Assoc String) (k : String)
    → lookup k (merge_persisted_volume_attributes ctx persisted)
      ≡ (if is_mutable k then remember k (lookup k ctx) persisted else lookup k ctx)
lookup-merge ctx persisted k =
    rw (merge-overlay ctx persisted, lookup-overlay k ctx (restrict is_mutable persisted))
      (ground (
        arith,
        lookup-remember is_mutable k (lookup k ctx) persisted,
        remember-restrict_other is_mutable k (lookup k ctx) persisted,
      ))

-- Two contexts that agree on the modifiable keys.
abbrev Agree : Assoc String → Assoc String → Type 0
Agree a b = (k : String) → is_mutable k ≡ true → lookup k a ≡ lookup k b

Agree-effective :
    (attrs params : Assoc String)
    → Agree
        (effective_parameters attrs params)
        (merge_persisted_volume_attributes (clone_volume_context attrs) params)
unfolding effective_parameters clone_volume_context
Agree-effective attrs params k m = ground (
  arith,
  lookup-overlay k (overlay [] (restrict is_mutable attrs)) params,
  lookup-overlay k [] (restrict is_mutable attrs),
  lookup-overlay k [] attrs,
  lookup-remember is_mutable k (lookup k []) attrs m,
  lookup-merge (overlay [] attrs) params k,
)

merge-Distinct :
    (attrs params : Assoc String)
    → Distinct (merge_persisted_volume_attributes (clone_volume_context attrs) params)
unfolding clone_volume_context
merge-Distinct attrs params =
    rw (merge-overlay (overlay [] attrs) params)
      (overlay-Distinct _ (restrict is_mutable params) (overlay-Distinct [] attrs tt))

combo-Agree :
    (a b : Assoc String)
    → Agree a b
    → validate_writeback_dlm_combo a ≡ validate_writeback_dlm_combo b
unfolding validate_writeback_dlm_combo text_at
combo-Agree a b h =
    ground
      (arith, h "writebackCache" (unfold is_mutable in refl), h "dlm" (unfold is_mutable in refl))

-- If ControllerModifyVolume accepts new parameters over the attributes of the persistent volume,
-- then the checks of the next stage accept the volume context merged with what was persisted.
pub modify_then_stage :
    (attrs params : Assoc String)
    → check_context (effective_parameters attrs params) ≡ none
    → check_context (merge_persisted_volume_attributes (clone_volume_context attrs) params) ≡ none
unfolding check_context
modify_then_stage attrs params h = ground (arith, constrained, combo-Agree _ _ agree)
  where
    agree :
        Agree
          (effective_parameters attrs params)
          (merge_persisted_volume_attributes (clone_volume_context attrs) params)
    agree = Agree-effective attrs params

    old : validate_constrained_parameter_values (effective_parameters attrs params) ≡ none
    old = ground arith

    constrained :
        validate_constrained_parameter_values
          (merge_persisted_volume_attributes (clone_volume_context attrs) params)
        ≡ none
    constrained = validate_constrained_complete _ (merge-Distinct attrs params) λ k v l m.
        validate_constrained_sound (effective_parameters attrs params) k v old (agree k m ∙ l) m
