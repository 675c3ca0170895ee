-- ===== src/MountArgs/Context.antt =====
-- What the volume context does to the arguments of a mount.
use seaweedfs_csi_driver.Base.{
  String, true, false, some, [], ◌∷◌, Assoc, lookup, lookup-insert, eq_iff, ◌≡◌, refl, ◌∙◌, arith,
  ◌==◌, ◌&&◌, not, Bool-cases, inl, inr, if◌then◌else◌,
}
use seaweedfs_csi_driver.Params.{one_of}
use seaweedfs_csi_driver.MountArgs.{ignored_args, mapped_key, apply_entry, apply_context}

same_sym : (a b : String) → (a == b) ≡ (b == a)
same_sym a b = ground (arith, eq_iff a b, eq_iff b a)

-- Only the context's key of the same name sets the argument.
abbrev pub IsDirect : String → Type 0
IsDirect k =
    one_of k ("map.uid" ∷ "map.gid" ∷ "disk" ∷ "uidMap" ∷ "gidMap" ∷ "diskType" ∷ []) ≡ false

mapped_key_direct : (j k : String) → IsDirect k → (mapped_key j == k) ≡ (j == k)
unfolding mapped_key one_of
mapped_key_direct j k h = elim (Bool-cases (j == "uidMap")) [
  | inl a ↦ rw a (ground (arith, eq_iff j "uidMap", same_sym "map.uid" k, same_sym "uidMap" k))
  | inr a ↦ elim (Bool-cases (j == "gidMap")) [
    | inl b ↦
        rw (a, b) (ground (arith, eq_iff j "gidMap", same_sym "map.gid" k, same_sym "gidMap" k))
    | inr b ↦ elim (Bool-cases (j == "diskType")) [
      | inl c ↦
          rw (a, b, c)
            (ground (arith, eq_iff j "diskType", same_sym "disk" k, same_sym "diskType" k))
      | inr c ↦ rw (a, b, c) refl
    ]
  ]
]

-- The last nonempty value of a key, and `old` where there is none.
abbrev pub last_set : String → String → Assoc String → String
last_set k old [] = old
last_set k old ((j, v) ∷ context) = last_set k (if j == k && not (v == "") then v else old) context

apply_entry_direct :
    (args : Assoc String) (k old j v : String)
    → IsDirect k
    → one_of k ignored_args ≡ false
    → lookup k args ≡ some old
    → lookup k (apply_entry args j v) ≡ some (if j == k && not (v == "") then v else old)
unfolding apply_entry
apply_entry_direct args k old j v direct taken h = ground (
  arith,
  mapped_key_direct j k direct,
  eq_iff j k,
  eq_iff (mapped_key j) k,
  lookup-insert (mapped_key j) k v args,
)

-- An argument that the driver knows, is not managed and is set under its own name has the last
-- nonempty value of the volume context, and the driver's default where there is none.
pub lookup-apply_context :
    (args context : Assoc String) (k old : String)
    → IsDirect k
    → one_of k ignored_args ≡ false
    → lookup k args ≡ some old
    → lookup k (apply_context args context) ≡ some (last_set k old context)
unfolding apply_context
lookup-apply_context args [] k old direct taken h = h
lookup-apply_context args ((j, v) ∷ context) k old direct taken h =
    lookup-apply_context (apply_entry args j v) context k _ direct taken
      (apply_entry_direct args k old j v direct taken h)

apply_entry_ignored :
    (args : Assoc String) (k j v : String)
    → IsDirect k
    → one_of k ignored_args ≡ true
    → lookup k (apply_entry args j v) ≡ lookup k args
unfolding apply_entry
apply_entry_ignored args k j v direct taken = ground (
  arith,
  mapped_key_direct j k direct,
  eq_iff j k,
  eq_iff (mapped_key j) k,
  lookup-insert (mapped_key j) k v args,
)

-- An entry of the volume context never sets an argument that the driver manages.
pub lookup-apply_context_ignored :
    (args context : Assoc String) (k : String)
    → IsDirect k
    → one_of k ignored_args ≡ true
    → lookup k (apply_context args context) ≡ lookup k args
unfolding apply_context
lookup-apply_context_ignored args [] k direct taken = refl
lookup-apply_context_ignored args ((j, v) ∷ context) k direct taken =
    lookup-apply_context_ignored (apply_entry args j v) context k direct taken
    ∙ apply_entry_ignored args k j v direct taken
