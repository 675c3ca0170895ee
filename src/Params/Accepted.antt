-- ===== src/Params/Accepted.antt =====
-- Which parameters of a VolumeAttributesClass the validator of Params accepts.
use seaweedfs_csi_driver.Base.{
  String, Bool, true, false, not, ◌&&◌, ◌||◌, Option, none, some, List, [], ◌∷◌, Assoc, is_some,
  eq_iff, eq_false, ◌≡◌, ◌≢◌, ◌↔◌, ◌⊎◌, refl, ap, ◌∙◌, subst, arith, All, Bool-cases, Option-cases,
  inl, inr, ◌==◌,
}
use seaweedfs_csi_driver.Locality.{from_string}
use seaweedfs_csi_driver.Strconv.{parse_bool, parse_int}
use seaweedfs_csi_driver.Params.{
  text_at, one_of, is_on, mutable_mount_parameters, integer_parameters, is_mutable, validate_value,
  validate_mutable_parameters, unknown_keys, invalid_values, validate_writeback_dlm_combo,
}

-- The key is one of the list.
abbrev pub IsAmong : String → List String → Type 0
IsAmong k [] = ⊥
IsAmong k (j ∷ ks) = (k ≡ j) ⊎ IsAmong k ks

-- What the documentation of the parameters lists.
abbrev modifiable : List String
modifiable =
    "cacheCapacityMB" ∷ "cacheMetaTtlSec" ∷ "chunkSizeLimitMB" ∷ "concurrentReaders"
    ∷ "concurrentWriters" ∷ "dataCenter" ∷ "dataLocality" ∷ "diskType" ∷ "dlm" ∷ "gidMap"
    ∷ "metadataFlushSeconds" ∷ "readRetryTime" ∷ "replication" ∷ "ttl" ∷ "uidMap"
    ∷ "volumeServerAccess" ∷ "writebackCache" ∷ []

abbrev integers : List String
integers =
    "cacheCapacityMB" ∷ "cacheMetaTtlSec" ∷ "chunkSizeLimitMB" ∷ "concurrentReaders"
    ∷ "concurrentWriters" ∷ "metadataFlushSeconds" ∷ []

abbrev switches : List String
switches = "dlm" ∷ "writebackCache" ∷ []

-- The value is empty, or has the form that the key asks for, if it asks for one.
abbrev pub IsWellFormedValue : String → String → Type 0
IsWellFormedValue key value =
    (value ≢ "")
    → ((key ≡ "dataLocality" → from_string value ≢ none)
        × (IsAmong key integers → parse_int value ≢ none)
        × (IsAmong key switches → parse_bool value ≢ none))

-- An entry that a VolumeAttributesClass may hold.
abbrev pub IsAcceptable : String × String → Type 0
IsAcceptable entry = IsAmong entry.0 modifiable × IsWellFormedValue entry.0 entry.1

-- Writeback caching and the distributed lock manager are both on.
abbrev pub HasConflict : Assoc String → Type 0
HasConflict params =
    (parse_bool (text_at "writebackCache" params) ≡ some true)
    × (parse_bool (text_at "dlm" params) ≡ some true)

-- Whether all of the list pass the test.
abbrev every : (String → Bool) → List String → Bool
every test [] = true
every test (j ∷ ks) = test j && every test ks

among-test :
    (test : String → Bool) (k : String) (ks : List String)
    → IsAmong k ks
    → every test ks ≡ true
    → test k ≡ true
among-test test k [] h all = absurd h
among-test test k (j ∷ ks) (inl e) all =
    let here : test j ≡ true = ground (arith, all) in ap test e ∙ here
among-test test k (j ∷ ks) (inr h) all = among-test test k ks h (ground (arith, all))

one_of-IsAmong : (k : String) (ks : List String) → one_of k ks ≡ true → IsAmong k ks
unfolding one_of
one_of-IsAmong k [] h = absurd (ground (arith, h))
one_of-IsAmong k (j ∷ ks) h = elim (Bool-cases (k == j)) [
  | inl e ↦ inl (ground (arith, e, eq_iff k j))
  | inr e ↦ inr (one_of-IsAmong k ks (ground (arith, e, h)))
]

is_some-given : {A : Type 0} (o : Option A) → is_some o ≡ true → o ≢ none
is_some-given o h e =
    absurd (let gone : is_some o ≡ false = ap is_some e in ground (arith, h, gone))

given-is_some : {A : Type 0} (o : Option A) → o ≢ none → is_some o ≡ true
given-is_some none h = absurd (h refl)
given-is_some (some x) h = refl

-- Which of the tests of validate_value a key meets.
abbrev is_integer : String → Bool
is_integer k = not (k == "dataLocality") && one_of k integer_parameters

abbrev is_switch : String → Bool
is_switch k =
    not (k == "dataLocality")
    && not (one_of k integer_parameters)
    && (k == "writebackCache" || k == "dlm")

integers-test : (k : String) → IsAmong k integers → is_integer k ≡ true
unfolding one_of
integers-test k h = among-test is_integer k integers h refl

switches-test : (k : String) → IsAmong k switches → is_switch k ≡ true
unfolding one_of
switches-test k h = among-test is_switch k switches h refl

test-integers : (k : String) → one_of k integer_parameters ≡ true → IsAmong k integers
unfolding one_of
test-integers k h = one_of-IsAmong k integers (
    among-test (λ x. one_of x integers) k integer_parameters (one_of-IsAmong k integer_parameters h)
      refl)

test-switches : (k : String) → k == "writebackCache" || k == "dlm" ≡ true → IsAmong k switches
test-switches k h = elim (Bool-cases (k == "dlm")) [
  | inl e ↦ inl (ground (arith, e, eq_iff k "dlm"))
  | inr e ↦ inr (inl (ground (arith, e, h, eq_iff k "writebackCache")))
]

modifiable-test : (k : String) → IsAmong k modifiable → is_mutable k ≡ true
unfolding is_mutable one_of
modifiable-test k h = among-test is_mutable k modifiable h refl

test-modifiable : (k : String) → is_mutable k ≡ true → IsAmong k modifiable
unfolding is_mutable one_of
test-modifiable k h = one_of-IsAmong k modifiable (
    among-test (λ x. one_of x modifiable) k mutable_mount_parameters
      (one_of-IsAmong k mutable_mount_parameters h) refl)

value-IsWellFormedValue : (k v : String) → validate_value k v ≡ none → IsWellFormedValue k v
unfolding validate_value
value-IsWellFormedValue k v h full =
    let given : (v == "") ≡ false = eq_false v "" full in
    (
      λ e. is_some-given (from_string v) (ground (arith, h, given, e, eq_iff k "dataLocality")),
      λ i.
          let test = integers-test k i in
          is_some-given (parse_int v) (ground (arith, h, given, test)),
      λ s.
          let test = switches-test k s in
          is_some-given (parse_bool v) (ground (arith, h, given, test)),
    )

form-accepted :
    (k v : String)
    → (k ≡ "dataLocality" → from_string v ≢ none)
    → (IsAmong k integers → parse_int v ≢ none)
    → (IsAmong k switches → parse_bool v ≢ none)
    → validate_value k v ≡ none
unfolding validate_value
form-accepted k v locality integer switch = elim (Bool-cases (k == "dataLocality")) [
  | inl e ↦
      let known =
        given-is_some (from_string v) (locality (ground (arith, e, eq_iff k "dataLocality"))) in
      ground (arith, e, known)
  | inr e ↦ elim (Bool-cases (one_of k integer_parameters)) [
    | inl i ↦
        let parsed = given-is_some (parse_int v) (integer (test-integers k i)) in
        ground (arith, e, i, parsed)
    | inr i ↦ elim (Bool-cases (k == "writebackCache" || k == "dlm")) [
      | inl s ↦
          let parsed = given-is_some (parse_bool v) (switch (test-switches k s)) in
          ground (arith, e, i, s, parsed)
      | inr s ↦ ground (arith, e, i, s)
    ]
  ]
]

WellFormedValue-accepted : (k v : String) → IsWellFormedValue k v → validate_value k v ≡ none
unfolding validate_value
WellFormedValue-accepted k v h = elim (Bool-cases (v == "")) [
  | inl e ↦ rw e refl
  | inr e ↦
      let (locality, integer, switch) = h (λ same. absurd (ground (arith, e, same, eq_iff v ""))) in
      form-accepted k v locality integer switch
]

on-parsed : (a : String) → is_on a ≡ true → parse_bool a ≡ some true
unfolding is_on
on-parsed a h = go (parse_bool a) h
  where
    go : (o : Option Bool) → elim o [ none ↦ false | some b ↦ b ] ≡ true → o ≡ some true
    go none e = absurd (ground (arith, e))
    go (some b) e = ap some e

unparsed : parse_bool "" ≡ some true → ⊥
unfolding parse_bool
unparsed h = ground (arith, h)

parsed-on : (a : String) → parse_bool a ≡ some true → (is_on a ≡ true) × ((a == "") ≡ false)
unfolding is_on
parsed-on a h = (
  ap (λ o. elim o [ none ↦ false | some b ↦ b ]) h,
  eq_false a "" (λ e.
      let empty : parse_bool "" ≡ some true = subst (λ x. parse_bool x ≡ some true) e h in
      absurd (unparsed empty)),
)

no_conflict :
    (params : Assoc String) → validate_writeback_dlm_combo params ≡ none → HasConflict params → ⊥
unfolding validate_writeback_dlm_combo
no_conflict params h (wb, dlm) =
    let a = parsed-on _ wb in let b = parsed-on _ dlm in absurd (ground (arith, h, a, b))

conflict_free :
    (params : Assoc String) → (HasConflict params → ⊥) → validate_writeback_dlm_combo params ≡ none
unfolding validate_writeback_dlm_combo
conflict_free params h = elim (Bool-cases (is_on (text_at "writebackCache" params))) [
  | inl a ↦ elim (Bool-cases (is_on (text_at "dlm" params))) [
    | inl b ↦ absurd (h (on-parsed _ a, on-parsed _ b))
    | inr b ↦ ground (arith, b)
  ]
  | inr a ↦ ground (arith, a)
]

unknown_keys-All :
    (params : Assoc String) → unknown_keys params ≡ [] → All (λ e. is_mutable e.0 ≡ true) params
unfolding unknown_keys
unknown_keys-All [] h = tt
unknown_keys-All ((k, v) ∷ params) h = ground (arith, unknown_keys-All params)

accepted :
    (params : Assoc String)
    → unknown_keys params ≡ []
    → invalid_values params ≡ []
    → All IsAcceptable params
unfolding unknown_keys invalid_values
accepted [] h k = tt
accepted ((key, value) ∷ params) h k = elim (Bool-cases (is_mutable key)) [
  | inl e ↦ elim (Option-cases (validate_value key value)) [
    | inl f ↦ (
      (test-modifiable key e, value-IsWellFormedValue key value f),
      accepted params (ground arith) (ground arith),
    )
    | inr (x, f) ↦ absurd (ground arith)
  ]
  | inr e ↦ absurd (ground arith)
]

acceptable :
    (params : Assoc String)
    → All IsAcceptable params
    → (unknown_keys params ≡ []) × (invalid_values params ≡ [])
unfolding unknown_keys invalid_values
acceptable [] h = (refl, refl)
acceptable ((key, value) ∷ params) h =
    let known = modifiable-test key h.0.0 in
    let fits = WellFormedValue-accepted key value h.0.1 in
    let later = acceptable params h.1 in ground (arith, known, fits, later)

-- The validator of VolumeAttributesClass parameters accepts a set exactly when each key is one of
-- the seventeen that may change; a value that is not empty is a data locality, an integer or a
-- Boolean where the key asks for one (the values of the other keys are not looked at); and writeback
-- caching and the distributed lock manager are not both on.
pub validate_mutable_parameters_iff :
    (params : Assoc String)
    → (validate_mutable_parameters params ≡ none)
      ↔ (All IsAcceptable params × (HasConflict params → ⊥))
unfolding validate_mutable_parameters
validate_mutable_parameters_iff params = (
  λ h. (
    accepted params (ground (arith, h)) (ground (arith, h)),
    no_conflict params (ground (arith, h)),
  ),
  λ h.
      let (known, valid) = acceptable params h.0 in
      let free = conflict_free params h.1 in ground (arith, known, valid, free),
)
