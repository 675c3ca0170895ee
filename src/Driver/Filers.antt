-- ===== src/Driver/Filers.antt =====
-- The filers that a driver calls: WithFilerClient of pkg/driver/driver.go, one attempt of util.Retry.
use seaweedfs_csi_driver.Base.{
  ℕ, zero, suc, ◌+◌, ◌≤◌, ◌<◌, leb, String, Option, none, some, List, [], ◌∷◌, length, eqb, ◌≡◌,
  ◌≢◌, ◌⊎◌, inl, inr, refl, subst, arith, Bool-cases, Option-cases, if◌then◌else◌,
}

-- d.filers[i], which panics out of range.
unfoldable pub filer_at : List String → ℕ → Option String
filer_at [] i = none
filer_at (f ∷ filers) zero = some f
filer_at (f ∷ filers) (suc i) = filer_at filers i

unfoldable pub next_index : ℕ → ℕ → ℕ
next_index n i = if leb n (1 + i) then 0 else 1 + i

module _ {Fault : Type 0} (call : String → Option Fault) where
  -- The error of the last filer called, and the index to keep where one took the call; the outer none
  -- is a panic.
  unfoldable pub try_filers : List String → ℕ → ℕ → Option Fault → Option (Option Fault × Option ℕ)
  unfolding filer_at next_index
  try_filers filers zero i e = some (e, none)
  try_filers filers (suc left) i e = elim (filer_at filers i) [
    | none ↦ none
    | some f ↦ elim (call f) [
      | none ↦ some (none, some i)
      | some failed ↦ try_filers filers left (next_index (length filers) i) (some failed)
    ]
  ]

  unfoldable pub with_filer_client : List String → ℕ → Option (Option Fault × Option ℕ)
  unfolding try_filers
  with_filer_client filers filer_index = try_filers filers (length filers) filer_index none

  -- The filer at the index fails.
  abbrev pub Fails : List String → ℕ → Type 0
  Fails filers k = (f : String) × (filer_at filers k ≡ some f) × (e : Fault) × (call f ≡ some e)

  -- A round from `i` on: a filer took the call, its index is kept, or the filers from `i` on, back from
  -- the start after the last, all failed.
  pub data Round (filers : List String) (left i : ℕ)
      : Option (Option Fault × Option ℕ) → Type 0 where
    took :
        (j : ℕ) (f : String)
        → j < length filers
        → filer_at filers j ≡ some f
        → call f ≡ none
        → Round filers left i (some (none, some j))
    all_failed :
        (e : Option Fault)
        → ((k : ℕ)
            → k < length filers
            → ((i ≤ k) × (k < i + left)) ⊎ (k + length filers < i + left)
            → Fails filers k)
        → Round filers left i (some (e, none))

  in_range :
      (filers : List String) (i : ℕ)
      → i < length filers
      → (f : String) × (filer_at filers i ≡ some f)
  unfolding filer_at
  in_range [] i h = absurd (omega (arith, h))
  in_range (f ∷ filers) zero h = (f, refl)
  in_range (f ∷ filers) (suc i) h = in_range filers i (omega (arith, h))

  -- The filers from `i` on are the one at `i` and those from the next index on.
  covered_later :
      (n left i k : ℕ)
      → i < n
      → k < n
      → suc left ≤ n
      → i ≢ k
      → ((i ≤ k) × (k < i + suc left)) ⊎ (k + n < i + suc left)
      → ((next_index n i ≤ k) × (k < next_index n i + left)) ⊎ (k + n < next_index n i + left)
  unfolding next_index
  covered_later n left i k lt small le apart (inl (a, b)) = elim (Bool-cases (leb n (1 + i))) [
    | inl e ↦ absurd (ground (arith, apart))
    | inr e ↦ rw e (inl (ground arith, omega (arith, b)))
  ]
  covered_later n left i k lt small le apart (inr a) = elim (Bool-cases (leb n (1 + i))) [
    | inl e ↦ rw e (inl (omega arith, ground arith))
    | inr e ↦ rw e (inr (omega (arith, a)))
  ]

  later :
      (filers : List String) (left i : ℕ) (o : Option (Option Fault × Option ℕ))
      → i < length filers
      → suc left ≤ length filers
      → Fails filers i
      → Round filers left (next_index (length filers) i) o
      → Round filers (suc left) i o
  later filers left i _ lt le h (took j f a b c) = took j f a b c
  later filers left i _ lt le h (all_failed e all) = all_failed e λ k small covered.
      elim (Bool-cases (eqb i k)) [
        | inl q ↦ let same : i ≡ k = ground arith in subst (Fails filers) same h
        | inr q ↦ all k small (
            covered_later (length filers) left i k lt small le (λ x. absurd (ground arith)) covered)
      ]

  next_in_range : (n i : ℕ) → i < n → next_index n i < n
  unfolding next_index
  next_in_range n i h = elim (Bool-cases (leb n (1 + i))) [
    | inl e ↦ rw e (omega (arith, h))
    | inr e ↦ rw e (ground arith)
  ]

  try_filers-Round :
      (filers : List String) (left i : ℕ) (e : Option Fault)
      → i < length filers
      → left ≤ length filers
      → (o : Option (Option Fault × Option ℕ)) × (try_filers filers left i e ≡ o)
        × Round filers left i o
  unfolding try_filers
  try_filers-Round filers zero i e lt le =
      (some (e, none), refl, all_failed e λ k small covered. absurd (ground arith))
  try_filers-Round filers (suc left) i e lt le =
      let (f, at) = in_range filers i lt in
      elim (Option-cases (call f)) [
        | inl taken ↦
            rw (at, try_filers) (rw taken (some (none, some i), refl, took i f lt at taken))
        | inr (failed, refused) ↦
            rw (at, try_filers)
              (rw refused (
                let (o, same, round) =
                  try_filers-Round filers left (next_index (length filers) i) (some failed)
                    (next_in_range (length filers) i lt) (omega (arith, le)) in
                (o, same, later filers left i o lt le (f, at, failed, refused) round)))
      ]

  -- A filer in range took the call, or every filer failed.
  abbrev pub IsAttempt : List String → Option (Option Fault × Option ℕ) → Type 0
  IsAttempt filers o =
      ((j : ℕ) × (f : String) × (o ≡ some (none, some j))
        × (j < length filers)
        × (filer_at filers j ≡ some f)
        × (call f ≡ none))
      ⊎ ((e : Option Fault) × (o ≡ some (e, none)) × ((k : ℕ) → k < length filers → Fails filers k))

  all_around : (n i k : ℕ) → i < n → k < n → ((i ≤ k) × (k < i + n)) ⊎ (k + n < i + n)
  all_around n i k lt small = elim (Bool-cases (leb i k)) [
    | inl e ↦ inl (ground arith, omega (arith, lt, small))
    | inr e ↦ inr (ground arith)
  ]

  Round-IsAttempt :
      (filers : List String) (i : ℕ) (o : Option (Option Fault × Option ℕ))
      → i < length filers
      → Round filers (length filers) i o
      → IsAttempt filers o
  Round-IsAttempt filers i _ lt (took j f a b c) = inl (j, f, refl, a, b, c)
  Round-IsAttempt filers i _ lt (all_failed e all) =
      inr (e, refl, λ k small. all k small (all_around (length filers) i k lt small))

  -- One attempt of WithFilerClient that begins at an index in range does not panic. It ends with a
  -- filer that took the call, whose index, in range too, is kept; or every filer has failed.
  pub with_filer_client-IsAttempt :
      (filers : List String) (filer_index : ℕ)
      → filer_index < length filers
      → (o : Option (Option Fault × Option ℕ)) × (with_filer_client filers filer_index ≡ o)
        × IsAttempt filers o
  unfolding with_filer_client
  with_filer_client-IsAttempt filers filer_index lt =
      let (o, same, round) =
        try_filers-Round filers (length filers) filer_index none lt (omega arith) in
      (o, same, Round-IsAttempt filers filer_index o lt round)
