-- ===== src/VacStore/Persist.antt =====
-- A write to the store and a read after it.
use seaweedfs_csi_driver.Base.{
  ℕ, ◌<◌, length, String, Bool, true, false, Option, none, some, List, [], ◌∷◌, Assoc, lookup,
  if◌then◌else◌, ◌≡◌, ◌≢◌, ◌⊎◌, refl, sym, ◌∙◌, arith, eq_false, Bool-cases, inl, inr,
}
use seaweedfs_csi_driver.Base.Exec.{ok, err}
use seaweedfs_csi_driver.VacStore.{
  request, Http, HttpResponse, Method, get, put, StoreError, no_filer, unreachable, is_accepted,
  answered, round_trip, decoded, read_entry, without_body, send_entry, write_entry,
}

-- The entries of a map, without their order.
abbrev pub IsSameMap : Assoc String → Assoc String → Type 0
IsSameMap m n = (k : String) → lookup k m ≡ lookup k n

stored-is_accepted :
    (code : ℕ) → (code ≡ 200) ⊎ (code ≡ 201) → is_accepted code (200 ∷ 201 ∷ []) ≡ true
unfolding is_accepted
stored-is_accepted code (inl e) = rw e refl
stored-is_accepted code (inr e) = rw e refl

module _ {World : Type 0} (http : Http World) where
  -- Filers that keep documents: those that are up answer, with the document under the id, which is
  -- empty where there is none; and encoding/json reads back the map that it wrote, the entries in an
  -- order of its own.
  pub record IsStore : Type 0 where
    pub is_up : String → Bool
    pub stored : World → String → String → String
    pub down :
        (filer volume_id body : String) (method : Method) (w : World)
        → is_up filer ≡ false
        → http.send (request filer method volume_id body) w ≡ (none, w)
    pub puts :
        (filer volume_id body : String) (w : World)
        → is_up filer ≡ true
        → (w' : World) × (r : HttpResponse) × (http.send (request filer put volume_id body) w
            ≡ (some r, w'))
          × ((r.status_code ≡ 200) ⊎ (r.status_code ≡ 201))
          × (stored w' filer volume_id ≡ body)
    pub gets :
        (filer volume_id : String) (w : World)
        → is_up filer ≡ true
        → (stored w filer volume_id ≢ "")
        → http.send (request filer get volume_id "") w
          ≡ (some (record { status_code = 200; body = stored w filer volume_id }), w)
    pub reads_back :
        (params : Assoc String) (body : String)
        → http.marshal params ≡ some body
        → (body ≢ "")
          × ((back : Assoc String) × (http.unmarshal body ≡ some back) × IsSameMap back params)

  module _ (store : IsStore) where
    unfoldable pub first_up : List String → Option String
    first_up [] = none
    first_up (filer ∷ filers) = if store.is_up filer then some filer else first_up filers

    first_up-is_up :
        (filers : List String) (filer : String)
        → first_up filers ≡ some filer
        → store.is_up filer ≡ true
    unfolding first_up
    first_up-is_up [] filer f = absurd (ground (arith, f))
    first_up-is_up (x ∷ filers) filer f = elim (Bool-cases (store.is_up x)) [
      | inl up ↦ ground (arith, f, up)
      | inr off ↦ first_up-is_up filers filer (ground (arith, f, off))
    ]

    trip_at :
        (method : Method) (volume_id body : String) (codes : List ℕ) (filers : List String)
        (last : StoreError) (w w' : World) (filer : String) (r : HttpResponse)
        → first_up filers ≡ some filer
        → http.send (request filer method volume_id body) w ≡ (some r, w')
        → round_trip http method volume_id body codes filers last w ≡ (answered http r codes, w')
    unfolding round_trip first_up
    trip_at method volume_id body codes [] last w w' filer r f e = absurd (ground (arith, f))
    trip_at method volume_id body codes (x ∷ filers) last w w' filer r f e =
        elim (Bool-cases (store.is_up x)) [
          | inl up ↦
              let same : x ≡ filer = ground (arith, f, up) in rw (same, round_trip) (rw e refl)
          | inr off ↦
              rw (store.down x volume_id body method w off, round_trip)
                (trip_at method volume_id body codes filers unreachable w w' filer r
                  (ground (arith, f, off)) e)
        ]

    trip_none :
        (method : Method) (volume_id body : String) (codes : List ℕ) (filers : List String)
        (last : StoreError) (w : World)
        → first_up filers ≡ none
        → (e : StoreError) × (round_trip http method volume_id body codes filers last w
            ≡ (err e, w))
    unfolding round_trip first_up
    trip_none method volume_id body codes [] last w f = (last, refl)
    trip_none method volume_id body codes (x ∷ filers) last w f =
        elim (Bool-cases (store.is_up x)) [
          | inl up ↦ absurd (ground (arith, f, up))
          | inr off ↦
              let (e, h) =
                trip_none method volume_id body codes filers unreachable w
                  (ground (arith, f, off)) in
              (e, rw (store.down x volume_id body method w off, round_trip) h)
        ]

    read_trip :
        (filers : List String) (volume_id : String) (w w' : World) (body : String)
        → 0 < length filers
        → round_trip http get volume_id "" (200 ∷ 404 ∷ []) filers no_filer w ≡ (ok body, w')
        → read_entry http filers volume_id w ≡ (decoded http (ok body), w')
    unfolding read_entry
    read_trip [] volume_id w w' body h e = absurd (omega (arith, h))
    read_trip (filer ∷ filers) volume_id w w' body h e = rw e refl

    some_filer :
        (filers : List String) (filer : String) → first_up filers ≡ some filer → 0 < length filers
    unfolding first_up
    some_filer [] filer f = absurd (ground (arith, f))
    some_filer (x ∷ filers) filer f = omega arith

    -- Write of parameters, not empty, to filers of which one is up succeeds, and a Read of the volume
    -- by the same filers then returns a map with the same entries.
    pub read-write_entry :
        (filers : List String) (filer volume_id body key value : String) (params : Assoc String)
        (w : World)
        → first_up filers ≡ some filer
        → http.marshal ((key, value) ∷ params) ≡ some body
        → (w' : World) × (write_entry http filers volume_id ((key, value) ∷ params) w ≡ (ok tt, w'))
          × ((back : Assoc String) × (read_entry http filers volume_id w' ≡ (ok (some back), w'))
              × IsSameMap back ((key, value) ∷ params))
    unfolding write_entry send_entry without_body decoded answered
    read-write_entry filers filer volume_id body key value params w f j =
        let up = first_up-is_up filers filer f in
        let (w', r, sent, code, kept) = store.puts filer volume_id body w up in
        let (full, (back, parsed, same)) = store.reads_back ((key, value) ∷ params) body j in
        (
          w',
          rw j (
              rw (trip_at put volume_id body (200 ∷ 201 ∷ []) filers no_filer w w' filer r f sent)
                (rw (stored-is_accepted r.status_code code) refl)),
          (
            back,
            read_trip filers volume_id w' w' body (some_filer filers filer f) (
                  trip_at get volume_id "" (200 ∷ 404 ∷ []) filers no_filer w' w' filer _ f
                    (store.gets filer volume_id w' up (λ e. full (sym kept ∙ e)))
                  ∙ rw kept refl)
                ∙ rw (eq_false body "" full) (rw parsed refl),
            same,
          ),
        )
