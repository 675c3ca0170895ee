-- ===== src/VacStore.antt =====
-- The store of a VolumeAttributesClass's parameters on the filers: pkg/driver/vacstore.go. The HTTP
-- client and encoding/json are parameters; a request is sent to a filer's state, a value of `World`.
pub mod Persist
pub mod Path
use seaweedfs_csi_driver.Base.{
  ℕ, String, Bool, true, false, ◌||◌, Option, none, some, List, [], ◌∷◌, Assoc, eqb, if◌then◌else◌,
  ◌==◌,
}
use seaweedfs_csi_driver.Base.Exec.{Result, ok, err}
use seaweedfs_csi_driver.Driver.{Driver, Urls, decode_volume_id}

pub data Method : Type 0 where
  get put delete : Method

pub record HttpRequest : Type 0 where
  pub filer : String
  pub method : Method
  pub volume_id : String
  pub body : String

pub record HttpResponse : Type 0 where
  pub status_code : ℕ
  pub body : String

abbrev pub request : String → Method → String → String → HttpRequest
request filer method volume_id body = record {
  filer = filer;
  method = method;
  volume_id = volume_id;
  body = body;
}

pub data StoreError : Type 0 where
  unreachable unexpected_status no_filer corrupt not_encoded : StoreError

-- ToAddresses of a list of addresses, the HTTP round trip, none where the filer does not answer, and
-- the JSON of an entry.
pub record Http (World : Type 0) : Type 0 where
  pub to_addresses : String → List String
  pub send : HttpRequest → World → Option HttpResponse × World
  pub marshal : Assoc String → Option String
  pub unmarshal : String → Option (Assoc String)

-- vacFilersForVolume
unfoldable pub vac_filers_for_volume : Urls → (String → List String) → Driver → String → List String
vac_filers_for_volume urls to_addresses d volume_id =
    let filer_address = (decode_volume_id urls volume_id).0 in
    if filer_address == "" then d.filers else to_addresses filer_address

-- One of okCodes.
unfoldable pub is_accepted : ℕ → List ℕ → Bool
is_accepted code [] = false
is_accepted code (c ∷ codes) = eqb code c || is_accepted code codes

module _ {World : Type 0} (http : Http World) where
  -- roundTrip: the next filer is tried only where one does not answer.
  unfoldable pub answered : HttpResponse → List ℕ → Result StoreError String
  unfolding is_accepted
  answered response codes =
      if is_accepted response.status_code codes then ok response.body else err unexpected_status

  unfoldable pub tried :
      List ℕ
      → (World → Result StoreError String × World)
      → Option HttpResponse × World
      → Result StoreError String × World
  unfolding answered
  tried codes next (some response, w) = (answered response codes, w)
  tried codes next (none, w) = next w

  unfoldable pub round_trip :
      Method
      → String
      → String
      → List ℕ
      → List String
      → StoreError
      → World
      → Result StoreError String × World
  unfolding tried
  round_trip method volume_id body codes [] last w = (err last, w)
  round_trip method volume_id body codes (filer ∷ filers) last w =
      tried codes (λ w'. round_trip method volume_id body codes filers unreachable w')
        (http.send (request filer method volume_id body) w)

  -- The document of an entry; an empty one is no entry.
  unfoldable pub decoded : Result StoreError String → Result StoreError (Option (Assoc String))
  decoded (err e) = err e
  decoded (ok body) =
      if body == ""
      then ok none
      else elim (http.unmarshal body) [ none ↦ err corrupt | some params ↦ ok (some params) ]

  unfoldable pub read_entry :
      List String → String → World → Result StoreError (Option (Assoc String)) × World
  unfolding round_trip decoded
  read_entry [] volume_id w = (ok none, w)
  read_entry (filer ∷ filers) volume_id w =
      let (r, w') = round_trip get volume_id "" (200 ∷ 404 ∷ []) (filer ∷ filers) no_filer w in
      (decoded r, w')

  unfoldable pub without_body : Result StoreError String → Result StoreError (Unit {0})
  without_body (err e) = err e
  without_body (ok body) = ok tt

  unfoldable pub send_entry :
      List String → String → Option String → World → Result StoreError (Unit {0}) × World
  unfolding round_trip without_body
  send_entry filers volume_id none w = (err not_encoded, w)
  send_entry filers volume_id (some body) w =
      let (r, w') = round_trip put volume_id body (200 ∷ 201 ∷ []) filers no_filer w in
      (without_body r, w')

  unfoldable pub write_entry :
      List String → String → Assoc String → World → Result StoreError (Unit {0}) × World
  unfolding send_entry
  write_entry filers volume_id [] w = (ok tt, w)
  write_entry filers volume_id (p ∷ params) w =
      send_entry filers volume_id (http.marshal (p ∷ params)) w

  unfoldable pub delete_entry : List String → String → World → Result StoreError (Unit {0}) × World
  unfolding round_trip without_body
  delete_entry filers volume_id w =
      let (r, w') = round_trip delete volume_id "" (200 ∷ 404 ∷ 204 ∷ []) filers no_filer w in
      (without_body r, w')
