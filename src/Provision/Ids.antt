-- ===== src/Provision/Ids.antt =====
-- The id of a created volume and what it resolves to.
use seaweedfs_csi_driver.Base.{
  String, true, Option, none, some, List, ◌∷◌, ◌≡◌, ◌≢◌, refl, sym, ◌∙◌, ap, arith, eq_iff,
  eq_false, Option-cases, ◌==◌, Bool-cases, inl, inr, if◌then◌else◌,
}
use seaweedfs_csi_driver.Base.Exec.{Result, ok, err, pure, raise, gets, ◌>>=◌}
use seaweedfs_csi_driver.GoPath.{is_abs, dir, base}
use seaweedfs_csi_driver.Driver.{
  Url, Urls, decode_volume_id, encode_volume_id, create_delete_volume,
  validate_controller_service_request,
}
use seaweedfs_csi_driver.Node.{RpcError}
use seaweedfs_csi_driver.Params.{text_at, validate_mutable_parameters}
use seaweedfs_csi_driver.Provision.{
  Client, driver_filers, filers_at, client_of, resolve_volume, parent_and_name, CreateRequest,
  CreatedVolume, Place, place_of, create_at, create_volume, FilerCall, mkdir, Provisioner, perform,
  returned, refuse_if, is_refused, is_missing, created_context,
}

abbrev pub NotOfFiler : Option Url → Type 0
NotOfFiler none = Unit
NotOfFiler (some u) = u.scheme ≢ "filer"

-- What net/url does with the ids that the driver builds for a filer's address: an absolute path is
-- not read as a URL of scheme "filer", and a printed URL is read back.
pub record AreUrls (urls : Urls) (filer_address : String) : Type 0 where
  pub plain_path : (path : String) → is_abs path ≡ true → NotOfFiler (urls.parse path)
  pub reads_back :
      (path : String)
      → filer_address ≢ ""
      → is_abs path ≡ true
      → urls.parse (urls.print (record { scheme = "filer"; host = filer_address; path = path }))
        ≡ some (record { scheme = "filer"; host = filer_address; path = path })

decode_other :
    (urls : Urls) (id : String) (o : Option Url)
    → urls.parse id ≡ o
    → NotOfFiler o
    → decode_volume_id urls id ≡ ("", id)
unfolding decode_volume_id
decode_other urls id none e h = rw (e, decode_volume_id) refl
decode_other urls id (some u) e h = rw (e, decode_volume_id) (rw (eq_false u.scheme "filer" h) refl)

-- The id that CreateVolume makes of a filer's address, which may be empty, and an absolute path is
-- decoded to the two.
pub decode-encode_volume_id :
    (urls : Urls) (filer_address path : String)
    → AreUrls urls filer_address
    → is_abs path ≡ true
    → decode_volume_id urls (encode_volume_id urls filer_address path) ≡ (filer_address, path)
unfolding decode_volume_id encode_volume_id
decode-encode_volume_id urls filer_address path h a = elim (Bool-cases (filer_address == "")) [
  | inl e ↦ rw e (
      let none_given : "" ≡ filer_address = ground (arith, eq_iff filer_address "") in
      decode_other urls path (urls.parse path) refl (h.plain_path path a)
      ∙ ap (λ f. (f, path)) none_given)
  | inr e ↦ rw e (
      rw
        (
          h.reads_back path (λ same. absurd (ground (arith, eq_iff filer_address ""))) a,
          decode_volume_id,
        )
        refl)
]

-- The filers of a volume, by the filer entry of its context: the driver's, or the one of the entry.
abbrev pub filers_named : String → Client
filers_named filer_address = if filer_address == "" then driver_filers else filers_at filer_address

-- What a created volume's id resolves to, beside the calls that were made and the filer entry.
abbrev pub IsRemovable : Provisioner → String → Result RpcError CreatedVolume × Provisioner → Type 0
IsRemovable s filer (err e, t) = Unit
IsRemovable s filer (ok v, t) =
    (client : Client) (path : String)
    → resolve_volume s.urls v.volume_id ≡ some (client, path)
    → (t.log ≡ mkdir client (parent_and_name path).0 (parent_and_name path).1 ∷ s.log)
      × (client ≡ filers_named filer)

client_of-filers_named :
    (filer_address : String) → client_of filer_address ≡ filers_named filer_address
unfolding client_of
client_of-filers_named filer_address = refl

resolved_place :
    (urls : Urls) (filer_address path : String) (client : Client) (found : String)
    → AreUrls urls filer_address
    → is_abs path ≡ true
    → resolve_volume urls (encode_volume_id urls filer_address path) ≡ some (client, found)
    → (client_of filer_address ≡ client) × (path ≡ found)
unfolding resolve_volume
resolved_place urls filer_address path client found h a e =
    let r = rw (decode-encode_volume_id urls filer_address path h a) at e in
    (ground (arith, r), ground (arith, r))

-- The place's path has its parent and its name.
pub record IsSplit (place : Place) : Type 0 where
  pub absolute : is_abs place.volume_path ≡ true
  pub parent : dir place.volume_path ≡ place.parent_dir
  pub name : base place.volume_path ≡ place.volume_name

same_call :
    (place : Place) (c client : Client) (found : String) (log : List FilerCall)
    → IsSplit place
    → c ≡ client
    → place.volume_path ≡ found
    → ◌≡◌ {A = List FilerCall}
        (mkdir c place.parent_dir place.volume_name ∷ log)
        (mkdir client (parent_and_name found).0 (parent_and_name found).1 ∷ log)
unfolding parent_and_name
same_call place c client found log split same also =
    rw (sym same) (rw (sym also) (rw split.absolute (rw (split.parent, split.name) refl)))

-- The context's filer is the one that the calls went to.
create_at-IsRemovable :
    (req : CreateRequest) (place : Place) (s : Provisioner)
    → IsSplit place
    → AreUrls s.urls (text_at "filer" (created_context req place))
    → IsRemovable s (text_at "filer" (created_context req place)) (create_at req place s)
unfolding create_at refuse_if perform returned ◌>>=◌ gets pure raise
create_at-IsRemovable req place s a h =
    elim (Bool-cases (is_refused (validate_mutable_parameters req.mutable_parameters))) [
      | inl e ↦ rw e tt
      | inr e ↦
          rw e
            (elim (Bool-cases (validate_controller_service_request s.driver create_delete_volume)) [
              | inr e ↦ rw e tt
              | inl e ↦ rw e (elim (Bool-cases (is_missing req.capabilities)) [
                | inl e ↦ rw e tt
                | inr e ↦ rw e (
                    let filer = text_at "filer" (created_context req place) in
                    elim (Option-cases (
                      s.filers.outcome s.log
                        (mkdir (client_of filer) place.parent_dir place.volume_name))) [
                          | inr (f, e) ↦ rw e tt
                          | inl e ↦ rw e (λ client found r.
                              let (c, p) =
                                resolved_place s.urls filer place.volume_path client found h
                                  a.absolute r in
                              (
                                same_call place (client_of filer) client found s.log a c p,
                                sym c ∙ client_of-filers_named filer,
                              ))
                        ])
              ])
            ])
    ]

pub create_volume-IsRemovable :
    (req : CreateRequest) (s : Provisioner)
    → IsSplit (place_of s.names req.name req.parameters)
    → AreUrls s.urls
        (text_at "filer" (created_context req (place_of s.names req.name req.parameters)))
    → IsRemovable s
        (text_at "filer" (created_context req (place_of s.names req.name req.parameters)))
        (create_volume req s)
unfolding create_volume refuse_if ◌>>=◌ gets pure raise
create_volume-IsRemovable req s split h = elim (Bool-cases (req.name == "")) [
  | inl e ↦ rw e tt
  | inr e ↦ rw e (create_at-IsRemovable req (place_of s.names req.name req.parameters) s split h)
]
