-- ===== src/MountService/Transparent.antt =====
-- The client of the mount service and its handlers together.
use seaweedfs_csi_driver.Base.{String, Option, none, some, [], Assoc, ◌≡◌, ◌≢◌, refl, eq_false}
use seaweedfs_csi_driver.Base.Exec.{Result, ok, err, map_err}
use seaweedfs_csi_driver.MountManager.{MountRequest}
use seaweedfs_csi_driver.MountService.{
  get, post, Call, Json, Codecs, Service, MountResponse, UnmountRequest, UnmountResponse,
  ListResponse, ErrorResponse, serve, make_post_handler, list_handler, manage, respond, write_error,
  write_json, written,
}
use seaweedfs_csi_driver.MountService.Client.{
  ClientError, service_error, Transport, client_mount, client_unmount, client_list, do_post,
  post_body, received, refused, decode_as, listed,
}

-- The text of one value decodes to another.
abbrev pub Carries : {A : Type 0} → Json A → A → A → Type 0
Carries json a b = (body : String) × (json.encode a ≡ some body) × (json.decode body ≡ ok b)

abbrev pub empty_omitted : Option (Assoc String) → Option (Assoc String)
empty_omitted (some []) = none
empty_omitted context = context

-- A request as its JSON tells it: `omitempty` drops a volume context that has no entry.
abbrev pub omit_empty : MountRequest → MountRequest
omit_empty req = record req { volume_context = empty_omitted req.volume_context }

-- What the code relies on of encoding/json at these types.
pub record AreCodecs (codecs : Codecs) : Type 0 where
  pub mount_request : (req : MountRequest) → Carries codecs.mount_request req (omit_empty req)
  pub mount_response : (a : MountResponse) → Carries codecs.mount_response a a
  pub unmount_request : (req : UnmountRequest) → Carries codecs.unmount_request req req
  pub unmount_response : (a : UnmountResponse) → Carries codecs.unmount_response a a
  pub list_response : (a : ListResponse) → Carries codecs.list_response a a
  pub error_response : (e : ErrorResponse) → Carries codecs.error_response e e

-- The socket brings each request to the service, and its response back.
abbrev pub Delivers : {M : Type 0} → Transport M → Codecs → Service M → Type 0
Delivers {M} transport codecs service =
    (call : Call) (m : M)
    → transport.send call m
      ≡ (let (response, m') = serve codecs service call m in (some response, m'))

-- The manager's errors have a text.
abbrev pub AreNamed : {A M : Type 0} → Result String A × M → Type 0
AreNamed (ok a, m) = Unit
AreNamed (err e, m) = e ≢ ""

-- What the client returns of what the manager returned.
abbrev pub as_client : {A M : Type 0} → Result String A × M → Result ClientError A × M
as_client (r, m) = (map_err service_error r, m)

module _ {M : Type 0} (transport : Transport M) (codecs : Codecs) (laws : AreCodecs codecs) where
  module _ {Q A : Type 0} (request : Json Q) (answer : Json A)
      (same : (a : A) → Carries answer a a) where
    reply_received :
        (r : Result String A × M)
        → AreNamed r
        → received transport codecs answer
            (let (response, m') = respond codecs request answer r in (some response, m'))
          ≡ as_client r
    unfolding respond received write_json write_error written decode_as refused
    reply_received (ok a, m) named = let (body, wrote, read) = same a in rw wrote (rw read refl)
    reply_received (err e, m) named =
        let (body, wrote, read) = laws.error_response (record { message = e }) in
        rw wrote (rw read (rw (eq_false e "" named) refl))

    -- A posted request, on the handler of its path.
    post_handled :
        (f : Q → M → Result String A × M) (path : String) (q q' : Q) (m : M)
        → Carries request q q'
        → AreNamed (f q' m)
        → ((body : String)
            → transport.send (record { verb = post; path = path; body = body }) m ≡ (
                let (response, m') =
                  make_post_handler codecs request answer f
                    (record { verb = post; path = path; body = body })
                    m in
                (some response, m')))
        → do_post transport codecs request answer path q m ≡ as_client (f q' m)
    unfolding do_post post_body make_post_handler manage
    post_handled f path q q' m carried named sent =
        let (body, wrote, read) = carried in
        rw wrote (rw (sent body) (rw read (reply_received (f q' m) named)))

  -- The three calls over the socket are the manager's: Mount and Unmount return the manager's
  -- answer or the text of its error, and leave the manager in the state that its own function leaves
  -- it in, where Mount's request comes without an empty volume context; List returns the manager's
  -- list and changes nothing.
  pub calls_transparent :
      (service : Service M)
      → Delivers transport codecs service
      → (req : MountRequest) (volume : UnmountRequest) (m : M)
      → AreNamed (service.mount (omit_empty req) m)
      → AreNamed (service.unmount volume m)
      → (client_mount transport codecs req m ≡ as_client (service.mount (omit_empty req) m))
        × (client_unmount transport codecs volume m ≡ as_client (service.unmount volume m))
        × (client_list transport codecs m ≡ (ok (service.list m), m))
  unfolding client_mount client_unmount client_list listed decode_as serve list_handler written
  calls_transparent service delivers req volume m named named' = (
    post_handled codecs.mount_request codecs.mount_response laws.mount_response service.mount
        "/mount" req (omit_empty req) m (laws.mount_request req) named (λ body. delivers _ m),
    post_handled codecs.unmount_request codecs.unmount_response laws.unmount_response
        service.unmount "/unmount" volume volume m (laws.unmount_request volume) named'
        (λ body. delivers _ m),
    (let (body, wrote, read) = laws.list_response (service.list m) in
        rw (delivers (record { verb = get; path = "/list"; body = "" }) m)
          (rw wrote (rw read refl))),
  )
