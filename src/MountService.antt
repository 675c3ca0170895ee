-- ===== src/MountService.antt =====
-- The mount service's HTTP handlers, cmd/seaweedfs-mount/main.go, on a state `M` of the manager.
-- encoding/json is a parameter; the manager's functions are the handlers' arguments.
pub mod Client
pub mod Transparent
use Prim.Native.String.{◌++◌ as ◌^^◌}
use seaweedfs_csi_driver.Base.{
  ℕ, String, Bool, true, false, Option, none, some, List, [], ◌∷◌, Assoc, if◌then◌else◌, ◌==◌,
}
use seaweedfs_csi_driver.Base.Exec.{Result, ok, err}
use seaweedfs_csi_driver.Host.{ListedMount}
use seaweedfs_csi_driver.MountManager.{MountRequest}

pub data Verb : Type 0 where
  get post other_verb : Verb

pub record Call : Type 0 where
  pub verb : Verb
  pub path : String
  pub body : String

pub record Response : Type 0 where
  pub status_code : ℕ
  pub body : String

-- json.Encoder.Encode and json.Decoder.Decode at a type; the decoder's error is its text.
pub record Json (A : Type 0) : Type 0 where
  pub encode : A → Option String
  pub decode : String → Result String A

pub record MountResponse : Type 0 where
  pub local_socket : String

pub record UnmountRequest : Type 0 where
  pub volume_id : String

pub record UnmountResponse : Type 0 where

pub record ListResponse : Type 0 where
  pub mounts : List ListedMount

pub record ErrorResponse : Type 0 where
  pub message : String

-- The types that cross the socket.
pub record Codecs : Type 0 where
  pub mount_request : Json MountRequest
  pub mount_response : Json MountResponse
  pub unmount_request : Json UnmountRequest
  pub unmount_response : Json UnmountResponse
  pub list_response : Json ListResponse
  pub error_response : Json ErrorResponse

-- What the server calls of the manager; an error is its text.
pub record Service (M : Type 0) : Type 0 where
  pub mount : MountRequest → M → Result String MountResponse × M
  pub unmount : UnmountRequest → M → Result String UnmountResponse × M
  pub list : M → ListResponse

-- What the encoder wrote: nothing, where it failed, which is logged.
unfoldable pub written : Option String → String
written none = ""
written (some text) = text

-- writeJSON
unfoldable pub write_json : {A : Type 0} → Json A → ℕ → A → Response
unfolding written
write_json json status a = record { status_code = status; body = written (json.encode a) }

-- writeError
unfoldable pub write_error : Codecs → ℕ → String → Response
unfolding write_json
write_error codecs status message =
    write_json codecs.error_response status (record { message = message })

module _ {M : Type 0} (codecs : Codecs) where
  module _ {Q A : Type 0} (request : Json Q) (answer : Json A) where
    unfoldable pub respond : Result String A × M → Response × M
    unfolding write_error write_json
    respond (ok a, m) = (write_json answer 200 a, m)
    respond (err e, m) = (write_error codecs 500 e, m)

    unfoldable pub manage : (Q → M → Result String A × M) → Result String Q → M → Response × M
    unfolding respond write_error
    manage manager_func (err e) m = (write_error codecs 400 ("invalid request: " ^^ e), m)
    manage manager_func (ok q) m = respond (manager_func q m)

    -- makePostHandler
    unfoldable pub make_post_handler : (Q → M → Result String A × M) → Call → M → Response × M
    unfolding manage write_error
    make_post_handler manager_func call m = elim call.verb [
      | post ↦ manage manager_func (request.decode call.body) m
      | _ ↦ (write_error codecs 405 "method not allowed", m)
    ]

  -- The handler of /list.
  unfoldable pub list_handler : Service M → Call → M → Response × M
  unfolding written
  list_handler service call m = elim call.verb [
    | get ↦ (
      record { status_code = 200; body = written (codecs.list_response.encode (service.list m)) },
      m,
    )
    | _ ↦ (record { status_code = 405; body = "" }, m)
  ]

  -- The mux of main, whose answer to other paths is http.NotFound's.
  unfoldable pub serve : Service M → Call → M → Response × M
  unfolding make_post_handler list_handler
  serve service call m =
      if call.path == "/mount"
      then make_post_handler codecs.mount_request codecs.mount_response service.mount call m
      else if call.path == "/unmount"
      then make_post_handler codecs.unmount_request codecs.unmount_response service.unmount call m
      else if call.path == "/list"
      then list_handler service call m
      else if call.path == "/healthz"
      then (record { status_code = 200; body = "ok" }, m)
      else (record { status_code = 404; body = "404 page not found\n" }, m)
