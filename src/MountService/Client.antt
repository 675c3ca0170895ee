-- ===== src/MountService/Client.antt =====
-- The client of the mount service: pkg/mountmanager/client.go. The HTTP round trip over the socket is
-- a parameter, which changes a state `W` of what is behind the socket.
use seaweedfs_csi_driver.Base.{
  ℕ, String, not, ◌||◌, Option, none, some, eqb, leb, if◌then◌else◌, ◌==◌,
}
use seaweedfs_csi_driver.Base.Exec.{Result, ok, err}
use seaweedfs_csi_driver.MountManager.{MountRequest}
use seaweedfs_csi_driver.MountService.{
  get, post, Call, Response, Json, Codecs, MountResponse, UnmountRequest, UnmountResponse,
  ListResponse, ErrorResponse,
}

-- The client's errors: service_error is the text that the service sent, and status_error has what is
-- left of the body after the attempt to decode an error, none where that cannot be read.
pub data ClientError : Type 0 where
  encode_request call_failed decode_response list_unsupported : ClientError
  service_error : String → ClientError
  status_error : ℕ → Option String → ClientError

-- httpClient.Do, none where it fails, and io.ReadAll of a body that a decoder has read from before.
pub record Transport (W : Type 0) : Type 0 where
  pub send : Call → W → Option Response × W
  pub rest_of : String → Option String

module _ {W : Type 0} (transport : Transport W) (codecs : Codecs) where
  -- The answer to a status from 400 on.
  unfoldable pub refused : Response → Result String ErrorResponse → ClientError
  refused response (err e) = status_error response.status_code (transport.rest_of response.body)
  refused response (ok sent) =
      if not (sent.message == "")
      then service_error sent.message
      else status_error response.status_code (transport.rest_of response.body)

  unfoldable pub decode_as : {A : Type 0} → Result String A → Result ClientError A
  decode_as (ok a) = ok a
  decode_as (err e) = err decode_response

  unfoldable pub received : {A : Type 0} → Json A → Option Response × W → Result ClientError A × W
  unfolding refused decode_as
  received json (none, w) = (err call_failed, w)
  received json (some response, w) =
      if leb 400 response.status_code
      then (err (refused response (codecs.error_response.decode response.body)), w)
      else (decode_as (json.decode response.body), w)

  unfoldable pub post_body :
      {A : Type 0} → Json A → String → Option String → W → Result ClientError A × W
  unfolding received
  post_body json path none w = (err encode_request, w)
  post_body json path (some body) w =
      received json (transport.send (record { verb = post; path = path; body = body }) w)

  -- doPost
  unfoldable pub do_post :
      {Q A : Type 0} → Json Q → Json A → String → Q → W → Result ClientError A × W
  unfolding post_body
  do_post request answer path q w = post_body answer path (request.encode q) w

  -- Client.Mount
  unfoldable pub client_mount : MountRequest → W → Result ClientError MountResponse × W
  unfolding do_post
  client_mount req w = do_post codecs.mount_request codecs.mount_response "/mount" req w

  -- Client.Unmount
  unfoldable pub client_unmount : UnmountRequest → W → Result ClientError UnmountResponse × W
  unfolding do_post
  client_unmount req w = do_post codecs.unmount_request codecs.unmount_response "/unmount" req w

  unfoldable pub listed : Option Response × W → Result ClientError ListResponse × W
  unfolding decode_as
  listed (none, w) = (err call_failed, w)
  listed (some response, w) =
      if eqb response.status_code 404 || eqb response.status_code 405
      then (err list_unsupported, w)
      else if leb 400 response.status_code
      then (err (status_error response.status_code (some response.body)), w)
      else (decode_as (codecs.list_response.decode response.body), w)

  -- Client.List
  unfoldable pub client_list : W → Result ClientError ListResponse × W
  unfolding listed
  client_list w = listed (transport.send (record { verb = get; path = "/list"; body = "" }) w)
