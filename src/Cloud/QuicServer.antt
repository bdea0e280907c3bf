-- ===== src/Cloud/QuicServer.antt =====
-- internal/cloud/quic_server.go: a home server's control connection, from its registration on.
pub mod Handshake
pub mod Registration
pub mod Sync
pub mod Control
use famfun.Prelude.{
  ℕ, String, List, [], ◌∷◌, ◌++◌, ◌==◌, Option, none, some, Bool, true, false, Result, ok, err,
  panic, errorf, str, wrap, or_fail, length, nat_eq, if◌then◌else◌, ◌||◌,
}
use famfun.Prelude.Exec.{Exec, lift, raise, pure, context, ◌>>=◌, ◌>>◌}
use famfun.Model.{Video}
use famfun.Protocol.Message.{
  Bytes, Envelope, RegisterRequest, get_register_request, get_register_challenge, payload_type,
  get_get_video_info_response,
}
use famfun.Protocol.Message
use famfun.Protocol.Stream.{Stream}
use famfun.Protocol.Framing.{Codec, read_message, write_message}
use famfun.Protocol.RegisterAuth.{Crypto, generate_challenge}
use famfun.Cloud.Connection.{HomeConn, new_quic_home_conn}
use famfun.Cloud.HomeKeys.{HomeKeys, verify_register_request}
use famfun.Cloud.HomeManager.{
  HomeManager, register_home, unregister_home, query_video, sync_home_videos,
}
use famfun.Cloud.DataRequest.{Wire, send_data_request, unexpected}
use famfun.Cloud.StreamProxy.{proto_to_video?}

-- What a registration reads: the libraries, and the table of keys if there is a video store.
pub record QuicServer : Type 1 where
  pub codec : Codec
  pub crypto : Crypto
  pub bytes_of : String → Bytes
  pub hex : Bytes → String
  pub keys : Option HomeKeys

-- The client's challenge, which must not be empty.
unfoldable pub challenge_of : Envelope → Result Bytes
challenge_of e = elim (get_register_challenge e) [
  | none ↦ err (errorf "expected register challenge request, got %T" (str (payload_type e) ∷ []))
  | some r ↦
      if nat_eq (length r.challenge) 0
      then err (errorf "expected register challenge request, got %T" (str (payload_type e) ∷ []))
      else ok r.challenge
]

-- `performRegistration` up to the check of the signature.
unfoldable pub receive_registration : QuicServer → Exec Stream RegisterRequest
receive_registration q = do
  first ← context "read register challenge request" (read_message q.codec)
  client ← lift (challenge_of first)
  server ← context "generate register challenge" (lift (generate_challenge q.crypto 16))
  context "send register challenge"
      (write_message q.codec (Message.register_challenge (record { challenge = server })))
  second ← context "read register message" (read_message q.codec)
  req ← lift (
      or_fail (get_register_request second)
        (errorf "expected RegisterRequest, got %T" (str (payload_type second) ∷ [])))
  context "verify register request"
      (lift (verify_register_request q.crypto q.bytes_of q.hex q.keys req (client ++ server)))
  pure req

abbrev pub registered : Envelope
registered = Message.register_response (record { success = true; message = "registered" })

-- The answer to the home; if it cannot be written the registration is taken back.
unfoldable pub confirm :
    HomeConn → Result (Unit {0}) × Stream → HomeManager → (Result HomeConn × HomeManager) × Stream
confirm hc (ok _, st) m = ((ok hc, m), st)
confirm hc (err e, st) m =
    ((err (wrap "send register response" e), unregister_home hc.home_id m), st)
confirm hc (panic, st) m = ((panic, m), st)

unfoldable pub enter :
    Codec
    → HomeConn
    → Result (Unit {0}) × HomeManager
    → Stream
    → (Result HomeConn × HomeManager) × Stream
enter c hc (ok _, m) st = confirm hc (write_message c registered st) m
enter c hc (err e, m) st = ((err (wrap "register home" e), m), st)
enter c hc (panic, m) st = ((panic, m), st)

-- The rest of `performRegistration`.
unfoldable pub admit :
    Codec
    → ℕ
    → HomeManager
    → Result RegisterRequest × Stream
    → (Result HomeConn × HomeManager) × Stream
admit c conn m (ok req, st) =
    let hc = new_quic_home_conn req.home_server_id req.name conn in
    enter c hc (register_home req.home_server_id hc m) st
admit c conn m (err e, st) = ((err e, m), st)
admit c conn m (panic, st) = ((panic, m), st)

unfoldable pub perform_registration :
    QuicServer → ℕ → HomeManager → Stream → (Result HomeConn × HomeManager) × Stream
perform_registration q conn m st = admit q.codec conn m (receive_registration q st)

unfoldable pub cleanup_connection : HomeConn → HomeManager → HomeManager
cleanup_connection hc m = unregister_home hc.home_id m

video_of : Envelope → Result Video
video_of resp = elim (get_get_video_info_response resp) [
  | none ↦ unexpected resp
  | some vr ↦
      if vr.success
      then proto_to_video? vr.video
      else err (errorf "video info error: %s" (str vr.error ∷ []))
]

unfoldable pub fetch_video_info : Wire → HomeConn → String → Result Video
unfolding video_of
fetch_video_info w hc video_id =
    elim (send_data_request w hc
      (Message.get_video_info_request (record { video_id = video_id }))) [
        | ok resp ↦ video_of resp
        | err e ↦ err (wrap "request video info" e)
        | panic ↦ panic
      ]

-- Whether `toAdd` has the identifier.
unfoldable pub seen : String → List String → Bool
seen id [] = false
seen id (i ∷ ids) = (i == id) || seen id ids

-- How the loop goes on after a request: the videos of the other identifiers without and with this one.
abbrev pub fetched : Result Video → Option (List Video) → Option (List Video) → Option (List Video)
fetched (err _) skip rest = skip
fetched panic skip rest = none
fetched (ok v) skip none = none
fetched (ok v) skip (some vs) = some (v ∷ vs)

-- The loop of `syncVideos`: `to_add` are the identifiers fetched so far. `none` is a panic. `asks` is
-- what `fetchVideoInfo` answers.
unfoldable pub fetch_loop :
    (String → Result Video) → HomeManager → String → List String → List String → Option (List Video)
fetch_loop asks m home [] to_add = some []
fetch_loop asks m home (id ∷ ids) to_add =
    let skip = fetch_loop asks m home ids to_add in
    elim (query_video home id m) [
      | some _ ↦ skip
      | none ↦ elim (seen id to_add) [
        | true ↦ skip
        | false ↦ fetched (asks id) skip (fetch_loop asks m home ids (id ∷ to_add))
      ]
    ]

-- The end of `syncVideos`; nothing is stored where nothing was fetched.
abbrev pub store_videos : HomeConn → HomeManager → Option (List Video) → Option HomeManager
store_videos hc m none = none
store_videos hc m (some []) = some m
store_videos hc m (some (v ∷ vs)) = some (sync_home_videos hc.home_id (v ∷ vs) [] m)

-- The registry after `syncVideos`; `none` is a panic.
unfoldable pub sync_videos :
    (String → Result Video) → HomeConn → List String → HomeManager → Option HomeManager
sync_videos asks hc ids m = store_videos hc m (fetch_loop asks m hc.home_id ids [])

-- The control messages: what they do to the registry, and the answer that is written, if any.
unfoldable pub dispatch_control_message :
    Wire → HomeConn → Envelope → HomeManager → Option (HomeManager × Option Envelope)
dispatch_control_message w hc e m = elim e [
  | Message.heartbeat_request req ↦ elim (sync_videos (fetch_video_info w hc) hc req.video_ids m) [
    | none ↦ none
    | some m' ↦ some (m', some (Message.heartbeat_response (record { success = true })))
  ]
  | Message.video_list_update update ↦
      elim (sync_videos (fetch_video_info w hc) hc update.video_ids m) [
        | none ↦ none
        | some m' ↦ some (m', none)
      ]
  | _ ↦ some (m, none)
]
