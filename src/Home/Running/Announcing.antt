-- ===== src/Home/Running/Announcing.antt =====
-- internal/home/server.go and internal/cloud/quic_server.go: a processed video reaches the registry of the
-- cloud.
use famfun.Prelude.{◌≡◌, refl, ap, ◌∙◌, sym, String, [], ◌∷◌, some, none, ok, true, eq_refl}
use famfun.Prelude.Dict.{lookup, lookup-insert}
use famfun.Model.{Video, video_to_proto, proto_to_video}
use famfun.Protocol.Message.{Envelope}
use famfun.Protocol.Message
use famfun.Protocol.Stream.{open_stream}
use famfun.Protocol.Framing.{IsCodec}
use famfun.Cloud.Connection.{HomeConn}
use famfun.Cloud.DataRequest.{Wire}
use famfun.Cloud.HomeManager.{HomeManager, query_video, sync_home_videos}
use famfun.Cloud.HomeManager.Lookups.{query_video-sync_home_videos}
use famfun.Cloud.QuicServer.{
  fetch_video_info, fetch_loop, sync_videos, dispatch_control_message, seen,
}
use famfun.Home.Converting.{Programs}
use famfun.Home.Scanner.{Tools}
use famfun.Home.Server.{HomeServer, handle_get_video_info}
use famfun.Home.Server.Upload.{UploadEnv}
use famfun.Home.Server.Dispatch.{home_peer, dispatch_data_request}
use famfun.Home.Server.EndToEnd.{Fits, Answers, send_data_request_lem}
use famfun.Home.Running.{process_and_publish}
use famfun.Home.Running.Processing.{entered, processed_lem}

abbrev pub info_request : String → Envelope
info_request id = Message.get_video_info_request (record { video_id = id })

abbrev pub info_response : String → HomeServer → Envelope
info_response id s =
    Message.get_video_info_response (handle_get_video_info (record { video_id = id }) s)

pub info_response_lem :
    (id : String) (v : Video) (s : HomeServer)
    → lookup id s.videos ≡ some v
    → info_response id s
      ≡ Message.get_video_info_response
          (record { success = true; error = ""; video = some (video_to_proto v) })
unfolding handle_get_video_info
info_response_lem id v s there = rw (there, handle_get_video_info) refl

module _ (w : Wire) (t : Tools) (env : UploadEnv) (s : HomeServer) (hc : HomeConn) where
  -- What the cloud gets from the home about a video of the home's map.
  pub fetched_lem :
      (id : String) (v : Video)
      → w.quic hc.conn ≡ ok (open_stream (home_peer w.codec t env s))
      → IsCodec w.codec
      → Fits w.codec (info_request id)
      → Fits w.codec (info_response id s)
      → lookup id s.videos ≡ some v
      → fetch_video_info w hc id ≡ ok (record v { source_path = "" })
  unfolding fetch_video_info Answers dispatch_data_request proto_to_video video_to_proto
  fetched_lem id v opens laws fits fits' there =
      let sent =
        send_data_request_lem w t env s hc (info_request id) (info_response id s) opens laws fits
          fits' (s, λ _. refl) in
      rw (sent ∙ ap ok (info_response_lem id v s there), fetch_video_info) refl

-- The registry after a message about one video that the home has and the registry has not.
announced_lem :
    (w : Wire) (hc : HomeConn) (home_id id : String) (v : Video) (m : HomeManager)
    → query_video hc.home_id id m ≡ none
    → fetch_video_info w hc id ≡ ok v
    → dispatch_control_message w hc
        (Message.video_list_update (record { home_server_id = home_id; video_ids = id ∷ [] }))
        m
      ≡ some (sync_home_videos hc.home_id (v ∷ []) [] m, none)
unfolding dispatch_control_message sync_videos fetch_loop seen
announced_lem w hc home_id id v m gone got = rw (gone, dispatch_control_message) (rw got refl)

-- A home processes a video and the cloud handles the message about it, on the connection of that home.
-- Where the registry has no video of that identifier for the home, streams to the home open, and the
-- messages fit into frames, the registry then has the video as the home has it, less the source path.
pub dispatch-processed :
    (w : Wire) (t : Tools) (env : UploadEnv) (p : Programs) (v : Video) (s s' : HomeServer)
    (sent : Envelope) (hc : HomeConn) (m : HomeManager)
    → process_and_publish p (record v { home_server_id = s.home_id }) s ≡ (s', sent)
    → w.quic hc.conn ≡ ok (open_stream (home_peer w.codec t env s'))
    → IsCodec w.codec
    → Fits w.codec (info_request v.id)
    → Fits w.codec (info_response v.id s')
    → query_video hc.home_id v.id m ≡ none
    → (m' : HomeManager) × (dispatch_control_message w hc sent m ≡ some (m', none))
      × (query_video hc.home_id v.id m' ≡ some (record (entered s.home_id v) { source_path = "" }))
dispatch-processed w t env p v s s' sent hc m done opens laws fits fits' gone =
    let (h, videos, message) = processed_lem p v s s.home_id refl in
    let there : lookup v.id s'.videos ≡ some (entered s.home_id v) =
      ap (λ r. lookup v.id r.0.videos) (sym done)
      ∙ ap (lookup v.id) videos
      ∙ lookup-insert v.id v.id (entered s.home_id v) s.videos
      ∙ rw (eq_refl v.id) refl in
    let got = fetched_lem w t env s' hc v.id (entered s.home_id v) opens laws fits fits' there in
    let v' : Video = record (entered s.home_id v) { source_path = "" } in
    (
      sync_home_videos hc.home_id (v' ∷ []) [] m,
      ap (λ e. dispatch_control_message w hc e m) (ap (λ r. r.1) (sym done) ∙ message)
          ∙ announced_lem w hc s.home_id v.id v' m gone got,
      query_video-sync_home_videos hc.home_id hc.home_id v.id (v' ∷ []) [] m
          ∙ rw (eq_refl hc.home_id) (rw (eq_refl v.id) refl),
    )
