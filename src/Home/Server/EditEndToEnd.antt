-- ===== src/Home/Server/EditEndToEnd.antt =====
-- An edit of a video's information (handleUpdateVideoInfo of internal/cloud/server.go) from end to end,
-- to HandleUpdateVideoInfo of internal/home/server.go and back.
use famfun.Prelude.{◌≡◌, refl, ◌∙◌, eq_refl, String, some, true, false, ok, ◌==◌, if◌then◌else◌}
use famfun.Prelude.Dict.{lookup, lookup-insert}
use famfun.Model.{Video, video_to_proto, proto_to_video}
use famfun.Protocol.Message.{Envelope, UpdateVideoInfoRequest, get_update_video_info_response}
use famfun.Protocol.Message
use famfun.Protocol.Stream.{open_stream}
use famfun.Protocol.Framing.{IsCodec}
use famfun.Cloud.Connection.{HomeConn}
use famfun.Cloud.DataRequest.{Wire}
use famfun.Cloud.HomeManager.{HomeManager, get_home, find_video_by_id, query_video}
use famfun.Cloud.HomeManager.Lookups.{query_video-update_video_info}
use famfun.Cloud.StreamProxy.{get_home_connection}
use famfun.Cloud.StreamProxy
use famfun.Cloud.Server.{World, CloudServer, Request, Body, respond}
use famfun.Cloud.Server.Videos.{
  VideoUpdate, handle_update_video_info, update_found, updated, video_to_json,
}
use famfun.Home.Scanner.{Tools}
use famfun.Home.Server.{HomeServer}
use famfun.Home.Server
use famfun.Home.Server.Upload.{UploadEnv}
use famfun.Home.Server.Dispatch.{dispatch_data_request, home_peer}
use famfun.Home.Server.EndToEnd.{Fits, Answers, send_data_request_lem}

abbrev pub edit_request : String → VideoUpdate → UpdateVideoInfoRequest
edit_request id req = record {
  video_id = id;
  title = req.title;
  description = req.description;
  visibility = req.visibility;
}

-- What the two servers make of a video.
abbrev pub edited : VideoUpdate → Video → Video
edited req v = record v {
  title = req.title;
  description = req.description;
  visibility = req.visibility;
}

abbrev pub edited_at_home : VideoUpdate → Video → Video
edited_at_home req v = record v {
  title = req.title;
  description = req.description;
  visibility = if req.visibility == "" then "member" else req.visibility;
}

module _ (w : Wire) (t : Tools) (env : UploadEnv) (s : HomeServer) where
  home_answer :
      (id : String) (req : VideoUpdate) (v : Video)
      → lookup id s.videos ≡ some v
      → ((Server.handle_update_video_info t (edit_request id req) s).0 ≡ record {
        success = true;
        error = "";
        video = some (video_to_proto (edited_at_home req v));
      })
        × (lookup id (Server.handle_update_video_info t (edit_request id req) s).1.videos
            ≡ some (edited_at_home req v))
  unfolding Server.handle_update_video_info
  home_answer id req v here =
      rw (here, Server.handle_update_video_info)
        (refl, lookup-insert id id (edited_at_home req v) s.videos ∙ rw (eq_refl id) refl)

  proxy_answer :
      (m : HomeManager) (home_id id : String) (req : VideoUpdate) (v : Video) (conn : HomeConn)
      → get_home home_id m ≡ some conn
      → w.quic conn.conn ≡ ok (open_stream (home_peer w.codec t env s))
      → IsCodec w.codec
      → Fits w.codec (Message.update_video_info_request (edit_request id req))
      → Fits w.codec (
          Message.update_video_info_response
            (Server.handle_update_video_info t (edit_request id req) s).0)
      → lookup id s.videos ≡ some v
      → StreamProxy.update_video_info w m home_id id req.title req.description req.visibility
        ≡ ok (proto_to_video (video_to_proto (edited_at_home req v)))
  unfolding StreamProxy.update_video_info get_home_connection Answers dispatch_data_request
      StreamProxy.update_reply
  proxy_answer m home_id id req v conn there opens laws fits fits' here = rw there (
      rw
        (send_data_request_lem w t env s conn
          (Message.update_video_info_request (edit_request id req))
          (Message.update_video_info_response
            (Server.handle_update_video_info t (edit_request id req) s).0)
          opens laws fits fits'
          ((Server.handle_update_video_info t (edit_request id req) s).1, λ _. refl))
        (rw (home_answer id req v here).0 refl))

  -- An admin's edit of a video of a connected home, with a title, is answered with what the home has made
  -- of the video. Afterwards both servers have the new title and description; the registry of the
  -- cloud has the visibility that was sent, and the home has it too unless it is empty, when the home
  -- has "member".
  pub handle_update_video_info-both :
      (c : CloudServer) (q : Request) (wd : World) (id : String) (req : VideoUpdate)
      (v here : Video) (conn : HomeConn)
      → (req.title == "") ≡ false
      → q.wire ≡ w
      → find_video_by_id id wd.registry ≡ some v
      → query_video v.home_server_id id wd.registry ≡ some v
      → get_home v.home_server_id wd.registry ≡ some conn
      → w.quic conn.conn ≡ ok (open_stream (home_peer w.codec t env s))
      → IsCodec w.codec
      → Fits w.codec (Message.update_video_info_request (edit_request id req))
      → Fits w.codec (
          Message.update_video_info_response
            (Server.handle_update_video_info t (edit_request id req) s).0)
      → lookup id s.videos ≡ some here
      → let r = handle_update_video_info c q id (some req) wd in
        (r.0
          ≡ respond 200 (
              Body.video
                (video_to_json (proto_to_video (video_to_proto (edited_at_home req here))))))
        × (query_video v.home_server_id id r.1.registry ≡ some (edited req v))
        × (lookup id (Server.handle_update_video_info t (edit_request id req) s).1.videos
            ≡ some (edited_at_home req here))
  unfolding handle_update_video_info
  handle_update_video_info-both c q wd id req v here conn titled same found stored there opens laws
        fits fits' held =
      let answer =
        proxy_answer wd.registry v.home_server_id id req here conn there opens laws fits fits'
          held in
      let filed =
        (query_video-update_video_info v.home_server_id id req.title req.description req.visibility
          v.home_server_id id wd.registry v stored).1 in
      rw titled (
        rw (found, update_found)
          (rw same (
            rw (answer, updated)
              (
                refl,
                filed ∙ rw (eq_refl v.home_server_id) (rw (eq_refl id) refl),
                (home_answer id req here held).1,
              ))))
