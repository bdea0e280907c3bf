-- ===== src/Tests/Heartbeat.antt =====
-- The theorems on the map of a home server and on its heartbeat at concrete inputs.
use famfun.Prelude.{
  ◌≡◌, refl, ap, ◌∙◌, sym, String, List, [], ◌∷◌, none, some, false, true, ok, arith, eq_iff,
}
use famfun.Prelude.Dict.{lookup}
use famfun.Model.{Video, video_to_proto}
use famfun.Protocol.Message
use famfun.Protocol.Stream.{open_stream}
use famfun.Cloud.DataRequest.{Wire}
use famfun.Cloud.HomeManager.{HomeManager, new_home_manager, query_video}
use famfun.Cloud.HomeManager.Lookups.{or_else}
use famfun.Cloud.QuicServer.{dispatch_control_message}
use famfun.Home.Running.Announcing.{info_request, info_response, info_response_lem}
use famfun.Home.Running.Beating.{IsKeyed, registered, dispatch-send_heartbeat}
use famfun.Home.Server.{HomeServer, send_heartbeat}
use famfun.Home.Server.Dispatch.{home_peer}
use famfun.Home.Server.EndToEnd.{Fits}
use famfun.Tests.Home.{tools, env, server}
use famfun.Tests.Homes.{conn}
use famfun.Tests.SampleInfo.{info_codec, info_codec-IsCodec}
use famfun.Home.Scanner.{Tools}
use famfun.Home.Running.Keeping.{Task, IsSound, perform_all, perform_all-new_home_server}
use famfun.Home.Start.{new_home_server}
use famfun.Tests.Videos.{programs}
use famfun.Tests.Wire.{film}

abbrev new_film : Video
new_film = record film { title = "New"; home_server_id = "h"; visibility = "member" }

abbrev home : HomeServer
home = record (server "/videos/film.mp4") { videos = ("v", new_film) ∷ [] }

abbrev wire : Wire
wire = record {
  codec = info_codec;
  quic = λ _. ok (open_stream (home_peer info_codec tools env home));
}

only : (id : String) (v : Video) → lookup id home.videos ≡ some v → ("v" ≡ id) × (new_film ≡ v)
unfolding lookup
only id v h = ground (arith, h, eq_iff "v" id)

home-IsKeyed : IsKeyed home
home-IsKeyed id v h = let (named, same) = only id v h in ap (λ w. w.id) (sym same) ∙ named

held : lookup "v" home.videos ≡ some new_film
unfolding lookup
held = refl

messages_fit :
    (id : String) (v : Video)
    → lookup id home.videos ≡ some v
    → Fits info_codec (info_request id) × Fits info_codec (info_response id home)
unfolding video_to_proto
messages_fit id v h =
    let (named, same) = only id v h in
    (
      (0 ∷ [], ap (λ i. info_codec.marshal (info_request i)) (sym named) ∙ refl, omega arith),
      (
        1 ∷ [],
        ap (λ i. info_codec.marshal (info_response i home)) (sym named)
            ∙ ap info_codec.marshal (info_response_lem "v" new_film home held)
            ∙ refl,
        omega arith,
      ),
    )

dispatch-send_heartbeat_example :
    (m' : HomeManager) × (dispatch_control_message wire conn (send_heartbeat home) new_home_manager
      ≡ some (m', some (Message.heartbeat_response (record { success = true }))))
    × ((id : String)
        → query_video "h" id m'
          ≡ or_else (query_video "h" id new_home_manager) (registered (lookup id home.videos)))
dispatch-send_heartbeat_example =
    dispatch-send_heartbeat wire tools env home conn new_home_manager info_codec-IsCodec refl
      home-IsKeyed messages_fit

-- ffprobe finds one stream in each file.
abbrev probing : Tools
probing = record tools {
  ffprobe = λ _. ok [];
  decode_probe = λ _. ok (record {
    duration = "60";
    size = "2";
    tags = [];
    streams = record { codec_type = "video"; width = 1920; height = 1080 } ∷ [];
  });
}

abbrev tasks : List Task
tasks =
    Task.scans probing programs (λ _. true)
      (record { path = "/videos/film.mp4"; is_dir = false; failure = none } ∷ [])
    ∷ Task.edits probing
        (record { video_id = "id-film.mp4"; title = "Edited"; description = ""; visibility = "" })
    ∷ []

perform_all-new_home_server_example :
    IsSound
      (perform_all tasks (new_home_server "h" "Home" "/videos" "/streams" "/thumbs" home.disk))
perform_all-new_home_server_example =
    perform_all-new_home_server tasks "h" "Home" "/videos" "/streams" "/thumbs" home.disk
