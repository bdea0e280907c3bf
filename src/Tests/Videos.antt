-- ===== src/Tests/Videos.antt =====
-- The theorems on the processing of videos, uploads and paths of a home server at concrete inputs.
use famfun.Prelude.{
  ◌≡◌, refl, String, List, [], ◌∷◌, map, none, some, true, false, ok, wrap, library, ltb, arith, ap,
  ◌∙◌,
}
use famfun.Prelude.Dict.{lookup, insert}
use famfun.Prelude.Text.{◌⧺◌}
use famfun.Model.{Video, video_to_proto}
use famfun.Protocol.Message.{Bytes, Envelope, UploadVideoRequest}
use famfun.Protocol.Message
use famfun.Protocol.Stream.{Stream, open_stream}
use famfun.Cloud.DataRequest.{Wire}
use famfun.Cloud.HomeManager.{HomeManager, new_home_manager, query_video}
use famfun.Cloud.QuicServer.{dispatch_control_message}
use famfun.Home.Client.{QuicClient}
use famfun.Home.Client.Reading.{
  Report, Reading, control_read_loop, control_read_loop-reports,
  dispatch_control_message as dispatch, handle_register_response,
}
use famfun.Home.Converting.{Programs}
use famfun.Home.Disk.{Disk, read_file}
use famfun.Home.FilePath.{clean, steps}
use famfun.Home.FilePath.Below.{IsStep, HasSteps}
use famfun.Home.Running.{process_and_publish, process_all}
use famfun.Home.Running.Announcing.{info_response, info_response_lem, dispatch-processed}
use famfun.Home.Running.Processing.{
  reached, entered, announcement, last_entered, processed_lem, process_all_lem,
}
use famfun.Home.Server.{HomeServer, segment_path}
use famfun.Home.Server.Dispatch.{home_peer}
use famfun.Home.Server.EndToEnd.{Fits}
use famfun.Home.Server.Paths.{segment_path_up}
use famfun.Home.Server.Upload.{finish_upload}
use famfun.Home.Server.Upload.Keeping.{finish_upload-keeps}
use famfun.Home.Server.Upload.Naming.{IsFreeBelow}
use famfun.Protocol.Framing.RoundTrip.{frames}
use famfun.Tests.Home.{tools, env, server}
use famfun.Tests.Homes.{conn}
use famfun.Tests.SampleCodec.{sample, sample-IsCodec}
use famfun.Tests.SampleInfo.{info_codec, info_codec-IsCodec}
use famfun.Tests.Wire.{film}

-- ffmpeg writes nothing here.
abbrev pub programs : Programs
programs = record {
  mkdir_all = λ p d. (ok tt, d);
  ffmpeg = λ args d. (ok tt, d);
  ffprobe_codec = λ p. ok "h264";
  trim_space = λ s. s;
}

abbrev scanned_film : Video
scanned_film = record film { title = "New"; home_server_id = ""; visibility = "" }

abbrev home : HomeServer
home = server "/videos/film.mp4"

abbrev processed : HomeServer × Envelope
processed = process_and_publish programs (record scanned_film { home_server_id = "h" }) home

abbrev wire : Wire
wire = record {
  codec = info_codec;
  quic = λ _. ok (open_stream (home_peer info_codec tools env processed.0));
}

held : lookup "v" processed.0.videos ≡ some (entered "h" scanned_film)
unfolding lookup insert
held = ap (lookup "v") (processed_lem programs scanned_film home "h" refl).1 ∙ refl

response_Fits : Fits info_codec (info_response "v" processed.0)
unfolding video_to_proto
response_Fits = (
  1 ∷ [],
  ap info_codec.marshal (info_response_lem "v" (entered "h" scanned_film) processed.0 held) ∙ refl,
  omega arith,
)

no_video : query_video "h" "v" new_home_manager ≡ none
unfolding query_video new_home_manager lookup
no_video = refl

dispatch-processed_example :
    (m' : HomeManager) × (dispatch_control_message wire conn processed.1 new_home_manager
      ≡ some (m', none))
    × (query_video "h" "v" m' ≡ some (record (entered "h" scanned_film) { source_path = "" }))
dispatch-processed_example =
    dispatch-processed wire tools env programs scanned_film home processed.0 processed.1 conn
      new_home_manager refl refl info_codec-IsCodec (0 ∷ [], refl, omega arith) response_Fits
      no_video

abbrev two_videos : List Video
two_videos = scanned_film ∷ record scanned_film { id = "w" } ∷ []

-- The context ends before the second video.
process_all_lem_example :
    ((process_all programs (λ n. ltb n 1) 0 two_videos home).1
      ≡ map (announcement "h") (reached (λ n. ltb n 1) 0 two_videos))
    × (lookup "v" (process_all programs (λ n. ltb n 1) 0 two_videos home).0.videos
        ≡ last_entered "h" "v" (reached (λ n. ltb n 1) 0 two_videos) (lookup "v" home.videos))
    × ((process_all programs (λ n. ltb n 1) 0 two_videos home).0.home_id ≡ "h")
process_all_lem_example = process_all_lem programs (λ n. ltb n 1) 0 two_videos home "v"

videos-HasSteps : HasSteps "/videos"
unfolding steps
videos-HasSteps = (λ e. cc, λ e. cc)

f-IsStep : IsStep "f"
f-IsStep = record {
  slash_free = (λ e. absurd (omega (arith, e)), tt);
  not_empty = λ e. cc;
  not_dot = λ e. cc;
  not_up = λ e. cc;
}

-- A file of the name is there already.
abbrev taken : HomeServer
taken = record home { disk = record { files = ("/videos/f", 5 ∷ []) ∷ []; writable = λ _. true } }

there : read_file "/videos/f" taken.disk ≡ ok (5 ∷ [])
unfolding read_file lookup
there = refl

abbrev upload : UploadVideoRequest
upload = record {
  filename = "f";
  filesize = 1;
  sha256 = "";
  home_server_id = "h";
  total_chunks = 1;
  title = "";
  description = "";
}

finish_upload-keeps_example :
    (id : String) × (d : Disk) × (finish_upload tools env upload (7 ∷ []) taken ≡ ok (id, d))
    × (read_file "/videos/f" d ≡ ok (5 ∷ []))
    × ((p : String) × IsFreeBelow "/videos" taken.disk p × (read_file p d ≡ ok (7 ∷ [])))
finish_upload-keeps_example =
    finish_upload-keeps tools env upload (7 ∷ []) taken "/videos/f" (5 ∷ []) videos-HasSteps
      f-IsStep refl refl there

segment_path_up_example :
    (segment_path "f" "f" (record home { stream_dir = "/videos/f" })
      ≡ clean "/videos" ⧺ ("/" ⧺ ("f" ⧺ ("/" ⧺ ("f" ⧺ ("/" ⧺ "f"))))))
    × (segment_path ".." "f" (record home { stream_dir = "/videos/f" })
        ≡ clean "/videos" ⧺ ("/" ⧺ "f"))
segment_path_up_example =
    segment_path_up (record home { stream_dir = "/videos/f" }) "/videos" "f" "f" "f" videos-HasSteps
      f-IsStep refl f-IsStep f-IsStep

abbrev messages : List Envelope
messages =
    Message.register_response (record { success = true; message = "registered" })
    ∷ Message.register_challenge (record { challenge = 1 ∷ [] })
    ∷ []

abbrev control : Stream
control = open_stream (λ _. frames sample messages)

abbrev client : QuicClient
client = record {
  control_stream = some control;
  register_challenge = [];
  closed = false;
  disconnected = some false;
}

control_read_loop-reports_example :
    (st' : Stream) × (control_read_loop 3 sample client []
      ≡ Reading.finished
          (Report.registered_with_cloud "registered"
            ∷ Report.unexpected "*proto.Envelope_RegisterChallenge"
            ∷ Report.read_error (wrap "read header" (library "EOF"))
            ∷ [])
          (record client { control_stream = some st'; disconnected = some true }))
unfolding dispatch handle_register_response
control_read_loop-reports_example =
    control_read_loop-reports sample sample-IsCodec messages control client
      ((7 ∷ [], refl, omega arith), ((0 ∷ 1 ∷ [], refl, omega arith), tt)) refl refl refl refl
