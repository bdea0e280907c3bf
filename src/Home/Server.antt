-- ===== src/Home/Server.antt =====
-- internal/home/server.go and the dispatch of internal/home/quic_client.go: the home server's videos
-- and its answers on data streams.
pub mod Upload
pub mod Dispatch
pub mod Paths
pub mod EndToEnd
pub mod EditEndToEnd
use famfun.Prelude.{
  ℕ, zero, suc, ◌+◌, ◌*◌, String, List, [], ◌∷◌, Option, none, some, Bool, true, false, Result, ok,
  err, panic, Error, errorf, str, length, ltb, nat_eq, ◌==◌, if◌then◌else◌,
}
use famfun.Prelude.Dict.{Dict, lookup, insert, keys, values}
use famfun.Prelude.Text.{◌⧺◌}
use famfun.Model.{Video, video_to_proto}
use famfun.Protocol.Message.{
  Bytes, Envelope, GetPlaylistRequest, GetPlaylistResponse, GetSegmentRequest, GetSegmentResponse,
  GetVideoInfoRequest, GetVideoInfoResponse, GetThumbnailRequest, GetThumbnailResponse,
  UpdateVideoInfoRequest, UpdateVideoInfoResponse, ScanRequest, ScanResponse,
}
use famfun.Protocol.Message
use famfun.Home.FilePath.{join, ext}
use famfun.Home.Disk.{Disk, read_file, exists}
use famfun.Home.Scanner.{Tools, save_cached_metadata}

pub record HomeServer : Type 0 where
  pub home_id : String
  pub home_name : String
  pub video_dir : String
  pub stream_dir : String
  pub thumb_dir : String
  pub videos : Dict Video
  pub disk : Disk

-- The text of an error; the wording of library errors is theirs.
abbrev pub error_text : Error → String
error_text (Error.errorf f _) = f
error_text (Error.wrap c e) = c ⧺ (": " ⧺ error_text e)
error_text (Error.library t) = t

unfoldable pub add_video : Video → HomeServer → HomeServer
add_video v s =
    let v' : Video = record v {
      visibility = if v.visibility == "" then "member" else v.visibility;
    } in
    record s { videos = insert v.id v' s.videos }

unfoldable pub get_video_ids : HomeServer → List String
get_video_ids s = keys s.videos

unfoldable pub get_videos : HomeServer → List Video
get_videos s = values s.videos

-- The messages of `notifyCloud` and `publishAllVideos`; no message for an empty list.
unfoldable pub notify_cloud : Video → HomeServer → Envelope
notify_cloud v s =
    Message.video_list_update (record { home_server_id = s.home_id; video_ids = v.id ∷ [] })

unfoldable pub publish_all_videos : HomeServer → Option Envelope
publish_all_videos s =
    let ids = get_video_ids s in
    if nat_eq (length ids) 0
    then none
    else some (Message.video_list_update (record { home_server_id = s.home_id; video_ids = ids }))

unfoldable pub send_heartbeat : HomeServer → Envelope
send_heartbeat s =
    Message.heartbeat_request (record { home_server_id = s.home_id; video_ids = get_video_ids s })

unfoldable pub playlist_path : String → HomeServer → String
playlist_path video_id s = join (s.stream_dir ∷ video_id ∷ "index.m3u8" ∷ [])

unfoldable pub segment_path : String → String → HomeServer → String
segment_path video_id segment_name s = join (s.stream_dir ∷ video_id ∷ segment_name ∷ [])

unfoldable pub thumbnail_path : String → HomeServer → String
thumbnail_path video_id s = join (s.thumb_dir ∷ (video_id ⧺ ".png") ∷ [])

unfoldable pub handle_get_playlist : GetPlaylistRequest → HomeServer → GetPlaylistResponse
handle_get_playlist req s = elim (read_file (playlist_path req.video_id s) s.disk) [
  | ok b ↦ record { request_id = req.request_id; success = true; error = ""; content = b }
  | err e ↦ record {
    request_id = req.request_id;
    success = false;
    error = "read playlist: " ⧺ error_text e;
    content = [];
  }
  | panic ↦ record { request_id = ""; success = false; error = ""; content = [] }
]

unfoldable pub handle_get_segment : GetSegmentRequest → HomeServer → GetSegmentResponse
handle_get_segment req s = elim (read_file (segment_path req.video_id req.segment_name s) s.disk) [
  | ok b ↦ record { request_id = req.request_id; success = true; error = ""; content = b }
  | err e ↦ record {
    request_id = req.request_id;
    success = false;
    error = "read segment: " ⧺ error_text e;
    content = [];
  }
  | panic ↦ record { request_id = ""; success = false; error = ""; content = [] }
]

unfoldable pub handle_get_thumbnail : GetThumbnailRequest → HomeServer → GetThumbnailResponse
handle_get_thumbnail req s = elim (read_file (thumbnail_path req.video_id s) s.disk) [
  | ok b ↦ record { success = true; error = ""; content = b }
  | err e ↦ record { success = false; error = "read thumbnail: " ⧺ error_text e; content = [] }
  | panic ↦ record { success = false; error = ""; content = [] }
]

-- fmt.Sprintf("video %q not found", id), for an identifier that %q does not escape.
abbrev pub not_found : String → String
not_found id = "video \"" ⧺ (id ⧺ "\" not found")

unfoldable pub handle_get_video_info : GetVideoInfoRequest → HomeServer → GetVideoInfoResponse
handle_get_video_info req s = elim (lookup req.video_id s.videos) [
  | none ↦ record { success = false; error = not_found req.video_id; video = none }
  | some v ↦ record { success = true; error = ""; video = some (video_to_proto v) }
]

-- The video is changed through the pointer that the map holds.
unfoldable pub handle_update_video_info :
    Tools → UpdateVideoInfoRequest → HomeServer → UpdateVideoInfoResponse × HomeServer
handle_update_video_info t req s = elim (lookup req.video_id s.videos) [
  | none ↦ (record { success = false; error = not_found req.video_id; video = none }, s)
  | some v ↦
      let v' : Video = record v {
        title = req.title;
        description = req.description;
        visibility = if req.visibility == "" then "member" else req.visibility;
      } in
      (
        record { success = true; error = ""; video = some (video_to_proto v') },
        record s {
          videos = insert req.video_id v' s.videos;
          disk = save_cached_metadata t s.stream_dir v.id v' s.disk;
        },
      )
]

-- The scan itself runs in the background.
unfoldable pub handle_scan : ScanRequest → HomeServer → ScanResponse
handle_scan req s = record { success = true; error = "" }
