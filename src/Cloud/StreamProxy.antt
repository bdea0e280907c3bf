-- ===== src/Cloud/StreamProxy.antt =====
-- internal/cloud/stream_proxy.go: requests of the cloud to a home server, with the segment cache in
-- front of two of them. The home registry is only read; the cache is the state.
pub mod Keys
pub mod Caching
use famfun.Prelude.{
  ℕ, String, List, [], ◌∷◌, Option, none, some, Bool, Result, ok, err, panic, errorf, str, or_fail,
  context, ◌>>=◌, ◌>>◌, if◌then◌else◌,
}
use famfun.Prelude.Text.{◌⧺◌}
use famfun.Model.{Video, VideoInfo, Int64, proto_to_video}
use famfun.Protocol.Message.{
  Bytes, Envelope, get_get_playlist_response, get_get_segment_response, get_get_thumbnail_response,
  get_update_video_info_response, get_scan_response,
}
use famfun.Protocol.Message
use famfun.Cloud.DataRequest.{
  Wire, on_stream, send_data_request, unexpected, ReadEnd, chunk_count, upload_on_stream,
}
use famfun.Cloud.Cache.{LruCache}
use famfun.Cloud.Cache
use famfun.Cloud.Connection.{HomeConn}
use famfun.Cloud.HomeManager.{HomeManager, get_home}

unfoldable pub get_home_connection : String → HomeManager → Result HomeConn
get_home_connection home_id m =
    or_fail (get_home home_id m) (errorf "home server %q not connected" (str home_id ∷ []))

unfoldable pub build_cache_key : String → String → String → String
build_cache_key home_id video_id segment_name = home_id ⧺ ("/" ⧺ (video_id ⧺ ("/" ⧺ segment_name)))

unfoldable pub extract_playlist_content : Envelope → Result Bytes
extract_playlist_content resp = elim (get_get_playlist_response resp) [
  | none ↦ unexpected resp
  | some pr ↦
      if pr.success then ok pr.content else err (errorf "playlist error: %s" (str pr.error ∷ []))
]

unfoldable pub extract_segment_content : Envelope → Result Bytes
extract_segment_content resp = elim (get_get_segment_response resp) [
  | none ↦ unexpected resp
  | some sr ↦
      if sr.success then ok sr.content else err (errorf "segment error: %s" (str sr.error ∷ []))
]

unfoldable pub extract_thumbnail_content : Envelope → Result Bytes
extract_thumbnail_content resp = elim (get_get_thumbnail_response resp) [
  | none ↦ unexpected resp
  | some tr ↦
      if tr.success then ok tr.content else err (errorf "thumbnail error: %s" (str tr.error ∷ []))
]

-- model.ProtoToVideo on a message that may be nil.
abbrev pub proto_to_video? : Option VideoInfo → Result Video
proto_to_video? none = panic
proto_to_video? (some p) = ok (proto_to_video p)

unfoldable pub get_playlist : Wire → HomeManager → String → String → Result Bytes
get_playlist w m home_id video_id = do
  conn ← get_home_connection home_id m
  resp ← context "request playlist" (
      send_data_request w conn
        (Message.get_playlist_request (record { video_id = video_id; request_id = "" })))
  extract_playlist_content resp

unfoldable pub fetch_segment_from_home :
    Wire → HomeManager → String → String → String → Result Bytes
fetch_segment_from_home w m home_id video_id segment_name = do
  conn ← get_home_connection home_id m
  resp ← context "request segment" (
      send_data_request w conn (
        Message.get_segment_request
          (record { video_id = video_id; segment_name = segment_name; request_id = "" })))
  extract_segment_content resp

unfoldable pub fetch_thumbnail_from_home : Wire → HomeManager → String → String → Result Bytes
fetch_thumbnail_from_home w m home_id video_id = do
  conn ← get_home_connection home_id m
  resp ←
      context "request thumbnail"
        (send_data_request w conn (Message.get_thumbnail_request (record { video_id = video_id })))
  extract_thumbnail_content resp

-- `p.cache.Put(cacheKey, data)` on success.
abbrev pub remember : String → Result Bytes → LruCache → Result Bytes × LruCache
remember key (ok b) c = (ok b, Cache.put key b c)
remember key (err e) c = (err e, c)
remember key panic c = (panic, c)

-- The cache first; on a miss what is fetched, which is then stored.
abbrev pub through_cache : String → Result Bytes → Option Bytes × LruCache → Result Bytes × LruCache
through_cache key fetched (some b, c) = (ok b, c)
through_cache key fetched (none, c) = remember key fetched c

unfoldable pub get_segment :
    Wire → HomeManager → String → String → String → LruCache → Result Bytes × LruCache
unfolding build_cache_key
get_segment w m home_id video_id segment_name c =
    let key = build_cache_key home_id video_id segment_name in
    through_cache key (fetch_segment_from_home w m home_id video_id segment_name) (Cache.get key c)

unfoldable pub get_thumbnail :
    Wire → HomeManager → String → String → LruCache → Result Bytes × LruCache
unfolding build_cache_key
get_thumbnail w m home_id video_id c =
    let key = build_cache_key home_id video_id "thumbnail" in
    through_cache key (fetch_thumbnail_from_home w m home_id video_id) (Cache.get key c)

unfoldable pub update_reply : Envelope → Result Video
update_reply resp = elim (get_update_video_info_response resp) [
  | none ↦ unexpected resp
  | some tr ↦
      if tr.success
      then proto_to_video? tr.video
      else err (errorf "update title error: %s" (str tr.error ∷ []))
]

unfoldable pub update_video_info :
    Wire → HomeManager → String → String → String → String → String → Result Video
unfolding update_reply
update_video_info w m home_id video_id title description visibility = do
  conn ← get_home_connection home_id m
  resp ← context "request update title" (
      send_data_request w conn (
        Message.update_video_info_request (record {
          video_id = video_id;
          title = title;
          description = description;
          visibility = visibility;
        })))
  update_reply resp

unfoldable pub upload_video :
    Wire
    → HomeManager
    → String
    → String
    → String
    → String
    → Int64
    → String
    → List (Bytes × ReadEnd)
    → Result String
upload_video w m home_id filename title description filesize sha256 reads = do
  conn ← get_home_connection home_id m
  on_stream w conn (
      upload_on_stream w.codec
        (record {
          filename = filename;
          filesize = filesize;
          sha256 = sha256;
          home_server_id = home_id;
          total_chunks = chunk_count filesize;
          title = title;
          description = description;
        })
        reads)

scan_reply : Envelope → Result (Unit {0})
scan_reply resp = elim (get_scan_response resp) [
  | none ↦ unexpected resp
  | some sr ↦ if sr.success then ok tt else err (errorf "scan error: %s" (str sr.error ∷ []))
]

unfoldable pub scan_and_convert : Wire → HomeManager → String → Result (Unit {0})
unfolding scan_reply
scan_and_convert w m home_id = do
  conn ← get_home_connection home_id m
  resp ←
      context "request scan"
        (send_data_request w conn (Message.scan_request (record { home_server_id = home_id })))
  scan_reply resp
