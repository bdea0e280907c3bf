-- ===== src/Protocol/Message.antt =====
-- proto/famfun.proto (the Go types of pkg/proto/famfun.pb.go): the messages between the two servers.
use famfun.Prelude.{String, ℕ, List, Option, none, some, Bool}
use famfun.Model.{VideoInfo, Int64}

-- []byte, each element below 256.
abbrev pub Bytes : Type 0
Bytes = List ℕ

pub record RegisterRequest : Type 0 where
  pub home_server_id : String
  pub name : String
  pub signature : Bytes
  pub challenge : Bytes

pub record RegisterChallenge : Type 0 where
  pub challenge : Bytes

pub record RegisterResponse : Type 0 where
  pub success : Bool
  pub message : String

pub record HeartbeatRequest : Type 0 where
  pub home_server_id : String
  pub video_ids : List String

pub record HeartbeatResponse : Type 0 where
  pub success : Bool

pub record VideoListUpdate : Type 0 where
  pub home_server_id : String
  pub video_ids : List String

pub record GetVideoInfoRequest : Type 0 where
  pub video_id : String

pub record GetVideoInfoResponse : Type 0 where
  pub success : Bool
  pub error : String
  pub video : Option VideoInfo

pub record GetThumbnailRequest : Type 0 where
  pub video_id : String

pub record GetThumbnailResponse : Type 0 where
  pub success : Bool
  pub error : String
  pub content : Bytes

pub record GetPlaylistRequest : Type 0 where
  pub video_id : String
  pub request_id : String

pub record GetPlaylistResponse : Type 0 where
  pub request_id : String
  pub success : Bool
  pub error : String
  pub content : Bytes

pub record GetSegmentRequest : Type 0 where
  pub video_id : String
  pub segment_name : String
  pub request_id : String

pub record GetSegmentResponse : Type 0 where
  pub request_id : String
  pub success : Bool
  pub error : String
  pub content : Bytes

pub record UpdateVideoInfoRequest : Type 0 where
  pub video_id : String
  pub title : String
  pub description : String
  pub visibility : String

pub record UpdateVideoInfoResponse : Type 0 where
  pub success : Bool
  pub error : String
  pub video : Option VideoInfo

pub record UploadVideoRequest : Type 0 where
  pub filename : String
  pub filesize : Int64
  pub sha256 : String
  pub home_server_id : String
  pub total_chunks : ℕ
  pub title : String
  pub description : String

-- `data` is the payload of the chunk.
pub record UploadVideoChunk : Type 0 where
  pub bytes : Bytes
  pub chunk_index : ℕ

pub record UploadVideoResponse : Type 0 where
  pub success : Bool
  pub error : String
  pub video_id : String

pub record ScanRequest : Type 0 where
  pub home_server_id : String

pub record ScanResponse : Type 0 where
  pub success : Bool
  pub error : String

-- The `oneof payload` of an envelope; `empty` is the envelope with no payload set.
pub data Envelope : Type 0 where
  empty : Envelope
  register_request : RegisterRequest → Envelope
  register_response : RegisterResponse → Envelope
  heartbeat_request : HeartbeatRequest → Envelope
  heartbeat_response : HeartbeatResponse → Envelope
  video_list_update : VideoListUpdate → Envelope
  get_playlist_request : GetPlaylistRequest → Envelope
  get_playlist_response : GetPlaylistResponse → Envelope
  get_segment_request : GetSegmentRequest → Envelope
  get_segment_response : GetSegmentResponse → Envelope
  get_video_info_request : GetVideoInfoRequest → Envelope
  get_video_info_response : GetVideoInfoResponse → Envelope
  get_thumbnail_request : GetThumbnailRequest → Envelope
  get_thumbnail_response : GetThumbnailResponse → Envelope
  update_video_info_request : UpdateVideoInfoRequest → Envelope
  update_video_info_response : UpdateVideoInfoResponse → Envelope
  upload_video_request : UploadVideoRequest → Envelope
  upload_video_chunk : UploadVideoChunk → Envelope
  upload_video_response : UploadVideoResponse → Envelope
  scan_request : ScanRequest → Envelope
  scan_response : ScanResponse → Envelope
  register_challenge : RegisterChallenge → Envelope

-- The generated getters: `none` stands for nil.
abbrev pub get_register_request : Envelope → Option RegisterRequest
get_register_request (register_request r) = some r
get_register_request _ = none

abbrev pub get_register_challenge : Envelope → Option RegisterChallenge
get_register_challenge (register_challenge r) = some r
get_register_challenge _ = none

abbrev pub get_get_playlist_response : Envelope → Option GetPlaylistResponse
get_get_playlist_response (get_playlist_response r) = some r
get_get_playlist_response _ = none

abbrev pub get_get_segment_response : Envelope → Option GetSegmentResponse
get_get_segment_response (get_segment_response r) = some r
get_get_segment_response _ = none

abbrev pub get_get_video_info_response : Envelope → Option GetVideoInfoResponse
get_get_video_info_response (get_video_info_response r) = some r
get_get_video_info_response _ = none

abbrev pub get_get_thumbnail_response : Envelope → Option GetThumbnailResponse
get_get_thumbnail_response (get_thumbnail_response r) = some r
get_get_thumbnail_response _ = none

abbrev pub get_update_video_info_response : Envelope → Option UpdateVideoInfoResponse
get_update_video_info_response (update_video_info_response r) = some r
get_update_video_info_response _ = none

abbrev pub get_upload_video_chunk : Envelope → Option UploadVideoChunk
get_upload_video_chunk (upload_video_chunk r) = some r
get_upload_video_chunk _ = none

abbrev pub get_upload_video_response : Envelope → Option UploadVideoResponse
get_upload_video_response (upload_video_response r) = some r
get_upload_video_response _ = none

abbrev pub get_scan_response : Envelope → Option ScanResponse
get_scan_response (scan_response r) = some r
get_scan_response _ = none

-- %T of an envelope's payload.
abbrev pub payload_type : Envelope → String
payload_type empty = "<nil>"
payload_type (register_request _) = "*proto.Envelope_RegisterRequest"
payload_type (register_response _) = "*proto.Envelope_RegisterResponse"
payload_type (heartbeat_request _) = "*proto.Envelope_HeartbeatRequest"
payload_type (heartbeat_response _) = "*proto.Envelope_HeartbeatResponse"
payload_type (video_list_update _) = "*proto.Envelope_VideoListUpdate"
payload_type (get_playlist_request _) = "*proto.Envelope_GetPlaylistRequest"
payload_type (get_playlist_response _) = "*proto.Envelope_GetPlaylistResponse"
payload_type (get_segment_request _) = "*proto.Envelope_GetSegmentRequest"
payload_type (get_segment_response _) = "*proto.Envelope_GetSegmentResponse"
payload_type (get_video_info_request _) = "*proto.Envelope_GetVideoInfoRequest"
payload_type (get_video_info_response _) = "*proto.Envelope_GetVideoInfoResponse"
payload_type (get_thumbnail_request _) = "*proto.Envelope_GetThumbnailRequest"
payload_type (get_thumbnail_response _) = "*proto.Envelope_GetThumbnailResponse"
payload_type (update_video_info_request _) = "*proto.Envelope_UpdateVideoInfoRequest"
payload_type (update_video_info_response _) = "*proto.Envelope_UpdateVideoInfoResponse"
payload_type (upload_video_request _) = "*proto.Envelope_UploadVideoRequest"
payload_type (upload_video_chunk _) = "*proto.Envelope_UploadVideoChunk"
payload_type (upload_video_response _) = "*proto.Envelope_UploadVideoResponse"
payload_type (scan_request _) = "*proto.Envelope_ScanRequest"
payload_type (scan_response _) = "*proto.Envelope_ScanResponse"
payload_type (register_challenge _) = "*proto.Envelope_RegisterChallenge"
