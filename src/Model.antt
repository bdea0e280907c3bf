-- ===== src/Model.antt =====
-- internal/model/video.go: the video record that both servers share and its wire form.
pub mod Convert
use famfun.Prelude.{String, ℕ, List, map}

-- A signed 64-bit integer that is only carried along, as its bit pattern.
abbrev pub Int64 : Type 0
Int64 = ℕ

pub record Video : Type 0 where
  pub id : String
  pub filename : String
  pub title : String
  pub description : String
  pub duration : Int64
  pub filesize : Int64
  pub resolution : String
  pub created_at : String
  pub home_server_id : String
  pub visibility : String
  pub source_path : String

-- pb.VideoInfo
pub record VideoInfo : Type 0 where
  pub id : String
  pub filename : String
  pub title : String
  pub duration : Int64
  pub filesize : Int64
  pub resolution : String
  pub created_at : String
  pub home_server_id : String
  pub description : String
  pub visibility : String

unfoldable pub video_to_proto : Video → VideoInfo
video_to_proto v = record {
  id = v.id;
  filename = v.filename;
  title = v.title;
  duration = v.duration;
  filesize = v.filesize;
  resolution = v.resolution;
  created_at = v.created_at;
  home_server_id = v.home_server_id;
  description = v.description;
  visibility = v.visibility;
}

unfoldable pub proto_to_video : VideoInfo → Video
proto_to_video p = record {
  id = p.id;
  filename = p.filename;
  title = p.title;
  description = p.description;
  duration = p.duration;
  filesize = p.filesize;
  resolution = p.resolution;
  created_at = p.created_at;
  home_server_id = p.home_server_id;
  visibility = p.visibility;
  source_path = "";
}

unfoldable pub videos_to_proto : List Video → List VideoInfo
videos_to_proto vs = map video_to_proto vs

unfoldable pub proto_to_videos : List VideoInfo → List Video
proto_to_videos ps = map proto_to_video ps
