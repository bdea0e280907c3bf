-- ===== src/Model/Convert.antt =====
-- internal/model/video.go: the two conversions against one another.
use famfun.Prelude.{◌≡◌, refl, List, [], ◌∷◌, map, ap₂}
use famfun.Model.{
  Video, VideoInfo, video_to_proto, proto_to_video, videos_to_proto, proto_to_videos,
}

-- The video without the path of its file, which is private to the home server.
abbrev pub without_source : Video → Video
without_source v = record v { source_path = "" }

pub proto_to_video-to_proto : (v : Video) → proto_to_video (video_to_proto v) ≡ without_source v
unfolding proto_to_video video_to_proto
proto_to_video-to_proto v = refl

video_to_proto-to_video : (p : VideoInfo) → video_to_proto (proto_to_video p) ≡ p
unfolding proto_to_video video_to_proto
video_to_proto-to_video p = refl

lists_there : (vs : List Video) → proto_to_videos (videos_to_proto vs) ≡ map without_source vs
unfolding proto_to_videos videos_to_proto
lists_there [] = refl
lists_there (v ∷ vs) = ap₂ ◌∷◌ (proto_to_video-to_proto v) (lists_there vs)

lists_back : (ps : List VideoInfo) → videos_to_proto (proto_to_videos ps) ≡ ps
unfolding proto_to_videos videos_to_proto
lists_back [] = refl
lists_back (p ∷ ps) = ap₂ ◌∷◌ (video_to_proto-to_video p) (lists_back ps)

-- A list of videos that goes over the wire and back loses the source paths and nothing else, and a
-- list of wire videos survives the way through the model unchanged; order and length are kept.
lists_round_trip :
    (vs : List Video) (ps : List VideoInfo)
    → (proto_to_videos (videos_to_proto vs) ≡ map without_source vs)
      × (videos_to_proto (proto_to_videos ps) ≡ ps)
lists_round_trip vs ps = (lists_there vs, lists_back ps)
