-- ===== src/Home/Converting.antt =====
-- internal/home/converter.go and internal/home/thumbnail.go: a video as a stream of segments, and its
-- thumbnail, both made by ffmpeg.
use famfun.Prelude.{String, List, [], ◌∷◌, Bool, Result, ok, ◌==◌, if◌then◌else◌}
use famfun.Prelude.Exec.{Exec, context, ◌>>◌}
use famfun.Prelude.Text.{◌⧺◌}
use famfun.Model.{Video}
use famfun.Protocol.Message.{Bytes}
use famfun.Home.FilePath.{join}
use famfun.Home.Disk.{Disk, exists, read_file}

-- What is run and called: os.MkdirAll, ffmpeg with its arguments, the output of ffprobe for the codec of
-- a file, and strings.TrimSpace.
pub record Programs : Type 0 where
  pub mkdir_all : String → Exec Disk (Unit {0})
  pub ffmpeg : List String → Exec Disk (Unit {0})
  pub ffprobe_codec : String → Result String
  pub trim_space : String → String

unfoldable pub video_output_dir : String → String → String
video_output_dir output_dir video_id = join (output_dir ∷ video_id ∷ [])

unfoldable pub hls_output_path : String → String
hls_output_path out_dir = join (out_dir ∷ "index.m3u8" ∷ [])

-- An error of ffprobe is an empty codec.
unfoldable pub get_video_codec : Programs → String → String
get_video_codec p input_path = elim (p.ffprobe_codec input_path) [
  | ok out ↦ p.trim_space out
  | _ ↦ ""
]

unfoldable pub build_ffmpeg_args : Programs → String → String → List String
build_ffmpeg_args p input_path output_path =
    if get_video_codec p input_path == "h264"
    then "-i" ∷ input_path ∷ "-c:v" ∷ "copy" ∷ "-c:a" ∷ "copy" ∷ "-bsf:v" ∷ "h264_mp4toannexb"
      ∷ "-hls_time" ∷ "6" ∷ "-hls_list_size" ∷ "0" ∷ "-f" ∷ "hls" ∷ output_path ∷ []
    else "-i" ∷ input_path ∷ "-c:v" ∷ "libx264" ∷ "-c:a" ∷ "aac" ∷ "-preset" ∷ "ultrafast"
      ∷ "-hls_time" ∷ "6" ∷ "-hls_list_size" ∷ "0" ∷ "-f" ∷ "hls" ∷ output_path ∷ []

unfoldable pub run_ffmpeg : Programs → List String → Exec Disk (Unit {0})
run_ffmpeg p args = context "ffmpeg" (p.ffmpeg args)

-- HLSConverterImpl
unfoldable pub convert : Programs → Video → String → Exec Disk (Unit {0})
convert p video output_dir = do
  p.mkdir_all (video_output_dir output_dir video.id)
  run_ffmpeg p (
      build_ffmpeg_args p video.source_path
        (hls_output_path (video_output_dir output_dir video.id)))

unfoldable pub is_converted : Video → String → Disk → Bool
is_converted video output_dir d = exists (hls_output_path (video_output_dir output_dir video.id)) d

unfoldable pub thumbnail_path : String → String → String
thumbnail_path output_dir video_id = join (output_dir ∷ (video_id ⧺ ".png") ∷ [])

unfoldable pub build_thumbnail_args : String → String → List String
build_thumbnail_args input_path output_path =
    "-i" ∷ input_path ∷ "-ss" ∷ "00:00:05" ∷ "-vframes" ∷ "1" ∷ "-vf" ∷ "scale=320:-1" ∷ output_path
    ∷ []

unfoldable pub extract_thumbnail : Programs → String → String → Exec Disk (Unit {0})
extract_thumbnail p input_path output_path =
    context "ffmpeg thumbnail" (p.ffmpeg (build_thumbnail_args input_path output_path))

unfoldable pub read_thumbnail : String → Exec Disk Bytes
read_thumbnail path = context "read thumbnail" (λ d. (read_file path d, d))

-- ThumbnailGeneratorImpl
unfoldable pub generate : Programs → Video → String → Exec Disk Bytes
generate p video output_dir = do
  p.mkdir_all output_dir
  extract_thumbnail p video.source_path (thumbnail_path output_dir video.id)
  read_thumbnail (thumbnail_path output_dir video.id)

unfoldable pub is_generated : Video → String → Disk → Bool
is_generated video output_dir d = exists (thumbnail_path output_dir video.id) d
