-- ===== src/Home/Scanner.antt =====
-- internal/home/scanner.go: from files to videos, with the metadata that is kept on the disk.
pub mod Metadata
pub mod Walk
use famfun.Prelude.{
  ℕ, zero, suc, ◌+◌, ◌/◌, ◌%◌, String, List, [], ◌∷◌, Option, none, some, Bool, true, false, not,
  ◌&&◌, ◌||◌, Result, ok, err, panic, Error, wrap, context, ◌>>=◌, ◌++◌, ltb, nat_eq, ◌==◌,
  if◌then◌else◌,
}
use famfun.Prelude.Dict.{Dict, lookup}
use famfun.Prelude.Text.{◌⧺◌}
use famfun.Prelude.Decimal.{decimal}
use famfun.Model.{Video, Int64}
use famfun.Protocol.Message.{Bytes}
use famfun.Home.FilePath.{join, rel, ext, base, trim_suffix, lower_in}
use famfun.Home.Disk.{Disk, read_file, write_file}

-- The keys of `supportedExtensions`.
abbrev pub supported_extensions : List String
supported_extensions = ".mp4" ∷ ".mkv" ∷ ".avi" ∷ ".mov" ∷ ".webm" ∷ []

unfoldable pub is_supported_video : String → Bool
is_supported_video path = lower_in (ext path) supported_extensions

-- videoMetadata
pub record VideoMetadata : Type 0 where
  pub id : String
  pub filename : String
  pub title : String
  pub description : String
  pub visibility : String
  pub duration : Int64
  pub filesize : Int64
  pub resolution : String
  pub created_at : String

pub record ProbeStream : Type 0 where
  pub codec_type : String
  pub width : ℕ
  pub height : ℕ

-- ffprobeOutput
pub record FfprobeOutput : Type 0 where
  pub duration : String
  pub size : String
  pub tags : Dict String
  pub streams : List ProbeStream

-- What the scanner calls outside the repository: the first eight bytes of a SHA-256 in hexadecimal,
-- the output of ffprobe with its arguments, encoding/json for it and for the metadata, the number
-- parsers of strconv, the modification time of a file and the present time in the format RFC 3339.
pub record Tools : Type 0 where
  pub hash8 : String → String
  pub ffprobe : List String → Result Bytes
  pub decode_probe : Bytes → Result FfprobeOutput
  pub encode : VideoMetadata → Option Bytes
  pub decode : Bytes → Result VideoMetadata
  pub parse_float : String → Option Int64
  pub parse_int : String → Option Int64
  pub mod_time : String → Result String
  pub now : String

unfoldable pub metadata_path : String → String → String
metadata_path stream_dir video_id = join (stream_dir ∷ video_id ∷ "metadata.json" ∷ [])

unfoldable pub video_of_metadata : VideoMetadata → String → Video
video_of_metadata meta source_path = record {
  id = meta.id;
  filename = meta.filename;
  title = meta.title;
  description = meta.description;
  duration = meta.duration;
  filesize = meta.filesize;
  resolution = meta.resolution;
  created_at = meta.created_at;
  home_server_id = "";
  visibility = if meta.visibility == "" then "member" else meta.visibility;
  source_path = source_path;
}

unfoldable pub load_cached_metadata : Tools → Disk → String → String → String → Result Video
load_cached_metadata t d stream_dir video_id source_path =
    elim (read_file (metadata_path stream_dir video_id) d) [
      | err e ↦ err e
      | panic ↦ panic
      | ok b ↦ elim (t.decode b) [
        | err e ↦ err e
        | panic ↦ panic
        | ok meta ↦ ok (video_of_metadata meta source_path)
      ]
    ]

unfoldable pub metadata_of : Video → VideoMetadata
metadata_of v = record {
  id = v.id;
  filename = v.filename;
  title = v.title;
  description = v.description;
  visibility = v.visibility;
  duration = v.duration;
  filesize = v.filesize;
  resolution = v.resolution;
  created_at = v.created_at;
}

-- Failures to encode or to write are dropped.
unfoldable pub save_cached_metadata : Tools → String → String → Video → Disk → Disk
save_cached_metadata t stream_dir video_id v d = elim (t.encode (metadata_of v)) [
  | none ↦ d
  | some b ↦ write_file (metadata_path stream_dir video_id) b d
]

unfoldable pub generate_video_id : Tools → String → String
generate_video_id t rel_path = t.hash8 rel_path

unfoldable pub title_from_filename : String → String
title_from_filename filename = trim_suffix (base filename) (ext filename)

-- The first video stream with a size. ffprobe gives no negative sizes.
unfoldable pub extract_resolution : List ProbeStream → String
extract_resolution [] = ""
extract_resolution (s ∷ ss) =
    let later = extract_resolution ss in
    if s.codec_type == "video" && ltb 0 s.width && ltb 0 s.height
    then decimal s.width ⧺ ("x" ⧺ decimal s.height)
    else later

unfoldable pub file_mod_time : Tools → String → String
file_mod_time t path = elim (t.mod_time path) [ ok m ↦ m | _ ↦ t.now ]

unfoldable pub extract_created_at : Tools → Dict String → String → String
extract_created_at t tags path = elim (lookup "creation_time" tags) [
  | some ct ↦ ct
  | none ↦ file_mod_time t path
]

abbrev pub or_zero : Option Int64 → Int64
or_zero none = 0
or_zero (some n) = n

-- int64(f) of a float is what `parse_float` gives.
unfoldable pub parse_duration : Tools → String → Int64
parse_duration t s = or_zero (t.parse_float s)

unfoldable pub parse_filesize : Tools → String → Int64
parse_filesize t s = or_zero (t.parse_int s)

unfoldable pub run_ffprobe : Tools → String → Result FfprobeOutput
run_ffprobe t path = do
  output ← context "ffprobe exec" (
      t.ffprobe
        ("-v" ∷ "quiet" ∷ "-print_format" ∷ "json" ∷ "-show_format" ∷ "-show_streams" ∷ path ∷ []))
  context "parse ffprobe output" (t.decode_probe output)

unfoldable pub build_video_from_probe : Tools → String → String → FfprobeOutput → Video
build_video_from_probe t video_id source_path probe = record {
  id = video_id;
  filename = base source_path;
  title = title_from_filename source_path;
  description = "";
  duration = parse_duration t probe.duration;
  filesize = parse_filesize t probe.size;
  resolution = extract_resolution probe.streams;
  created_at = extract_created_at t probe.tags source_path;
  home_server_id = "";
  visibility = "";
  source_path = source_path;
}

abbrev pub Probed : Type 0
Probed = Result Video × Disk

probe_fresh : Tools → String → String → String → Disk → Result FfprobeOutput → Probed
probe_fresh t stream_dir video_id path d (err e) = (err (wrap "ffprobe" e), d)
probe_fresh t stream_dir video_id path d panic = (panic, d)
probe_fresh t stream_dir video_id path d (ok probe) =
    let v = build_video_from_probe t video_id path probe in
    (ok v, save_cached_metadata t stream_dir video_id v d)

probe_related : Tools → String → String → Disk → Result String → Probed
unfolding probe_fresh
probe_related t stream_dir path d (err e) = (err (wrap "relative path" e), d)
probe_related t stream_dir path d panic = (panic, d)
probe_related t stream_dir path d (ok rel_path) =
    let video_id = generate_video_id t rel_path in
    elim (load_cached_metadata t d stream_dir video_id path) [
      | ok v ↦ (ok v, d)
      | err _ ↦ probe_fresh t stream_dir video_id path d (run_ffprobe t path)
      | panic ↦ (panic, d)
    ]

-- The cached metadata if they can be read, else a probe, whose result is cached.
unfoldable pub probe_video : Tools → String → String → String → Disk → Probed
unfolding probe_related probe_fresh
probe_video t video_dir stream_dir path d = probe_related t stream_dir path d (rel video_dir path)
