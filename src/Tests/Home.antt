-- ===== src/Tests/Home.antt =====
-- The theorems on internal/home at concrete inputs.
use famfun.Prelude.{
  ◌≡◌, String, List, [], ◌∷◌, none, some, Bool, true, ok, err, library, ◌==◌, length, eq_refl,
  nat_eq, ◌&&◌, if◌then◌else◌,
}
use famfun.Prelude.Dict.{lookup}
use famfun.Prelude.Text.{◌⧺◌}
use famfun.Protocol.Message.{Bytes}
use famfun.Protocol.Stream.{open_stream}
use famfun.Home.Running.{Round, run}
use famfun.Home.Running.Rounds.{beating, scans, publications, run-registrations}
use famfun.Home.Connecting.{Outcome, connect_with_retry}
use famfun.Home.Connecting
use famfun.Home.Connecting.Waits.{failures, wait_list, connect_with_retry-failures}
use famfun.Home.Disk.{Disk, read_file}
use famfun.Home.Scanner.{Tools, VideoMetadata}
use famfun.Home.Server.{HomeServer}
use famfun.Home.Server.Upload.{UploadEnv}
use famfun.Home.Server.Dispatch.{home_peer}
use famfun.Cloud.DataRequest.{Wire}
use famfun.Tests.SampleCodec.{sample}

only_file : (path : String) → lookup {V = Bytes} path ((path, 7 ∷ 8 ∷ []) ∷ []) ≡ some (7 ∷ 8 ∷ [])
unfolding lookup
only_file path = rw (eq_refl path)

-- encoding/json in a test that stores the metadata of one film.
abbrev film_metadata : VideoMetadata
film_metadata = record {
  id = "v";
  filename = "film.mp4";
  title = "Film";
  description = "";
  visibility = "member";
  duration = 60;
  filesize = 1000;
  resolution = "1920x1080";
  created_at = "2026-01-01";
}

abbrev same_text : VideoMetadata → Bool
same_text m =
    (m.id == "v")
    && ((m.filename == "film.mp4")
        && ((m.title == "Film") && ((m.description == "") && (m.visibility == "member"))))

abbrev same_data : VideoMetadata → Bool
same_data m =
    nat_eq m.duration 60
    && (nat_eq m.filesize 1000 && ((m.resolution == "1920x1080") && (m.created_at == "2026-01-01")))

abbrev pub tools : Tools
tools = record {
  hash8 = λ s. "id-" ⧺ s;
  ffprobe = λ _. err (library "no ffprobe");
  decode_probe = λ _. err (library "no ffprobe");
  encode = λ m. if same_text m && same_data m then some (1 ∷ []) else none;
  decode = λ b. ok film_metadata;
  parse_float = λ _. none;
  parse_int = λ _. none;
  mod_time = λ _. err (library "no file");
  now = "";
}

abbrev disk : Disk
disk = record { files = []; writable = λ _. true }

abbrev pub env : UploadEnv
env = record {
  temp = ok "/tmp/upload";
  write_succeeds = λ _. true;
  sha256 = λ _. "";
  move_succeeds = true;
}

-- A home server with one file.
abbrev pub server : String → HomeServer
server path = record {
  home_id = "h";
  home_name = "Home";
  video_dir = "/videos";
  stream_dir = "/streams";
  thumb_dir = "/thumbs";
  videos = [];
  disk = record { files = (path, 7 ∷ 8 ∷ []) ∷ []; writable = λ _. true };
}

abbrev pub wire : HomeServer → Wire
wire s = record { codec = sample; quic = λ _. ok (open_stream (home_peer sample tools env s)) }

pub read_only : (path : String) → read_file path (server path).disk ≡ ok (7 ∷ 8 ∷ [])
unfolding read_file
read_only path = rw (only_file path, read_file)

connect_with_retry-failures_example :
    connect_with_retry (failures 2 (Connecting.Round.connects ∷ []))
    ≡ (Outcome.connected, wait_list 0 2)
connect_with_retry-failures_example = connect_with_retry-failures 2

abbrev rounds : List Round
rounds = Round.not_registered ∷ Round.loses_connection ∷ Round.loses_connection ∷ []

run-registrations_example :
    (length (beating [] (run rounds)) ≡ 2)
    × (scans (run rounds) ≡ 1)
    × (publications (run rounds) ≡ 1)
run-registrations_example = run-registrations rounds
