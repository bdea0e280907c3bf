-- ===== src/Home/Start.antt =====
-- cmd/home/main.go: the start of a home server, with NewHomeServer of internal/home/server.go.
use famfun.Prelude.{
  String, [], Option, none, some, Bool, false, Result, ok, err, panic, wrap, ◌==◌, if◌then◌else◌,
}
use famfun.Prelude.Dict.{Dict, lookup}
use famfun.Protocol.Message.{Bytes}
use famfun.Protocol.RegisterAuth.{Crypto}
use famfun.Home.Client.{new_rsa_signer}
use famfun.Home.Disk.{Disk}
use famfun.Home.Server.{HomeServer}

pub record Config : Type 0 where
  pub cloud_addr : String
  pub video_dir : String
  pub stream_dir : String
  pub thumb_dir : String
  pub home_id : String
  pub home_name : String
  pub private_key_path : String
  pub tls_insecure : Bool

abbrev pub default_home_name : Result String → String
default_home_name (ok name) = name
default_home_name (err e) = "Home Server"
default_home_name panic = "Home Server"

-- What a flag is set to, or its default.
abbrev pub flag_or : {A : Type 0} → Dict A → String → A → A
flag_or given name standard = elim (lookup name given) [ none ↦ standard | some v ↦ v ]

-- `texts` and `switches` are the flags on the command line; `new_id` is uuid.New, and `hostname` what
-- os.Hostname returns.
unfoldable pub parse_flags : Dict String → Dict Bool → String → Result String → Config
parse_flags texts switches new_id hostname =
    let id = flag_or texts "home-id" "" in
    let name = flag_or texts "home-name" "" in
    record {
      cloud_addr = flag_or texts "cloud-addr" "localhost:4433";
      video_dir = flag_or texts "video-dir" "./videos";
      stream_dir = flag_or texts "stream-dir" "./video_streams";
      thumb_dir = flag_or texts "thumb-dir" "./thumbnails";
      home_id = if id == "" then new_id else id;
      home_name = if name == "" then default_home_name hostname else name;
      private_key_path = flag_or texts "rsa-private-key" "";
      tls_insecure = flag_or switches "tls-insecure" false;
    }

-- The processors are the calls of process_and_publish, in their order.
unfoldable pub new_home_server : String → String → String → String → String → Disk → HomeServer
new_home_server home_id home_name video_dir stream_dir thumb_dir disk = record {
  home_id = home_id;
  home_name = home_name;
  video_dir = video_dir;
  stream_dir = stream_dir;
  thumb_dir = thumb_dir;
  videos = [];
  disk = disk;
}

-- `mkdir_all` changes the disk; its error is dropped.
unfoldable pub ensure_dirs : (String → Disk → Disk) → Config → Disk → Disk
ensure_dirs mkdir_all cfg d =
    mkdir_all cfg.thumb_dir (mkdir_all cfg.stream_dir (mkdir_all cfg.video_dir d))

abbrev pub signer_loaded : (k : Crypto) → Result k.PrivateKey → Result (Option k.PrivateKey)
signer_loaded k (ok key) = ok (some key)
signer_loaded k (err e) = err (wrap "load RSA private key" e)
signer_loaded k panic = panic

-- The signer, if a file is configured for its key; `read_file` is os.ReadFile.
unfoldable pub load_signer :
    (k : Crypto) → (String → Result Bytes) → Config → Result (Option k.PrivateKey)
load_signer k read_file cfg =
    if cfg.private_key_path == ""
    then ok none
    else signer_loaded k (new_rsa_signer k (read_file cfg.private_key_path))

-- main up to Run: the server and its signer, or the error that log.Fatalf prints.
unfoldable pub main :
    (k : Crypto)
    → (String → Result Bytes)
    → (String → Disk → Disk)
    → Config
    → Disk
    → Result (HomeServer × Option k.PrivateKey)
main k read_file mkdir_all cfg d =
    let s =
      new_home_server cfg.home_id cfg.home_name cfg.video_dir cfg.stream_dir cfg.thumb_dir
        (ensure_dirs mkdir_all cfg d) in
    elim (load_signer k read_file cfg) [
      | ok signer ↦ ok (s, signer)
      | err e ↦ err e
      | panic ↦ panic
    ]
