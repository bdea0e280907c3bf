-- ===== src/Home/Scanner/Metadata.antt =====
-- internal/home/scanner.go: metadata that were saved are found by the next scan.
use famfun.Prelude.{◌≡◌, String, some, ok, ◌==◌, if◌then◌else◌}
use famfun.Model.{Video}
use famfun.Protocol.Message.{Bytes}
use famfun.Home.Disk.{Disk}
use famfun.Home.Scanner.{Tools, VideoMetadata}

-- encoding/json reads back what it wrote.
pub record IsJson (t : Tools) : Type 0 where
  pub reads_back : (m : VideoMetadata) (b : Bytes) → t.encode m ≡ some b → t.decode b ≡ ok m

-- What a scan makes of a video whose metadata were saved: the source path is that of the file, the
-- home is not set, an empty visibility has become "member", and all else is as it was.
abbrev pub rescanned : Video → String → Video
rescanned v path = record v {
  source_path = path;
  home_server_id = "";
  visibility = if v.visibility == "" then "member" else v.visibility;
}
