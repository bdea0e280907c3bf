-- ===== src/Home/Server/Upload/Keeping.antt =====
-- internal/home/server.go: an upload that is complete becomes a new file.
use famfun.Prelude.{◌≡◌, refl, String, true, false, ok, arith, eq_refl, eq_iff}
use famfun.Prelude.Dict.{insert, lookup-insert}
use famfun.Protocol.Message.{Bytes, UploadVideoRequest}
use famfun.Home.FilePath.{rel}
use famfun.Home.FilePath.Below.{IsStep, HasSteps}
use famfun.Home.Disk.{Disk, read_file, exists}
use famfun.Home.Scanner.{Tools, generate_video_id}
use famfun.Home.Server.{HomeServer}
use famfun.Home.Server.Upload.{UploadEnv, or_empty, finish_upload}
use famfun.Home.Server.Upload.Naming.{IsFreeBelow, unique_file_path-IsFreeBelow}

abbrev with_file : String → Bytes → Disk → Disk
with_file p b d = record d { files = insert p b d.files }

read-with_file : (p : String) (b : Bytes) (d : Disk) → read_file p (with_file p b d) ≡ ok b
unfolding read_file
read-with_file p b d = rw (lookup-insert p p b d.files, read_file) (rw (eq_refl p) refl)

-- A file that can be read has a path that is not free.
read-with_other :
    (p q : String) (b c : Bytes) (d : Disk)
    → exists p d ≡ false
    → read_file q d ≡ ok c
    → read_file q (with_file p b d) ≡ ok c
unfolding read_file exists
read-with_other p q b c d gone there =
    ground (arith, lookup-insert p q b d.files, eq_iff p q, gone, there)

-- Where the bytes that arrived have the announced hash and the move succeeds, an upload with a plain
-- name, for a directory of videos that has steps, succeeds. Its bytes are then in a file with a plain
-- name below that directory, which did not exist, and every other file is as it was.
pub finish_upload-keeps :
    (t : Tools) (env : UploadEnv) (req : UploadVideoRequest) (content : Bytes) (s : HomeServer)
    (q : String) (c : Bytes)
    → HasSteps s.video_dir
    → IsStep req.filename
    → env.sha256 content ≡ req.sha256
    → env.move_succeeds ≡ true
    → read_file q s.disk ≡ ok c
    → (id : String) × (d : Disk) × (finish_upload t env req content s ≡ ok (id, d))
      × (read_file q d ≡ ok c)
      × ((p : String) × IsFreeBelow s.video_dir s.disk p × (read_file p d ≡ ok content))
unfolding finish_upload
finish_upload-keeps t env req content s q c h plain hash moves there =
    let (p, got, free) = unique_file_path-IsFreeBelow req.filename s h plain in
    (
      generate_video_id t (or_empty (rel s.video_dir p)),
      with_file p content s.disk,
      rw (hash, finish_upload) (rw (eq_refl req.sha256) (rw got (rw moves refl))),
      read-with_other p q content c s.disk free.gone there,
      (p, free, read-with_file p content s.disk),
    )
