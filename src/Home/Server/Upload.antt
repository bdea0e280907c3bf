-- ===== src/Home/Server/Upload.antt =====
-- internal/home/server.go: HandleUploadVideo receives a file in chunks, checks its hash, and moves it
-- into the video directory.
pub mod Chunks
pub mod Naming
pub mod Keeping
use famfun.Prelude.{
  ℕ, zero, suc, ◌+◌, String, List, [], ◌∷◌, ◌++◌, Option, none, some, Bool, true, false, not,
  Result, ok, err, panic, Error, errorf, wrap, library, str, length, ◌==◌, if◌then◌else◌,
}
use mathlib.Core.Option.{get_or}
use famfun.Prelude.Dict.{insert}
use famfun.Prelude.Exec.{Exec, pure, raise, lift, context, ◌>>=◌, ◌>>◌}
use famfun.Prelude.Text.{◌⧺◌}
use famfun.Protocol.Message.{
  Bytes, Envelope, UploadVideoRequest, get_upload_video_chunk, payload_type,
}
use famfun.Protocol.Message
use famfun.Protocol.Stream.{Stream}
use famfun.Protocol.Framing.{Codec, read_message, write_message}
use famfun.Home.FilePath.{join, rel, ext, trim_suffix}
use famfun.Home.Disk.{Disk, exists}
use famfun.Prelude.Decimal.{decimal}
use famfun.Home.Scanner.{Tools, generate_video_id}
use famfun.Home.Server.{HomeServer, error_text}

-- What an upload meets outside: the temporary file or an error, whether its n-th write succeeds, the
-- hexadecimal SHA-256, and whether the final move succeeds.
pub record UploadEnv : Type 0 where
  pub temp : Result String
  pub write_succeeds : ℕ → Bool
  pub sha256 : Bytes → String
  pub move_succeeds : Bool

-- The n-th candidate of `uniqueFilePath`.
unfoldable pub candidate : String → String → ℕ → String
candidate video_dir filename i =
    let e = ext filename in
    join (video_dir ∷ (trim_suffix filename e ⧺ ("(" ⧺ (decimal i ⧺ (")" ⧺ e)))) ∷ [])

-- The first candidate that is not on the disk; `none` is out of fuel.
unfoldable pub first_free : ℕ → ℕ → String → String → Disk → Option String
first_free zero i video_dir filename d = none
first_free (suc n) i video_dir filename d = elim (exists (candidate video_dir filename i) d) [
  | false ↦ some (candidate video_dir filename i)
  | true ↦ first_free n (i + 1) video_dir filename d
]

-- The fuel is one more than the files there are.
unfoldable pub unique_file_path : String → HomeServer → Option String
unique_file_path filename s =
    let dest = join (s.video_dir ∷ filename ∷ []) in
    elim (exists dest s.disk) [
      | false ↦ some dest
      | true ↦ first_free (suc (length s.disk.files)) 1 s.video_dir filename s.disk
    ]

chunk_of : Envelope → Result Bytes
chunk_of env = elim (get_upload_video_chunk env) [
  | none ↦ err (errorf "expected UploadVideoChunk, got %T" (str (payload_type env) ∷ []))
  | some chunk ↦ ok chunk.bytes
]

-- The loop over the announced chunks: `n` are to come, `i` were received, with the bytes so far.
unfoldable pub receive_chunks : Codec → (ℕ → Bool) → ℕ → ℕ → Bytes → Exec Stream Bytes
unfolding chunk_of
receive_chunks c succeeds zero i acc = pure acc
receive_chunks c succeeds (suc n) i acc = do
  env ← context "read chunk %d" (read_message c)
  b ← lift (chunk_of env)
  elim (succeeds i) [
    | true ↦ receive_chunks c succeeds n (i + 1) (acc ++ b)
    | false ↦ raise (errorf "write chunk %d: %v" [])
  ]

-- A value whose error is dropped.
abbrev pub or_empty : Result String → String
or_empty (ok s) = s
or_empty (err e) = ""
or_empty panic = ""

-- After the chunks: the hash, the name, the move. The new disk and the video's identifier.
unfoldable pub finish_upload :
    Tools → UploadEnv → UploadVideoRequest → Bytes → HomeServer → Result (String × Disk)
finish_upload t env req content s =
    let actual = env.sha256 content in
    if not (actual == req.sha256)
    then err (errorf "hash mismatch: expected %s, got %s" (str req.sha256 ∷ str actual ∷ []))
    else elim (unique_file_path req.filename s) [
      | none ↦ panic
      | some dest ↦
          if env.move_succeeds
          then ok (
            generate_video_id t (or_empty (rel s.video_dir dest)),
            record s.disk { files = insert dest content s.disk.files },
          )
          else err (library "move file")
    ]

abbrev pub respond : Codec → Bool → String → String → Stream → Stream
respond c success error video_id st =
    (write_message c
      (Message.upload_video_response
        (record { success = success; error = error; video_id = video_id }))
      st).1

-- The stream after the answer, and the server with its new disk.
unfoldable pub handle_upload_video :
    Codec → Tools → UploadEnv → UploadVideoRequest → HomeServer → Stream → Stream × HomeServer
handle_upload_video c t env req s st = elim env.temp [
  | err e ↦ (respond c false ("create temp file: " ⧺ error_text e) "" st, s)
  | panic ↦ (st, s)
  | ok _ ↦
      let (received, st') = receive_chunks c env.write_succeeds req.total_chunks 0 [] st in
      elim received [
        | err e ↦ (respond c false (error_text e) "" st', s)
        | panic ↦ (st', s)
        | ok content ↦ elim (finish_upload t env req content s) [
          | err e ↦ (respond c false (error_text e) "" st', s)
          | panic ↦ (st', s)
          | ok (video_id, d) ↦ (respond c true "" video_id st', record s { disk = d })
        ]
      ]
]
