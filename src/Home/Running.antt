-- ===== src/Home/Running.antt =====
-- internal/home/server.go: the work of a home server beside its answers: the connection loop, and what
-- is done to each video.
pub mod Rounds
pub mod Processing
pub mod Announcing
pub mod Beating
pub mod Keeping
use famfun.Prelude.{
  ℕ, ◌+◌, String, List, [], ◌∷◌, ◌++◌, Option, none, some, Bool, true, false, not, Result, ok, err,
  panic, ◌==◌, if◌then◌else◌,
}
use famfun.Model.{Video}
use famfun.Protocol.Message.{Bytes, Envelope, UploadVideoRequest}
use famfun.Home.Disk.{Disk}
use famfun.Home.Scanner.{Tools, run_ffprobe, build_video_from_probe}
use famfun.Home.Scanner.Walk.{Visit, scan}
use famfun.Home.Converting.{Programs, convert, is_converted, generate, is_generated}
use famfun.Home.Server.{HomeServer, add_video, notify_cloud}

-- An error is only logged, here and below.
unfoldable pub convert_video : Programs → Video → HomeServer → HomeServer
convert_video p v s = elim (is_converted v s.stream_dir s.disk) [
  | true ↦ s
  | false ↦ record s { disk = (convert p v s.stream_dir s.disk).1 }
]

unfoldable pub generate_thumbnail : Programs → Video → HomeServer → HomeServer
generate_thumbnail p v s = elim (is_generated v s.thumb_dir s.disk) [
  | true ↦ s
  | false ↦ record s { disk = (generate p v s.thumb_dir s.disk).1 }
]

-- The processors in their order; the message is what the last of them sends.
unfoldable pub process_and_publish : Programs → Video → HomeServer → HomeServer × Envelope
process_and_publish p v s =
    let s' = add_video v (generate_thumbnail p v (convert_video p v s)) in (s', notify_cloud v s')

-- The loop over the scanned videos. `live n` says whether the context is still there before the n-th.
unfoldable pub process_all :
    Programs → (ℕ → Bool) → ℕ → List Video → HomeServer → HomeServer × List Envelope
process_all p live n [] s = (s, [])
process_all p live n (v ∷ vs) s = elim (live n) [
  | false ↦ (s, [])
  | true ↦
      let (s', sent) = process_and_publish p (record v { home_server_id = s.home_id }) s in
      let (s'', later) = process_all p live (n + 1) vs s' in (s'', sent ∷ later)
]

-- What is done with the result of a scan.
abbrev pub process_scanned :
    Programs → (ℕ → Bool) → HomeServer → Result (List Video) × Disk → HomeServer × List Envelope
process_scanned p live s (ok videos, d) = process_all p live 0 videos (record s { disk = d })
process_scanned p live s (err e, d) = (record s { disk = d }, [])
process_scanned p live s (panic, d) = (record s { disk = d }, [])

unfoldable pub scan_and_convert_background :
    Tools → Programs → (ℕ → Bool) → List Visit → HomeServer → HomeServer × List Envelope
scan_and_convert_background t p live visits s =
    process_scanned p live s (scan t s.video_dir s.stream_dir visits s.disk)

-- How one round of the loop of Run goes: ConnectWithRetry gives up, the registration fails, or it
-- succeeds and either the connection is lost or the context ends.
pub data Round : Type 0 where
  gives_up : Round
  not_registered : Round
  loses_connection : Round
  ends : Round

-- The context that a goroutine is given: that of Run, or one that is only for a connection.
pub data Context : Type 0 where
  of_run : Context
  of_connection : Context

-- What happens in a call of Run: scans and heartbeats are goroutines, and the end of a context comes from
-- outside.
pub data Event : Type 0 where
  starts_scan : Context → Event
  publishes : Event
  starts_heartbeat : Context → Event
  ends_context : Context → Event
  closes : Event
  sleeps : ℕ → Event

-- Between a registration and the select.
unfoldable pub start : Bool → List Event
start true = publishes ∷ starts_heartbeat of_run ∷ []
start false = starts_scan of_run ∷ starts_heartbeat of_run ∷ []

-- The loop of Run; `reconnect` is its variable. ConnectWithRetry gives up only when the context ends.
unfoldable pub run_loop : Bool → List Round → List Event
run_loop reconnect [] = []
run_loop reconnect (gives_up ∷ rounds) = ends_context of_run ∷ []
run_loop reconnect (not_registered ∷ rounds) = closes ∷ sleeps 5 ∷ run_loop reconnect rounds
run_loop reconnect (loses_connection ∷ rounds) = start reconnect ++ closes ∷ run_loop true rounds
run_loop reconnect (ends ∷ rounds) = start reconnect ++ ends_context of_run ∷ closes ∷ []

unfoldable pub run : List Round → List Event
run rounds = run_loop false rounds

-- What HandleUploadVideo does behind its answer: the new file is probed, and then processed as a video
-- with the title and description of the upload.
unfoldable pub process_upload :
    Tools
    → Programs
    → UploadVideoRequest
    → String
    → String
    → HomeServer
    → HomeServer × List Envelope
process_upload t p req video_id dest s = elim (run_ffprobe t dest) [
  | ok probe ↦
      let v = build_video_from_probe t video_id dest probe in
      let v' : Video = record v {
        home_server_id = s.home_id;
        title = if req.title == "" then v.title else req.title;
        description = req.description;
      } in
      let (s', sent) = process_and_publish p v' s in (s', sent ∷ [])
  | _ ↦ (s, [])
]
