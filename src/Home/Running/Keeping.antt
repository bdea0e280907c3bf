-- ===== src/Home/Running/Keeping.antt =====
-- internal/home/server.go: what the map of videos of a home keeps to, whatever the home does.
use famfun.Prelude.{
  ℕ, ◌+◌, ◌≡◌, refl, ap, sym, ◌∙◌, String, List, [], ◌∷◌, some, Bool, false, ok, err, panic, Result,
  arith, ◌==◌, eq_iff, Option-cases, Bool-cases, inl, inr, if◌then◌else◌,
}
use famfun.Prelude.Dict.{lookup, insert, lookup-insert}
use famfun.Model.{Video}
use famfun.Protocol.Message.{UploadVideoRequest, UpdateVideoInfoRequest}
use famfun.Protocol.Stream.{Stream}
use famfun.Protocol.Framing.{Codec}
use famfun.Home.Converting.{Programs}
use famfun.Home.Disk.{Disk}
use famfun.Home.Start.{new_home_server}
use famfun.Home.Scanner.{
  Tools, FfprobeOutput, run_ffprobe, build_video_from_probe, save_cached_metadata,
}
use famfun.Home.Scanner.Walk.{Visit, scan}
use famfun.Home.Server.{HomeServer, handle_update_video_info}
use famfun.Home.Server.Upload.{UploadEnv, handle_upload_video}
use famfun.Home.Running.{
  process_and_publish, process_all, process_scanned, scan_and_convert_background, process_upload,
}
use famfun.Home.Running.Processing.{entered, processed_lem}

-- What a home does that may change its state.
pub data Task : Type 0 where
  scans : Tools → Programs → (ℕ → Bool) → List Visit → Task
  receives : Codec → Tools → UploadEnv → UploadVideoRequest → Stream → Task
  adds_upload : Tools → Programs → UploadVideoRequest → String → String → Task
  edits : Tools → UpdateVideoInfoRequest → Task

abbrev pub perform : Task → HomeServer → HomeServer
perform (Task.scans t p live visits) s = (scan_and_convert_background t p live visits s).0
perform (Task.receives c t env req st) s = (handle_upload_video c t env req s st).1
perform (Task.adds_upload t p req id dest) s = (process_upload t p req id dest s).0
perform (Task.edits t req) s = (handle_update_video_info t req s).1

abbrev pub perform_all : List Task → HomeServer → HomeServer
perform_all [] s = s
perform_all (task ∷ tasks) s = perform_all tasks (perform task s)

-- A video of the map: under its own identifier, with the identifier of the home, and with a visibility.
abbrev pub IsKept : String → String → Video → Type 0
IsKept home_id id v = (v.id ≡ id) × (v.home_server_id ≡ home_id) × ((v.visibility == "") ≡ false)

abbrev pub IsSound : HomeServer → Type 0
IsSound s = (id : String) (v : Video) → lookup id s.videos ≡ some v → IsKept s.home_id id v

moved-IsKept :
    (home_id key id : String) (v w : Video)
    → v ≡ w
    → key ≡ id
    → IsKept home_id key v
    → IsKept home_id id w
moved-IsKept home_id key id v w same here (named, own, seen) = (
  ap (λ x. x.id) (sym same) ∙ named ∙ here,
  ap (λ x. x.home_server_id) (sym same) ∙ own,
  ap (λ x. x.visibility == "") (sym same) ∙ seen,
)

-- The map of the second server is that of the first with one more video.
inserted-IsSound :
    (s s' : HomeServer) (key : String) (v : Video)
    → s'.home_id ≡ s.home_id
    → s'.videos ≡ insert key v s.videos
    → IsKept s.home_id key v
    → IsSound s
    → IsSound s'
inserted-IsSound s s' key v same more kept sound id w h =
    let found = sym (lookup-insert key id v s.videos) ∙ ap (lookup id) (sym more) ∙ h in
    rw same (elim (Bool-cases (key == id)) [
      | inl here ↦
          let one : v ≡ w = ground (arith, found, here) in
          moved-IsKept s.home_id key id v w one ((eq_iff key id).0 here) kept
      | inr there ↦ let old : lookup id s.videos ≡ some w = rw there at found in sound id w old
    ])

kept-IsSound :
    (s s' : HomeServer) → s'.home_id ≡ s.home_id → s'.videos ≡ s.videos → IsSound s → IsSound s'
kept-IsSound s s' same videos sound id w h = rw same (sound id w (ap (lookup id) (sym videos) ∙ h))

or_member_lem : (vis : String) → ((if vis == "" then "member" else vis) == "") ≡ false
or_member_lem vis = elim (Bool-cases (vis == "")) [ inl e ↦ rw e refl | inr e ↦ rw e e ]

processed-IsSound :
    (p : Programs) (v : Video) (s : HomeServer)
    → IsSound s
    → IsSound (process_and_publish p (record v { home_server_id = s.home_id }) s).0
processed-IsSound p v s sound =
    let s' = (process_and_publish p (record v { home_server_id = s.home_id }) s).0 in
    let (same, more, _) = processed_lem p v s s.home_id refl in
    inserted-IsSound s s' v.id (entered s.home_id v) same more
      (refl, refl, or_member_lem v.visibility) sound

process_all-IsSound :
    (p : Programs) (live : ℕ → Bool) (n : ℕ) (vs : List Video) (s : HomeServer)
    → IsSound s
    → IsSound (process_all p live n vs s).0
unfolding process_all
process_all-IsSound p live n [] s sound = sound
process_all-IsSound p live n (v ∷ vs) s sound = elim (Bool-cases (live n)) [
  | inr stopped ↦ rw (stopped, process_all) sound
  | inl on ↦
      let s' = (process_and_publish p (record v { home_server_id = s.home_id }) s).0 in
      rw (on, process_all)
        (process_all-IsSound p live (n + 1) vs s' (processed-IsSound p v s sound))
]

process_scanned-IsSound :
    (p : Programs) (live : ℕ → Bool) (s : HomeServer) (r : Result (List Video) × Disk)
    → IsSound s
    → IsSound (process_scanned p live s r).0
process_scanned-IsSound p live s (ok videos, d) sound =
    process_all-IsSound p live 0 videos (record s { disk = d }) sound
process_scanned-IsSound p live s (err e, d) sound = sound
process_scanned-IsSound p live s (panic, d) sound = sound

handle_upload_video-videos :
    (c : Codec) (t : Tools) (env : UploadEnv) (req : UploadVideoRequest) (s : HomeServer)
    (st : Stream)
    → let s' = (handle_upload_video c t env req s st).1 in
      (s'.home_id ≡ s.home_id) × (s'.videos ≡ s.videos)
unfolding handle_upload_video
handle_upload_video-videos c t env req s st = ground arith

probed-IsSound :
    (t : Tools) (p : Programs) (req : UploadVideoRequest) (id dest : String) (s : HomeServer)
    (probed : Result FfprobeOutput)
    → run_ffprobe t dest ≡ probed
    → IsSound s
    → IsSound (process_upload t p req id dest s).0
unfolding process_upload
probed-IsSound t p req id dest s (err e) came sound = rw (came, process_upload) sound
probed-IsSound t p req id dest s panic came sound = rw (came, process_upload) sound
probed-IsSound t p req id dest s (ok probe) came sound =
    let v = build_video_from_probe t id dest probe in
    let v' : Video = record v {
      title = if req.title == "" then v.title else req.title;
      description = req.description;
    } in
    rw (came, process_upload) (processed-IsSound p v' s sound)

handle_update_video_info-IsSound :
    (t : Tools) (req : UpdateVideoInfoRequest) (s : HomeServer)
    → IsSound s
    → IsSound (handle_update_video_info t req s).1
unfolding handle_update_video_info
handle_update_video_info-IsSound t req s sound =
    elim (Option-cases (lookup req.video_id s.videos)) [
      | inl absent ↦ rw (absent, handle_update_video_info) sound
      | inr (v, there) ↦
          let (named, own, _) = sound req.video_id v there in
          let v' : Video = record v {
            title = req.title;
            description = req.description;
            visibility = if req.visibility == "" then "member" else req.visibility;
          } in
          rw (there, handle_update_video_info)
            (inserted-IsSound s
              (record s {
                videos = insert req.video_id v' s.videos;
                disk = save_cached_metadata t s.stream_dir v.id v' s.disk;
              })
              req.video_id v' refl refl (named, own, or_member_lem req.visibility) sound)
    ]

perform-IsSound : (task : Task) (s : HomeServer) → IsSound s → IsSound (perform task s)
unfolding scan_and_convert_background
perform-IsSound (Task.scans t p live visits) s sound =
    process_scanned-IsSound p live s (scan t s.video_dir s.stream_dir visits s.disk) sound
perform-IsSound (Task.receives c t env req st) s sound =
    let (same, videos) = handle_upload_video-videos c t env req s st in
    kept-IsSound s (handle_upload_video c t env req s st).1 same videos sound
perform-IsSound (Task.adds_upload t p req id dest) s sound =
    probed-IsSound t p req id dest s (run_ffprobe t dest) refl sound
perform-IsSound (Task.edits t req) s sound = handle_update_video_info-IsSound t req s sound

perform_all-IsSound :
    (tasks : List Task) (s : HomeServer) → IsSound s → IsSound (perform_all tasks s)
perform_all-IsSound [] s sound = sound
perform_all-IsSound (task ∷ tasks) s sound =
    perform_all-IsSound tasks (perform task s) (perform-IsSound task s sound)

-- Whatever scans, uploads and edits a new home server has been through, each video of its map stands
-- under its own identifier, bears the identifier of the home, and has a visibility.
pub perform_all-new_home_server :
    (tasks : List Task) (home_id home_name video_dir stream_dir thumb_dir : String) (disk : Disk)
    → IsSound
        (perform_all tasks (new_home_server home_id home_name video_dir stream_dir thumb_dir disk))
unfolding new_home_server lookup
perform_all-new_home_server tasks home_id home_name video_dir stream_dir thumb_dir disk =
    perform_all-IsSound tasks
      (new_home_server home_id home_name video_dir stream_dir thumb_dir disk) (λ id v h. absurd cc)
