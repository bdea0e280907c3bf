-- ===== src/Home/Running/Beating.antt =====
-- internal/home/server.go and internal/cloud/quic_server.go: the heartbeats of a home, and what the cloud
-- makes of one.
use famfun.Prelude.{
  ◌≡◌, refl, sym, ◌∙◌, String, List, [], ◌∷◌, Option, none, some, true, false, ok, arith, ◌==◌,
  eq_refl, Result, Option-cases, Bool-cases, inl, inr,
}
use famfun.Prelude.Dict.{Dict, keys, lookup}
use famfun.Model.{Video}
use famfun.Protocol.Message.{Envelope}
use famfun.Protocol.Message
use famfun.Protocol.Stream.{open_stream}
use famfun.Protocol.Framing.{IsCodec}
use famfun.Cloud.Connection.{HomeConn}
use famfun.Cloud.DataRequest.{Wire}
use famfun.Cloud.HomeManager.{HomeManager, query_video, sync_home_videos}
use famfun.Cloud.HomeManager.Lookups.{or_else, contains}
use famfun.Cloud.QuicServer.{
  fetch_video_info, store_videos, sync_videos, dispatch_control_message, seen,
}
use famfun.Cloud.QuicServer.Sync.{
  IsHonestOn, added, fetch_loop_lem, fetch_loop_total, store_videos_lem,
}
use famfun.Home.Scanner.{Tools}
use famfun.Home.Server.{HomeServer, get_video_ids, send_heartbeat}
use famfun.Home.Server.Upload.{UploadEnv}
use famfun.Home.Server.Dispatch.{home_peer}
use famfun.Home.Server.EndToEnd.{Fits}
use famfun.Home.Running.Announcing.{info_request, info_response, fetched_lem}

-- What the select of `startHeartbeat` receives: the end of the context, or a tick, with the server as it
-- is then.
pub data Tick : Type 0 where
  ended : Tick
  ticked : HomeServer → Tick

-- The messages that the goroutine of `startHeartbeat` sends.
unfoldable pub start_heartbeat : List Tick → List Envelope
start_heartbeat [] = []
start_heartbeat (Tick.ended ∷ ticks) = []
start_heartbeat (Tick.ticked s ∷ ticks) = send_heartbeat s ∷ start_heartbeat ticks

-- Each video of the map stands under its own identifier.
abbrev pub IsKeyed : HomeServer → Type 0
IsKeyed s = (id : String) (v : Video) → lookup id s.videos ≡ some v → v.id ≡ id

listed :
    (id : String) (d : Dict Video)
    → contains id (keys d) ≡ true
    → (v : Video) × (lookup id d ≡ some v)
unfolding lookup
listed id [] h = absurd cc
listed id ((i, v) ∷ d) h = elim (Bool-cases (i == id)) [
  | inl same ↦ (v, rw same refl)
  | inr differ ↦ let (w, there) = listed id d (rw differ at h) in (w, rw differ there)
]

contains-keys :
    (id : String) (d : Dict Video)
    → contains id (keys d) ≡ elim (lookup id d) [ none ↦ false | some _ ↦ true ]
unfolding lookup
contains-keys id [] = refl
contains-keys id ((i, v) ∷ d) = elim (Bool-cases (i == id)) [
  | inl same ↦ rw same refl
  | inr differ ↦ rw differ (contains-keys id d)
]

-- The video as the registry has it.
abbrev pub registered : Option Video → Option Video
registered none = none
registered (some v) = some (record v { source_path = "" })

stored :
    (hc : HomeConn) (m : HomeManager) (vs : List Video)
    → (m' : HomeManager) × (store_videos hc m (some vs) ≡ some m')
stored hc m [] = (m, refl)
stored hc m (v ∷ vs) = (sync_home_videos hc.home_id (v ∷ vs) [] m, refl)

-- The requests are answered with the videos of a map.
abbrev AnswersFrom : (String → Result Video) → Dict Video → Type 0
AnswersFrom asks d =
    (id : String) (v : Video) → lookup id d ≡ some v → asks id ≡ ok (record v { source_path = "" })

added_from :
    (asks : String → Result Video) (m : HomeManager) (home id : String) (d : Dict Video)
    → AnswersFrom asks d
    → or_else (added asks m home (keys d) [] id) (query_video home id m)
      ≡ or_else (query_video home id m) (registered (lookup id d))
unfolding seen
added_from asks m home id d answers = elim (Option-cases (lookup id d)) [
  | inl absent ↦
      let out : contains id (keys d) ≡ false = contains-keys id d ∙ rw absent refl in
      ground (arith, absent, out)
  | inr (v, here) ↦
      let there : contains id (keys d) ≡ true = contains-keys id d ∙ rw here refl in
      ground (arith, here, there, answers id v here)
]

synced :
    (asks : String → Result Video) (hc : HomeConn) (m : HomeManager) (d : Dict Video)
    → ((id : String) (v : Video) → lookup id d ≡ some v → v.id ≡ id)
    → AnswersFrom asks d
    → (m' : HomeManager) × (sync_videos asks hc (keys d) m ≡ some m')
      × ((id : String)
          → query_video hc.home_id id m'
            ≡ or_else (query_video hc.home_id id m) (registered (lookup id d)))
unfolding sync_videos
synced asks hc m d keyed answers =
    let asked : (id : String) → contains id (keys d) ≡ true → (v : Video) × (asks id ≡ ok v) =
      λ id c.
        let (v, there) = listed id d c in (record v { source_path = "" }, answers id v there) in
    let honest : IsHonestOn (keys d) asks = λ id v c came.
      let (w, there) = listed id d c in
      let same : ok (record w { source_path = "" }) ≡ ok v = sym (answers id w there) ∙ came in
      let named : w.id ≡ v.id = cc in sym named ∙ keyed id w there in
    let (vs, done) = fetch_loop_total asks m hc.home_id (keys d) [] asked in
    let (m', kept) = stored hc m vs in
    (
      m',
      rw done kept,
      λ id.
          store_videos_lem hc m m' vs hc.home_id id kept
          ∙ rw (eq_refl hc.home_id) (
              rw (fetch_loop_lem asks m hc.home_id id (keys d) [] vs honest done)
                (added_from asks m hc.home_id id d answers)),
    )

-- What the cloud makes of a home's heartbeat, on the connection of that home. Where the home has each
-- video under its own identifier, streams to the home open, and the messages about its videos fit into
-- frames, the heartbeat is answered with success, and the registry then has every video of the home: as
-- it had it before, if it did, else as the home has it, less the source path. A video of the registry that
-- the home has no longer stays.
pub dispatch-send_heartbeat :
    (w : Wire) (t : Tools) (env : UploadEnv) (s : HomeServer) (hc : HomeConn) (m : HomeManager)
    → IsCodec w.codec
    → w.quic hc.conn ≡ ok (open_stream (home_peer w.codec t env s))
    → IsKeyed s
    → ((id : String) (v : Video)
        → lookup id s.videos ≡ some v
        → Fits w.codec (info_request id) × Fits w.codec (info_response id s))
    → (m' : HomeManager) × (dispatch_control_message w hc (send_heartbeat s) m
        ≡ some (m', some (Message.heartbeat_response (record { success = true }))))
      × ((id : String)
          → query_video hc.home_id id m'
            ≡ or_else (query_video hc.home_id id m) (registered (lookup id s.videos)))
unfolding dispatch_control_message send_heartbeat get_video_ids
dispatch-send_heartbeat w t env s hc m laws opens keyed fit =
    let answers : AnswersFrom (fetch_video_info w hc) s.videos = λ id v there.
      let (request, response) = fit id v there in
      fetched_lem w t env s hc id v opens laws request response there in
    let (m', handled, has) = synced (fetch_video_info w hc) hc m s.videos keyed answers in
    (m', rw (handled, dispatch_control_message) refl, has)
