-- ===== src/Cloud/QuicServer/Sync.antt =====
-- internal/cloud/quic_server.go: what syncVideos does to the registry of videos.
use famfun.Prelude.{
  String, List, [], ◌∷◌, ◌≡◌, refl, ◌==◌, Option, none, some, true, false, not, Result, ok, err,
  panic, if◌then◌else◌, Option-cases, Bool-cases, inl, inr, ◌⊎◌, Error, arith, eq_iff, eq_refl,
  ◌&&◌,
}
use famfun.Model.{Video}
use famfun.Cloud.Connection.{HomeConn}
use famfun.Cloud.HomeManager.{HomeManager, query_video, sync_home_videos}
use famfun.Cloud.HomeManager.Lookups.{or_else, last_with, contains, query_video-sync_home_videos}
use famfun.Cloud.QuicServer.{seen, fetched, fetch_loop, store_videos, sync_videos}

-- The home answers a request for an identifier with the video of that identifier.
abbrev pub IsHonest : (String → Result Video) → Type 0
IsHonest asks = (id : String) (v : Video) → asks id ≡ ok v → v.id ≡ id

-- The same of listed identifiers only.
abbrev pub IsHonestOn : List String → (String → Result Video) → Type 0
IsHonestOn ids asks =
    (id : String) (v : Video) → contains id ids ≡ true → asks id ≡ ok v → v.id ≡ id

honest_behind :
    (asks : String → Result Video) (id : String) (ids : List String)
    → IsHonestOn (id ∷ ids) asks
    → IsHonestOn ids asks
honest_behind asks id ids honest i v c = honest i v (ground (arith, c))

abbrev pub answered : Result Video → Option Video
answered (ok v) = some v
answered _ = none

-- The video that a sync adds under an identifier.
abbrev pub added :
    (String → Result Video)
    → HomeManager
    → String
    → List String
    → List String
    → String
    → Option Video
added asks m home ids to_add j = elim (query_video home j m) [
  | some _ ↦ none
  | none ↦ elim (contains j ids && not (seen j to_add)) [ true ↦ answered (asks j) | false ↦ none ]
]

fetched-some :
    (r : Result Video) (skip rest : Option (List Video)) (vs : List Video)
    → fetched r skip rest ≡ some vs
    → ((e : Error) × (r ≡ err e) × (skip ≡ some vs))
      ⊎ ((v : Video) × (vs' : List Video) × (r ≡ ok v) × (rest ≡ some vs') × (v ∷ vs' ≡ vs))
fetched-some (err e) skip rest vs h = inl (e, refl, h)
fetched-some panic skip rest vs h = absurd cc
fetched-some (ok v) skip none vs h = absurd cc
fetched-some (ok v) skip (some vs') vs h = inr (v, vs', refl, refl, cc)

pub fetch_loop_lem :
    (asks : String → Result Video) (m : HomeManager) (home j : String) (ids to_add : List String)
    (vs : List Video)
    → IsHonestOn ids asks
    → fetch_loop asks m home ids to_add ≡ some vs
    → last_with j vs ≡ added asks m home ids to_add j
unfolding fetch_loop seen
fetch_loop_lem asks m home j [] to_add [] honest h = ground arith
fetch_loop_lem asks m home j [] to_add (v ∷ vs) honest h = absurd cc
fetch_loop_lem asks m home j (id ∷ ids) to_add vs all_honest h =
    let honest = honest_behind asks id ids all_honest in
    let here : contains id (id ∷ ids) ≡ true = rw (eq_refl id) refl in
    elim (Option-cases (query_video home id m)) [
      | inr (w, there) ↦
          let ih =
            fetch_loop_lem asks m home j ids to_add vs honest (rw (there, fetch_loop) at h) in
          ground (arith, ih, there, eq_iff id j)
      | inl gone ↦ elim (Bool-cases (seen id to_add)) [
        | inl again ↦
            let ih =
              fetch_loop_lem asks m home j ids to_add vs honest
                (rw (gone, again, fetch_loop) at h) in
            ground (arith, ih, again, eq_iff id j)
        | inr fresh ↦ elim (fetched-some (asks id) _ _ vs (rw (gone, fresh, fetch_loop) at h)) [
          | inl (e, failed, h') ↦
              let ih = fetch_loop_lem asks m home j ids to_add vs honest h' in
              ground (arith, ih, failed, eq_iff id j)
          | inr (v, vs', came, h', both) ↦
              let ih = fetch_loop_lem asks m home j ids (id ∷ to_add) vs' honest h' in
              rw (← both)
                (ground (arith, ih, gone, fresh, came, all_honest id v here came, eq_iff id j))
        ]
      ]
    ]

-- Without a panic of a request the loop comes to its end.
pub fetch_loop_total :
    (asks : String → Result Video) (m : HomeManager) (home : String) (ids to_add : List String)
    → ((id : String) → contains id ids ≡ true → (v : Video) × (asks id ≡ ok v))
    → (vs : List Video) × (fetch_loop asks m home ids to_add ≡ some vs)
unfolding fetch_loop
fetch_loop_total asks m home [] to_add answers = ([], refl)
fetch_loop_total asks m home (id ∷ ids) to_add answers =
    let later : (i : String) → contains i ids ≡ true → (v : Video) × (asks i ≡ ok v) =
      λ i c. answers i (ground (arith, c)) in
    let (skip, skips) = fetch_loop_total asks m home ids to_add later in
    let (rest, rests) = fetch_loop_total asks m home ids (id ∷ to_add) later in
    let (v, came) = answers id (rw (eq_refl id) refl) in
    elim (Option-cases (query_video home id m)) [
      | inr (w, there) ↦ (skip, rw (there, fetch_loop) skips)
      | inl gone ↦ elim (Bool-cases (seen id to_add)) [
        | inl again ↦ (skip, rw (gone, again, fetch_loop) skips)
        | inr fresh ↦ (v ∷ rest, rw (gone, fresh, fetch_loop) (rw (came, rests) refl))
      ]
    ]

pub store_videos_lem :
    (hc : HomeConn) (m m' : HomeManager) (vs : List Video) (other j : String)
    → store_videos hc m (some vs) ≡ some m'
    → query_video other j m' ≡ (
        if hc.home_id == other
        then or_else (last_with j vs) (query_video other j m)
        else query_video other j m)
store_videos_lem hc m m' [] other j h = let same : m ≡ m' = cc in rw (← same) (ground arith)
store_videos_lem hc m m' (v ∷ vs) other j h =
    let same : sync_home_videos hc.home_id (v ∷ vs) [] m ≡ m' = cc in
    rw (← same) (rw query_video-sync_home_videos (ground (arith, eq_iff hc.home_id other)))

-- After a sync that did not panic, with a home that answers honestly, the home has the videos that
-- it had, unchanged, and beside them, under each listed identifier that it did not have, the video
-- with which it answered the request, if it did. The other homes' videos are as before.
pub sync_videos-added :
    (asks : String → Result Video) (hc : HomeConn) (ids : List String) (m m' : HomeManager)
    (other j : String)
    → IsHonest asks
    → sync_videos asks hc ids m ≡ some m'
    → query_video other j m' ≡ (
        if hc.home_id == other
        then or_else (added asks m hc.home_id ids [] j) (query_video other j m)
        else query_video other j m)
unfolding sync_videos
sync_videos-added asks hc ids m m' other j honest h =
    elim (Option-cases (fetch_loop asks m hc.home_id ids [])) [
      | inl crashed ↦ absurd (ground (arith, crashed))
      | inr (vs, done) ↦
          rw (← fetch_loop_lem asks m hc.home_id j ids [] vs (λ i v _. honest i v) done)
            (store_videos_lem hc m m' vs other j (rw done at h))
    ]
