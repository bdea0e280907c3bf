-- ===== src/Cloud/Server/Hidden.antt =====
-- internal/cloud/server.go: videos that a role may not see.
use famfun.Prelude.{
  ℕ, zero, suc, ◌≡◌, refl, String, List, [], ◌∷◌, map, take, drop, filter, some, Bool, true, false,
  All, Bool-cases, Option-cases, inl, inr, ap, sym, ◌∙◌, arith, ◌==◌,
}
use famfun.Prelude.Dict.{Dict, lookup, values}
use famfun.Model.{Video}
use famfun.Cloud.Access.{
  ℤ, can_access, check_video_access, handle_list_videos, clamp_offset, clamp_limit,
}
use famfun.Cloud.Access.Listing.{visible, handle_list_videos-page}
use famfun.Cloud.HomeManager.{HomeManager, find_in, find_video_by_id, query_video}
use famfun.Cloud.Stats.{VideoStats, get_video_stats}
use famfun.Cloud.Tokens.{Session}
use famfun.Cloud.Server.{World, CloudServer, Request, VideoJson, Body, Response, Handler, respond}
use famfun.Cloud.Server.Videos.{
  with_access, with_stats, video_to_json, video_id_of, list_videos, handle_get_thumbnail,
  handle_stream_resource, handle_play_video,
}
use famfun.Cloud.Server.Routes.{ApiRoute, serve_api}

abbrev pub Seen : String → Video → Type 0
Seen role v = can_access role v.visibility ≡ true

filter-Seen :
    (role : String) (vs : List Video)
    → All (Seen role) (filter (λ v. can_access role v.visibility) vs)
filter-Seen role [] = tt
filter-Seen role (v ∷ vs) = elim (Bool-cases (can_access role v.visibility)) [
  | inl seen ↦ rw seen (seen, filter-Seen role vs)
  | inr hidden ↦ rw hidden (filter-Seen role vs)
]

All-drop :
    (role : String) (n : ℕ) (vs : List Video) → All (Seen role) vs → All (Seen role) (drop n vs)
All-drop role zero vs a = a
All-drop role (suc n) [] a = tt
All-drop role (suc n) (v ∷ vs) (_, a) = All-drop role n vs a

All-take :
    (role : String) (n : ℕ) (vs : List Video) → All (Seen role) vs → All (Seen role) (take n vs)
All-take role zero vs a = tt
All-take role (suc n) [] a = tt
All-take role (suc n) (v ∷ vs) (seen, a) = (seen, All-take role n vs a)

with_stats-visibility :
    (st : Dict VideoStats) (v : Video) → (with_stats st v).visibility ≡ v.visibility
unfolding video_to_json
with_stats-visibility st v = elim (Option-cases (lookup v.id st)) [
  | inl e ↦ rw (e, with_stats) refl
  | inr (vs, e) ↦ rw (e, with_stats) refl
]

All-with_stats :
    (role : String) (st : Dict VideoStats) (vs : List Video)
    → All (Seen role) vs
    → All (λ j. can_access role j.visibility ≡ true) (map (with_stats st) vs)
All-with_stats role st [] a = tt
All-with_stats role st (v ∷ vs) (seen, a) =
    (rw (with_stats-visibility st v) seen, All-with_stats role st vs a)

with_access_hidden :
    (s : CloudServer) (session : Session) (id : String) (h : Handler s) (w : World) (v : Video)
    → find_video_by_id id w.registry ≡ some v
    → can_access session.role v.visibility ≡ false
    → with_access s session id h w ≡ (respond 403 (Body.failure "access denied"), w)
unfolding with_access check_video_access
with_access_hidden s session id h w v here hidden =
    let no : check_video_access session.role id w.registry ≡ false =
      rw (here, check_video_access) hidden in
    rw (no, with_access) refl

-- Every video of an identifier, of whichever home, is one that a role may not see.
abbrev pub AllHidden : String → String → List (Dict Video) → Type 0
AllHidden role id =
    All (λ vids. (v : Video) → lookup id vids ≡ some v → can_access role v.visibility ≡ false)

find_in-hidden :
    (role id : String) (homes : List (Dict Video)) (w : Video)
    → AllHidden role id homes
    → find_in id homes ≡ some w
    → can_access role w.visibility ≡ false
unfolding find_in
find_in-hidden role id [] w hidden h = absurd cc
find_in-hidden role id (vids ∷ homes) w (here, later) h = elim (Option-cases (lookup id vids)) [
  | inl gone ↦ find_in-hidden role id homes w later (rw (gone, find_in) at h)
  | inr (v, there) ↦
      let same : v ≡ w = ground (arith, there, h) in
      ap (λ x. can_access role x.visibility) (sym same) ∙ here v there
]

find_in-some :
    (home id : String) (d : Dict (Dict Video)) (vids : Dict Video) (v : Video)
    → lookup home d ≡ some vids
    → lookup id vids ≡ some v
    → (w : Video) × (find_in id (values d) ≡ some w)
unfolding find_in lookup
find_in-some home id [] vids v h there = absurd cc
find_in-some home id ((key, first) ∷ d) vids v h there = elim (Option-cases (lookup id first)) [
  | inr (w, found) ↦ (w, rw (found, find_in) refl)
  | inl gone ↦ elim (Bool-cases (key == home)) [
    | inl here ↦
        let same : first ≡ vids = ground (arith, h, here) in
        absurd (ground (arith, gone, there, same))
    | inr other ↦
        let (w, found) = find_in-some home id d vids v (ground (arith, h, other)) there in
        (w, rw (gone, find_in) found)
  ]
]

-- A video that a home has announced and that stands under its identifier is found; where all are hidden
-- so is the one that is found.
found_hidden :
    (role home id : String) (m : HomeManager) (v : Video)
    → query_video home id m ≡ some v
    → AllHidden role id (values m.videos)
    → (w : Video) × (find_video_by_id id m ≡ some w) × (can_access role w.visibility ≡ false)
unfolding find_video_by_id query_video
found_hidden role home id m v known hidden = elim (Option-cases (lookup home m.videos)) [
  | inl gone ↦ absurd (ground (arith, known, gone))
  | inr (vids, here) ↦
      let there : lookup id vids ≡ some v = ground (arith, known, here) in
      let (w, found) = find_in-some home id m.videos vids v here there in
      (w, found, find_in-hidden role id (values m.videos) w hidden found)
]

-- Under an identifier that some home has announced, and of which the role may see no home's video, the
-- thumbnail, every resource of a stream and a play are answered with 403, whichever home is named, and
-- nothing changes; and every video of a page that the role gets is one that it may see. Nothing is said
-- of an identifier that no home has, and of one that homes share with different visibilities.
pub serve_api_hidden :
    (s : CloudServer) (session : Session) (q : Request) (w : World) (v : Video)
    (id home asked resource : String) (offset limit : ℤ)
    → query_video home id w.registry ≡ some v
    → AllHidden session.role id (values w.registry.videos)
    → let denied : Response s.Float × World = (respond 403 (Body.failure "access denied"), w) in
      (serve_api s session q (ApiRoute.thumbnail asked id) w ≡ denied)
      × (serve_api s session q (ApiRoute.stream asked id resource) w ≡ denied)
      × (serve_api s session q (ApiRoute.play id) w ≡ denied)
      × (page : List VideoJson) × (total : ℕ) × (more : Bool) × (serve_api s session q
            (ApiRoute.videos offset limit)
            w
          ≡ (respond 200 (Body.video_page page total more), w))
      × All (λ j. can_access session.role j.visibility ≡ true) page
unfolding serve_api handle_get_thumbnail handle_stream_resource handle_play_video list_videos
serve_api_hidden s session q w v id home asked resource offset limit known all_hidden =
    let (found, here, hidden) = found_hidden session.role home id w.registry v known all_hidden in
    let page = handle_list_videos session.role offset limit w.registry in
    let st = get_video_stats (map video_id_of page.videos) w.store.stats in
    (
      with_access_hidden s session id _ w found here hidden,
      with_access_hidden s session id _ w found here hidden,
      with_access_hidden s session id _ w found here hidden,
      map (with_stats st) page.videos,
      page.total,
      page.has_more,
      refl,
      All-with_stats session.role st page.videos (
          rw (handle_list_videos-page session.role offset limit w.registry).1 (
            All-take session.role (clamp_limit limit) _ (
              All-drop session.role (clamp_offset offset) (visible session.role w.registry)
                (filter-Seen session.role w.registry.sorted)))),
    )
