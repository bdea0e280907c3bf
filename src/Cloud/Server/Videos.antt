-- ===== src/Cloud/Server/Videos.antt =====
-- internal/cloud/server.go: the handlers of the videos, their streams, statistics and comments.
use famfun.Prelude.{
  String, List, [], ◌∷◌, map, Option, none, some, Bool, true, false, not, ◌==◌, ◌||◌, Result, ok,
  err, panic, if◌then◌else◌,
}
use famfun.Prelude.Dict.{Dict, lookup}
use famfun.Prelude.Text.{◌⧺◌}
use famfun.Home.FilePath.{ext}
use famfun.Model.{Video, Int64}
use famfun.Protocol.Message.{Bytes}
use famfun.Cloud.Access.{ℤ, handle_list_videos, check_video_access}
use famfun.Cloud.Cache.{LruCache, stats}
use famfun.Cloud.Comments.{add_comment, get_comments}
use famfun.Cloud.DataRequest.{ReadEnd}
use famfun.Cloud.HomeManager.{find_video_by_id}
use famfun.Cloud.HomeManager
use famfun.Cloud.Stats.{VideoStats, get_video_stats, increment_play_count, increment_comment_count}
use famfun.Cloud.StreamProxy
use famfun.Cloud.Tokens.{Session}
use famfun.Cloud.Users.{UserTable}
use famfun.Cloud.Server.{
  World, CloudServer, Request, VideoJson, Body, Response, Handler, respond, recovered, answer,
}

unfoldable pub video_to_json : Video → VideoJson
video_to_json v = record {
  id = v.id;
  filename = v.filename;
  title = v.title;
  description = v.description;
  duration = v.duration;
  filesize = v.filesize;
  resolution = v.resolution;
  created_at = v.created_at;
  home_server_id = v.home_server_id;
  thumbnail_url = "/api/thumbnail/" ⧺ (v.home_server_id ⧺ ("/" ⧺ v.id));
  play_count = 0;
  comment_count = 0;
  visibility = v.visibility;
}

-- One round of the loop over the page.
abbrev pub with_stats : Dict VideoStats → Video → VideoJson
with_stats page_stats v = elim (lookup v.id page_stats) [
  | none ↦ video_to_json v
  | some vs ↦ record (video_to_json v) {
    play_count = vs.play_count;
    comment_count = vs.comment_count;
  }
]

abbrev pub video_id_of : Video → String
video_id_of v = v.id

-- What a request to update a video, to add a comment and to upload brings.
pub record VideoUpdate : Type 0 where
  pub title : String
  pub description : String
  pub visibility : String

pub record NewComment : Type 0 where
  pub content : String
  pub parent_id : Option ℤ

pub record UploadForm : Type 0 where
  pub filename : String
  pub size : Int64
  pub reads : List (Bytes × ReadEnd)
  pub home_server_id : String
  pub sha256 : String
  pub title : String
  pub description : String

-- The names of the users by their identifiers, for the join with the comments.
abbrev pub names_of : UserTable → Dict String
names_of us = map (λ u. (u.id, u.username)) us

unfoldable pub segment_content_type : (String → String → Bool) → String → String
segment_content_type has_suffix name =
    if has_suffix name ".mp4" || has_suffix name ".m4s" then "video/mp4" else "video/mp2t"

unfoldable pub allowed_upload_extensions : List String
allowed_upload_extensions = ".mp4" ∷ ".mkv" ∷ ".avi" ∷ ".mov" ∷ ".webm" ∷ []

abbrev pub is_allowed : String → List String → Bool
is_allowed e [] = false
is_allowed e (x ∷ xs) = x == e || is_allowed e xs

module _ (s : CloudServer) where
  -- `handleListVideos`: the page, with the statistics of its videos. The two numbers are those that
  -- strconv.Atoi read.
  unfoldable pub list_videos : Session → ℤ → ℤ → Handler s
  list_videos session offset limit w =
      let page = handle_list_videos session.role offset limit w.registry in
      let page_stats = get_video_stats (map video_id_of page.videos) w.store.stats in
      (
        respond 200
            (Body.video_page (map (with_stats page_stats) page.videos) page.total page.has_more),
        w,
      )

  -- `if !s.checkVideoAccess(c, videoID) { return }`
  unfoldable pub with_access : Session → String → Handler s → Handler s
  with_access session video_id handler w =
      elim (check_video_access session.role video_id w.registry) [
        | true ↦ handler w
        | false ↦ (respond 403 (Body.failure "access denied"), w)
      ]

  -- What was fetched through the cache, under a content type.
  abbrev pub served : String → World → Result Bytes × LruCache → Response s.Float × World
  served content_type w (r, cache) =
      (answer 502 (λ b. respond 200 (Body.data_of content_type b)) r, record w { cache = cache })

  unfoldable pub handle_get_thumbnail : Session → Request → String → String → Handler s
  handle_get_thumbnail session q home_id video_id = with_access session video_id (λ w.
      served "image/png" w (StreamProxy.get_thumbnail q.wire w.registry home_id video_id w.cache))

  unfoldable pub serve_playlist : Request → String → String → Handler s
  serve_playlist q home_id video_id w = (
    answer 502 (λ b. respond 200 (Body.data_of "application/vnd.apple.mpegurl" b))
        (StreamProxy.get_playlist q.wire w.registry home_id video_id),
    w,
  )

  unfoldable pub serve_segment : Request → String → String → String → Handler s
  serve_segment q home_id video_id segment_name w =
      served (segment_content_type s.has_suffix segment_name) w
        (StreamProxy.get_segment q.wire w.registry home_id video_id segment_name w.cache)

  unfoldable pub handle_stream_resource : Session → Request → String → String → String → Handler s
  handle_stream_resource session q home_id video_id resource = with_access session video_id (
      if resource == "index.m3u8"
      then serve_playlist q home_id video_id
      else serve_segment q home_id video_id resource)

  unfoldable pub handle_cache_stats : Handler s
  handle_cache_stats w = (respond 200 (Body.cache_stats (stats s.zero_rate s.ratio w.cache)), w)

  unfoldable pub handle_play_video : Session → String → Handler s
  handle_play_video session video_id = with_access session video_id (λ w. (
    respond 200 Body.status_ok,
    record w { store = record w.store { stats = increment_play_count video_id w.store.stats } },
  ))

  unfoldable pub handle_get_comments : String → Handler s
  handle_get_comments video_id w = (
    respond 200 (Body.comments (get_comments (names_of w.store.users) video_id w.store.comments)),
    w,
  )

  -- `none` is a body that does not parse, here and below.
  unfoldable pub handle_add_comment : Session → Request → String → Option NewComment → Handler s
  handle_add_comment session q video_id none w =
      (respond 400 (Body.failure "content is required"), w)
  handle_add_comment session q video_id (some req) w =
      if req.content == ""
      then (respond 400 (Body.failure "content is required"), w)
      else (let (comment, table) =
            add_comment q.now video_id session.user_id req.content req.parent_id w.store.comments in
          (
            respond 201 (Body.comment (record comment { username = session.username })),
            record w {
              store = record w.store {
                comments = table;
                stats = increment_comment_count video_id w.store.stats;
              };
            },
          ))

  -- The home is asked first; the registry follows only where it agreed.
  abbrev pub updated :
      Video → VideoUpdate → String → World → Result Video → Response s.Float × World
  updated found req video_id w (ok v) = (
    respond 200 (Body.video (video_to_json v)),
    record w {
      registry =
          (HomeManager.update_video_info found.home_server_id video_id req.title req.description
            req.visibility w.registry).1;
    },
  )
  updated found req video_id w (err e) = (respond 502 (Body.failure_of e), w)
  updated found req video_id w panic = (recovered, w)

  abbrev pub update_found :
      Request → String → VideoUpdate → World → Option Video → Response s.Float × World
  update_found q video_id req w none = (respond 404 (Body.failure "video not found"), w)
  update_found q video_id req w (some found) = updated found req video_id w (
      StreamProxy.update_video_info q.wire w.registry found.home_server_id video_id req.title
        req.description req.visibility)

  unfoldable pub handle_update_video_info : Request → String → Option VideoUpdate → Handler s
  handle_update_video_info q video_id none w = (respond 400 (Body.failure "title is required"), w)
  handle_update_video_info q video_id (some req) w =
      if req.title == ""
      then (respond 400 (Body.failure "title is required"), w)
      else update_found q video_id req w (find_video_by_id video_id w.registry)

  -- `none` is a form without a file.
  unfoldable pub handle_upload_video : Request → Option UploadForm → Handler s
  handle_upload_video q none w = (respond 400 (Body.failure "file is required"), w)
  handle_upload_video q (some form) w =
      let e = s.to_lower (ext form.filename) in
      (
        if not (is_allowed e allowed_upload_extensions)
            then respond 400 (Body.failure ("unsupported file type: " ⧺ e))
            else if form.home_server_id == ""
            then respond 400 (Body.failure "home_server_id is required")
            else if form.sha256 == ""
            then respond 400 (Body.failure "sha256 is required")
            else answer 502 (λ id. respond 200 (Body.video_id id))
                (StreamProxy.upload_video q.wire w.registry form.home_server_id form.filename
                  form.title form.description form.size form.sha256 form.reads),
        w,
      )
