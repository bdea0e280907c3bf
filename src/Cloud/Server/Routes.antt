-- ===== src/Cloud/Server/Routes.antt =====
-- internal/cloud/server.go and internal/cloud/auth.go: setupRoutes, with the middlewares that stand
-- before each handler.
use famfun.Prelude.{String, List, [], ◌∷◌, Option, none, some, true, false}
use famfun.Cloud.Access.{ℤ, admin_only, member_or_admin}
use famfun.Cloud.Avatar.{generate_avatar}
use famfun.Cloud.Tokens.{Session, Cookie, Auth, auth_middleware}
use famfun.Cloud.Server.{World, CloudServer, Request, Body, Response, Handler, respond, recovered}
use famfun.Cloud.Server.Videos.{
  VideoUpdate, NewComment, UploadForm, list_videos, handle_get_thumbnail, handle_stream_resource,
  handle_cache_stats, handle_play_video, handle_get_comments, handle_add_comment,
  handle_update_video_info, handle_upload_video,
}
use famfun.Cloud.Server.Accounts.{
  Credentials, NewAccount, handle_login, handle_logout, handle_current_user, handle_create_user,
  handle_list_users, handle_delete_user, handle_update_user_role, handle_update_user_password,
}
use famfun.Cloud.Server.Homes.{
  handle_list_homes, handle_home_status, handle_scan_home, handle_list_managed_homes,
  handle_upsert_home_public_key, handle_delete_managed_home, handle_static_files,
}

-- The routes of the group /api/admin, with what the path and the body bring.
pub data AdminRoute : Type 0 where
  create_user : Option NewAccount → AdminRoute
  list_users : AdminRoute
  list_home_keys : AdminRoute
  put_home_key : String → Option String → AdminRoute
  delete_home : String → AdminRoute
  delete_user : String → AdminRoute
  put_role : String → Option String → AdminRoute
  put_password : String → Option String → AdminRoute

-- The routes of the group /api.
pub data ApiRoute : Type 0 where
  videos : ℤ → ℤ → ApiRoute
  thumbnail : String → String → ApiRoute
  stream : String → String → String → ApiRoute
  cache_stats : ApiRoute
  play : String → ApiRoute
  get_comments : String → ApiRoute
  post_comment : String → Option NewComment → ApiRoute
  me : ApiRoute
  put_info : String → Option VideoUpdate → ApiRoute
  upload : Option UploadForm → ApiRoute
  homes : ApiRoute
  home_status : ApiRoute
  scan : String → ApiRoute
  admin : AdminRoute → ApiRoute

pub data Route : Type 0 where
  login : Option Credentials → Route
  logout : Route
  avatar : String → Route
  api : ApiRoute → Route
  static : String → Route

abbrev pub with_cookie : {F : Type 0} {W : Type 0} → Option Cookie → Response F × W → Response F × W
with_cookie none r = r
with_cookie (some c) (r, w) = (record r { cookie = some c }, w)

module _ (s : CloudServer) where
  -- s.adminOnly() and s.memberOrAdmin() before a handler.
  abbrev pub for_admin : Session → Handler s → Handler s
  for_admin session handler w = elim (admin_only session.role) [
    | true ↦ handler w
    | false ↦ (respond 403 (Body.failure "admin access required"), w)
  ]

  abbrev pub for_member : Session → Handler s → Handler s
  for_member session handler w = elim (member_or_admin session.role) [
    | true ↦ handler w
    | false ↦ (respond 403 (Body.failure "member access required"), w)
  ]

  unfoldable pub serve_admin : Session → Request → AdminRoute → Handler s
  serve_admin session q (AdminRoute.create_user req) = handle_create_user s q req
  serve_admin session q AdminRoute.list_users = handle_list_users s
  serve_admin session q AdminRoute.list_home_keys = handle_list_managed_homes s
  serve_admin session q (AdminRoute.put_home_key home_id req) =
      handle_upsert_home_public_key s q home_id req
  serve_admin session q (AdminRoute.delete_home home_id) = handle_delete_managed_home s home_id
  serve_admin session q (AdminRoute.delete_user user_id) = handle_delete_user s session user_id
  serve_admin session q (AdminRoute.put_role user_id req) = handle_update_user_role s user_id req
  serve_admin session q (AdminRoute.put_password user_id req) =
      handle_update_user_password s user_id req

  unfoldable pub serve_api : Session → Request → ApiRoute → Handler s
  serve_api session q (ApiRoute.videos offset limit) = list_videos s session offset limit
  serve_api session q (ApiRoute.thumbnail home_id video_id) =
      handle_get_thumbnail s session q home_id video_id
  serve_api session q (ApiRoute.stream home_id video_id resource) =
      handle_stream_resource s session q home_id video_id resource
  serve_api session q ApiRoute.cache_stats = handle_cache_stats s
  serve_api session q (ApiRoute.play video_id) = handle_play_video s session video_id
  serve_api session q (ApiRoute.get_comments video_id) = handle_get_comments s video_id
  serve_api session q (ApiRoute.post_comment video_id req) =
      for_member session (handle_add_comment s session q video_id req)
  serve_api session q ApiRoute.me = handle_current_user s session
  serve_api session q (ApiRoute.put_info video_id req) =
      for_admin session (handle_update_video_info s q video_id req)
  serve_api session q (ApiRoute.upload form) = for_member session (handle_upload_video s q form)
  serve_api session q ApiRoute.homes = for_member session (handle_list_homes s)
  serve_api session q ApiRoute.home_status = handle_home_status s
  serve_api session q (ApiRoute.scan home_id) = for_admin session (handle_scan_home s q home_id)
  serve_api session q (ApiRoute.admin r) = for_admin session (serve_admin session q r)

  unfoldable pub handle_get_avatar : String → Handler s
  handle_get_avatar username w = (
    respond 200 (Body.data_of "image/svg+xml" (s.bytes_of (generate_avatar s.drawing username))),
    w,
  )

  -- The group /api behind authMiddleware; a handler sets no cookie itself.
  abbrev pub behind_auth : Auth → (Session → Handler s) → Handler s
  behind_auth (Auth.refused m) handler w = (respond 401 (Body.failure m), w)
  behind_auth Auth.crashed handler w = (recovered, w)
  behind_auth (Auth.passed session c) handler w = with_cookie c (handler session w)

  unfoldable pub serve : Request → Route → Handler s
  serve q (Route.login req) = handle_login s q req
  serve q Route.logout = handle_logout s
  serve q (Route.avatar username) = handle_get_avatar username
  serve q (Route.static path) = handle_static_files s path
  serve q (Route.api r) =
      behind_auth (auth_middleware s.jwt s.jwt_key q.clock q.cookie)
        (λ session. serve_api session q r)

  -- Requests one after the other, each at what the one before left.
  unfoldable pub serve_all : List (Request × Route) → World → World
  serve_all [] w = w
  serve_all ((q, r) ∷ rest) w = serve_all rest (serve q r w).1
