-- ===== src/Cloud/Server/Serving.antt =====
-- internal/cloud/server.go and internal/cloud/auth.go: every request is one step.
use famfun.Prelude.{
  ◌≡◌, refl, subst, sym, String, Option, none, some, true, Result, ok, err, panic, Bool-cases, inl,
  inr,
}
use famfun.Cloud.Access.{member_or_admin}
use famfun.Cloud.Tokens.{Session, Cookie, Auth, auth_middleware, create_token}
use famfun.Cloud.Users.{User, get_user_by_username}
use famfun.Cloud.Server.{World, CloudServer, Request, Handler}
use famfun.Cloud.Server.Videos.{
  list_videos, handle_cache_stats, handle_play_video, handle_get_comments, handle_upload_video,
  UploadForm, handle_add_comment, handle_update_video_info,
}
use famfun.Cloud.Server.Accounts.{
  Credentials, handle_login, handle_logout, handle_current_user, user_found, token_made,
}
use famfun.Cloud.Server.Homes.{
  handle_list_homes, handle_home_status, handle_scan_home, handle_static_files,
}
use famfun.Cloud.Server.Routes.{
  ApiRoute, Route, for_admin, for_member, handle_get_avatar, serve_admin, serve_api, serve,
}
use famfun.Cloud.Server.Gates.{for_admin-gate, for_member-gate, with_access-gate, behind_auth-gate}
use famfun.Cloud.Server.Steps.{
  ApiStep, Step, Administered, get_thumbnail-ApiStep, stream_resource-ApiStep, add_comment-ApiStep,
  update_video_info-Administered,
}
use famfun.Cloud.Server.Administering.{admin-Administered}

module _ (s : CloudServer) (w : World) where
  token_made-Step :
      (a : Auth) (q : Request) (req : Credentials) (user : User) (r : Result String)
      → get_user_by_username req.username w.store.users ≡ ok user
      → s.bcrypt.matches user.password_hash req.password ≡ true
      → Step s q a w (token_made s q user w r).1
  token_made-Step a q req user (ok token) found right =
      Step.logs_in req.username req.password user found right
  token_made-Step a q req user (err e) found right = Step.idles
  token_made-Step a q req user panic found right = Step.idles

  user_found-Step :
      (a : Auth) (q : Request) (req : Credentials) (r : Result User)
      → get_user_by_username req.username w.store.users ≡ r
      → Step s q a w (user_found s q req w r).1
  user_found-Step a q req (err e) found = Step.idles
  user_found-Step a q req panic found = Step.idles
  user_found-Step a q req (ok user) found =
      elim (Bool-cases (s.bcrypt.matches user.password_hash req.password)) [
        | inl right ↦
            rw (right, user_found)
              (token_made-Step a q req user (create_token s.jwt s.jwt_key q.clock user) found right)
        | inr wrong ↦ rw (wrong, user_found) Step.idles
      ]

  login-Step :
      (a : Auth) (q : Request) (req : Option Credentials) → Step s q a w (handle_login s q req w).1
  unfolding handle_login
  login-Step a q none = Step.idles
  login-Step a q (some req) =
      user_found-Step a q req (get_user_by_username req.username w.store.users) refl

  upload-ApiStep :
      (session : Session) (q : Request) (form : Option UploadForm)
      → ApiStep s q session w (handle_upload_video s q form w).1
  unfolding handle_upload_video
  upload-ApiStep session q none = ApiStep.stays
  upload-ApiStep session q (some form) = ApiStep.stays

  play-ApiStep :
      (session : Session) (q : Request) (id : String)
      → ApiStep s q session w (handle_play_video s session id w).1
  unfolding handle_play_video
  play-ApiStep session q id =
      with_access-gate s (ApiStep s q session w) session id _ w ApiStep.stays (ApiStep.plays id)

  -- A handler behind adminOnly.
  for_admin-Step :
      (session : Session) (c : Option Cookie) (a : Auth) (q : Request) (h : Handler s)
      → a ≡ Auth.passed session c
      → Administered s w session (h w).1
      → Step s q a w (for_admin s session h w).1
  for_admin-Step session c a q h passed step =
      for_admin-gate s (Step s q a w) session h w Step.idles (λ admin. elim step [
        | inl same ↦ subst (Step s q a w) (sym same) Step.idles
        | inr step ↦ Step.administers session c passed admin step
      ])

  for_member-Step :
      (session : Session) (c : Option Cookie) (a : Auth) (q : Request) (h : Handler s)
      → a ≡ Auth.passed session c
      → (member_or_admin session.role ≡ true → ApiStep s q session w (h w).1)
      → Step s q a w (for_member s session h w).1
  for_member-Step session c a q h passed step =
      for_member-gate s (Step s q a w) session h w Step.idles
        (λ member. Step.acts session c passed (step member))

  api-Step :
      (session : Session) (c : Option Cookie) (a : Auth) (q : Request) (r : ApiRoute)
      → a ≡ Auth.passed session c
      → Step s q a w (serve_api s session q r w).1
  unfolding serve_api list_videos handle_cache_stats handle_get_comments handle_list_homes
      handle_home_status handle_scan_home handle_current_user
  api-Step session c a q (ApiRoute.videos offset limit) p = Step.idles
  api-Step session c a q (ApiRoute.thumbnail home_id id) p =
      Step.acts session c p (get_thumbnail-ApiStep s w session q home_id id)
  api-Step session c a q (ApiRoute.stream home_id id resource) p =
      Step.acts session c p (stream_resource-ApiStep s w session q home_id id resource)
  api-Step session c a q ApiRoute.cache_stats p = Step.idles
  api-Step session c a q (ApiRoute.play id) p = Step.acts session c p (play-ApiStep session q id)
  api-Step session c a q (ApiRoute.get_comments id) p = Step.idles
  api-Step session c a q (ApiRoute.post_comment id req) p =
      for_member-Step session c a q (handle_add_comment s session q id req) p
        (add_comment-ApiStep s w session q id req)
  api-Step session c a q ApiRoute.me p = Step.idles
  api-Step session c a q (ApiRoute.put_info id req) p =
      for_admin-Step session c a q (handle_update_video_info s q id req) p
        (update_video_info-Administered s w session q id req)
  api-Step session c a q (ApiRoute.upload form) p =
      for_member-Step session c a q (handle_upload_video s q form) p
        (λ _. upload-ApiStep session q form)
  api-Step session c a q ApiRoute.homes p =
      for_member-Step session c a q (handle_list_homes s) p (λ _. ApiStep.stays)
  api-Step session c a q ApiRoute.home_status p = Step.idles
  api-Step session c a q (ApiRoute.scan home_id) p =
      for_admin-Step session c a q (handle_scan_home s q home_id) p (inl refl)
  api-Step session c a q (ApiRoute.admin r) p =
      for_admin-Step session c a q (serve_admin s session q r) p
        (admin-Administered s w session q r)

  -- Whatever a request is, what it does to the world is one step, and the step is one that its sender
  -- may take. Without a valid token nothing but the time of a login with the right password changes.
  -- With a session, the cache may be asked for a segment or thumbnail, and get what a home gives for
  -- it, under its key, and a play may be counted, each only for a video that passes the access check of
  -- the session's role; a comment needs a member or an admin, and bears the account of the session and
  -- the time of the request. Only a token of an admin changes anything else of accounts, keys or the
  -- information of videos.
  pub serve-Step :
      (q : Request) (r : Route)
      → Step s q (auth_middleware s.jwt s.jwt_key q.clock q.cookie) w (serve s q r w).1
  unfolding serve handle_logout handle_get_avatar handle_static_files
  serve-Step q (Route.login req) = login-Step _ q req
  serve-Step q Route.logout = Step.idles
  serve-Step q (Route.avatar username) = Step.idles
  serve-Step q (Route.static path) = Step.idles
  serve-Step q (Route.api r) =
      let a = auth_middleware s.jwt s.jwt_key q.clock q.cookie in
      behind_auth-gate s (Step s q a w) a (λ session. serve_api s session q r) w Step.idles
        (λ session c p. api-Step session c a q r p)
