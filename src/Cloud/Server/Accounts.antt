-- ===== src/Cloud/Server/Accounts.antt =====
-- internal/cloud/auth.go and internal/cloud/server.go: login, logout, and the handlers of the accounts.
use famfun.Prelude.{
  String, Option, none, some, true, false, ◌||◌, ◌==◌, Result, ok, err, panic, if◌then◌else◌,
}
use famfun.Cloud.Tokens.{Session, create_token, set_auth_cookie, clear_auth_cookie}
use famfun.Cloud.Users.{
  User, UserTable, get_user_by_username, update_login_at, create_user, list_users, delete_user,
  update_user_role, update_user_password,
}
use famfun.Cloud.Server.{
  World, CloudServer, Request, Body, Response, Handler, respond, recovered, answer,
}

-- The bodies of the requests.
pub record Credentials : Type 0 where
  pub username : String
  pub password : String

pub record NewAccount : Type 0 where
  pub username : String
  pub password : String
  pub role : String

abbrev pub with_users : World → UserTable → World
with_users w users = record w { store = record w.store { users = users } }

module _ (s : CloudServer) where
  abbrev pub denied : World → Response s.Float × World
  denied w = (respond 401 (Body.failure "invalid username or password"), w)

  abbrev pub token_made : Request → User → World → Result String → Response s.Float × World
  token_made q user w (ok token) = (
    record {
      status = 200;
      body = Body.logged_in user.username user.role;
      cookie = some (set_auth_cookie token);
    },
    with_users w (update_login_at q.now user.id w.store.users),
  )
  token_made q user w (err e) = (respond 500 (Body.failure "failed to create token"), w)
  token_made q user w panic = (recovered, w)

  abbrev pub user_found : Request → Credentials → World → Result User → Response s.Float × World
  user_found q req w (err e) = denied w
  user_found q req w panic = (recovered, w)
  user_found q req w (ok user) = elim (s.bcrypt.matches user.password_hash req.password) [
    | false ↦ denied w
    | true ↦ token_made q user w (create_token s.jwt s.jwt_key q.clock user)
  ]

  -- `none` is a body that does not parse, here and below.
  unfoldable pub handle_login : Request → Option Credentials → Handler s
  handle_login q none w = (respond 400 (Body.failure "invalid request"), w)
  handle_login q (some req) w = user_found q req w (get_user_by_username req.username w.store.users)

  unfoldable pub handle_logout : Handler s
  handle_logout w = (
    record { status = 200; body = Body.message "logged out"; cookie = some clear_auth_cookie },
    w,
  )

  unfoldable pub handle_current_user : Session → Handler s
  handle_current_user session w = (respond 200 (Body.current_user session), w)

  abbrev pub created : World → Result User × UserTable → Response s.Float × World
  created w (r, users) = (
    answer 409 (λ u. respond 201 (Body.created_user u.id u.username u.role)) r,
    with_users w users,
  )

  unfoldable pub handle_create_user : Request → Option NewAccount → Handler s
  handle_create_user q none w = (respond 400 (Body.failure "username and password are required"), w)
  handle_create_user q (some req) w =
      if req.username == "" || req.password == ""
      then (respond 400 (Body.failure "username and password are required"), w)
      else created w
          (create_user s.bcrypt q.uuid q.now req.username req.password req.role w.store.users)

  unfoldable pub handle_list_users : Handler s
  handle_list_users w = (respond 200 (Body.users (list_users w.store.users)), w)

  unfoldable pub handle_delete_user : Session → String → Handler s
  handle_delete_user session user_id w =
      if user_id == session.user_id
      then (respond 400 (Body.failure "cannot delete yourself"), w)
      else (respond 200 Body.status_ok, with_users w (delete_user user_id w.store.users))

  abbrev pub changed : World → Result (Unit {0}) × UserTable → Response s.Float × World
  changed w (r, users) = (answer 400 (λ _. respond 200 Body.status_ok) r, with_users w users)

  unfoldable pub handle_update_user_role : String → Option String → Handler s
  handle_update_user_role user_id none w = (respond 400 (Body.failure "role is required"), w)
  handle_update_user_role user_id (some role) w =
      if role == ""
      then (respond 400 (Body.failure "role is required"), w)
      else changed w (update_user_role user_id role w.store.users)

  abbrev pub password_changed : World → Result (Unit {0}) × UserTable → Response s.Float × World
  password_changed w (r, users) =
      (answer 500 (λ _. respond 200 Body.status_ok) r, with_users w users)

  unfoldable pub handle_update_user_password : String → Option String → Handler s
  handle_update_user_password user_id none w =
      (respond 400 (Body.failure "password is required"), w)
  handle_update_user_password user_id (some password) w =
      if password == ""
      then (respond 400 (Body.failure "password is required"), w)
      else password_changed w (update_user_password s.bcrypt user_id password w.store.users)
