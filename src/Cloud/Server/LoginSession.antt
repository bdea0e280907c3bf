-- ===== src/Cloud/Server/LoginSession.antt =====
-- internal/cloud/auth.go: from a login to the requests that it lets pass.
use famfun.Prelude.{arith, ◌∙◌, ◌+◌, ◌≤◌, ◌≡◌, refl, String, Option, none, some, true, ok}
use famfun.Cloud.Tokens.{
  IsJwt, Signs, Cookie, create_token, set_auth_cookie, second, token_expiry, session_for, expiry_of,
  claims_of, renewal,
}
use famfun.Cloud.Tokens.Sessions.{fresh_token}
use famfun.Cloud.Users.{User, get_user_by_username}
use famfun.Cloud.Server.{World, CloudServer, Request, Response}
use famfun.Cloud.Server.Accounts.{Credentials, handle_login, user_found, token_made}
use famfun.Cloud.Server.Routes.{ApiRoute, Route, serve, serve_api, with_cookie}

-- What a browser sends back after a response.
abbrev pub sent_back : {F : Type 0} → Response F → Option String
sent_back r = elim r.cookie [ none ↦ none | some c ↦ some c.value ]

module _ (s : CloudServer) (law : IsJwt s.jwt) where
  login-cookie :
      (q : Request) (req : Credentials) (user : User) (w : World) (token : String)
      → get_user_by_username req.username w.store.users ≡ ok user
      → s.bcrypt.matches user.password_hash req.password ≡ true
      → create_token s.jwt s.jwt_key q.clock user ≡ ok token
      → ((serve s q (Route.login (some req)) w).0.status ≡ 200)
        × (sent_back (serve s q (Route.login (some req)) w).0 ≡ some token)
  unfolding serve handle_login set_auth_cookie
  login-cookie q req user w token found right signed =
      rw (found, user_found) (rw right (rw (signed, token_made) (refl, refl)))

  -- A login with the password of an account answers 200 with a token. Until 29 minutes and 59 seconds
  -- later every request with that token is served as the account was at the login, in whatever world:
  -- also in one where the account has another role, or is gone.
  pub login-serve_api :
      (q later : Request) (req : Credentials) (user : User) (w w' : World) (r : ApiRoute)
      → Signs s.jwt s.jwt_key user
      → get_user_by_username req.username w.store.users ≡ ok user
      → s.bcrypt.matches user.password_hash req.password ≡ true
      → later.cookie ≡ sent_back (serve s q (Route.login (some req)) w).0
      → later.clock + second ≤ q.clock + token_expiry
      → ((serve s q (Route.login (some req)) w).0.status ≡ 200)
        × ((c : Option Cookie) × (serve s later (Route.api r) w'
              ≡ with_cookie c (serve_api s (session_for user) later r w')))
  unfolding create_token serve
  login-serve_api q later req user w w' r signs found right held early =
      let claims = claims_of s.jwt q.clock user in
      let (token, signed) = signs q.clock in
      let (good, sent) = login-cookie q req user w token found right signed in
      let pass =
        fresh_token s.jwt law s.jwt_key q.clock user token later.clock signed
          (omega (arith, early, law.date_near (q.clock + token_expiry))) in
      (
        good,
        (
          renewal s.jwt s.jwt_key later.clock claims (expiry_of s.jwt q.clock),
          rw (held ∙ sent) (rw pass refl),
        ),
      )
