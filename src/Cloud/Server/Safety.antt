-- ===== src/Cloud/Server/Safety.antt =====
-- internal/cloud/server.go and internal/cloud/auth.go: what stays as it is unless an admin asks.
use famfun.Prelude.{◌≡◌, refl, ◌∙◌, String, List, [], ◌∷◌, map, Option, false, All, arith}
use famfun.Cloud.Access.{admin_only}
use famfun.Cloud.Tokens.{Session, Cookie, Auth, auth_middleware}
use famfun.Cloud.Users.{User, UserTable, update_where, update_login_at}
use famfun.Cloud.Server.{World, CloudServer, Request}
use famfun.Cloud.Server.Routes.{Route, serve, serve_all}
use famfun.Cloud.Server.Steps.{ApiStep, Step}
use famfun.Cloud.Server.Serving.{serve-Step}

-- The account without the time of its login.
abbrev pub timeless : User → User
timeless u = record u { login_at = "" }

-- The accounts but for the times of the logins, the keys of the homes, and the registry.
abbrev pub Same : World → World → Type 0
Same w w' =
    (map timeless w'.store.users ≡ map timeless w.store.users)
    × (w'.store.home_keys ≡ w.store.home_keys)
    × (w'.registry ≡ w.registry)

Same-trans : (w w' w'' : World) → Same w w' → Same w' w'' → Same w w''
Same-trans w w' w'' (a, b, c) (a', b', c') = (a' ∙ a, b' ∙ b, c' ∙ c)

update_login_at-timeless :
    (now id : String) (us : UserTable) → map timeless (update_login_at now id us) ≡ map timeless us
unfolding update_login_at update_where
update_login_at-timeless now id [] = refl
update_login_at-timeless now id (u ∷ us) = ground (arith, update_login_at-timeless now id us)

module _ (s : CloudServer) where
  -- A request that the middleware does not let pass as an admin's.
  abbrev pub NoAdmin : Request × Route → Type 0
  NoAdmin r =
      (session : Session) (c : Option Cookie)
      → auth_middleware s.jwt s.jwt_key r.0.clock r.0.cookie ≡ Auth.passed session c
      → admin_only session.role ≡ false

  ApiStep-Same :
      (q : Request) (session : Session) (w w' : World) → ApiStep s q session w w' → Same w w'
  ApiStep-Same q session w _ ApiStep.stays = (refl, refl, refl)
  ApiStep-Same q session w _ (ApiStep.fetches_segment home id name may_see) = (refl, refl, refl)
  ApiStep-Same q session w _ (ApiStep.fetches_thumbnail home id may_see) = (refl, refl, refl)
  ApiStep-Same q session w _ (ApiStep.plays id may_see) = (refl, refl, refl)
  ApiStep-Same q session w _ (ApiStep.comments id content parent member given) = (refl, refl, refl)

  Step-Same :
      (q : Request) (a : Auth) (w w' : World)
      → ((session : Session) (c : Option Cookie)
          → a ≡ Auth.passed session c
          → admin_only session.role ≡ false)
      → Step s q a w w'
      → Same w w'
  Step-Same q a w _ no_admin Step.idles = (refl, refl, refl)
  Step-Same q a w _ no_admin (Step.logs_in username password user found right) =
      (update_login_at-timeless q.now user.id w.store.users, refl, refl)
  Step-Same q a w w' no_admin (Step.acts session c passed step) = ApiStep-Same q session w w' step
  Step-Same q a w w' no_admin (Step.administers session c passed admin step) =
      let other = no_admin session c passed in absurd cc

  -- Any requests of which none carries a valid token of an admin leave the accounts as they are but for
  -- the times of logins, and the keys of the homes and the registry of videos as they are.
  pub serve_all-Same :
      (requests : List (Request × Route)) (w : World)
      → All NoAdmin requests
      → Same w (serve_all s requests w)
  unfolding serve_all
  serve_all-Same [] w none_admin = (refl, refl, refl)
  serve_all-Same ((q, r) ∷ rest) w (no_admin, others) =
      let w' = (serve s q r w).1 in
      Same-trans w w' (serve_all s rest w') (Step-Same q _ w w' no_admin (serve-Step s w q r))
        (serve_all-Same rest w' others)
