-- ===== src/Cloud/Server/Gates.antt =====
-- internal/cloud/server.go and internal/cloud/auth.go: a guard before a handler leaves the world alone
-- or lets the handler decide.
use famfun.Prelude.{◌≡◌, refl, String, Option, none, some, Bool, true, false}
use famfun.Cloud.Access.{admin_only, member_or_admin, check_video_access}
use famfun.Cloud.Tokens.{Session, Cookie, Auth}
use famfun.Cloud.Server.{World, CloudServer, Response, Handler}
use famfun.Cloud.Server.Videos.{with_access}
use famfun.Cloud.Server.Routes.{for_admin, for_member, behind_auth, with_cookie}

module _ (s : CloudServer) (P : World → Type 0) where
  gate :
      (b : Bool) (h : Handler s) (refusal : Response s.Float) (w : World)
      → P w
      → (b ≡ true → P (h w).1)
      → P (elim b as (λ _. Response s.Float × World) [ true ↦ h w | false ↦ (refusal, w) ]).1
  gate true h refusal w p k = k refl
  gate false h refusal w p k = p

  pub for_admin-gate :
      (session : Session) (h : Handler s) (w : World)
      → P w
      → (admin_only session.role ≡ true → P (h w).1)
      → P (for_admin s session h w).1
  for_admin-gate session h w = gate (admin_only session.role) h _ w

  pub for_member-gate :
      (session : Session) (h : Handler s) (w : World)
      → P w
      → (member_or_admin session.role ≡ true → P (h w).1)
      → P (for_member s session h w).1
  for_member-gate session h w = gate (member_or_admin session.role) h _ w

  pub with_access-gate :
      (session : Session) (id : String) (h : Handler s) (w : World)
      → P w
      → (check_video_access session.role id w.registry ≡ true → P (h w).1)
      → P (with_access s session id h w).1
  unfolding with_access
  with_access-gate session id h w = gate (check_video_access session.role id w.registry) h _ w

  with_cookie-gate :
      (c : Option Cookie) (r : Response s.Float × World) → P r.1 → P (with_cookie c r).1
  with_cookie-gate none r p = p
  with_cookie-gate (some c) r p = p

  pub behind_auth-gate :
      (a : Auth) (h : Session → Handler s) (w : World)
      → P w
      → ((session : Session) (c : Option Cookie) → a ≡ Auth.passed session c → P (h session w).1)
      → P (behind_auth s a h w).1
  behind_auth-gate (Auth.refused m) h w p k = p
  behind_auth-gate Auth.crashed h w p k = p
  behind_auth-gate (Auth.passed session c) h w p k =
      with_cookie-gate c (h session w) (k session c refl)
