-- ===== src/Cloud/Server/Administering.antt =====
-- internal/cloud/server.go and internal/cloud/auth.go: what the handlers for admins change.
use famfun.Prelude.{
  ◌≡◌, refl, subst, sym, String, Option, none, some, ◌==◌, ◌||◌, Result, ok, err, panic, Bool-cases,
  inl, inr,
}
use famfun.Protocol.RegisterAuth.{parse_rsa_public_key_pem}
use famfun.Cloud.HomeKeys.{HomeKeys}
use famfun.Cloud.Tokens.{Session}
use famfun.Cloud.Users.Accounts.{Call, apply}
use famfun.Cloud.Server.{World, CloudServer, Request}
use famfun.Cloud.Server.Accounts.{
  NewAccount, handle_create_user, handle_list_users, handle_delete_user, handle_update_user_role,
  handle_update_user_password,
}
use famfun.Cloud.Server.Homes.{
  with_keys, handle_list_managed_homes, handle_upsert_home_public_key, handle_delete_managed_home,
  key_parsed, key_stored,
}
use famfun.Cloud.Server.Routes.{AdminRoute, serve_admin}
use famfun.Cloud.Server.Steps.{AdminStep, Administered}

module _ (s : CloudServer) (w : World) where
  create_user-Administered :
      (session : Session) (q : Request) (req : Option NewAccount)
      → Administered s w session (handle_create_user s q req w).1
  unfolding handle_create_user apply
  create_user-Administered session q none = inl refl
  create_user-Administered session q (some req) =
      elim (Bool-cases (req.username == "" || req.password == "")) [
        | inl empty ↦ rw empty (inl refl)
        | inr full ↦ rw full (
            inr (
              AdminStep.accounts (Call.creates q.uuid q.now req.username req.password req.role) tt))
      ]

  delete_user-Administered :
      (session : Session) (id : String)
      → Administered s w session (handle_delete_user s session id w).1
  unfolding handle_delete_user apply
  delete_user-Administered session id = elim (Bool-cases (id == session.user_id)) [
    | inl self ↦ rw self (inl refl)
    | inr other ↦ rw other (inr (AdminStep.accounts (Call.deletes id) other))
  ]

  put_role-Administered :
      (session : Session) (id : String) (req : Option String)
      → Administered s w session (handle_update_user_role s id req w).1
  unfolding handle_update_user_role apply
  put_role-Administered session id none = inl refl
  put_role-Administered session id (some role) = elim (Bool-cases (role == "")) [
    | inl empty ↦ rw empty (inl refl)
    | inr full ↦ rw full (inr (AdminStep.accounts (Call.sets_role id role) tt))
  ]

  put_password-Administered :
      (session : Session) (id : String) (req : Option String)
      → Administered s w session (handle_update_user_password s id req w).1
  unfolding handle_update_user_password apply
  put_password-Administered session id none = inl refl
  put_password-Administered session id (some password) = elim (Bool-cases (password == "")) [
    | inl empty ↦ rw empty (inl refl)
    | inr full ↦ rw full (inr (AdminStep.accounts (Call.sets_password id password) tt))
  ]

  key_stored-keys :
      (id : String) (r : Result (Unit {0}) × HomeKeys) → (key_stored s id w r).1 ≡ with_keys w r.1
  key_stored-keys id (ok _, keys) = refl
  key_stored-keys id (err e, keys) = refl
  key_stored-keys id (panic, keys) = refl

  key_parsed-Administered {ℓ} :
      {A : Type ℓ} (session : Session) (q : Request) (id key : String) (r : Result A)
      → Administered s w session (key_parsed s q id key w r).1
  key_parsed-Administered session q id key (ok _) =
      inr (
        subst (AdminStep s session w) (sym (key_stored-keys id _))
          (AdminStep.puts_key q.now id key))
  key_parsed-Administered session q id key (err e) = inl refl
  key_parsed-Administered session q id key panic = inl refl

  put_key-Administered :
      (session : Session) (q : Request) (id : String) (req : Option String)
      → Administered s w session (handle_upsert_home_public_key s q id req w).1
  unfolding handle_upsert_home_public_key
  put_key-Administered session q id none = inl refl
  put_key-Administered session q id (some key) =
      elim (Bool-cases (s.trim_space id == "" || s.trim_space key == "")) [
        | inl empty ↦ rw empty (inl refl)
        | inr full ↦ rw full (
            key_parsed-Administered session q (s.trim_space id) key
              (parse_rsa_public_key_pem s.crypto (s.bytes_of key)))
      ]

  delete_home-Administered :
      (session : Session) (id : String)
      → Administered s w session (handle_delete_managed_home s id w).1
  unfolding handle_delete_managed_home
  delete_home-Administered session id = elim (Bool-cases (s.trim_space id == "")) [
    | inl empty ↦ rw empty (inl refl)
    | inr full ↦ rw full (inr (AdminStep.drops_key (s.trim_space id)))
  ]

  pub admin-Administered :
      (session : Session) (q : Request) (r : AdminRoute)
      → Administered s w session (serve_admin s session q r w).1
  unfolding serve_admin handle_list_users handle_list_managed_homes
  admin-Administered session q (AdminRoute.create_user req) = create_user-Administered session q req
  admin-Administered session q AdminRoute.list_users = inl refl
  admin-Administered session q AdminRoute.list_home_keys = inl refl
  admin-Administered session q (AdminRoute.put_home_key id req) =
      put_key-Administered session q id req
  admin-Administered session q (AdminRoute.delete_home id) = delete_home-Administered session id
  admin-Administered session q (AdminRoute.delete_user id) = delete_user-Administered session id
  admin-Administered session q (AdminRoute.put_role id req) = put_role-Administered session id req
  admin-Administered session q (AdminRoute.put_password id req) =
      put_password-Administered session id req
