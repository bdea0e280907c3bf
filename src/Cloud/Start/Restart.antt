-- ===== src/Cloud/Start/Restart.antt =====
-- cmd/cloud/main.go: what the start of the cloud server does to the accounts, the second time too.
use famfun.Prelude.{
  ◌≡◌, refl, ◌∙◌, String, none, some, ok, ◌==◌, Bool-cases, inl, inr, Option-cases, ap,
}
use famfun.Protocol.Message.{Bytes}
use famfun.Cloud.Users.{User, UserTable, Bcrypt, find_name, is_role, get_user_by_username}
use famfun.Cloud.Tokens.{Signs, create_token}
use famfun.Cloud.Server.{VideoStore, World, CloudServer, Request, Body}
use famfun.Cloud.Server.Accounts.{Credentials, handle_login, user_found, token_made}
use famfun.Cloud.Start.Bootstrap.{
  demo_password, ensured, ensured-keeps, ensured-finds, ensured-found, Hashed, Starts, bootstrapped,
  demo_account, admin_account, main-bootstrapped,
}
use famfun.Cloud.Start.{Config, Outside, main, new_cloud_server, new_world, with_users}

bootstrapped-keeps :
    (cfg : Config) (demo admin u : User) (name : String) (t : UserTable)
    → find_name name t ≡ some u
    → find_name name (bootstrapped cfg demo admin t) ≡ some u
unfolding bootstrapped
bootstrapped-keeps cfg demo admin u name t h = elim (Bool-cases (cfg.admin_password == "")) [
  | inl e ↦ rw e (ensured-keeps demo u name t h)
  | inr e ↦ rw e (ensured-keeps admin u name (ensured demo t) (ensured-keeps demo u name t h))
]

ensured-Has :
    (u : User) (t : UserTable) → (v : User) × (find_name u.username (ensured u t) ≡ some v)
ensured-Has u t = elim (Option-cases (find_name u.username t)) [
  | inl free ↦ (u, ensured-finds u t free)
  | inr (v, found) ↦ (v, ensured-keeps u v u.username t found)
]

-- The accounts of a second start, whatever new identifiers and hashes it brings.
bootstrapped-again :
    (cfg : Config) (o o' : Outside) (d a d' a' : String) (t : UserTable)
    → (let t' = bootstrapped cfg (demo_account o d) (admin_account o a) t in
        bootstrapped cfg (demo_account o' d') (admin_account o' a') t' ≡ t')
unfolding bootstrapped
bootstrapped-again cfg o o' d a d' a' t =
    let demo = demo_account o d in
    let admin = admin_account o a in
    let (u, has) = ensured-Has demo t in
    let (v, has') = ensured-Has admin (ensured demo t) in
    let kept = ensured-keeps admin u "kamlu" (ensured demo t) has in
    elim (Bool-cases (cfg.admin_password == "")) [
      | inl e ↦ rw e (ensured-found (demo_account o' d') u (ensured demo t) has)
      | inr e ↦ rw e (
          ap (ensured (admin_account o' a'))
            (ensured-found (demo_account o' d') u (ensured admin (ensured demo t)) kept)
          ∙ ensured-found (admin_account o' a') v (ensured admin (ensured demo t)) has')
    ]

bootstrapped-Has :
    (cfg : Config) (o : Outside) (d a : String) (t : UserTable)
    → (v : User) × (find_name "kamlu" (bootstrapped cfg (demo_account o d) (admin_account o a) t)
        ≡ some v)
unfolding bootstrapped
bootstrapped-Has cfg o d a t =
    let (v, has) = ensured-Has (demo_account o d) t in
    elim (Bool-cases (cfg.admin_password == "")) [
      | inl e ↦ (v, rw e has)
      | inr e ↦
          (v, rw e (ensured-keeps (admin_account o a) v "kamlu" (ensured (demo_account o d) t) has))
    ]

-- Where everything outside works, a start leads to a running server. Every account that was there is
-- found as it was under its name, and there is an account "kamlu". A second start with the same
-- configuration runs too and changes no account.
pub main_twice :
    (b : Bcrypt) (cfg : Config) (o o' : Outside) {d a d' a' : String} {key key' : Bytes}
    (st : VideoStore) (name : String) (u : User)
    → Starts b cfg o st.users d a key
    → Starts b cfg o' (bootstrapped cfg (demo_account o d) (admin_account o a) st.users) d' a' key'
    → find_name name st.users ≡ some u
    → (w : World) × (main b cfg o st ≡ (ok (w, key), w.store))
      × (find_name name w.store.users ≡ some u)
      × ((v : User) × (find_name "kamlu" w.store.users ≡ some v))
      × (main b cfg o' w.store ≡ (ok (new_world cfg w.store, key'), w.store))
main_twice b cfg o o' {d} {a} {d'} {a'} st name u h h' found =
    let t = bootstrapped cfg (demo_account o d) (admin_account o a) st.users in
    let second = main-bootstrapped b cfg o' (with_users st t) h' in
    (
      new_world cfg (with_users st t),
      main-bootstrapped b cfg o st h,
      bootstrapped-keeps cfg (demo_account o d) (admin_account o a) u name st.users found,
      bootstrapped-Has cfg o d a st.users,
      rw (bootstrapped-again cfg o o' d a d' a' st.users) at second,
    )

bootstrapped-finds :
    (cfg : Config) (o : Outside) (d a : String) (t : UserTable)
    → find_name "kamlu" t ≡ none
    → find_name "kamlu" (bootstrapped cfg (demo_account o d) (admin_account o a) t)
      ≡ some (demo_account o d)
unfolding bootstrapped
bootstrapped-finds cfg o d a t gone =
    let demo = demo_account o d in
    let found = ensured-finds demo t gone in
    elim (Bool-cases (cfg.admin_password == "")) [
      | inl e ↦ rw e found
      | inr e ↦ rw e (ensured-keeps (admin_account o a) demo "kamlu" (ensured demo t) found)
    ]

demo_granted :
    (s : CloudServer) (cfg : Config) (o : Outside) {d : String} (a : String) (st : VideoStore)
    (q : Request)
    → Hashed s.bcrypt demo_password d
    → find_name "kamlu" st.users ≡ some (demo_account o d)
    → Signs s.jwt s.jwt_key (demo_account o d)
    → (let req : Credentials = record { username = "kamlu"; password = demo_password } in
        let r = (handle_login s q (some req) (new_world cfg st)).0 in
        (r.status ≡ 200) × (r.body ≡ Body.logged_in "kamlu" "admin"))
unfolding handle_login create_token get_user_by_username is_role
demo_granted s cfg o a st q h found signs =
    let (token, signed) = signs q.clock in
    rw (found, user_found) (rw h.checks (rw (signed, token_made) (refl, refl)))

-- A start on a database in which nobody is called "kamlu", be it that an admin has deleted the
-- account, ends with a server that answers 200 and the role "admin" to a login under that name with
-- the password that stands in the source.
pub main-login :
    (s : CloudServer) (cfg : Config) (o : Outside) {d a : String} {key : Bytes} (st : VideoStore)
    (q : Request)
    → Starts s.bcrypt cfg o st.users d a key
    → find_name "kamlu" st.users ≡ none
    → Signs s.jwt key (demo_account o d)
    → (let req : Credentials = record { username = "kamlu"; password = demo_password } in
        (w : World) × (main s.bcrypt cfg o st ≡ (ok (w, key), w.store))
        × (let r = (handle_login (new_cloud_server s cfg key) q (some req) w).0 in
            (r.status ≡ 200) × (r.body ≡ Body.logged_in "kamlu" "admin")))
main-login s cfg o {d} {a} {key} st q h gone signs =
    let t = bootstrapped cfg (demo_account o d) (admin_account o a) st.users in
    (
      new_world cfg (with_users st t),
      main-bootstrapped s.bcrypt cfg o st h,
      demo_granted (new_cloud_server s cfg key) cfg o a (with_users st t) q h.demo
          (bootstrapped-finds cfg o d a st.users gone) signs,
    )
