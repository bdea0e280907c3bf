-- ===== src/Cloud/Start/Bootstrap.antt =====
-- cmd/cloud/main.go: the accounts that a start of the cloud server makes.
use famfun.Prelude.{
  ◌≡◌, ◌≢◌, refl, String, [], ◌∷◌, ◌++◌, none, some, true, false, ok, ◌==◌, arith, Bool-cases, inl,
  inr, eq_iff, if◌then◌else◌, ap,
}
use famfun.Protocol.Message.{Bytes}
use famfun.Cloud.Users.{
  User, UserTable, Bcrypt, find_id, find_name, insert_user, create_user, new_user, is_role,
  inserted, get_user_by_username, seed_demo_user,
}
use famfun.Cloud.Users.Accounts.{find_id-append, find_name-append}
use famfun.Cloud.Server.{VideoStore}
use famfun.Cloud.Start.{
  Config, Outside, main, new_world, new_video_store, ensure_admin, with_users, load_tls_config,
  signing_key_of,
}

abbrev pub demo_password : String
demo_password = "LUtrend#1."

-- A table with an account added, if there is none of its name.
unfoldable pub ensured : User → UserTable → UserTable
ensured u t = elim (find_name u.username t) [ some _ ↦ t | none ↦ t ++ u ∷ [] ]

-- bcrypt takes the password, and takes it again.
pub record Hashed (b : Bcrypt) (password hash : String) : Type 0 where
  pub made : b.generate_from_password password ≡ ok hash
  pub checks : b.matches hash password ≡ true

abbrev admin_without_time : String → String → String → User
admin_without_time id name hash = record {
  id = id;
  username = name;
  role = "admin";
  password_hash = hash;
  created_at = "";
  login_at = "";
}

insert_user-free :
    (u : User) (t : UserTable)
    → find_id u.id t ≡ none
    → find_name u.username t ≡ none
    → insert_user u t ≡ ok (t ++ u ∷ [])
unfolding insert_user
insert_user-free u t fresh free = ground arith

module _ (b : Bcrypt) where
  create_user-free :
      (id now name password hash : String) (t : UserTable)
      → Hashed b password hash
      → find_id id t ≡ none
      → find_name name t ≡ none
      → create_user b id now name password "admin" t
        ≡ (ok (admin_without_time id name hash), t ++ new_user id now name "admin" hash ∷ [])
  unfolding create_user is_role
  create_user-free id now name password hash t h fresh free =
      let u = new_user id now name "admin" hash in
      rw h.made (ap (inserted u t) (insert_user-free u t fresh free))

  seed_demo_user-ensured :
      (id now hash : String) (t : UserTable)
      → Hashed b demo_password hash
      → find_id id t ≡ none
      → seed_demo_user b id now t ≡ ensured (new_user id now "kamlu" "admin" hash) t
  unfolding seed_demo_user ensured get_user_by_username
  seed_demo_user-ensured id now hash t h fresh =
      ground (arith, create_user-free id now "kamlu" demo_password hash t h fresh)

  ensure_admin-ensured :
      (cfg : Config) (o : Outside) (hash : String) (st : VideoStore)
      → (cfg.admin_password == "") ≡ false
      → Hashed b cfg.admin_password hash
      → find_id o.admin_id st.users ≡ none
      → ensure_admin b cfg o st ≡ (
        ok tt,
        with_users st (ensured (new_user o.admin_id o.admin_time "admin" "admin" hash) st.users),
      )
  unfolding ensure_admin ensured get_user_by_username
  ensure_admin-ensured cfg o hash st asked h fresh = ground (
    arith,
    create_user-free o.admin_id o.admin_time "admin" cfg.admin_password hash st.users h fresh,
  )

abbrev pub demo_account : Outside → String → User
demo_account o hash = new_user o.demo_id o.demo_time "kamlu" "admin" hash

abbrev pub admin_account : Outside → String → User
admin_account o hash = new_user o.admin_id o.admin_time "admin" "admin" hash

-- The accounts after a start: the old ones, and two that may be missing.
unfoldable pub bootstrapped : Config → User → User → UserTable → UserTable
bootstrapped cfg demo admin t =
    let t' = ensured demo t in if cfg.admin_password == "" then t' else ensured admin t'

-- A start where everything outside works: the database opens, the certificate and the key are there,
-- bcrypt hashes the two passwords, and the new identifiers are new.
pub record Starts (b : Bcrypt) (cfg : Config) (o : Outside) (t : UserTable)
    (demo_hash admin_hash : String) (key : Bytes) : Type 0 where
  pub opens : o.opened ≡ ok tt
  pub loads : o.key_pair ≡ ok tt
  pub keyed : o.signing_key ≡ ok key
  pub demo : Hashed b demo_password demo_hash
  pub admin : Hashed b cfg.admin_password admin_hash
  pub demo_new : find_id o.demo_id t ≡ none
  pub admin_new : find_id o.admin_id t ≡ none
  pub differ : o.demo_id ≢ o.admin_id

ensured-new :
    (u : User) (id : String) (t : UserTable)
    → find_id id t ≡ none
    → u.id ≢ id
    → find_id id (ensured u t) ≡ none
unfolding ensured
ensured-new u id t h other = ground (arith, find_id-append id t u, eq_iff u.id id)

pub ensured-keeps :
    (u v : User) (name : String) (t : UserTable)
    → find_name name t ≡ some v
    → find_name name (ensured u t) ≡ some v
unfolding ensured
ensured-keeps u v name t h = ground (arith, find_name-append name t u)

pub ensured-finds :
    (u : User) (t : UserTable)
    → find_name u.username t ≡ none
    → find_name u.username (ensured u t) ≡ some u
unfolding ensured
ensured-finds u t h = ground (arith, find_name-append u.username t u, eq_iff u.username u.username)

pub ensured-found : (u v : User) (t : UserTable) → find_name u.username t ≡ some v → ensured u t ≡ t
unfolding ensured
ensured-found u v t h = ground arith

module _ (b : Bcrypt) (cfg : Config) (o : Outside) where
  main-stages :
      (key : Bytes) (st st' st'' : VideoStore)
      → new_video_store b o st ≡ (ok tt, st')
      → ensure_admin b cfg o st' ≡ (ok tt, st'')
      → o.key_pair ≡ ok tt
      → o.signing_key ≡ ok key
      → main b cfg o st ≡ (ok (new_world cfg st'', key), st'')
  unfolding main load_tls_config signing_key_of
  main-stages key st st' st'' h h' loads keyed = rw (h, main) (rw h' (rw loads (rw keyed refl)))

  unasked :
      (st : VideoStore) → (cfg.admin_password == "") ≡ true → ensure_admin b cfg o st ≡ (ok tt, st)
  unfolding ensure_admin
  unasked st e = rw (e, ensure_admin) refl

module _ (b : Bcrypt) (cfg : Config) (o : Outside) {demo_hash admin_hash : String}
    {key : Bytes} where
  store_opened :
      (st : VideoStore)
      → Starts b cfg o st.users demo_hash admin_hash key
      → new_video_store b o st
        ≡ (ok tt, with_users st (ensured (demo_account o demo_hash) st.users))
  unfolding new_video_store
  store_opened st h =
      rw (h.opens, new_video_store)
        (rw (seed_demo_user-ensured b o.demo_id o.demo_time demo_hash st.users h.demo h.demo_new)
          refl)

  admin_ensured :
      (st : VideoStore)
      → Starts b cfg o st.users demo_hash admin_hash key
      → (let t : UserTable = ensured (demo_account o demo_hash) st.users in
          ensure_admin b cfg o (with_users st t) ≡ (
            ok tt,
            with_users st
                (if cfg.admin_password == "" then t else ensured (admin_account o admin_hash) t),
          ))
  admin_ensured st h = elim (Bool-cases (cfg.admin_password == "")) [
    | inl e ↦ rw e (unasked b cfg o _ e)
    | inr e ↦ rw e (
        ensure_admin-ensured b cfg o admin_hash
          (with_users st (ensured (demo_account o demo_hash) st.users)) e h.admin
          (ensured-new (demo_account o demo_hash) o.admin_id st.users h.admin_new h.differ))
  ]

  pub main-bootstrapped :
      (st : VideoStore)
      → Starts b cfg o st.users demo_hash admin_hash key
      → (let st' : VideoStore =
            with_users st
              (bootstrapped cfg (demo_account o demo_hash) (admin_account o admin_hash) st.users) in
          main b cfg o st ≡ (ok (new_world cfg st', key), st'))
  unfolding bootstrapped
  main-bootstrapped st h =
      main-stages b cfg o key st _ _ (store_opened st h) (admin_ensured st h) h.loads h.keyed
