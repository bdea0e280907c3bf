-- ===== src/Cloud/Start.antt =====
-- cmd/cloud/main.go: the start of the cloud server, with NewVideoStore of internal/cloud/videodb.go,
-- NewCloudServer of internal/cloud/server.go and Start of internal/cloud/quic_server.go.
pub mod Bootstrap
pub mod Restart
use famfun.Prelude.{
  ℕ, ◌*◌, String, List, [], ◌∷◌, Option, none, some, Result, ok, err, panic, Error, wrap, ◌==◌,
  if◌then◌else◌,
}
use famfun.Prelude.Dict.{Dict, lookup}
use famfun.Prelude.Exec.{Exec, pure, lift, context, ◌>>=◌, ◌>>◌}
use famfun.Protocol.Message.{Bytes}
use famfun.Cloud.Cache.{new_lru_cache}
use famfun.Cloud.HomeManager.{new_home_manager}
use famfun.Cloud.Users.{User, UserTable, Bcrypt, create_user, get_user_by_username, seed_demo_user}
use famfun.Cloud.Server.{VideoStore, World, CloudServer}

pub record Config : Type 0 where
  pub http_addr : String
  pub quic_addr : String
  pub cache_size : ℕ
  pub dist_dir : String
  pub db_path : String
  pub admin_password : String
  pub tls_cert : String
  pub tls_key : String

-- The value of a flag, or its default.
abbrev pub flag_or : Dict String → String → String → String
flag_or given name standard = elim (lookup name given) [ none ↦ standard | some v ↦ v ]

abbrev pub config_of : Dict String → ℕ → Config
config_of given size = record {
  http_addr = flag_or given "http-addr" ":8080";
  quic_addr = flag_or given "quic-addr" ":4433";
  cache_size = size;
  dist_dir = flag_or given "dist-dir" "./dist";
  db_path = flag_or given "db-path" "./famfun.db";
  admin_password = flag_or given "admin-password" "";
  tls_cert = flag_or given "tls-cert" "certs/server.crt";
  tls_key = flag_or given "tls-key" "certs/server.key";
}

-- `given` is what the flag package has split off the command line, and `parse_int` its reader of
-- numbers, here for sizes that are not negative. `none` is the exit with a usage message.
unfoldable pub parse_flags : (String → Option ℕ) → Dict String → Option Config
parse_flags parse_int given = elim (lookup "cache-size" given) [
  | none ↦ some (config_of given (100 * 1024 * 1024))
  | some text ↦ elim (parse_int text) [ none ↦ none | some size ↦ some (config_of given size) ]
]

-- What the start meets outside: sql.Open with createTables, the identifiers and times of the accounts
-- that it may make, tls.LoadX509KeyPair, and generateSigningKey.
pub record Outside : Type 0 where
  pub opened : Result (Unit {0})
  pub demo_id : String
  pub demo_time : String
  pub admin_id : String
  pub admin_time : String
  pub key_pair : Result (Unit {0})
  pub signing_key : Result Bytes

abbrev pub with_users : VideoStore → UserTable → VideoStore
with_users st users = record st { users = users }

unfoldable pub new_video_store : Bcrypt → Outside → Exec VideoStore (Unit {0})
new_video_store b o st = elim o.opened [
  | ok _ ↦ (ok tt, with_users st (seed_demo_user b o.demo_id o.demo_time st.users))
  | err e ↦ (err e, st)
  | panic ↦ (panic, st)
]

abbrev pub admin_created : VideoStore → Result User × UserTable → Result (Unit {0}) × VideoStore
admin_created st (ok _, users) = (ok tt, with_users st users)
admin_created st (err e, users) = (err (wrap "create admin user" e), with_users st users)
admin_created st (panic, users) = (panic, with_users st users)

-- The admin account, where a password is configured for it. An account of that name is left alone.
unfoldable pub ensure_admin : Bcrypt → Config → Outside → Exec VideoStore (Unit {0})
ensure_admin b cfg o st =
    if cfg.admin_password == "" then (ok tt, st) else elim (get_user_by_username "admin" st.users) [
      | ok _ ↦ (ok tt, st)
      | _ ↦
          admin_created st
            (create_user b o.admin_id o.admin_time "admin" cfg.admin_password "admin" st.users)
    ]

unfoldable pub load_tls_config : Outside → Result (Unit {0})
load_tls_config o = o.key_pair

-- What NewCloudServer does without a key is a panic.
unfoldable pub signing_key_of : Result Bytes → Result Bytes
signing_key_of (ok key) = ok key
signing_key_of (err e) = panic
signing_key_of panic = panic

abbrev pub new_world : Config → VideoStore → World
new_world cfg st = record {
  registry = new_home_manager;
  cache = new_lru_cache cfg.cache_size;
  store = st;
}

-- NewCloudServer, with the libraries of `s`.
abbrev pub new_cloud_server : CloudServer → Config → Bytes → CloudServer
new_cloud_server s cfg key = record s { jwt_key = key; dist_dir = cfg.dist_dir }

-- main up to the listeners: the shared state and the signing key, or the error that log.Fatalf
-- prints. The state of the action is the database.
unfoldable pub main : Bcrypt → Config → Outside → Exec VideoStore (World × Bytes)
main b cfg o = do
  context "open video store" (new_video_store b o)
  ensure_admin b cfg o
  context "load TLS config" (lift (load_tls_config o))
  key ← lift (signing_key_of o.signing_key)
  λ st. (ok (new_world cfg st, key), st)

-- What listener.Accept returns: a connection, or an error, with the context ended or not.
pub data Accepted (C : Type 0) : Type 0 where
  accepted : C → Accepted C
  failed : Accepted C
  stopped : Accepted C

-- The connections that Start hands to handleConnection, each in a goroutine.
unfoldable pub accept_loop : {C : Type 0} → List (Accepted C) → List C
accept_loop [] = []
accept_loop (accepted conn ∷ rest) = conn ∷ accept_loop rest
accept_loop (failed ∷ rest) = accept_loop rest
accept_loop (stopped ∷ rest) = []

-- `listening` is what quic.ListenAddr returns.
unfoldable pub start_quic_server :
    {C : Type 0} → Result (Unit {0}) → List (Accepted C) → Result (Unit {0}) × List C
start_quic_server (ok _) conns = (ok tt, accept_loop conns)
start_quic_server (err e) conns = (err (wrap "quic listen" e), [])
start_quic_server panic conns = (panic, [])
