-- ===== src/Tests/Start.antt =====
-- The theorems on the start of the cloud server at concrete inputs.
use famfun.Prelude.{
  ◌≡◌, refl, String, [], ◌∷◌, none, some, true, false, test_of_eq, ok, err, library,
}
use famfun.Cloud.Server.{CloudServer, VideoStore, World, Body}
use famfun.Cloud.Server.Accounts.{Credentials, handle_login}
use famfun.Cloud.Start.{Config, Outside, main, new_world, new_cloud_server}
use famfun.Cloud.Start.Bootstrap.{
  Starts, bootstrapped, ensured, demo_account, admin_account, demo_password,
}
use famfun.Cloud.Start.Restart.{main_twice, main-login}
use famfun.Cloud.Tokens.{Jwt, second}
use famfun.Cloud.Users.{User, find_id, find_name, is_role}
use famfun.Tests.Accounts.{bcrypt}
use famfun.Tests.SampleJwt.{ann}
use famfun.Tests.Server.{cloud, request}

abbrev config : Config
config = record {
  http_addr = ":8080";
  quic_addr = ":4433";
  cache_size = 10;
  dist_dir = "./dist";
  db_path = "./famfun.db";
  admin_password = "root";
  tls_cert = "";
  tls_key = "";
}

abbrev outside : String → String → Outside
outside demo_id admin_id = record {
  opened = ok tt;
  demo_id = demo_id;
  demo_time = "2026-01-01";
  admin_id = admin_id;
  admin_time = "2026-01-01";
  key_pair = ok tt;
  signing_key = ok (1 ∷ []);
}

abbrev store : VideoStore
store = record {
  users = ann ∷ [];
  comments = record { rows = []; last = 0 };
  stats = [];
  home_keys = [];
}

abbrev demo_hash : String
demo_hash = "hash of LUtrend#1."

first-Starts : Starts bcrypt config (outside "d" "a") store.users demo_hash "hash of root" (1 ∷ [])
unfolding find_id
first-Starts = record {
  opens = refl;
  loads = refl;
  keyed = refl;
  demo = record { made = refl; checks = refl };
  admin = record { made = refl; checks = refl };
  demo_new = refl;
  admin_new = refl;
  differ = λ e. let same : false ≡ true = test_of_eq "d" "a" e in cc;
}

second-Starts :
    Starts bcrypt config
      (outside "e" "b")
      (bootstrapped config
        (demo_account (outside "d" "a") demo_hash)
        (admin_account (outside "d" "a") "hash of root")
        store.users)
      demo_hash
      "hash of root"
      (1 ∷ [])
unfolding find_id find_name bootstrapped ensured is_role
second-Starts = record {
  opens = refl;
  loads = refl;
  keyed = refl;
  demo = record { made = refl; checks = refl };
  admin = record { made = refl; checks = refl };
  demo_new = refl;
  admin_new = refl;
  differ = λ e. let same : false ≡ true = test_of_eq "e" "b" e in cc;
}

ann_there : find_name "ann" store.users ≡ some ann
unfolding find_name
ann_there = refl

main_twice_example :
    (w : World) × (main bcrypt config (outside "d" "a") store ≡ (ok (w, 1 ∷ []), w.store))
    × (find_name "ann" w.store.users ≡ some ann)
    × ((v : User) × (find_name "kamlu" w.store.users ≡ some v))
    × (main bcrypt config (outside "e" "b") w.store
        ≡ (ok (new_world config w.store, 1 ∷ []), w.store))
main_twice_example =
    main_twice bcrypt config (outside "d" "a") (outside "e" "b") store "ann" ann first-Starts
      second-Starts ann_there

-- A library that signs every token alike.
abbrev signing : Jwt
signing = record {
  numeric_date = λ t. t;
  sign = λ key c. ok "token";
  parse = λ key now t. err (library "not of this library");
}

abbrev signing_cloud : CloudServer
signing_cloud = record cloud { jwt = signing }

nobody : find_name "kamlu" store.users ≡ none
unfolding find_name
nobody = refl

main-login_example :
    (w : World) × (main bcrypt config (outside "d" "a") store ≡ (ok (w, 1 ∷ []), w.store))
    × (let req : Credentials = record { username = "kamlu"; password = demo_password } in
        let r =
          (handle_login
            (new_cloud_server signing_cloud config (1 ∷ []))
            (request none second)
            (some req)
            w).0 in
        (r.status ≡ 200) × (r.body ≡ Body.logged_in "kamlu" "admin"))
main-login_example =
    main-login signing_cloud config (outside "d" "a") store (request none second) first-Starts
      nobody (λ now. ("token", refl))
