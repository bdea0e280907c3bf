-- ===== src/Cloud/Server/Homes.antt =====
-- internal/cloud/server.go: the handlers of the home servers and their keys, and the static files.
use famfun.Prelude.{
  String, List, [], ◌∷◌, Option, none, some, true, false, not, ◌||◌, ◌==◌, Result, ok, err, panic,
  length, ltb, if◌then◌else◌,
}
use famfun.Prelude.Dict.{Dict, lookup, insert, values}
use famfun.Prelude.Order.{str_lt}
use famfun.Prelude.Sort.{sort}
use famfun.Home.FilePath.{join}
use famfun.Protocol.RegisterAuth.{parse_rsa_public_key_pem}
use famfun.Cloud.HomeKeys.{
  HomePublicKey, HomeKeys, upsert_home_public_key, get_home_public_key, list_home_public_keys,
  delete_home_public_key,
}
use famfun.Cloud.HomeManager.{HomeInfo, list_homes}
use famfun.Cloud.StreamProxy.{scan_and_convert}
use famfun.Cloud.Server.{
  World, CloudServer, Request, Body, Response, Handler, ManagedHome, respond, recovered, answer,
}

-- The first loop of `handleListManagedHomes`, over the stored keys.
unfoldable pub add_keys : List HomePublicKey → Dict ManagedHome → Dict ManagedHome
add_keys [] managed = managed
add_keys (key ∷ keys) managed = add_keys keys (
    insert key.home_id
      (record {
        id = key.home_id;
        name = "";
        online = false;
        updated_at = key.updated_at;
        public_key = key.public_key;
        public_key_configured = not (key.public_key == "");
      })
      managed)

-- The value of a key that the map does not have.
abbrev pub zero_home : ManagedHome
zero_home = record {
  id = "";
  name = "";
  online = false;
  updated_at = "";
  public_key = "";
  public_key_configured = false;
}

abbrev pub or_zero : Option ManagedHome → ManagedHome
or_zero none = zero_home
or_zero (some entry) = entry

abbrev pub as_online : HomeInfo → ManagedHome → ManagedHome
as_online home entry = record entry {
  id = home.id;
  name = home.name;
  online = true;
  public_key_configured = not (entry.public_key == "");
}

-- The second, over the homes that are online.
unfoldable pub add_online : List HomeInfo → Dict ManagedHome → Dict ManagedHome
add_online [] managed = managed
add_online (home ∷ homes) managed =
    add_online homes (insert home.id (as_online home (or_zero (lookup home.id managed))) managed)

-- slices.SortFunc by strings.Compare of the identifiers.
unfoldable pub managed_list : List HomePublicKey → List HomeInfo → List ManagedHome
managed_list keys homes =
    sort (λ a b. str_lt a.id b.id) (values (add_online homes (add_keys keys [])))

-- The loop of `handleUpsertHomePublicKey`: the name of the home that is online, if it is.
unfoldable pub online_name : String → List HomeInfo → Option String
online_name home_id [] = none
online_name home_id (home ∷ homes) =
    if home.id == home_id then some home.name else online_name home_id homes

abbrev pub stored_home : HomePublicKey → Option String → ManagedHome
stored_home key none = record {
  id = key.home_id;
  name = "";
  online = false;
  updated_at = key.updated_at;
  public_key = key.public_key;
  public_key_configured = true;
}
stored_home key (some name) = record {
  id = key.home_id;
  name = name;
  online = true;
  updated_at = key.updated_at;
  public_key = key.public_key;
  public_key_configured = true;
}

abbrev pub with_keys : World → HomeKeys → World
with_keys w keys = record w { store = record w.store { home_keys = keys } }

module _ (s : CloudServer) where
  unfoldable pub handle_list_homes : Handler s
  handle_list_homes w = (respond 200 (Body.homes (list_homes w.registry)), w)

  unfoldable pub handle_home_status : Handler s
  handle_home_status w =
      let homes = list_homes w.registry in
      (respond 200 (Body.home_status (ltb 0 (length homes)) homes), w)

  unfoldable pub handle_scan_home : Request → String → Handler s
  handle_scan_home q home_id w =
      (answer 502 (λ _. respond 200 Body.status_ok) (scan_and_convert q.wire w.registry home_id), w)

  unfoldable pub handle_list_managed_homes : Handler s
  handle_list_managed_homes w = (
    respond 200 (
        Body.managed_homes
          (managed_list (list_home_public_keys w.store.home_keys) (list_homes w.registry))),
    w,
  )

  -- The answer once the key is stored: the row is read again.
  abbrev pub key_stored : String → World → Result (Unit {0}) × HomeKeys → Response s.Float × World
  key_stored home_id w (ok _, keys) = (
    answer 500
        (λ key.
          respond 200
            (Body.managed_home (stored_home key (online_name home_id (list_homes w.registry)))))
        (get_home_public_key home_id keys),
    with_keys w keys,
  )
  key_stored home_id w (err e, keys) = (respond 500 (Body.failure_of e), with_keys w keys)
  key_stored home_id w (panic, keys) = (recovered, with_keys w keys)

  abbrev pub key_parsed {ℓ} :
      {A : Type ℓ} → Request → String → String → World → Result A → Response s.Float × World
  key_parsed q home_id public_key w (ok _) =
      key_stored home_id w
        (upsert_home_public_key s.trim_space q.now home_id public_key w.store.home_keys)
  key_parsed q home_id public_key w (err e) =
      (respond 400 (Body.failure_with "invalid RSA public key: " e), w)
  key_parsed q home_id public_key w panic = (recovered, w)

  -- `none` is a body that does not parse.
  unfoldable pub handle_upsert_home_public_key : Request → String → Option String → Handler s
  handle_upsert_home_public_key q home_id none w = (respond 400 (Body.failure "invalid request"), w)
  handle_upsert_home_public_key q home_id (some public_key) w =
      let id = s.trim_space home_id in
      if id == "" || s.trim_space public_key == ""
      then (respond 400 (Body.failure "home_id and public_key are required"), w)
      else key_parsed q id public_key w (parse_rsa_public_key_pem s.crypto (s.bytes_of public_key))

  unfoldable pub handle_delete_managed_home : String → Handler s
  handle_delete_managed_home home_id w =
      let id = s.trim_space home_id in
      if id == "" then (respond 400 (Body.failure "home_id is required"), w) else (
        respond 200 Body.status_ok,
        with_keys w (delete_home_public_key s.trim_space id w.store.home_keys),
      )

  -- The file of the path, or else the page of the client.
  unfoldable pub handle_static_files : String → Handler s
  handle_static_files path w =
      let file_path = join (s.dist_dir ∷ path ∷ []) in
      let index_path = join (s.dist_dir ∷ "index.html" ∷ []) in
      (
        if s.exists file_path
            then respond 200 (Body.file file_path)
            else if s.exists index_path
            then respond 200 (Body.file index_path)
            else respond 404 Body.no_body,
        w,
      )
