-- ===== src/Tests/Server.antt =====
-- The theorems on the HTTP server at concrete inputs.
use famfun.Prelude.{
  ℕ, ◌≡◌, refl, ap, sym, ◌∙◌, String, List, [], ◌∷◌, Option, none, some, Bool, true, false, ok, All,
  arith,
}
use famfun.Prelude.Dict.{lookup, values}
use famfun.Model.{Video, video_to_proto, proto_to_video}
use famfun.Protocol.Message.{Bytes}
use famfun.Protocol.Message
use famfun.Cloud.Access.{ℤ, can_access}
use famfun.Cloud.Cache.{new_lru_cache}
use famfun.Cloud.Cache.Valid.{new_lru_cache-IsValid}
use famfun.Cloud.HomeManager.{get_home, query_video, find_video_by_id, new_home_manager}
use famfun.Cloud.HomeManager.Sorted.{new_home_manager-IsCurrent}
use famfun.Cloud.Tokens.{Cookie, Session, auth_middleware, session_for, second, minute}
use famfun.Cloud.Users.{get_user_by_username, find_id, find_name, is_role}
use famfun.Cloud.Server.{World, CloudServer, Request, VideoJson, Body, Response, respond}
use famfun.Cloud.Server.Videos.{VideoUpdate, video_to_json, handle_update_video_info}
use famfun.Cloud.Server.Accounts.{Credentials}
use famfun.Cloud.Server.Routes.{
  AdminRoute, ApiRoute, Route, serve, serve_api, serve_all, with_cookie,
}
use famfun.Cloud.Server.Steps.{Step}
use famfun.Cloud.Server.Serving.{serve-Step}
use famfun.Cloud.Server.Safety.{Same, serve_all-Same}
use famfun.Cloud.Server.Sound.{IsSound, comments_on, serve_all-IsSound}
use famfun.Cloud.Server.Hidden.{AllHidden, serve_api_hidden}
use famfun.Cloud.Server.LoginSession.{sent_back, login-serve_api}
use famfun.Home.Server.{HomeServer}
use famfun.Home.Server
use famfun.Home.Server.EndToEnd.{Fits}
use famfun.Home.Server.EditEndToEnd.{
  edited, edited_at_home, edit_request, handle_update_video_info-both,
}
use famfun.Tests.Accounts.{bcrypt}
use famfun.Tests.Home.{tools, env, server, wire}
use famfun.Tests.Homes.{conn, stocked}
use famfun.Tests.Registration.{crypto}
use famfun.Tests.SampleCodec.{sample, sample-IsCodec}
use famfun.Tests.SampleJwt.{sample_jwt, sample_jwt-IsJwt, ann, ann-Signs}
use famfun.Tests.Wire.{film}

-- Floating-point numbers are pairs of numbers here.
abbrev pub cloud : CloudServer
cloud = record {
  jwt = sample_jwt;
  jwt_key = [];
  bcrypt = bcrypt;
  crypto = crypto;
  Float = ℕ × ℕ;
  zero_rate = (0, 1);
  ratio = λ a b. (a, b);
  trim_space = λ s. s;
  to_lower = λ s. s;
  has_suffix = λ s t. false;
  bytes_of = λ s. 1 ∷ [];
  drawing = record { md5 = λ s. 200 ∷ []; to_upper = λ s. s };
  dist_dir = "/dist";
  exists = λ p. false;
}

abbrev home : HomeServer
home = record (server "/streams/v/index.m3u8") { videos = ("v", film) ∷ [] }

abbrev pub request : Option String → ℕ → Request
request cookie clock = record {
  cookie = cookie;
  clock = clock;
  now = "2026-03-03";
  uuid = "w";
  wire = wire home;
}

-- One account, no comments, and the home with two videos of Tests.Homes.
abbrev world : World
world = record {
  registry = stocked;
  cache = new_lru_cache 10;
  store = record {
    users = ann ∷ [];
    comments = record { rows = []; last = 0 };
    stats = [];
    home_keys = [];
  };
}

abbrev empty_world : World
empty_world = record world { registry = new_home_manager }

abbrev token : String
token = (ann-Signs [] second).0

abbrev requests : List (Request × Route)
requests =
    (request none second, Route.login (some (record { username = "ann"; password = "secret" })))
    ∷ (
      request (some token) minute,
      Route.api (ApiRoute.post_comment "v" (some (record { content = "Nice"; parent_id = none }))),
    )
    ∷ (
      request (some token) minute,
      Route.api (
          ApiRoute.admin (
            AdminRoute.create_user
              (some (record { username = "bo"; password = "x"; role = "member" })))),
    )
    ∷ []

empty_world-IsSound : IsSound empty_world
unfolding find_id find_name lookup comments_on is_role
empty_world-IsSound = record {
  accounts = (refl, refl, refl, tt);
  cached = new_lru_cache-IsValid 10;
  current = new_home_manager-IsCurrent;
  counted = λ id. refl;
}

serve_all-IsSound_example : IsSound (serve_all cloud requests empty_world)
serve_all-IsSound_example = serve_all-IsSound cloud requests empty_world empty_world-IsSound

abbrev comment_route : Route
comment_route =
    Route.api (ApiRoute.post_comment "v" (some (record { content = "Nice"; parent_id = none })))

serve-Step_example :
    Step cloud
      (request (some token) minute)
      (auth_middleware sample_jwt [] minute (some token))
      world
      (serve cloud (request (some token) minute) comment_route world).1
serve-Step_example = serve-Step cloud world (request (some token) minute) comment_route

abbrev anonymous : List (Request × Route)
anonymous =
    (request none second, Route.login (some (record { username = "ann"; password = "secret" })))
    ∷ (request none second, Route.api (ApiRoute.admin (AdminRoute.delete_user "u")))
    ∷ []

serve_all-Same_example : Same world (serve_all cloud anonymous world)
unfolding auth_middleware
serve_all-Same_example =
    serve_all-Same cloud anonymous world
      ((λ session c e. absurd cc), ((λ session c e. absurd cc), tt))

film_there : find_video_by_id "v" stocked ≡ some film
unfolding find_video_by_id lookup
film_there = refl

abbrev guest : Session
guest = record { user_id = "g"; username = "gus"; role = "guest" }

stored : query_video "h" "v" stocked ≡ some film
unfolding query_video lookup
stored = refl

all_hidden : AllHidden "guest" "v" (values stocked.videos)
unfolding can_access lookup
all_hidden = (λ v h. ap (λ x. can_access "guest" x.visibility) (sym (the_film v h)) ∙ refl, tt)
  where
    the_film : (v : Video) → some film ≡ some v → film ≡ v
    the_film v h = cc

serve_api_hidden_example :
    (serve_api cloud guest (request none second) (ApiRoute.thumbnail "h" "v") world
      ≡ (respond 403 (Body.failure "access denied"), world))
    × (serve_api cloud guest (request none second) (ApiRoute.stream "h" "v" "s.ts") world
        ≡ (respond 403 (Body.failure "access denied"), world))
    × (serve_api cloud guest (request none second) (ApiRoute.play "v") world
        ≡ (respond 403 (Body.failure "access denied"), world))
    × (page : List VideoJson) × (total : ℕ) × (more : Bool) × (serve_api cloud guest
          (request none second)
          (ApiRoute.videos (ℤ.pos 0) (ℤ.pos 30))
          world
        ≡ (respond 200 (Body.video_page page total more), world))
    × All (λ j. can_access "guest" j.visibility ≡ true) page
serve_api_hidden_example =
    serve_api_hidden cloud guest (request none second) world film "v" "h" "h" "s.ts" (ℤ.pos 0)
      (ℤ.pos 30) stored all_hidden

abbrev credentials : Credentials
credentials = record { username = "ann"; password = "secret" }

ann_found : get_user_by_username "ann" (ann ∷ []) ≡ ok ann
unfolding get_user_by_username find_name
ann_found = refl

-- Later, when the account is gone.
abbrev without_ann : World
without_ann = record world { store = record world.store { users = [] } }

abbrev login_response : Response (ℕ × ℕ)
login_response = (serve cloud (request none second) (Route.login (some credentials)) world).0

login-serve_api_example :
    (login_response.status ≡ 200)
    × ((c : Option Cookie) × (serve cloud
            (request (sent_back login_response) minute)
            (Route.api ApiRoute.me)
            without_ann
          ≡ with_cookie c (
              serve_api cloud
                (session_for ann)
                (request (sent_back login_response) minute)
                ApiRoute.me
                without_ann)))
login-serve_api_example =
    login-serve_api cloud sample_jwt-IsJwt (request none second)
      (request (sent_back login_response) minute) credentials ann world without_ann ApiRoute.me
      (ann-Signs []) ann_found refl refl (omega arith)

abbrev update : VideoUpdate
update = record { title = "New"; description = ""; visibility = "" }

conn_there : get_home "h" stocked ≡ some conn
unfolding get_home lookup
conn_there = refl

held : lookup "v" home.videos ≡ some film
unfolding lookup
held = refl

update-Fits : Fits sample (Message.update_video_info_request (edit_request "v" update))
update-Fits = (8 ∷ [], refl, omega arith)

update_response_Fits : Fits sample (
    Message.update_video_info_response
      (Server.handle_update_video_info tools (edit_request "v" update) home).0)
unfolding Server.handle_update_video_info video_to_proto
update_response_Fits = rw (held, Server.handle_update_video_info) (9 ∷ [], refl, omega arith)

handle_update_video_info-both_example :
    ((handle_update_video_info cloud (request none second) "v" (some update) world).0
      ≡ respond 200 (
          Body.video
            (video_to_json (proto_to_video (video_to_proto (edited_at_home update film))))))
    × (query_video "h" "v"
          (handle_update_video_info cloud (request none second) "v" (some update) world).1.registry
        ≡ some (edited update film))
    × (lookup "v" (Server.handle_update_video_info tools (edit_request "v" update) home).1.videos
        ≡ some (edited_at_home update film))
handle_update_video_info-both_example =
    handle_update_video_info-both (wire home) tools env home cloud (request none second) world "v"
      update film film conn refl refl film_there stored conn_there refl sample-IsCodec update-Fits
      update_response_Fits held
