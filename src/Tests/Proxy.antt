-- ===== src/Tests/Proxy.antt =====
-- The theorems on internal/cloud/stream_proxy.go at concrete inputs.
use famfun.Prelude.{
  ◌≤◌, ◌≡◌, refl, String, ap, ◌∙◌, [], ◌∷◌, none, some, ok, errorf, str, or_fail, arith,
}
use famfun.Prelude.Dict.{lookup}
use famfun.Protocol.Message.{Bytes}
use famfun.Protocol.Message
use famfun.Home.FilePath.{join}
use famfun.Home.Disk.{read_file}
use famfun.Home.Server.{HomeServer, segment_path, handle_get_segment}
use famfun.Home.Server.EndToEnd.{Fits, proxied, segment_request, fetch_segment_from_home-read_file}
use famfun.Cloud.Cache.{new_lru_cache, get, find}
use famfun.Cloud.Cache.Valid.{new_lru_cache-IsValid}
use famfun.Cloud.HomeManager.{new_home_manager, get_home}
use famfun.Cloud.StreamProxy.{build_cache_key, fetch_segment_from_home, get_segment}
use famfun.Cloud.StreamProxy.Caching.{get_segment_again, get_segment_offline}
use famfun.Tests.SampleCodec.{sample, sample-IsCodec}
use famfun.Tests.Homes.{conn, stocked}
use famfun.Prelude.Text.{SlashFree}
use famfun.Cloud.StreamProxy.Keys.{build_cache_key_unique}
use famfun.Tests.Home.{tools, env, server, wire, read_only}

abbrev segment_server : HomeServer
segment_server = server (join ("/streams" ∷ "v" ∷ "s.ts" ∷ []))

abbrev playlist_server : HomeServer
playlist_server = server (join ("/streams" ∷ "v" ∷ "index.m3u8" ∷ []))

segment_there :
    read_file (segment_path "v" "s.ts" segment_server) segment_server.disk ≡ ok (7 ∷ 8 ∷ [])
unfolding segment_path
segment_there = read_only (join ("/streams" ∷ "v" ∷ "s.ts" ∷ []))

segment_response_Fits :
    Fits sample (
      Message.get_segment_response (handle_get_segment (segment_request "v" "s.ts") segment_server))
unfolding handle_get_segment
segment_response_Fits = rw (segment_there, handle_get_segment) (4 ∷ 7 ∷ 8 ∷ [], refl, omega arith)

stocked-conn : get_home "h" stocked ≡ some conn
unfolding get_home lookup
stocked-conn = refl

fetched_lem : fetch_segment_from_home (wire segment_server) stocked "h" "v" "s.ts" ≡ ok (7 ∷ 8 ∷ [])
fetched_lem =
    fetch_segment_from_home-read_file (wire segment_server) tools env segment_server stocked "h" "v"
      "s.ts" conn stocked-conn refl sample-IsCodec (3 ∷ [], refl, omega arith) segment_response_Fits
    ∙ ap (proxied "segment error: %s" "read segment: ") segment_there

fetch_segment_from_home-read_file_example :
    fetch_segment_from_home (wire segment_server) stocked "h" "v" "s.ts"
    ≡ proxied "segment error: %s" "read segment: "
        (read_file (segment_path "v" "s.ts" segment_server) segment_server.disk)
fetch_segment_from_home-read_file_example =
    fetch_segment_from_home-read_file (wire segment_server) tools env segment_server stocked "h" "v"
      "s.ts" conn stocked-conn refl sample-IsCodec (3 ∷ [], refl, omega arith) segment_response_Fits

miss_lem : (get (build_cache_key "h" "v" "s.ts") (new_lru_cache 10)).0 ≡ none
unfolding get find new_lru_cache lookup
miss_lem = refl

room_lem : 2 ≤ (new_lru_cache 10).max_bytes
unfolding new_lru_cache
room_lem = omega arith

-- The second time the home is gone.
get_segment_again_example :
    ((get_segment (wire segment_server) stocked "h" "v" "s.ts" (new_lru_cache 10)).0
      ≡ ok (7 ∷ 8 ∷ []))
    × ((get_segment
          (wire playlist_server)
          new_home_manager
          "h"
          "v"
          "s.ts"
          (get_segment (wire segment_server) stocked "h" "v" "s.ts" (new_lru_cache 10)).1).0
        ≡ ok (7 ∷ 8 ∷ []))
get_segment_again_example =
    get_segment_again (wire segment_server) (wire playlist_server) stocked new_home_manager "h" "v"
      "s.ts" (7 ∷ 8 ∷ []) (new_lru_cache 10) (new_lru_cache-IsValid 10) miss_lem fetched_lem
      room_lem

gone_lem : get_home "h" new_home_manager ≡ none
unfolding get_home new_home_manager lookup
gone_lem = refl

get_segment_offline_example :
    get_segment (wire segment_server) new_home_manager "h" "v" "s.ts" (new_lru_cache 10) ≡ (
      or_fail
          (get (build_cache_key "h" "v" "s.ts") (new_lru_cache 10)).0
          (errorf "home server %q not connected" (str "h" ∷ [])),
      (get (build_cache_key "h" "v" "s.ts") (new_lru_cache 10)).1,
    )
get_segment_offline_example =
    get_segment_offline (wire segment_server) new_home_manager "h" "v" "s.ts" (new_lru_cache 10)
      gone_lem

one-SlashFree : SlashFree "h"
one-SlashFree = (λ e. absurd (omega (arith, e)), tt)

abbrev home_name : String
home_name = "h"

abbrev nested : String
nested = "a/b"

build_cache_key_unique_example :
    (home_name ≡ home_name) × (home_name ≡ home_name) × (nested ≡ nested)
build_cache_key_unique_example =
    build_cache_key_unique home_name home_name home_name home_name nested nested one-SlashFree
      one-SlashFree one-SlashFree one-SlashFree refl
