-- ===== src/Cloud/StreamProxy/Keys.antt =====
-- internal/cloud/stream_proxy.go: which cache keys are those of which segments.
use famfun.Prelude.{String, ◌≡◌}
use famfun.Prelude.Text.{SlashFree, split_unique}
use famfun.Cloud.StreamProxy.{build_cache_key}

-- The cache key determines the home, the video and the segment, for home and video identifiers
-- without a slash; the segment name may hold slashes.
pub build_cache_key_unique :
    (h h' v v' n n' : String)
    → SlashFree h
    → SlashFree h'
    → SlashFree v
    → SlashFree v'
    → build_cache_key h v n ≡ build_cache_key h' v' n'
    → (h ≡ h') × (v ≡ v') × (n ≡ n')
unfolding build_cache_key
build_cache_key_unique h h' v v' n n' sh sh' sv sv' e =
    let (p, rest) = split_unique h h' _ _ sh sh' e in
    let (q, r) = split_unique v v' n n' sv sv' rest in (p, q, r)
