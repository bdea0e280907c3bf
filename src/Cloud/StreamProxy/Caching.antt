-- ===== src/Cloud/StreamProxy/Caching.antt =====
-- internal/cloud/stream_proxy.go: what the segment cache does to the answers of the stream proxy.
use famfun.Prelude.{
  String, Option, none, some, Result, ok, err, panic, Error, errorf, or_fail, str, Option-cases,
  inl, inr, [], ◌∷◌, ◌≡◌, refl, ap, ◌≤◌, length,
}
use famfun.Protocol.Message.{Bytes}
use famfun.Cloud.Cache.{LruCache, get, put, find}
use famfun.Cloud.Cache.Valid.{IsValid, get-IsValid, put-IsValid}
use famfun.Cloud.Cache.Refines.{get-put}
use famfun.Cloud.DataRequest.{Wire}
use famfun.Cloud.HomeManager.{HomeManager, get_home}
use famfun.Cloud.StreamProxy.{
  build_cache_key, fetch_segment_from_home, get_home_connection, get_segment, through_cache,
  remember,
}

remember-IsValid :
    (key : String) (r : Result Bytes) (c : LruCache) → IsValid c → IsValid (remember key r c).1
remember-IsValid key (ok b) c v = put-IsValid key b c v
remember-IsValid key (err e) c v = v
remember-IsValid key panic c v = v

through_cache-IsValid :
    (key : String) (r : Result Bytes) (p : Option Bytes × LruCache)
    → IsValid p.1
    → IsValid (through_cache key r p).1
through_cache-IsValid key r (some b, c) v = v
through_cache-IsValid key r (none, c) v = remember-IsValid key r c v

get_segment-IsValid :
    (w : Wire) (m : HomeManager) (h i n : String) (c : LruCache)
    → IsValid c
    → IsValid (get_segment w m h i n c).1
unfolding get_segment
get_segment-IsValid w m h i n c v =
    through_cache-IsValid (build_cache_key h i n) (fetch_segment_from_home w m h i n)
      (get (build_cache_key h i n) c) (get-IsValid (build_cache_key h i n) c v)

get-max_bytes : (key : String) (c : LruCache) → (get key c).1.max_bytes ≡ c.max_bytes
unfolding get
get-max_bytes key c = elim (Option-cases (find key c)) [
  | inl e ↦ rw (e, get)
  | inr (a, e) ↦ rw (e, get)
]

through_none :
    (key : String) (b : Bytes) (p : Option Bytes × LruCache)
    → p.0 ≡ none
    → through_cache key (ok b) p ≡ (ok b, put key b p.1)
through_none key b (none, c) h = refl
through_none key b (some a, c) h = absurd cc

through_some :
    (key : String) (b : Bytes) (r : Result Bytes) (p : Option Bytes × LruCache)
    → p.0 ≡ some b
    → through_cache key r p ≡ (ok b, p.1)
through_some key b r (some a, c) h = cc
through_some key b r (none, c) h = absurd cc

through_err :
    (key : String) (e : Error) (p : Option Bytes × LruCache)
    → through_cache key (err e) p ≡ (or_fail p.0 e, p.1)
through_err key e (none, c) = refl
through_err key e (some a, c) = refl

-- A segment that was fetched from its home and fits into the cache is answered from the cache the
-- next time, with the same bytes, whatever connections and homes there are by then.
pub get_segment_again :
    (w w' : Wire) (m m' : HomeManager) (h i n : String) (b : Bytes) (c : LruCache)
    → IsValid c
    → (get (build_cache_key h i n) c).0 ≡ none
    → fetch_segment_from_home w m h i n ≡ ok b
    → length b ≤ c.max_bytes
    → ((get_segment w m h i n c).0 ≡ ok b)
      × ((get_segment w' m' h i n (get_segment w m h i n c).1).0 ≡ ok b)
unfolding get_segment
get_segment_again w w' m m' h i n b c v miss fetched fits =
    let key = build_cache_key h i n in
    let c₁ = (get key c).1 in
    let first : get_segment w m h i n c ≡ (ok b, put key b c₁) =
      rw fetched (through_none key b (get key c) miss) in
    let fits₁ : length b ≤ c₁.max_bytes = rw (get-max_bytes key c) fits in
    let found = get-put key b c₁ (get-IsValid key c v) fits₁ in
    rw first (
      refl,
      ap (λ r. r.0)
          (through_some key b (fetch_segment_from_home w' m' h i n) (get key (put key b c₁)) found),
    )

-- While no home is connected under the name, a segment is answered exactly when it is in the cache:
-- the cached bytes if it is there, and else the error, with the cache as the miss left it.
pub get_segment_offline :
    (w : Wire) (m : HomeManager) (h i n : String) (c : LruCache)
    → get_home h m ≡ none
    → get_segment w m h i n c ≡ (
      or_fail
          (get (build_cache_key h i n) c).0
          (errorf "home server %q not connected" (str h ∷ [])),
      (get (build_cache_key h i n) c).1,
    )
unfolding get_segment fetch_segment_from_home get_home_connection
get_segment_offline w m h i n c gone = rw gone (
    through_err (build_cache_key h i n) (errorf "home server %q not connected" (str h ∷ []))
      (get (build_cache_key h i n) c))
