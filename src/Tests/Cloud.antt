-- ===== src/Tests/Cloud.antt =====
-- The theorems on internal/cloud at concrete inputs.
use famfun.Prelude.{◌+◌, ◌≤◌, ◌≡◌, refl, ltb, List, [], ◌∷◌, none, some}
use famfun.Prelude.Dict.{delete, lookup, insert}
use famfun.Cloud.Cache.{
  LruCache, new_lru_cache, put, find, Element, element, add_new, evict, evict_loop,
}
use famfun.Cloud.Cache.Valid.{IsValid, new_lru_cache-IsValid, put-IsValid}
use famfun.Cloud.Cache.Recent.{abs, view, keep}
use famfun.Cloud.Cache.Refines.{
  Call, recent_run, run-recent_run, put_new-Fits, put_present_over, get-put,
}
use famfun.Cloud.Cache.Refines

abbrev calls : List Call
calls =
    Call.puts "a" (1 ∷ 2 ∷ [])
    ∷ Call.puts "b" (3 ∷ [])
    ∷ Call.gets "a"
    ∷ Call.puts "c" (4 ∷ [])
    ∷ []

run-recent_run_example :
    ((Refines.run calls (new_lru_cache 3)).0 ≡ (recent_run calls (abs (new_lru_cache 3))).0)
    × (abs (Refines.run calls (new_lru_cache 3)).1 ≡ (recent_run calls (abs (new_lru_cache 3))).1)
    × IsValid (Refines.run calls (new_lru_cache 3)).1
run-recent_run_example = run-recent_run 3 calls

-- A cache that is full.
abbrev full : LruCache
full = put "a" (1 ∷ 2 ∷ []) (new_lru_cache 2)

full-IsValid : IsValid full
full-IsValid = put-IsValid "a" (1 ∷ 2 ∷ []) (new_lru_cache 2) (new_lru_cache-IsValid 2)

abbrev entry : Element
entry = record { id = 0; value = record { key = "a"; bytes = 1 ∷ 2 ∷ [] } }

full-find : find "a" full ≡ some entry
unfolding find put new_lru_cache add_new evict evict_loop lookup insert element
full-find = refl

full-bytes : (full.current_bytes ≡ 2) × (full.max_bytes ≡ 2) × (find "b" full ≡ none)
unfolding find put new_lru_cache add_new evict evict_loop lookup insert element
full-bytes = (refl, refl, refl)

put_new-Fits_example :
    ((put "b" (3 ∷ []) full).current_bytes ≤ full.max_bytes)
    × (view (put "b" (3 ∷ []) full).list ≡ keep full.max_bytes (("b", 3 ∷ []) ∷ view full.list))
put_new-Fits_example = put_new-Fits "b" (3 ∷ []) full full-IsValid full-bytes.2

put_present_over_example :
    (view (put "a" (1 ∷ 2 ∷ 3 ∷ []) full).list
      ≡ ("a", 1 ∷ 2 ∷ 3 ∷ []) ∷ delete "a" (view full.list))
    × ((put "a" (1 ∷ 2 ∷ 3 ∷ []) full).current_bytes + 2 ≡ full.current_bytes + 3)
    × ((put "a" (1 ∷ 2 ∷ 3 ∷ []) full).max_bytes ≡ full.max_bytes)
    × (ltb (put "a" (1 ∷ 2 ∷ 3 ∷ []) full).max_bytes (put "a" (1 ∷ 2 ∷ 3 ∷ []) full).current_bytes
        ≡ ltb (full.max_bytes + 2) (full.current_bytes + 3))
put_present_over_example = put_present_over "a" (1 ∷ 2 ∷ 3 ∷ []) full entry full-IsValid full-find
