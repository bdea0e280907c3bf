-- ===== src/Cloud/Server/Sound.antt =====
-- internal/cloud: what holds of the tables, the cache and the registry after any requests.
use famfun.Prelude.{
  ℕ, ◌+◌, ◌≡◌, ◌∙◌, String, List, [], ◌∷◌, ◌++◌, Option, none, some, ◌==◌, Result, ok, err, panic,
  if◌then◌else◌, arith, eq_iff,
}
use famfun.Prelude.Dict.{lookup}
use famfun.Protocol.Message.{Bytes}
use famfun.Cloud.Cache.{LruCache}
use famfun.Cloud.Cache
use famfun.Cloud.Cache.Valid
use famfun.Cloud.Comments.{Comment, add_comment}
use famfun.Cloud.HomeManager.Sorted.{IsCurrent, update_video_info-IsCurrent}
use famfun.Cloud.Stats.{
  VideoStats, StatsTable, increment_play_count, increment_comment_count, one_comment_more,
  one_play_more,
}
use famfun.Cloud.Stats.Counts.{lookup-upsert}
use famfun.Cloud.StreamProxy.{through_cache}
use famfun.Cloud.HomeKeys.{HomeKeys}
use famfun.Cloud.Tokens.{Auth, Session}
use famfun.Cloud.Users.{UserTable, update_login_at}
use famfun.Cloud.Users.Accounts
use famfun.Cloud.Users.Accounts.{apply-IsValid, Call, apply}
use famfun.Cloud.Server.{World, CloudServer, Request}
use famfun.Cloud.Server.Accounts.{with_users}
use famfun.Cloud.Server.Homes.{with_keys}
use famfun.Cloud.Server.Routes.{Route, serve, serve_all}
use famfun.Cloud.Server.Steps.{with_fetched, ApiStep, AdminStep, Step}
use famfun.Cloud.Server.Serving.{serve-Step}

-- The comments of a video, counted in their table.
unfoldable pub comments_on : String → List Comment → ℕ
comments_on id [] = 0
comments_on id (c ∷ cs) =
    let rest = comments_on id cs in if c.video_id == id then 1 + rest else rest

abbrev pub comment_count_of : Option VideoStats → ℕ
comment_count_of none = 0
comment_count_of (some s) = s.comment_count

-- Identifiers and names of accounts are unique and their roles known; the cache's map, list and byte
-- count agree; the sorted list of videos holds what the homes announced; and the statistics of each
-- video have the number of its comments.
pub record IsSound (w : World) : Type 0 where
  pub accounts : Accounts.IsValid w.store.users
  pub cached : Valid.IsValid w.cache
  pub current : IsCurrent w.registry
  pub counted :
      (id : String)
      → comment_count_of (lookup id w.store.stats) ≡ comments_on id w.store.comments.rows

comments_on-append :
    (id : String) (cs : List Comment) (c : Comment)
    → comments_on id (cs ++ c ∷ []) ≡ comments_on id cs + (if c.video_id == id then 1 else 0)
unfolding comments_on
comments_on-append id [] c = ground arith
comments_on-append id (d ∷ cs) c = ground (arith, comments_on-append id cs c)

counted-play :
    (played id : String) (t : StatsTable)
    → comment_count_of (lookup id (increment_play_count played t)) ≡ comment_count_of (lookup id t)
unfolding increment_play_count
counted-play played id t = ground (
  arith,
  eq_iff played id,
  lookup-upsert played id (record { play_count = 1; comment_count = 0 }) one_play_more t,
)

counted-comment :
    (on id : String) (t : StatsTable)
    → comment_count_of (lookup id (increment_comment_count on t))
      ≡ comment_count_of (lookup id t) + (if on == id then 1 else 0)
unfolding increment_comment_count
counted-comment on id t = ground (
  arith,
  eq_iff on id,
  lookup-upsert on id (record { play_count = 0; comment_count = 1 }) one_comment_more t,
)

through_cache-IsValid :
    (key : String) (r : Result Bytes) (c : LruCache)
    → Valid.IsValid c
    → Valid.IsValid (through_cache key r (Cache.get key c)).1
through_cache-IsValid key r c v = after r (Cache.get key c) (Valid.get-IsValid key c v)
  where
    after :
        (r : Result Bytes) (g : Option Bytes × LruCache)
        → Valid.IsValid g.1
        → Valid.IsValid (through_cache key r g).1
    after r (some b, c) v = v
    after (ok b) (none, c) v = Valid.put-IsValid key b c v
    after (err e) (none, c) v = v
    after panic (none, c) v = v

module _ (s : CloudServer) where
  fetched-IsSound :
      (w : World) (key : String) (r : Result Bytes) → IsSound w → IsSound (with_fetched w key r)
  fetched-IsSound w key r v = record {
    accounts = v.accounts;
    cached = through_cache-IsValid key r w.cache v.cached;
    current = v.current;
    counted = v.counted;
  }

  ApiStep-IsSound :
      (q : Request) (session : Session) (w w' : World)
      → ApiStep s q session w w'
      → IsSound w
      → IsSound w'
  unfolding add_comment
  ApiStep-IsSound q session w _ ApiStep.stays v = v
  ApiStep-IsSound q session w _ (ApiStep.fetches_segment home id name may_see) v =
      fetched-IsSound w _ _ v
  ApiStep-IsSound q session w _ (ApiStep.fetches_thumbnail home id may_see) v =
      fetched-IsSound w _ _ v
  ApiStep-IsSound q session w _ (ApiStep.plays played may_see) v = record {
    accounts = v.accounts;
    cached = v.cached;
    current = v.current;
    counted = λ id. counted-play played id w.store.stats ∙ v.counted id;
  }
  ApiStep-IsSound q session w _ (ApiStep.comments on content parent member given) v = record {
    accounts = v.accounts;
    cached = v.cached;
    current = v.current;
    counted = λ id.
        let c = (add_comment q.now on session.user_id content parent w.store.comments).0 in
        omega (
          arith,
          counted-comment on id w.store.stats,
          v.counted id,
          comments_on-append id w.store.comments.rows c,
        );
  }

  with_accounts :
      (w : World) (users : UserTable)
      → Accounts.IsValid users
      → IsSound w
      → IsSound (with_users w users)
  with_accounts w users accounts v = record {
    accounts = accounts;
    cached = v.cached;
    current = v.current;
    counted = v.counted;
  }

  with_home_keys : (w : World) (keys : HomeKeys) → IsSound w → IsSound (with_keys w keys)
  with_home_keys w keys v = record {
    accounts = v.accounts;
    cached = v.cached;
    current = v.current;
    counted = v.counted;
  }

  AdminStep-IsSound :
      (session : Session) (w w' : World) → AdminStep s session w w' → IsSound w → IsSound w'
  AdminStep-IsSound session w _ (AdminStep.edits home_id id title description visibility) v =
      record {
        accounts = v.accounts;
        cached = v.cached;
        current =
            update_video_info-IsCurrent home_id id title description visibility w.registry
              v.current;
        counted = v.counted;
      }
  AdminStep-IsSound session w _ (AdminStep.accounts c spares) v =
      with_accounts w (apply s.bcrypt c w.store.users)
        (apply-IsValid s.bcrypt c w.store.users v.accounts) v
  AdminStep-IsSound session w _ (AdminStep.puts_key now id key) v = with_home_keys w _ v
  AdminStep-IsSound session w _ (AdminStep.drops_key id) v = with_home_keys w _ v

  Step-IsSound : (q : Request) (a : Auth) (w w' : World) → Step s q a w w' → IsSound w → IsSound w'
  unfolding apply
  Step-IsSound q a w _ Step.idles v = v
  Step-IsSound q a w _ (Step.logs_in username password user found right) v =
      with_accounts w (update_login_at q.now user.id w.store.users)
        (apply-IsValid s.bcrypt (Call.logs_in q.now user.id) w.store.users v.accounts) v
  Step-IsSound q a w w' (Step.acts session c passed step) v = ApiStep-IsSound q session w w' step v
  Step-IsSound q a w w' (Step.administers session c passed admin step) v =
      AdminStep-IsSound session w w' step v

  -- From such a world any requests lead to such a world: whoever sends them, in whatever order, and
  -- whichever of them fail.
  pub serve_all-IsSound :
      (requests : List (Request × Route)) (w : World) → IsSound w → IsSound (serve_all s requests w)
  unfolding serve_all
  serve_all-IsSound [] w v = v
  serve_all-IsSound ((q, r) ∷ rest) w v =
      let w' = (serve s q r w).1 in
      serve_all-IsSound rest w' (Step-IsSound q _ w w' (serve-Step s w q r) v)
