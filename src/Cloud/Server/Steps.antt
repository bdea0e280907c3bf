-- ===== src/Cloud/Server/Steps.antt =====
-- internal/cloud/server.go and internal/cloud/auth.go: the kinds of changes that requests make.
use famfun.Prelude.{
  ◌≡◌, refl, String, Option, none, some, true, false, ◌==◌, Result, ok, err, panic, Bool-cases, inl,
  inr, ◌⊎◌,
}
use famfun.Model.{Video}
use famfun.Protocol.Message.{Bytes}
use famfun.Cloud.Access.{ℤ, admin_only, member_or_admin, check_video_access}
use famfun.Cloud.Cache
use famfun.Cloud.Comments.{add_comment}
use famfun.Cloud.HomeKeys.{upsert_home_public_key, delete_home_public_key}
use famfun.Cloud.HomeManager.{find_video_by_id, update_video_info}
use famfun.Cloud.Stats.{increment_play_count, increment_comment_count}
use famfun.Cloud.StreamProxy
use famfun.Cloud.StreamProxy.{
  through_cache, build_cache_key, fetch_segment_from_home, fetch_thumbnail_from_home,
}
use famfun.Cloud.Tokens.{Session, Cookie, Auth}
use famfun.Cloud.Users.{User, update_login_at, get_user_by_username}
use famfun.Cloud.Users.Accounts.{Call, apply}
use famfun.Cloud.Server.{World, CloudServer, Request}
use famfun.Cloud.Server.Videos.{
  handle_get_thumbnail, handle_stream_resource, handle_add_comment, serve_segment, serve_playlist,
  handle_update_video_info, update_found, updated, NewComment, VideoUpdate,
}
use famfun.Cloud.Server.Accounts.{with_users}
use famfun.Cloud.Server.Homes.{with_keys}
use famfun.Cloud.Server.Gates.{with_access-gate}

abbrev pub IsAdmin : Session → Type 0
IsAdmin session = admin_only session.role ≡ true

-- What has become of the cache after a lookup of a key, with what the home gave for it.
abbrev pub with_fetched : World → String → Result Bytes → World
with_fetched w key r = record w { cache = (through_cache key r (Cache.get key w.cache)).1 }

-- The session may see the video that the registry finds under the identifier, if it finds one.
abbrev pub MaySee : Session → String → World → Type 0
MaySee session id w = check_video_access session.role id w.registry ≡ true

-- Changes that the request of a session may make: what its home gives for a segment or a thumbnail of a
-- video that the session may see goes into the cache under the key of that segment or thumbnail; a play
-- of such a video is counted; and a member or admin writes a comment, under the own account.
pub data ApiStep (s : CloudServer) (q : Request) (session : Session) : World → World → Type 0 where
  stays : {w : World} → ApiStep s q session w w
  fetches_segment :
      {w : World} (home id name : String)
      → MaySee session id w
      → ApiStep s q session w (
          with_fetched w
            (build_cache_key home id name)
            (fetch_segment_from_home q.wire w.registry home id name))
  fetches_thumbnail :
      {w : World} (home id : String)
      → MaySee session id w
      → ApiStep s q session w (
          with_fetched w
            (build_cache_key home id "thumbnail")
            (fetch_thumbnail_from_home q.wire w.registry home id))
  plays :
      {w : World} (id : String)
      → MaySee session id w
      → ApiStep s q session w
          (record w { store = record w.store { stats = increment_play_count id w.store.stats } })
  comments :
      {w : World} (id content : String) (parent : Option ℤ)
      → member_or_admin session.role ≡ true
      → (content == "") ≡ false
      → ApiStep s q session w (record w {
        store = record w.store {
          comments = (add_comment q.now id session.user_id content parent w.store.comments).1;
          stats = increment_comment_count id w.store.stats;
        };
      })

-- No one deletes the account of their own session.
abbrev pub SparesSelf : Session → Call → Type 0
SparesSelf session (Call.deletes id) = (id == session.user_id) ≡ false
SparesSelf session c = Unit

-- Changes that need an admin.
pub data AdminStep (s : CloudServer) (session : Session) : World → World → Type 0 where
  edits :
      {w : World} (home_id id title description visibility : String)
      → AdminStep s session w (record w {
        registry = (update_video_info home_id id title description visibility w.registry).1;
      })
  accounts :
      {w : World} (c : Call)
      → SparesSelf session c
      → AdminStep s session w (with_users w (apply s.bcrypt c w.store.users))
  puts_key :
      {w : World} (now id key : String)
      → AdminStep s session w
          (with_keys w (upsert_home_public_key s.trim_space now id key w.store.home_keys).1)
  drops_key :
      {w : World} (id : String)
      → AdminStep s session w
          (with_keys w (delete_home_public_key s.trim_space id w.store.home_keys))

-- What one request does to the world, by who sends it: a login with the password of an account sets
-- the account's time; other changes need a session, and some of them an admin's.
pub data Step (s : CloudServer) (q : Request) (sender : Auth) : World → World → Type 0 where
  idles : {w : World} → Step s q sender w w
  logs_in :
      {w : World} (username password : String) (user : User)
      → get_user_by_username username w.store.users ≡ ok user
      → s.bcrypt.matches user.password_hash password ≡ true
      → Step s q sender w (with_users w (update_login_at q.now user.id w.store.users))
  acts :
      {w w' : World} (session : Session) (c : Option Cookie)
      → sender ≡ Auth.passed session c
      → ApiStep s q session w w'
      → Step s q sender w w'
  administers :
      {w w' : World} (session : Session) (c : Option Cookie)
      → sender ≡ Auth.passed session c
      → IsAdmin session
      → AdminStep s session w w'
      → Step s q sender w w'

-- A handler does nothing or makes a change of the kind.
module _ (s : CloudServer) (w : World) where
  pub get_thumbnail-ApiStep :
      (session : Session) (q : Request) (home_id video_id : String)
      → ApiStep s q session w (handle_get_thumbnail s session q home_id video_id w).1
  unfolding handle_get_thumbnail StreamProxy.get_thumbnail
  get_thumbnail-ApiStep session q home_id video_id =
      with_access-gate s (ApiStep s q session w) session video_id _ w ApiStep.stays
        (ApiStep.fetches_thumbnail home_id video_id)

  pub stream_resource-ApiStep :
      (session : Session) (q : Request) (home_id video_id resource : String)
      → ApiStep s q session w (handle_stream_resource s session q home_id video_id resource w).1
  unfolding handle_stream_resource serve_playlist serve_segment StreamProxy.get_segment
  stream_resource-ApiStep session q home_id video_id resource =
      with_access-gate s (ApiStep s q session w) session video_id _ w ApiStep.stays (λ may_see.
        elim (Bool-cases (resource == "index.m3u8")) [
          | inl playlist ↦ rw playlist ApiStep.stays
          | inr segment ↦ rw segment (ApiStep.fetches_segment home_id video_id resource may_see)
        ])

  pub add_comment-ApiStep :
      (session : Session) (q : Request) (video_id : String) (req : Option NewComment)
      → member_or_admin session.role ≡ true
      → ApiStep s q session w (handle_add_comment s session q video_id req w).1
  unfolding handle_add_comment
  add_comment-ApiStep session q video_id none member = ApiStep.stays
  add_comment-ApiStep session q video_id (some req) member = elim (Bool-cases (req.content == "")) [
    | inl empty ↦ rw empty ApiStep.stays
    | inr content ↦ rw content (ApiStep.comments video_id req.content req.parent_id member content)
  ]

  abbrev pub Administered : Session → World → Type 0
  Administered session w' = (w' ≡ w) ⊎ AdminStep s session w w'

  updated-edits :
      (session : Session) (found : Video) (req : VideoUpdate) (id : String) (r : Result Video)
      → Administered session (updated s found req id w r).1
  updated-edits session found req id (ok v) =
      inr (AdminStep.edits found.home_server_id id req.title req.description req.visibility)
  updated-edits session found req id (err e) = inl refl
  updated-edits session found req id panic = inl refl

  update_found-edits :
      (session : Session) (q : Request) (req : VideoUpdate) (id : String) (found : Option Video)
      → Administered session (update_found s q id req w found).1
  update_found-edits session q req id none = inl refl
  update_found-edits session q req id (some found) = updated-edits session found req id _

  pub update_video_info-Administered :
      (session : Session) (q : Request) (id : String) (req : Option VideoUpdate)
      → Administered session (handle_update_video_info s q id req w).1
  unfolding handle_update_video_info
  update_video_info-Administered session q id none = inl refl
  update_video_info-Administered session q id (some req) = elim (Bool-cases (req.title == "")) [
    | inl empty ↦ rw empty (inl refl)
    | inr titled ↦ rw titled (update_found-edits session q req id (find_video_by_id id w.registry))
  ]
