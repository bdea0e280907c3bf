-- ===== src/Cloud/Server.antt =====
-- internal/cloud/server.go and internal/cloud/auth.go: what the HTTP server is given, what it keeps and
-- what it answers.
pub mod Homes
pub mod Videos
pub mod Accounts
pub mod Routes
pub mod Gates
pub mod Steps
pub mod Administering
pub mod Serving
pub mod LoginSession
pub mod Hidden
pub mod Safety
pub mod Sound
use famfun.Prelude.{
  ℕ, ◌+◌, String, List, [], Option, none, some, Bool, Result, ok, err, panic, Error,
}
use famfun.Prelude.Dict.{Dict}
use famfun.Model.{Video, Int64}
use famfun.Protocol.Message.{Bytes}
use famfun.Protocol.RegisterAuth.{Crypto}
use famfun.Cloud.Avatar.{Drawing}
use famfun.Cloud.Cache.{LruCache, CacheStats}
use famfun.Cloud.Comments.{Comment, CommentTable, CommentThreads}
use famfun.Cloud.DataRequest.{Wire}
use famfun.Cloud.HomeKeys.{HomeKeys}
use famfun.Cloud.HomeManager.{HomeManager, HomeInfo}
use famfun.Cloud.Stats.{StatsTable}
use famfun.Cloud.Tokens.{Jwt, Cookie, Session, clear_auth_cookie}
use famfun.Cloud.Users.{User, UserTable, Bcrypt}

-- The tables of the database.
pub record VideoStore : Type 0 where
  pub users : UserTable
  pub comments : CommentTable
  pub stats : StatsTable
  pub home_keys : HomeKeys

-- What the server shares with the rest of the cloud.
pub record World : Type 0 where
  pub registry : HomeManager
  pub cache : LruCache
  pub store : VideoStore

-- CloudServer, and the libraries that it calls: tokens, password hashes, keys, floating-point numbers,
-- strings.TrimSpace, strings.ToLower, strings.HasSuffix, the conversion of a string to its bytes, what
-- avatars are drawn with, and whether os.Stat finds a path.
pub record CloudServer : Type 1 where
  pub jwt : Jwt
  pub jwt_key : Bytes
  pub bcrypt : Bcrypt
  pub crypto : Crypto
  pub Float : Type 0
  pub zero_rate : Float
  pub ratio : ℕ → ℕ → Float
  pub trim_space : String → String
  pub to_lower : String → String
  pub has_suffix : String → String → Bool
  pub bytes_of : String → Bytes
  pub drawing : Drawing
  pub dist_dir : String
  pub exists : String → Bool

-- What a request brings beside its route: the cookie, the time in nanoseconds and as CURRENT_TIMESTAMP,
-- a new UUID, and what the network answers while the request is served.
pub record Request : Type 0 where
  pub cookie : Option String
  pub clock : ℕ
  pub now : String
  pub uuid : String
  pub wire : Wire

-- videoJSON
pub record VideoJson : Type 0 where
  pub id : String
  pub filename : String
  pub title : String
  pub description : String
  pub duration : Int64
  pub filesize : Int64
  pub resolution : String
  pub created_at : String
  pub home_server_id : String
  pub thumbnail_url : String
  pub play_count : ℕ
  pub comment_count : ℕ
  pub visibility : String

-- managedHomeJSON
pub record ManagedHome : Type 0 where
  pub id : String
  pub name : String
  pub online : Bool
  pub updated_at : String
  pub public_key : String
  pub public_key_configured : Bool

-- What stands in a response: an error as a literal, as a literal with an error's text, or as an
-- error's text; the status "ok" or a message; data with its content type; or an object of the API.
pub data Body (F : Type 0) : Type 0 where
  no_body : Body F
  failure : String → Body F
  failure_with : String → Error → Body F
  failure_of : Error → Body F
  status_ok : Body F
  message : String → Body F
  data_of : String → Bytes → Body F
  file : String → Body F
  logged_in : String → String → Body F
  current_user : Session → Body F
  video_page : List VideoJson → ℕ → Bool → Body F
  video : VideoJson → Body F
  video_id : String → Body F
  cache_stats : CacheStats F → Body F
  comments : CommentThreads → Body F
  comment : Comment → Body F
  homes : List HomeInfo → Body F
  home_status : Bool → List HomeInfo → Body F
  managed_homes : List ManagedHome → Body F
  managed_home : ManagedHome → Body F
  users : List User → Body F
  created_user : String → String → String → Body F

pub record Response (F : Type 0) : Type 0 where
  pub status : ℕ
  pub body : Body F
  pub cookie : Option Cookie

abbrev pub respond : {F : Type 0} → ℕ → Body F → Response F
respond status body = record { status = status; body = body; cookie = none }

-- gin's Recovery, when a handler panics.
abbrev pub recovered : {F : Type 0} → Response F
recovered = respond 500 Body.no_body

-- A handler behind the middlewares.
abbrev pub Handler : CloudServer → Type 0
Handler s = World → Response s.Float × World

-- The cases of a call that returns a value and an error: a status for the error's text, and what is
-- answered with the value.
abbrev pub answer : {F A : Type 0} → ℕ → (A → Response F) → Result A → Response F
answer status f (ok a) = f a
answer status f (err e) = respond status (Body.failure_of e)
answer status f panic = recovered

-- The request reads and changes only the tables.
abbrev pub on_store : {F : Type 0} → World → Response F × VideoStore → Response F × World
on_store w (r, store) = (r, record w { store = store })
