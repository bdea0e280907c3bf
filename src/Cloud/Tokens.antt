-- ===== src/Cloud/Tokens.antt =====
-- internal/cloud/auth.go: the session tokens and the middleware that asks for them.
pub mod Sessions
use famfun.Prelude.{
  ℕ, ◌+◌, ◌*◌, ◌<◌, ◌≤◌, ◌≡◌, Error, String, Option, none, some, Result, ok, err, panic, ltb,
  if◌then◌else◌,
}
use famfun.Protocol.Message.{Bytes}
use famfun.Cloud.Access.{ℤ}
use famfun.Cloud.Users.{User}

-- Times are nanoseconds. A token of another maker may come without an expiry.
pub record JwtClaims : Type 0 where
  pub user_id : String
  pub username : String
  pub role : String
  pub expires_at : Option ℕ
  pub issued_at : ℕ

-- golang-jwt: NewNumericDate, the signing with HS256 and a key, and ParseWithClaims with a key at a time.
pub record Jwt : Type 0 where
  pub numeric_date : ℕ → ℕ
  pub sign : Bytes → JwtClaims → Result String
  pub parse : Bytes → ℕ → String → Result JwtClaims

-- The dates of these claims are dates of the library, as those in a token are.
abbrev pub Dated : Jwt → JwtClaims → ℕ → Type 0
Dated j claims expiry =
    (claims.expires_at ≡ some expiry)
    × (j.numeric_date expiry ≡ expiry)
    × (j.numeric_date claims.issued_at ≡ claims.issued_at)

-- What is asked of it: the parser gives back the claims of a token that was signed with the same key
-- until it expires, and refuses it from then on; a date drops the part of a second.
pub record IsJwt (j : Jwt) : Type 0 where
  pub accepts :
      (key : Bytes) (claims : JwtClaims) (token : String) (expiry now : ℕ)
      → j.sign key claims ≡ ok token
      → Dated j claims expiry
      → now < expiry
      → j.parse key now token ≡ ok claims
  pub refuses :
      (key : Bytes) (claims : JwtClaims) (token : String) (expiry now : ℕ)
      → j.sign key claims ≡ ok token
      → Dated j claims expiry
      → expiry ≤ now
      → (e : Error) × (j.parse key now token ≡ err e)
  pub date_twice : (t : ℕ) → j.numeric_date (j.numeric_date t) ≡ j.numeric_date t
  pub date_le : (t : ℕ) → j.numeric_date t ≤ t
  pub date_near : (t : ℕ) → t < j.numeric_date t + 1000000000

abbrev pub second : ℕ
second = 1000000000

abbrev pub minute : ℕ
minute = 60 * second

-- tokenExpiry
abbrev pub token_expiry : ℕ
token_expiry = 30 * minute

-- When a token that was made at a time ends.
abbrev pub expiry_of : Jwt → ℕ → ℕ
expiry_of j made = j.numeric_date (made + token_expiry)

unfoldable pub claims_of : Jwt → ℕ → User → JwtClaims
claims_of j now user = record {
  user_id = user.id;
  username = user.username;
  role = user.role;
  expires_at = some (expiry_of j now);
  issued_at = j.numeric_date now;
}

-- The signing does not fail for the claims of an account.
abbrev pub Signs : Jwt → Bytes → User → Type 0
Signs j key user = (now : ℕ) → (token : String) × (j.sign key (claims_of j now user) ≡ ok token)

-- `now` is the time of both calls of time.Now.
unfoldable pub create_token : Jwt → Bytes → ℕ → User → Result String
unfolding claims_of
create_token j key now user = j.sign key (claims_of j now user)

-- The claims of a token that was parsed are of the type that the call asked for, and it is valid.
unfoldable pub validate_token : Jwt → Bytes → ℕ → String → Result JwtClaims
validate_token j key now token = j.parse key now token

-- A cookie `auth_token` that a response sets, with its Max-Age in seconds.
pub record Cookie : Type 0 where
  pub value : String
  pub max_age : ℤ

unfoldable pub set_auth_cookie : String → Cookie
set_auth_cookie token = record { value = token; max_age = ℤ.pos 1800 }

unfoldable pub clear_auth_cookie : Cookie
clear_auth_cookie = record { value = ""; max_age = ℤ.negsuc 0 }

-- What the middleware puts into the context of the request.
pub record Session : Type 0 where
  pub user_id : String
  pub username : String
  pub role : String

-- What `authMiddleware` decides: it answers 401 itself with a message, a nil dereference ends it, or
-- the request goes on, with a new cookie or without.
pub data Auth : Type 0 where
  refused : String → Auth
  crashed : Auth
  passed : Session → Option Cookie → Auth

abbrev pub session_of : JwtClaims → Session
session_of c = record { user_id = c.user_id; username = c.username; role = c.role }

-- The session of an account.
abbrev pub session_for : User → Session
session_for user = record { user_id = user.id; username = user.username; role = user.role }

abbrev pub user_of : JwtClaims → User
user_of c = record {
  id = c.user_id;
  username = c.username;
  role = c.role;
  password_hash = "";
  created_at = "";
  login_at = "";
}

-- An error of the new token is dropped.
abbrev pub cookie_of : Result String → Option Cookie
cookie_of (ok token) = some (set_auth_cookie token)
cookie_of (err e) = none
cookie_of panic = none

unfoldable pub renewal : Jwt → Bytes → ℕ → JwtClaims → ℕ → Option Cookie
renewal j key now claims expiry =
    if ltb expiry (now + minute) then cookie_of (create_token j key now (user_of claims)) else none

abbrev pub admit : Jwt → Bytes → ℕ → Result JwtClaims → Auth
admit j key now (err e) = Auth.refused "invalid or expired token"
admit j key now panic = Auth.crashed
admit j key now (ok claims) = elim claims.expires_at [
  | none ↦ Auth.crashed
  | some expiry ↦ Auth.passed (session_of claims) (renewal j key now claims expiry)
]

unfoldable pub auth_middleware : Jwt → Bytes → ℕ → Option String → Auth
auth_middleware j key now none = Auth.refused "authentication required"
auth_middleware j key now (some token) = admit j key now (validate_token j key now token)
