-- ===== src/Cloud/HomeKeys.antt =====
-- internal/cloud/homekeydb.go: the public keys of the home servers, the table `home_public_keys`, and
-- verifyRegisterRequest of internal/cloud/quic_server.go, which reads it. The statements of this
-- table fail only where the source returns an error; an error of the database itself is left out.
use famfun.Prelude.{
  String, List, [], ◌∷◌, ◌==◌, Option, Bool, true, false, Result, ok, err, errorf, str, or_fail,
  context, length, nat_eq, ◌>>=◌, ◌>>◌, if◌then◌else◌, not, guard, ◌&&◌,
}
use famfun.Prelude.Dict.{Dict, lookup, insert, delete, values}
use famfun.Prelude.Order.{str_lt}
use famfun.Prelude.Sort.{sort}
use famfun.Protocol.Message.{Bytes, RegisterRequest}
use famfun.Protocol.RegisterAuth.{Crypto, parse_rsa_public_key_pem}
use famfun.Protocol.RegisterAuth

pub record HomePublicKey : Type 0 where
  pub home_id : String
  pub updated_at : String
  pub public_key : String

-- The table, a row under its primary key.
abbrev pub HomeKeys : Type 0
HomeKeys = Dict HomePublicKey

-- `trim` is strings.TrimSpace, `now` CURRENT_TIMESTAMP.
unfoldable pub upsert_home_public_key :
    (String → String) → String → String → String → HomeKeys → Result (Unit {0}) × HomeKeys
upsert_home_public_key trim now home_id public_key t =
    let id = trim home_id in
    let key = trim public_key in
    if id == ""
    then (err (errorf "home_id is required" []), t)
    else if key == ""
    then (err (errorf "public_key is required" []), t)
    else (ok tt, insert id (record { home_id = id; updated_at = now; public_key = key }) t)

unfoldable pub get_home_public_key : String → HomeKeys → Result HomePublicKey
get_home_public_key home_id t =
    or_fail (lookup home_id t) (errorf "home %q public key not found" (str home_id ∷ []))

unfoldable pub list_home_public_keys : HomeKeys → List HomePublicKey
list_home_public_keys t = sort (λ a b. str_lt a.home_id b.home_id) (values t)

unfoldable pub delete_home_public_key : (String → String) → String → HomeKeys → HomeKeys
delete_home_public_key trim home_id t = delete (trim home_id) t

unfoldable pub equal_bytes : Bytes → Bytes → Bool
equal_bytes [] [] = true
equal_bytes [] (y ∷ ys) = false
equal_bytes (x ∷ xs) [] = false
equal_bytes (x ∷ xs) (y ∷ ys) = nat_eq x y && equal_bytes xs ys

-- `keys` is `none` where no video store is configured; `bytes_of` is Go's conversion of a string to
-- its bytes, and `hex` hex.EncodeToString.
unfoldable pub verify_register_request :
    Crypto
    → (String → Bytes)
    → (Bytes → String)
    → Option HomeKeys
    → RegisterRequest
    → Bytes
    → Result (Unit {0})
verify_register_request k bytes_of hex keys req expected = do
  table ← or_fail keys (errorf "video store not configured" [])
  guard (not (nat_eq (length expected) 0)) (errorf "missing expected register challenge" [])
  guard (not (nat_eq (length req.challenge) 0)) (errorf "missing register challenge in request" [])
  guard (equal_bytes req.challenge expected) (
      errorf "register challenge mismatch: expected %s, got %s"
        (str (hex expected) ∷ str (hex req.challenge) ∷ []))
  stored ← get_home_public_key req.home_server_id table
  key ← context "parse public key for %s" (parse_rsa_public_key_pem k (bytes_of stored.public_key))
  RegisterAuth.verify_register_request k req key
