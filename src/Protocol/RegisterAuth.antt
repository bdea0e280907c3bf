-- ===== src/Protocol/RegisterAuth.antt =====
-- internal/protocol/register_auth.go: how a home server signs its registration and how the cloud
-- checks it.
pub mod Signing
use famfun.Prelude.{
  ℕ, String, [], ◌∷◌, ◌≡◌, ◌==◌, Option, Result, ok, err, errorf, str, or_fail, context, length,
  nat_eq, false, ◌>>=◌, if◌then◌else◌,
}
use famfun.Protocol.Message.{Bytes, RegisterRequest}

-- The cryptography of the Go library, and the deterministic marshalling of a request. `random` is
-- what rand.Read answers for a number of bytes; `sign_pss` has its randomness inside. A PKIX or PKCS 8
-- key that is not RSA is `none`.
pub record Crypto : Type 1 where
  pub PublicKey : Type 0
  pub PrivateKey : Type 0
  pub random : ℕ → Result Bytes
  pub marshal_request : RegisterRequest → Result Bytes
  pub sha256 : Bytes → Bytes
  pub sign_pss : PrivateKey → Bytes → Result Bytes
  pub verify_pss : PublicKey → Bytes → Bytes → Result (Unit {0})
  pub decode_pem : Bytes → Option (String × Bytes)
  pub parse_pkix_public_key : Bytes → Result (Option PublicKey)
  pub parse_pkcs1_public_key : Bytes → Result PublicKey
  pub parse_pkcs8_private_key : Bytes → Result (Option PrivateKey)
  pub parse_pkcs1_private_key : Bytes → Result PrivateKey

-- What a key pair is for: what the one half signed, the other half accepts, and no signature is
-- empty.
pub record IsKeyPair (k : Crypto) (key : k.PublicKey) (private : k.PrivateKey) : Type 0 where
  pub accepts :
      (digest signature : Bytes)
      → k.sign_pss private digest ≡ ok signature
      → k.verify_pss key digest signature ≡ ok tt
  pub not_empty :
      (digest signature : Bytes)
      → k.sign_pss private digest ≡ ok signature
      → nat_eq (length signature) 0 ≡ false

unfoldable pub generate_challenge : Crypto → ℕ → Result Bytes
generate_challenge k length = k.random length

unfoldable pub register_request_payload : Crypto → RegisterRequest → Result Bytes
register_request_payload k req = k.marshal_request (record {
  home_server_id = req.home_server_id;
  name = req.name;
  signature = [];
  challenge = req.challenge;
})

unfoldable pub sign_register_request :
    (k : Crypto) → k.PrivateKey → RegisterRequest → Result RegisterRequest
sign_register_request k key req = do
  payload ← context "marshal register request" (register_request_payload k req)
  signature ← context "sign register request" (k.sign_pss key (k.sha256 payload))
  ok (record req { signature = signature })

unfoldable pub verify_register_request :
    (k : Crypto) → RegisterRequest → k.PublicKey → Result (Unit {0})
verify_register_request k req key =
    if nat_eq (length req.signature) 0
    then err (errorf "missing register request signature" [])
    else (context "marshal register request" (register_request_payload k req) >>= λ payload.
        context "verify register request" (k.verify_pss key (k.sha256 payload) req.signature))

unfoldable pub parse_rsa_public_key_pem : (k : Crypto) → Bytes → Result k.PublicKey
parse_rsa_public_key_pem k b = do
  block ← or_fail (k.decode_pem b) (errorf "invalid PEM data" [])
  if block.0 == "PUBLIC KEY"
      then (context "parse public key" (k.parse_pkix_public_key block.1) >>= λ any.
          or_fail any (errorf "public key is not RSA" []))
      else if block.0 == "RSA PUBLIC KEY"
      then context "parse RSA public key" (k.parse_pkcs1_public_key block.1)
      else err (errorf "unsupported PEM block type %q" (str block.0 ∷ []))

unfoldable pub parse_rsa_private_key_pem : (k : Crypto) → Bytes → Result k.PrivateKey
parse_rsa_private_key_pem k b = do
  block ← or_fail (k.decode_pem b) (errorf "invalid PEM data" [])
  if block.0 == "RSA PRIVATE KEY"
      then context "parse RSA private key" (k.parse_pkcs1_private_key block.1)
      else if block.0 == "PRIVATE KEY"
      then (context "parse private key" (k.parse_pkcs8_private_key block.1) >>= λ any.
          or_fail any (errorf "private key is not RSA" []))
      else err (errorf "unsupported PEM block type %q" (str block.0 ∷ []))
