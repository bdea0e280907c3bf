-- ===== src/Protocol/RegisterAuth/Signing.antt =====
-- internal/protocol/register_auth.go: a request that was signed is verified.
use famfun.Prelude.{◌≡◌, refl, sym, ap, subst, ok, false, length, nat_eq, bind-ok, context-ok}
use famfun.Protocol.Message.{Bytes, RegisterRequest}
use famfun.Protocol.RegisterAuth.{
  Crypto, IsKeyPair, register_request_payload, sign_register_request, verify_register_request,
}

abbrev pub with_signature : Bytes → RegisterRequest → RegisterRequest
with_signature s req = record req { signature = s }

signed_payload :
    (k : Crypto) (req : RegisterRequest) (s : Bytes)
    → register_request_payload k (record req { signature = s }) ≡ register_request_payload k req
unfolding register_request_payload
signed_payload k req s = refl

verify_lem :
    (k : Crypto) (key : k.PublicKey) (req : RegisterRequest) (s p : Bytes)
    → nat_eq (length s) 0 ≡ false
    → register_request_payload k req ≡ ok p
    → k.verify_pss key (k.sha256 p) s ≡ ok tt
    → verify_register_request k (record req { signature = s }) key ≡ ok tt
unfolding verify_register_request
verify_lem k key req s p some m v = rw some (rw (signed_payload k req s) (rw m (rw v)))

-- A request that was signed with the private half of a key pair passes the check with the public
-- half, and signing changes nothing of it but the signature.
pub verify_register_request-sign :
    (k : Crypto) (key : k.PublicKey) (private : k.PrivateKey) (req signed : RegisterRequest)
    → IsKeyPair k key private
    → sign_register_request k private req ≡ ok signed
    → (verify_register_request k signed key ≡ ok tt) × (with_signature req.signature signed ≡ req)
unfolding sign_register_request
verify_register_request-sign k key private req signed pair h =
    let (p, m, h₁) = bind-ok _ _ signed h in
    let (s, made, h₂) = bind-ok _ _ signed h₁ in
    let m' = context-ok _ _ p m in
    let made' = context-ok _ _ s made in
    let same : record req { signature = s } ≡ signed = cc in
    let checked =
      verify_lem k key req s p (pair.not_empty (k.sha256 p) s made') m'
        (pair.accepts (k.sha256 p) s made') in
    (
      subst (λ r. verify_register_request k r key ≡ ok tt) same checked,
      sym (ap (with_signature req.signature) same),
    )
