-- ===== src/Cloud/QuicServer/Handshake.antt =====
-- internal/cloud/quic_server.go and internal/cloud/homekeydb.go: the messages of a registration that the
-- cloud accepts.
use famfun.Prelude.{
  [], ◌∷◌, ◌++◌, ◌≡◌, refl, ap, ap₂, subst, ◌∙◌, some, true, Result, ok, errorf, str, length,
  nat_eq, nat_eq_iff, Bool-cases, inl, inr, arith, err_ne_ok, or_fail, bind-ok, then-ok, context-ok,
  guard-ok, or_fail-ok,
}
use famfun.Prelude.Dict.{lookup}
use famfun.Prelude.Exec.{wrapped, next-ok, wrapped-ok, pure-ok}
use famfun.Protocol.Message.{
  Bytes, Envelope, RegisterRequest, RegisterChallenge, get_register_request, payload_type,
}
use famfun.Protocol.Message
use famfun.Protocol.Stream.{Stream}
use famfun.Protocol.Framing.{read_message, write_message}
use famfun.Protocol.RegisterAuth.{
  Crypto, generate_challenge, register_request_payload, parse_rsa_public_key_pem,
}
use famfun.Protocol.RegisterAuth
use famfun.Cloud.HomeKeys.{
  HomeKeys, HomePublicKey, equal_bytes, verify_register_request, get_home_public_key,
}
use famfun.Cloud.QuicServer.{QuicServer, challenge_of, receive_registration}

-- The request answers both challenges, and its signature over the identifier, the name and the
-- challenges is accepted by the key that is stored for the identifier.
pub record Authentic (q : QuicServer) (req : RegisterRequest) (expected : Bytes) : Type 1 where
  pub table : HomeKeys
  pub configured : q.keys ≡ some table
  pub answers : req.challenge ≡ expected
  pub stored : HomePublicKey
  pub found : lookup req.home_server_id table ≡ some stored
  pub key : q.crypto.PublicKey
  pub parsed : parse_rsa_public_key_pem q.crypto (q.bytes_of stored.public_key) ≡ ok key
  pub payload : Bytes
  pub marshalled : register_request_payload q.crypto req ≡ ok payload
  pub accepted : q.crypto.verify_pss key (q.crypto.sha256 payload) req.signature ≡ ok tt

equal_bytes_lem : (xs ys : Bytes) → equal_bytes xs ys ≡ true → xs ≡ ys
unfolding equal_bytes
equal_bytes_lem [] [] h = refl
equal_bytes_lem [] (y ∷ ys) h = absurd cc
equal_bytes_lem (x ∷ xs) [] h = absurd cc
equal_bytes_lem (x ∷ xs) (y ∷ ys) h = elim (Bool-cases (nat_eq x y)) [
  | inl e ↦ ap₂ ◌∷◌ ((nat_eq_iff x y).0 e) (equal_bytes_lem xs ys (rw e at h))
  | inr e ↦ absurd (ground (arith, e))
]

signature_lem :
    (k : Crypto) (req : RegisterRequest) (key : k.PublicKey)
    → RegisterAuth.verify_register_request k req key ≡ ok tt
    → (payload : Bytes) × (register_request_payload k req ≡ ok payload)
      × (k.verify_pss key (k.sha256 payload) req.signature ≡ ok tt)
unfolding RegisterAuth.verify_register_request
signature_lem k req key h = elim (Bool-cases (nat_eq (length req.signature) 0)) [
  | inl e ↦ absurd (ground (arith, e))
  | inr e ↦
      let (payload, m, v) = bind-ok _ _ tt (rw e at h) in
      (payload, context-ok _ _ payload m, context-ok _ _ tt v)
]

verify_register_request-Authentic :
    (q : QuicServer) (req : RegisterRequest) (expected : Bytes)
    → verify_register_request q.crypto q.bytes_of q.hex q.keys req expected ≡ ok tt
    → Authentic q req expected
unfolding verify_register_request get_home_public_key
verify_register_request-Authentic q req expected h =
    let (table, configured, h₁) = bind-ok _ _ tt h in
    let (_, h₂) = then-ok _ _ tt h₁ in
    let (_, h₃) = then-ok _ _ tt h₂ in
    let (same, h₄) = then-ok _ _ tt h₃ in
    let (stored, found, h₅) = bind-ok _ _ tt h₄ in
    let (key, parsed, h₆) = bind-ok _ _ tt h₅ in
    let (payload, marshalled, accepted) = signature_lem q.crypto req key h₆ in
    record {
      table = table;
      configured = or_fail-ok _ _ table configured;
      answers = equal_bytes_lem req.challenge expected (guard-ok _ _ tt same);
      stored = stored;
      found = or_fail-ok _ _ stored found;
      key = key;
      parsed = context-ok _ _ key parsed;
      payload = payload;
      marshalled = marshalled;
      accepted = accepted;
    }

-- The messages of a registration on the control stream: the home's challenge is read first, the
-- cloud's is made and sent, and then the request is read.
pub record Talked (q : QuicServer) (st : Stream) (client server : Bytes) (req : RegisterRequest)
    : Type 0 where
  pub first : RegisterChallenge
  pub after_first : Stream
  pub read_first : read_message q.codec st ≡ (ok (Message.register_challenge first), after_first)
  pub client_part : first.challenge ≡ client
  pub fresh : generate_challenge q.crypto 16 ≡ ok server
  pub after_sent : Stream
  pub sent :
      write_message q.codec (Message.register_challenge (record { challenge = server })) after_first
      ≡ (ok tt, after_sent)
  pub after_second : Stream
  pub read_second :
      read_message q.codec after_sent ≡ (ok (Message.register_request req), after_second)

challenge_of-ok :
    (e : Envelope) (b : Bytes)
    → challenge_of e ≡ ok b
    → (r : RegisterChallenge) × (e ≡ Message.register_challenge r) × (r.challenge ≡ b)
unfolding challenge_of
challenge_of-ok (Message.register_challenge r) b h = (r, refl, ground arith)
challenge_of-ok _ b h = absurd (err_ne_ok h)

register_request-some :
    (e : Envelope) (req : RegisterRequest)
    → get_register_request e ≡ some req
    → e ≡ Message.register_request req
register_request-some (Message.register_request r) req h = cc
register_request-some _ req h = absurd cc

pub receive_registration-Authentic :
    (q : QuicServer) (st st' : Stream) (req : RegisterRequest)
    → receive_registration q st ≡ (ok req, st')
    → (client server : Bytes) × Talked q st client server req × Authentic q req (client ++ server)
unfolding receive_registration
receive_registration-Authentic q st st' req h =
    let read : Stream → Result Envelope × Stream = read_message q.codec in
    let send : Bytes → Stream → Result (Unit {0}) × Stream =
      λ b. write_message q.codec (Message.register_challenge (record { challenge = b })) in
    let (first, s₁, got, h₁) =
      next-ok (wrapped "read register challenge request" (read st)) _ req st' h in
    let (client, s₂, asked, h₂) = next-ok (challenge_of first, s₁) _ req st' h₁ in
    let (server, s₃, made, h₃) =
      next-ok (wrapped "generate register challenge" (generate_challenge q.crypto 16, s₂)) _ req st'
        h₂ in
    let (_, s₄, wrote, h₄) =
      next-ok (wrapped "send register challenge" (send server s₃)) _ req st' h₃ in
    let (second, s₅, came, h₅) = next-ok (wrapped "read register message" (read s₄)) _ req st' h₄ in
    let refused = errorf "expected RegisterRequest, got %T" (str (payload_type second) ∷ []) in
    let (req', s₆, is_request, h₆) =
      next-ok (or_fail (get_register_request second) refused, s₅) _ req st' h₅ in
    let check = verify_register_request q.crypto q.bytes_of q.hex q.keys req' (client ++ server) in
    let (_, s₇, verified, h₇) =
      next-ok (wrapped "verify register request" (check, s₆)) _ req st' h₆ in
    let made' = wrapped-ok _ (generate_challenge q.crypto 16, s₂) server s₃ made in
    let verified' = ap (λ r. r.0) (wrapped-ok _ (check, s₆) tt s₇ verified) in
    let same = pure-ok req' req s₇ st' h₇ in
    let (r, is_challenge, part) = challenge_of-ok first client (ap (λ p. p.0) asked) in
    let at_sent : s₁ ≡ s₃ = ap (λ p. p.1) asked ∙ ap (λ p. p.1) made' in
    let request =
      register_request-some second req' (or_fail-ok _ _ req' (ap (λ p. p.0) is_request)) in
    let talked : Talked q st client server req' = record {
      first = r;
      after_first = s₁;
      read_first = wrapped-ok _ (read st) first s₁ got ∙ ap (λ e. (ok e, s₁)) is_challenge;
      client_part = part;
      fresh = ap (λ p. p.0) made';
      after_sent = s₄;
      sent = ap (send server) at_sent ∙ wrapped-ok _ (send server s₃) tt s₄ wrote;
      after_second = s₅;
      read_second = wrapped-ok _ (read s₄) second s₅ came ∙ ap (λ e. (ok e, s₅)) request;
    } in
    (
      client,
      server,
      subst (Talked q st client server) same talked,
      subst (λ r. Authentic q r (client ++ server)) same
          (verify_register_request-Authentic q req' (client ++ server) verified'),
    )
