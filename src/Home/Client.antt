-- ===== src/Home/Client.antt =====
-- internal/home/quic_client.go: the connection of a home server to the cloud, up to the registration of
-- internal/home/server.go and internal/home/register_signer.go. Methods that hold the client's lock are
-- one step.
pub mod Talking
pub mod Accepting
pub mod Reading
pub mod Welcome
use famfun.Prelude.{
  ℕ, String, List, [], ◌∷◌, ◌++◌, Option, none, some, Bool, true, false, Result, ok, err, panic,
  Error, errorf, str, wrap, length, nat_eq, if◌then◌else◌,
}
use famfun.Prelude.Exec.{Exec, pure, lift, context, ◌>>=◌, ◌>>◌}
use famfun.Protocol.Message.{
  Bytes, Envelope, RegisterRequest, get_register_challenge as challenge_in, payload_type,
}
use famfun.Protocol.Message
use famfun.Protocol.Stream.{Stream}
use famfun.Protocol.Framing.{Codec, read_message, write_message}
use famfun.Protocol.RegisterAuth.{
  Crypto, generate_challenge, sign_register_request, parse_rsa_private_key_pem,
}
use famfun.Home.Server.{HomeServer}

-- QUICClient, without the handler: the control stream is there once Connect has succeeded.
-- `disconnected` is whether the channel of that name is closed; none is the nil channel.
pub record QuicClient : Type 0 where
  pub control_stream : Option Stream
  pub register_challenge : Bytes
  pub closed : Bool
  pub disconnected : Option Bool

unfoldable pub new_quic_client : QuicClient
new_quic_client = record {
  control_stream = none;
  register_challenge = [];
  closed = false;
  disconnected = none;
}

-- The challenge of the cloud, which must not be empty.
unfoldable pub server_challenge : Envelope → Result Bytes
server_challenge e = elim (challenge_in e) [
  | none ↦ err (errorf "expected register challenge, got %T" (str (payload_type e) ∷ []))
  | some r ↦
      if nat_eq (length r.challenge) 0
      then err (errorf "expected register challenge, got %T" (str (payload_type e) ∷ []))
      else ok r.challenge
]

-- The messages of Connect, with both challenges as the result.
unfoldable pub handshake : Codec → Crypto → Exec Stream Bytes
handshake c k = do
  mine ← context "generate register challenge" (lift (generate_challenge k 16))
  context "send register challenge"
      (write_message c (Message.register_challenge (record { challenge = mine })))
  reply ← context "read register challenge" (read_message c)
  theirs ← lift (server_challenge reply)
  pure (mine ++ theirs)

-- The end of Connect: what is stored in the client.
abbrev pub store_connection : Result Bytes × Stream → QuicClient → Result (Unit {0}) × QuicClient
store_connection (ok both, st) c = (
  ok tt,
  record {
    control_stream = some st;
    register_challenge = both;
    closed = false;
    disconnected = some false;
  },
)
store_connection (err e, st) c = (err e, c)
store_connection (panic, st) c = (panic, c)

-- `dial` is what quic.DialAddr answers, and in it what OpenStreamSync answers.
unfoldable pub connect :
    Codec → Crypto → Result (Result Stream) → QuicClient → Result (Unit {0}) × QuicClient
connect c k (err e) cl = (err (wrap "quic dial" e), cl)
connect c k panic cl = (panic, cl)
connect c k (ok (err e)) cl = (err (wrap "open control stream" e), cl)
connect c k (ok panic) cl = (panic, cl)
connect c k (ok (ok st)) cl = store_connection (handshake c k st) cl

abbrev pub with_stream : QuicClient → Result (Unit {0}) × Stream → Result (Unit {0}) × QuicClient
with_stream cl (r, st) = (r, record cl { control_stream = some st })

unfoldable pub send_envelope : Codec → Envelope → Exec QuicClient (Unit {0})
send_envelope c env cl = elim cl.control_stream [
  | none ↦ (err (errorf "not connected" []), cl)
  | some st ↦ with_stream cl (write_message c env st)
]

unfoldable pub get_register_challenge : Exec QuicClient Bytes
get_register_challenge cl =
    if nat_eq (length cl.register_challenge) 0
    then (err (errorf "register challenge not available" []), cl)
    else (ok cl.register_challenge, cl)

unfoldable pub close : QuicClient → QuicClient
close cl = record cl { closed = true }

-- NewRSASignerFromFile, from the bytes of the file.
unfoldable pub new_rsa_signer : (k : Crypto) → Result Bytes → Result k.PrivateKey
new_rsa_signer k (err e) = err (wrap "read private key" e)
new_rsa_signer k panic = panic
new_rsa_signer k (ok b) = parse_rsa_private_key_pem k b

-- The request with a signature, if the server has a signer.
unfoldable pub sign_with :
    (k : Crypto) → Option k.PrivateKey → RegisterRequest → Result RegisterRequest
sign_with k none req = ok req
sign_with k (some key) req = sign_register_request k key req

-- HomeServer.register
unfoldable pub register :
    Codec → (k : Crypto) → Option k.PrivateKey → HomeServer → Exec QuicClient (Unit {0})
register c k signer s = do
  challenge ← context "get register challenge" get_register_challenge
  req ← context "sign register request" (
      lift (
        sign_with k signer (record {
          home_server_id = s.home_id;
          name = s.home_name;
          signature = [];
          challenge = challenge;
        })))
  send_envelope c (Message.register_request req)

-- What an action on the client has written to the control stream.
abbrev pub written_by : Result (Unit {0}) × QuicClient → Bytes
written_by (r, cl) = elim cl.control_stream [ none ↦ [] | some st ↦ st.written ]
