-- ===== src/Tests/Registration.antt =====
-- The theorems on the registration of homes at concrete inputs.
use famfun.Prelude.{
  ◌≡◌, refl, true, [], ◌∷◌, ◌++◌, none, some, false, Result, ok, err, library, nat_eq, length,
  arith,
}
use famfun.Prelude.Dict.{lookup, insert}
use famfun.Protocol.Message.{Bytes, RegisterRequest}
use famfun.Protocol.Stream.{Stream, open_stream, read_full, write}
use famfun.Protocol.Framing.{
  read_message, write_message, write_header, read_header, read_payload, put_uint32, uint32,
  validate_message_size,
}
use famfun.Protocol.Framing.RoundTrip.{frame}
use famfun.Protocol.RegisterAuth.{
  Crypto, IsKeyPair, sign_register_request, generate_challenge, register_request_payload,
  parse_rsa_public_key_pem,
}
use famfun.Protocol.RegisterAuth
use famfun.Protocol.RegisterAuth.Signing.{with_signature}
use famfun.Cloud.Connection.{new_quic_home_conn}
use famfun.Cloud.HomeKeys.{HomePublicKey, verify_register_request, get_home_public_key, equal_bytes}
use famfun.Cloud.HomeManager.{new_home_manager, get_home, register_home}
use famfun.Cloud.QuicServer.{
  QuicServer, perform_registration, receive_registration, challenge_of, admit, enter, confirm,
}
use famfun.Cloud.DataRequest.{Wire}
use famfun.Cloud.QuicServer.Control.{handle_connection}
use famfun.Cloud.QuicServer.Control.Leaving.{Restored, handle_connection-Restored}
use famfun.Cloud.QuicServer.Handshake.{Talked, Authentic}
use famfun.Cloud.QuicServer.Registration.{perform_registration-Authentic}
use famfun.Home.Server.{HomeServer}
use famfun.Home.Client.Talking.{registering}
use famfun.Home.Client.Welcome.{Acquainted, Talk, perform_registration-registering}
use famfun.Tests.SampleCodec.{sample, sample-IsCodec}
use famfun.Tests.Homes.{conn, stocked}

abbrev accepts : Bytes → Result (Unit {0})
accepts [] = err (library "verification error")
accepts (b ∷ bs) = ok tt

abbrev pub crypto : Crypto
crypto = record {
  PublicKey = Unit {0};
  PrivateKey = Unit {0};
  random = λ _. ok (6 ∷ []);
  marshal_request = λ r. ok r.challenge;
  sha256 = λ b. b;
  sign_pss = λ _ _. ok (9 ∷ []);
  verify_pss = λ _ _ signature. accepts signature;
  decode_pem = λ b. some ("PUBLIC KEY", b);
  parse_pkix_public_key = λ _. ok (some tt);
  parse_pkcs1_public_key = λ _. ok tt;
  parse_pkcs8_private_key = λ _. ok (some tt);
  parse_pkcs1_private_key = λ _. ok tt;
}

abbrev cloud : QuicServer
cloud = record {
  codec = sample;
  crypto = crypto;
  bytes_of = λ _. 1 ∷ [];
  hex = λ _. "";
  keys = some (("h", record { home_id = "h"; updated_at = "2026-01-01"; public_key = "key" }) ∷ []);
}

-- A home that sends its challenge, and then its signed request.
abbrev home : Stream
home = open_stream (λ _. frame (0 ∷ 5 ∷ []) ++ frame (2 ∷ 9 ∷ 5 ∷ 6 ∷ []))

admitted : (perform_registration cloud 3 new_home_manager home).0.0 ≡ ok conn
unfolding perform_registration receive_registration challenge_of admit enter confirm register_home
    new_home_manager lookup insert generate_challenge register_request_payload
    parse_rsa_public_key_pem read_message write_message write_header read_header read_payload
    put_uint32 uint32 validate_message_size read_full write new_quic_home_conn
    verify_register_request get_home_public_key equal_bytes RegisterAuth.verify_register_request
admitted = refl

perform_registration-Authentic_example :
    (get_home "h" new_home_manager ≡ none)
    × (get_home "h" (perform_registration cloud 3 new_home_manager home).0.1 ≡ some conn)
    × ((req : RegisterRequest) × (client server : Bytes) × (new_quic_home_conn req.home_server_id
            req.name 3
          ≡ conn)
        × Talked cloud home client server req
        × Authentic cloud req (client ++ server))
perform_registration-Authentic_example =
    perform_registration-Authentic cloud 3 new_home_manager home conn admitted

accepts_lem : (b signature : Bytes) → ok (9 ∷ []) ≡ ok signature → accepts signature ≡ ok tt
accepts_lem b [] h = absurd cc
accepts_lem b (x ∷ xs) h = refl

not_empty_lem :
    (signature : Bytes) → ok (9 ∷ []) ≡ ok signature → nat_eq (length signature) 0 ≡ false
not_empty_lem [] h = absurd cc
not_empty_lem (x ∷ xs) h = ground arith

crypto-IsKeyPair : IsKeyPair crypto tt tt
crypto-IsKeyPair = record {
  accepts = λ digest signature h. accepts_lem digest signature h;
  not_empty = λ digest signature h. not_empty_lem signature h;
}

abbrev request : RegisterRequest
request = record { home_server_id = "h"; name = "Home"; signature = []; challenge = 5 ∷ 6 ∷ [] }

signed_lem : sign_register_request crypto tt request ≡ ok (with_signature (9 ∷ []) request)
unfolding sign_register_request register_request_payload
signed_lem = refl

abbrev home_server : HomeServer
home_server = record {
  home_id = "h";
  home_name = "Home";
  video_dir = "/videos";
  stream_dir = "/streams";
  thumb_dir = "/thumbs";
  videos = [];
  disk = record { files = []; writable = λ _. true };
}

abbrev stored_key : HomePublicKey
stored_key = record { home_id = "h"; updated_at = "2026-01-01"; public_key = "key" }

acquainted : Acquainted cloud crypto tt tt home_server
unfolding get_home_public_key parse_rsa_public_key_pem lookup
acquainted = record {
  codec_law = sample-IsCodec;
  pair = crypto-IsKeyPair;
  table = ("h", stored_key) ∷ [];
  configured = refl;
  stored = stored_key;
  found = refl;
  parsed = refl;
}

talk : Talk cloud crypto tt tt home_server
unfolding generate_challenge sign_register_request register_request_payload
talk = record {
  mine = 6 ∷ [];
  theirs = 6 ∷ [];
  signed = record {
    home_server_id = "h";
    name = "Home";
    signature = 9 ∷ [];
    challenge = 6 ∷ 6 ∷ [];
  };
  hello_bytes = 0 ∷ 6 ∷ [];
  reply_bytes = 0 ∷ 6 ∷ [];
  request_bytes = 2 ∷ 9 ∷ 6 ∷ 6 ∷ [];
  registered_bytes = 7 ∷ [];
  draws = refl;
  answers = refl;
  some_mine = refl;
  some_theirs = refl;
  signs = refl;
  hello_sent = (refl, omega arith);
  reply_sent = (refl, omega arith);
  request_sent = (refl, omega arith);
  registered_sent = (refl, omega arith);
}

nobody : get_home "h" new_home_manager ≡ none
unfolding get_home new_home_manager lookup
nobody = refl

perform_registration-registering_example :
    ((perform_registration cloud 3 new_home_manager
        (open_stream (registering sample crypto crypto (some tt) home_server))).0.0
      ≡ ok (new_quic_home_conn "h" "Home" 3))
    × (get_home "h"
          (perform_registration cloud 3 new_home_manager
            (open_stream (registering sample crypto crypto (some tt) home_server))).0.1
        ≡ some (new_quic_home_conn "h" "Home" 3))
perform_registration-registering_example =
    perform_registration-registering cloud crypto tt tt home_server acquainted talk 3
      new_home_manager nobody

abbrev no_streams : Wire
no_streams = record { codec = sample; quic = λ _. err (library "no stream") }

handle_connection-Restored_example :
    Restored stocked (handle_connection 7 cloud no_streams 5 stocked home)
handle_connection-Restored_example = handle_connection-Restored 7 cloud no_streams 5 stocked home
