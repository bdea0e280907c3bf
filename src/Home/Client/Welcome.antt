-- ===== src/Home/Client/Welcome.antt =====
-- A registration from end to end: Connect of internal/home/quic_client.go and register of
-- internal/home/server.go on the one side, performRegistration of internal/cloud/quic_server.go on the
-- other.
use famfun.Prelude.{
  ℕ, ◌+◌, ◌≡◌, refl, sym, ap, ap₂, eq_refl, ◌∙◌, [], ◌∷◌, ◌++◌, append-nil, none, some, true, false,
  ok, length, nat_eq, arith, length-append,
}
use famfun.Prelude.Dict.{lookup, lookup-insert}
use famfun.Protocol.Message.{Bytes, Envelope, RegisterRequest}
use famfun.Protocol.Message
use famfun.Protocol.Stream.{Stream, open_stream, unread}
use famfun.Protocol.Framing.{IsCodec}
use famfun.Protocol.Framing.RoundTrip.{frame, read_message_lem, write_message_lem}
use famfun.Protocol.RegisterAuth.{
  Crypto, IsKeyPair, generate_challenge, sign_register_request, parse_rsa_public_key_pem,
}
use famfun.Protocol.RegisterAuth
use famfun.Protocol.RegisterAuth.Signing.{verify_register_request-sign}
use famfun.Cloud.Connection.{new_quic_home_conn}
use famfun.Cloud.HomeKeys.{
  HomeKeys, HomePublicKey, equal_bytes, verify_register_request, get_home_public_key,
}
use famfun.Cloud.HomeManager.{HomeManager, register_home, get_home}
use famfun.Cloud.QuicServer.{
  QuicServer, perform_registration, receive_registration, challenge_of, admit, enter, confirm,
  registered,
}
use famfun.Home.Server.{HomeServer}
use famfun.Home.Client.Talking.{
  registering, hello, request_of, Marshals, registering-nothing, registering-hello,
}

equal_bytes_refl : (b : Bytes) → equal_bytes b b ≡ true
unfolding equal_bytes
equal_bytes_refl [] = refl
equal_bytes_refl (x ∷ xs) = ground (arith, equal_bytes_refl xs)

module _ (q : QuicServer) (own : Crypto) (public : q.crypto.PublicKey) (key : q.crypto.PrivateKey)
    (s : HomeServer) where
  -- What the cloud and the home have in common: the home's public key is stored, and the two keys are
  -- a pair.
  pub record Acquainted : Type 1 where
    pub codec_law : IsCodec q.codec
    pub pair : IsKeyPair q.crypto public key
    pub table : HomeKeys
    pub configured : q.keys ≡ some table
    pub stored : HomePublicKey
    pub found : get_home_public_key s.home_id table ≡ ok stored
    pub parsed : parse_rsa_public_key_pem q.crypto (q.bytes_of stored.public_key) ≡ ok public

  -- The two challenges, the request that the home signs, and the bytes of the messages.
  pub record Talk : Type 0 where
    pub mine : Bytes
    pub theirs : Bytes
    pub signed : RegisterRequest
    pub hello_bytes : Bytes
    pub reply_bytes : Bytes
    pub request_bytes : Bytes
    pub registered_bytes : Bytes
    pub draws : generate_challenge own 16 ≡ ok mine
    pub answers : generate_challenge q.crypto 16 ≡ ok theirs
    pub some_mine : nat_eq (length mine) 0 ≡ false
    pub some_theirs : nat_eq (length theirs) 0 ≡ false
    pub signs : sign_register_request q.crypto key (request_of s (mine ++ theirs)) ≡ ok signed
    pub hello_sent : Marshals q.codec (hello mine) hello_bytes
    pub reply_sent : Marshals q.codec (hello theirs) reply_bytes
    pub request_sent : Marshals q.codec (Message.register_request signed) request_bytes
    pub registered_sent : Marshals q.codec registered registered_bytes

  some_challenges : (a b : Bytes) → nat_eq (length a) 0 ≡ false → nat_eq (length (a ++ b)) 0 ≡ false
  some_challenges a b h = ground (arith, h, length-append a b)

  verify_ok :
      (req : RegisterRequest) (expected : Bytes) (a : Acquainted)
      → nat_eq (length expected) 0 ≡ false
      → nat_eq (length req.challenge) 0 ≡ false
      → equal_bytes req.challenge expected ≡ true
      → get_home_public_key req.home_server_id a.table ≡ ok a.stored
      → RegisterAuth.verify_register_request q.crypto req public ≡ ok tt
      → verify_register_request q.crypto q.bytes_of q.hex q.keys req expected ≡ ok tt
  unfolding verify_register_request
  verify_ok req expected a some_expected some_answer same found good =
      rw a.configured
        (rw some_expected (rw some_answer (rw same (rw found (rw a.parsed (rw good refl))))))

  verified :
      (a : Acquainted) (t : Talk)
      → verify_register_request q.crypto q.bytes_of q.hex q.keys t.signed (t.mine ++ t.theirs)
        ≡ ok tt
  verified a t =
      let (good, same) =
        verify_register_request-sign q.crypto public key (request_of s (t.mine ++ t.theirs))
          t.signed a.pair t.signs in
      let id : t.signed.home_server_id ≡ s.home_id = ap (λ r. r.home_server_id) same in
      let both : t.signed.challenge ≡ t.mine ++ t.theirs = ap (λ r. r.challenge) same in
      let some_both = some_challenges t.mine t.theirs t.some_mine in
      verify_ok t.signed (t.mine ++ t.theirs) a some_both
        (ap (λ b. nat_eq (length b) 0) both ∙ some_both)
        (ap (λ b. equal_bytes b (t.mine ++ t.theirs)) both ∙ equal_bytes_refl (t.mine ++ t.theirs))
        (ap (λ i. get_home_public_key i a.table) id ∙ a.found) good

  received :
      (a : Acquainted) (t : Talk)
      → let st₀ = open_stream (registering q.codec own q.crypto (some key) s) in
        receive_registration q st₀ ≡ (
          ok t.signed,
          record st₀ {
            written = [] ++ frame t.reply_bytes;
            consumed = 0 + 4 + length t.hello_bytes + 4 + length t.request_bytes;
          },
        )
  unfolding receive_registration challenge_of
  received a t =
      let peer = registering q.codec own q.crypto (some key) s in
      let st₀ = open_stream peer in
      let st₁ : Stream = record st₀ { consumed = 0 + 4 + length t.hello_bytes } in
      let st₂ : Stream = record st₁ { written = [] ++ frame t.reply_bytes } in
      let first : unread st₀ ≡ frame t.hello_bytes ++ [] =
        registering-nothing q.codec a.codec_law own q.crypto key s t.mine t.hello_bytes t.draws
          t.hello_sent
        ∙ sym (append-nil (frame t.hello_bytes)) in
      let talk =
        registering-hello q.codec a.codec_law own q.crypto key s t.mine t.theirs t.hello_bytes
          t.reply_bytes t.request_bytes t.signed t.draws t.some_theirs
          (some_challenges t.mine t.theirs t.some_mine) t.hello_sent t.reply_sent t.signs
          t.request_sent in
      let behind =
        (read_message_lem q.codec t.hello_bytes (frame t.request_bytes)
          (record st₀ { written = [] ++ frame t.reply_bytes }) talk t.hello_sent.1).1 in
      let second : unread st₂ ≡ frame t.request_bytes ++ [] =
        behind ∙ sym (append-nil (frame t.request_bytes)) in
      rw (read_message_lem q.codec t.hello_bytes [] st₀ first t.hello_sent.1).0 (
        rw (a.codec_law.reads_back (hello t.mine) t.hello_bytes t.hello_sent.0) (
          rw t.some_mine (
            rw t.answers (
              rw (write_message_lem q.codec (hello t.theirs) t.reply_bytes st₁ t.reply_sent.0 refl)
                (rw (read_message_lem q.codec t.request_bytes [] st₂ second t.request_sent.1).0 (
                  rw
                    (a.codec_law.reads_back (Message.register_request t.signed) t.request_bytes
                      t.request_sent.0)
                    (rw (verified a t) refl)))))))

  admitted :
      (t : Talk) (req : RegisterRequest) (conn : ℕ) (m : HomeManager) (st : Stream)
      → st.fates ≡ []
      → get_home req.home_server_id m ≡ none
      → let r = admit q.codec conn m (ok req, st) in
        (r.0.0 ≡ ok (new_quic_home_conn req.home_server_id req.name conn))
        × (get_home req.home_server_id r.0.1
            ≡ some (new_quic_home_conn req.home_server_id req.name conn))
  unfolding admit register_home get_home enter confirm
  admitted t req conn m st no_fates free =
      let hc = new_quic_home_conn req.home_server_id req.name conn in
      let here : lookup req.home_server_id m.homes ≡ none = free in
      rw (here, register_home)
        (rw
          (write_message_lem q.codec registered t.registered_bytes st t.registered_sent.0 no_fates)
          (
            refl,
            lookup-insert req.home_server_id req.home_server_id hc m.homes
                ∙ rw (eq_refl req.home_server_id) refl,
          ))

  -- A home that connects and registers is registered: where the cloud has stored its public key, the
  -- two keys are a pair, its identifier is free, the challenges are not empty and the messages can be
  -- marshalled and fit into frames, the registration succeeds, with the home's identifier and name,
  -- and its connection is the one that the registry then finds.
  pub perform_registration-registering :
      (a : Acquainted) (t : Talk) (conn : ℕ) (m : HomeManager)
      → get_home s.home_id m ≡ none
      → let r =
          perform_registration q conn m
            (open_stream (registering q.codec own q.crypto (some key) s)) in
        (r.0.0 ≡ ok (new_quic_home_conn s.home_id s.home_name conn))
        × (get_home s.home_id r.0.1 ≡ some (new_quic_home_conn s.home_id s.home_name conn))
  unfolding perform_registration
  perform_registration-registering a t conn m free =
      let (_, same) =
        verify_register_request-sign q.crypto public key (request_of s (t.mine ++ t.theirs))
          t.signed a.pair t.signs in
      let id : t.signed.home_server_id ≡ s.home_id = ap (λ r. r.home_server_id) same in
      let name : t.signed.name ≡ s.home_name = ap (λ r. r.name) same in
      let st : Stream = record (open_stream (registering q.codec own q.crypto (some key) s)) {
        written = [] ++ frame t.reply_bytes;
        consumed = 0 + 4 + length t.hello_bytes + 4 + length t.request_bytes;
      } in
      let m' = (admit q.codec conn m (ok t.signed, st)).0.1 in
      let (good, there) = admitted t t.signed conn m st refl (ap (λ i. get_home i m) id ∙ free) in
      rw (received a t) (
        good ∙ ap₂ (λ i n. ok (new_quic_home_conn i n conn)) id name,
        ap (λ i. get_home i m') (sym id)
            ∙ there
            ∙ ap₂ (λ i n. some (new_quic_home_conn i n conn)) id name,
      )
