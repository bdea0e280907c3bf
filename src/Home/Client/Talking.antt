-- ===== src/Home/Client/Talking.antt =====
-- internal/home/quic_client.go and internal/home/server.go: what a home that connects and registers
-- writes, by what it has received.
use famfun.Prelude.{
  ◌+◌, ◌≤◌, ◌≡◌, refl, sym, [], ◌++◌, append-nil, Option, some, false, Result, ok, err, panic,
  library, wrap, length, nat_eq,
}
use famfun.Protocol.Message.{Bytes, Envelope, RegisterRequest}
use famfun.Protocol.Message
use famfun.Protocol.Stream.{Stream, open_stream, unread, read_full}
use famfun.Protocol.Framing.{Codec, IsCodec, max_message_size, read_message, read_header}
use famfun.Protocol.Framing.RoundTrip.{frame, read_message_lem, write_message_lem}
use famfun.Protocol.RegisterAuth.{Crypto, generate_challenge, sign_register_request}
use famfun.Home.Server.{HomeServer}
use famfun.Home.Client.{
  new_quic_client, handshake, server_challenge, store_connection, register, send_envelope,
  get_register_challenge, sign_with, written_by,
}

-- What a home that connects and registers has written on its control stream, once the cloud has sent
-- the given bytes.
abbrev pub sent_after :
    Codec → (k : Crypto) → Option k.PrivateKey → HomeServer → Result Bytes × Stream → Bytes
sent_after c k signer s (ok both, st) =
    written_by (register c k signer s (store_connection (ok both, st) new_quic_client).1)
sent_after c k signer s (err e, st) = st.written
sent_after c k signer s (panic, st) = st.written

abbrev pub registering :
    Codec → Crypto → (k : Crypto) → Option k.PrivateKey → HomeServer → Bytes → Bytes
registering c own k signer s received =
    sent_after c k signer s (handshake c own (open_stream (λ _. received)))

abbrev pub hello : Bytes → Envelope
hello challenge = Message.register_challenge (record { challenge = challenge })

abbrev pub request_of : HomeServer → Bytes → RegisterRequest
request_of s challenge = record {
  home_server_id = s.home_id;
  name = s.home_name;
  signature = [];
  challenge = challenge;
}

-- A message that is marshalled to bytes that fit into a frame.
abbrev pub Marshals : Codec → Envelope → Bytes → Type 0
Marshals c e b = (c.marshal e ≡ ok b) × (length b ≤ max_message_size)

nothing_read :
    (c : Codec) (st : Stream)
    → unread st ≡ []
    → read_message c st
      ≡ (err (wrap "read header" (library "EOF")), record st { consumed = st.consumed + 0 })
unfolding read_message read_header read_full
nothing_read c st h = rw h refl

module _ (c : Codec) (law : IsCodec c) (own k : Crypto) (key : k.PrivateKey) (s : HomeServer) where
  -- Before the cloud has sent anything.
  pub registering-nothing :
      (mine p : Bytes)
      → generate_challenge own 16 ≡ ok mine
      → Marshals c (hello mine) p
      → registering c own k (some key) s [] ≡ frame p
  unfolding handshake
  registering-nothing mine p made (m, fits) =
      let st₀ = open_stream (λ _. []) in
      let st₁ : Stream = record st₀ { written = [] ++ frame p } in
      rw made
        (rw (write_message_lem c (hello mine) p st₀ m refl) (rw (nothing_read c st₁ refl) refl))

  some_challenge :
      (theirs : Bytes)
      → nat_eq (length theirs) 0 ≡ false
      → server_challenge (hello theirs) ≡ ok theirs
  unfolding server_challenge
  some_challenge theirs h = rw h refl

  -- Once the cloud's challenge is there.
  pub registering-hello :
      (mine theirs p p' p'' : Bytes) (signed : RegisterRequest)
      → generate_challenge own 16 ≡ ok mine
      → nat_eq (length theirs) 0 ≡ false
      → nat_eq (length (mine ++ theirs)) 0 ≡ false
      → Marshals c (hello mine) p
      → Marshals c (hello theirs) p'
      → sign_register_request k key (request_of s (mine ++ theirs)) ≡ ok signed
      → Marshals c (Message.register_request signed) p''
      → registering c own k (some key) s (frame p') ≡ frame p ++ frame p''
  unfolding handshake register send_envelope get_register_challenge sign_with new_quic_client
  registering-hello mine theirs p p' p'' signed made some_theirs some_both (m, fits) (m', fits')
        sign (m'', fits'') =
      let st₀ = open_stream (λ _. frame p') in
      let st₁ : Stream = record st₀ { written = [] ++ frame p } in
      let st₂ : Stream = record st₁ { consumed = 0 + 4 + length p' } in
      rw made (
        rw (write_message_lem c (hello mine) p st₀ m refl) (
          rw (read_message_lem c p' [] st₁ (sym (append-nil (frame p'))) fits').0 (
            rw (law.reads_back (hello theirs) p' m') (
              rw (some_challenge theirs some_theirs) (
                rw some_both (
                  rw sign (
                    rw (write_message_lem c (Message.register_request signed) p'' st₂ m'' refl)
                      refl)))))))
