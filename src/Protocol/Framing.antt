-- ===== src/Protocol/Framing.antt =====
-- internal/protocol/framing.go: an envelope on a stream is a four-byte length and that many bytes.
pub mod RoundTrip
use famfun.Prelude.{
  ℕ, ◌+◌, ◌*◌, ◌/◌, ◌%◌, ◌^◌, ◌≤◌, ◌≡◌, List, [], ◌∷◌, Result, ok, err, errorf, Arg, num, length,
  ltb, if◌then◌else◌, String,
}
use famfun.Prelude.Exec.{Exec, pure, raise, lift, context, ◌>>=◌, ◌>>◌}
use famfun.Protocol.Message.{Bytes, Envelope}
use famfun.Protocol.Stream.{Stream, write, read_full}

-- const MaxMessageSize
abbrev pub max_message_size : ℕ
max_message_size = 50 * 1024 * 1024

-- google.golang.org/protobuf: proto.Marshal and proto.Unmarshal of an envelope.
pub record Codec : Type 0 where
  pub marshal : Envelope → Result Bytes
  pub unmarshal : Bytes → Result Envelope

-- What the library documents: a marshalled envelope is read back as it was.
pub record IsCodec (c : Codec) : Type 0 where
  pub reads_back : (e : Envelope) (b : Bytes) → c.marshal e ≡ ok b → c.unmarshal b ≡ ok e

abbrev pub marshal_envelope : Codec → Envelope → Result Bytes
marshal_envelope c env = c.marshal env

abbrev pub unmarshal_envelope : Codec → Bytes → Result Envelope
unmarshal_envelope c b = c.unmarshal b

-- binary.BigEndian.PutUint32
unfoldable pub put_uint32 : ℕ → Bytes
put_uint32 n = (n / 2 ^ 24 % 256) ∷ (n / 2 ^ 16 % 256) ∷ (n / 2 ^ 8 % 256) ∷ (n % 256) ∷ []

-- binary.BigEndian.Uint32 of a four-byte buffer
unfoldable pub uint32 : Bytes → ℕ
uint32 (a ∷ b ∷ c ∷ d ∷ []) = a * 2 ^ 24 + b * 2 ^ 16 + c * 2 ^ 8 + d
uint32 _ = 0

unfoldable pub write_header : ℕ → Exec Stream (Unit {0})
write_header n = write (put_uint32 n)

unfoldable pub read_header : Exec Stream ℕ
read_header = do header ← read_full 4; pure (uint32 header)

unfoldable pub validate_message_size : ℕ → Result (Unit {0})
validate_message_size n =
    if ltb max_message_size n
    then err
        (errorf "message too large: %d bytes (max %d)" (Arg.num n ∷ Arg.num max_message_size ∷ []))
    else ok tt

unfoldable pub read_payload : ℕ → Exec Stream Bytes
read_payload n = read_full n

unfoldable pub write_message : Codec → Envelope → Exec Stream (Unit {0})
write_message c env = do
  b ← context "marshal envelope" (lift (marshal_envelope c env))
  context "write header" (write_header (length b % 2 ^ 32))
  context "write payload" (write b)

unfoldable pub read_message : Codec → Exec Stream Envelope
read_message c = do
  n ← context "read header" read_header
  lift (validate_message_size n)
  b ← context "read payload" (read_payload n)
  lift (unmarshal_envelope c b)
