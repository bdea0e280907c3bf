-- ===== src/Cloud/DataRequest.antt =====
-- internal/cloud/stream_proxy.go: one request and its answer over a new data stream, and the stream
-- part of an upload.
use famfun.Prelude.{
  ℕ, ◌+◌, ◌-◌, ◌*◌, ◌/◌, ◌%◌, ◌^◌, String, List, [], ◌∷◌, none, some, Result, ok, err, panic,
  errorf, str, Error, wrap, if◌then◌else◌,
}
use famfun.Prelude.Exec.{Exec, pure, raise, lift, context, ◌>>=◌, ◌>>◌}
use famfun.Protocol.Message.{
  Bytes, Envelope, UploadVideoRequest, get_upload_video_response, payload_type,
}
use famfun.Protocol.Message
use famfun.Protocol.Stream.{Stream}
use famfun.Protocol.Framing.{Codec, write_message, read_message}
use famfun.Cloud.Connection.{HomeConn, Quic, open_data_stream}

-- What the proxy is given: the protobuf library, and what the QUIC library answers to this call.
pub record Wire : Type 0 where
  pub codec : Codec
  pub quic : Quic

-- Run an action on the stream that the connection opens.
abbrev pub on_stream : {A : Type 0} → Wire → HomeConn → Exec Stream A → Result A
on_stream w conn action = elim (open_data_stream w.quic conn) [
  | ok s ↦ (action s).0
  | err e ↦ err (wrap "open data stream" e)
  | panic ↦ panic
]

unfoldable pub exchange : Codec → Envelope → Exec Stream Envelope
exchange c req = do
  context "write request" (write_message c req)
  context "read response" (read_message c)

unfoldable pub send_data_request : Wire → HomeConn → Envelope → Result Envelope
unfolding exchange
send_data_request w conn req = on_stream w conn (exchange w.codec req)

abbrev pub unexpected {ℓ} : {A : Type ℓ} → Envelope → Result A
unexpected resp = err (errorf "unexpected response type: %T" (str (payload_type resp) ∷ []))

-- const uploadChunkSize
abbrev pub upload_chunk_size : ℕ
upload_chunk_size = 512 * 1024

-- What a Read of the uploaded body returns beside its bytes.
pub data ReadEnd : Type 0 where
  more : ReadEnd
  eof : ReadEnd
  failed : Error → ReadEnd

-- uint32(math.Ceil(float64(filesize) / float64(uploadChunkSize))): the division by a power of two is
-- exact for sizes below 2 ^ 53, and the count fits below 2 ^ 51.
unfoldable pub chunk_count : ℕ → ℕ
chunk_count filesize = (filesize + (upload_chunk_size - 1)) / upload_chunk_size

-- One message for the bytes of one Read, if there are any.
unfoldable pub send_chunk : Codec → Bytes → ℕ → Exec Stream ℕ
send_chunk c [] index = pure index
send_chunk c (b ∷ bs) index = do
  context "write chunk %d" (
      write_message c (Message.upload_video_chunk (record { bytes = b ∷ bs; chunk_index = index })))
  pure ((index + 1) % 2 ^ 32)

-- The loop over the Reads of the body; the list ends as a Read at the end of the body does.
unfoldable pub send_chunks : Codec → List (Bytes × ReadEnd) → ℕ → Exec Stream (Unit {0})
send_chunks c [] index = pure tt
send_chunks c ((b, end) ∷ reads) index = do
  index' ← send_chunk c b index
  elim end [
    | more ↦ send_chunks c reads index'
    | eof ↦ pure tt
    | failed e ↦ raise (wrap "read body" e)
  ]

upload_reply : Envelope → Result String
upload_reply resp = elim (get_upload_video_response resp) [
  | none ↦ unexpected resp
  | some ur ↦
      if ur.success then ok ur.video_id else err (errorf "upload error: %s" (str ur.error ∷ []))
]

unfoldable pub upload_on_stream :
    Codec → UploadVideoRequest → List (Bytes × ReadEnd) → Exec Stream String
unfolding upload_reply
upload_on_stream c header reads = do
  context "write upload header" (write_message c (Message.upload_video_request header))
  send_chunks c reads 0
  resp ← context "read upload response" (read_message c)
  lift (upload_reply resp)
