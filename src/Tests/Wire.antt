-- ===== src/Tests/Wire.antt =====
-- The theorems on internal/protocol and the chunks of an upload at concrete inputs.
use famfun.Prelude.{ℕ, ◌≡◌, refl, List, [], ◌∷◌, ◌++◌, true, ok, arith}
use famfun.Model.{Video}
use famfun.Protocol.Message.{Bytes, Envelope}
use famfun.Protocol.Message
use famfun.Protocol.Stream.{Stream, open_stream, unread}
use famfun.Protocol.Framing.RoundTrip.{Sendable, write_all, read_all, read_all-write_all}
use famfun.Cloud.DataRequest.{send_chunks, chunk_count}
use famfun.Home.Server.Upload.{receive_chunks}
use famfun.Home.Server.Upload.Chunks.{reads_of, chunks_from, receive_chunks-send_chunks}
use famfun.Tests.SampleCodec.{sample, sample-IsCodec}

abbrev pub film : Video
film = record {
  id = "v";
  filename = "film.mp4";
  title = "Film";
  description = "";
  duration = 60;
  filesize = 1000;
  resolution = "1920x1080";
  created_at = "2026-01-01";
  home_server_id = "h";
  visibility = "member";
  source_path = "/videos/film.mp4";
}

abbrev chunk : ℕ → Bytes → Envelope
chunk i b = Message.upload_video_chunk (record { bytes = b; chunk_index = i })

abbrev two_messages : List Envelope
two_messages =
    chunk 0 (7 ∷ 8 ∷ []) ∷ Message.register_challenge (record { challenge = 9 ∷ [] }) ∷ []

abbrev sent : Bytes
sent = (write_all sample two_messages (open_stream (λ b. b))).1.written

two_messages-Sendable : Sendable sample two_messages
two_messages-Sendable =
    ((1 ∷ 0 ∷ 7 ∷ 8 ∷ [], refl, omega arith), ((0 ∷ 9 ∷ [], refl, omega arith), tt))

read_all-write_all_example :
    ((write_all sample two_messages (open_stream (λ b. b))).0 ≡ ok tt)
    × ((t' : Stream) × (read_all sample 2 (open_stream (λ _. sent ++ 5 ∷ []))
          ≡ (ok two_messages, t'))
        × (unread t' ≡ 5 ∷ []))
read_all-write_all_example =
    read_all-write_all sample two_messages (5 ∷ []) (open_stream (λ b. b))
      (open_stream (λ _. sent ++ 5 ∷ [])) sample-IsCodec two_messages-Sendable refl refl refl

abbrev two_parts : List Bytes
two_parts = (7 ∷ 8 ∷ []) ∷ []

abbrev uploaded : Bytes
uploaded = (send_chunks sample (reads_of two_parts) 0 (open_stream (λ b. b))).1.written

two_parts-Sendable : Sendable sample (chunks_from 0 two_parts)
unfolding chunks_from
two_parts-Sendable = ((1 ∷ 0 ∷ 7 ∷ 8 ∷ [], refl, omega arith), tt)

receive_chunks-send_chunks_example :
    ((send_chunks sample (reads_of two_parts) 0 (open_stream (λ b. b))).0 ≡ ok tt)
    × ((t' : Stream) × (receive_chunks sample
            (λ _. true)
            (chunk_count 2)
            0
            []
            (open_stream (λ _. uploaded ++ 5 ∷ []))
          ≡ (ok (7 ∷ 8 ∷ []), t'))
        × (unread t' ≡ 5 ∷ []))
receive_chunks-send_chunks_example =
    receive_chunks-send_chunks sample two_parts (5 ∷ []) (open_stream (λ b. b))
      (open_stream (λ _. uploaded ++ 5 ∷ [])) sample-IsCodec (omega arith, omega arith)
      two_parts-Sendable refl refl refl
