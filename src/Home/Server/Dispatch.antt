-- ===== src/Home/Server/Dispatch.antt =====
-- internal/home/quic_client.go: a data stream that the cloud opens: its request is read, answered by
-- the handler, and the answer is written. The handler is the home server, which `Run` sets before it
-- connects.
use famfun.Prelude.{Option, none, some, Result, ok, err, panic}
use famfun.Protocol.Message.{Bytes, Envelope}
use famfun.Protocol.Message
use famfun.Protocol.Stream.{Stream, open_stream}
use famfun.Protocol.Framing.{Codec, read_message, write_message}
use famfun.Home.Scanner.{Tools}
use famfun.Home.Server.{
  HomeServer, handle_get_playlist, handle_get_segment, handle_get_video_info, handle_get_thumbnail,
  handle_update_video_info, handle_scan,
}
use famfun.Home.Server.Upload.{UploadEnv, handle_upload_video}

-- The answer, if one is to be written, with the stream and the server after the handler.
unfoldable pub dispatch_data_request :
    Codec
    → Tools
    → UploadEnv
    → Stream
    → Envelope
    → HomeServer
    → Option Envelope × (Stream × HomeServer)
dispatch_data_request c t env st e s = elim e [
  | Message.get_playlist_request req ↦
      (some (Message.get_playlist_response (handle_get_playlist req s)), (st, s))
  | Message.get_segment_request req ↦
      (some (Message.get_segment_response (handle_get_segment req s)), (st, s))
  | Message.get_video_info_request req ↦
      (some (Message.get_video_info_response (handle_get_video_info req s)), (st, s))
  | Message.get_thumbnail_request req ↦
      (some (Message.get_thumbnail_response (handle_get_thumbnail req s)), (st, s))
  | Message.update_video_info_request req ↦
      let (resp, s') = handle_update_video_info t req s in
      (some (Message.update_video_info_response resp), (st, s'))
  | Message.upload_video_request req ↦ (none, handle_upload_video c t env req s st)
  | Message.scan_request req ↦ (some (Message.scan_response (handle_scan req s)), (st, s))
  | _ ↦ (none, (st, s))
]

-- The end of `handleDataStream`: the answer is written, if there is one.
abbrev pub write_answer : Codec → Option Envelope × (Stream × HomeServer) → Stream × HomeServer
write_answer c (none, (st, s)) = (st, s)
write_answer c (some r, (st, s)) = ((write_message c r st).1, s)

-- `handleDataStream` from the result of its read on. A panic ends the process; nothing more is
-- written then.
abbrev pub answer_request :
    Codec → Tools → UploadEnv → HomeServer → Result Envelope × Stream → Stream × HomeServer
answer_request c t env s (ok req, st) = write_answer c (dispatch_data_request c t env st req s)
answer_request c t env s (err e, st) = (st, s)
answer_request c t env s (panic, st) = (st, s)

-- The stream when it is closed, and the server.
unfoldable pub handle_data_stream :
    Codec → Tools → UploadEnv → HomeServer → Stream → Stream × HomeServer
handle_data_stream c t env s st = answer_request c t env s (read_message c st)

-- The home server as the other end of a stream of the cloud: what it has written once the cloud has
-- written `received`.
unfoldable pub home_peer : Codec → Tools → UploadEnv → HomeServer → Bytes → Bytes
home_peer c t env s received =
    (handle_data_stream c t env s (open_stream (λ _. received))).0.written
