-- ===== src/Home/Server/EndToEnd.antt =====
-- A request of the cloud (internal/cloud/stream_proxy.go) from end to end: over the framing, through
-- the dispatch of the home server (internal/home/quic_client.go), and back.
use famfun.Prelude.{
  ◌+◌, ◌≤◌, ◌≡◌, refl, sym, ap, ◌∙◌, String, [], ◌∷◌, ◌++◌, append-nil, some, Result, ok, err,
  panic, errorf, str, length,
}
use famfun.Prelude.Exec.{Exec}
use famfun.Prelude.Text.{◌⧺◌}
use famfun.Protocol.Message.{Bytes, Envelope, GetSegmentRequest, GetPlaylistRequest}
use famfun.Protocol.Message
use famfun.Protocol.Stream.{Stream, open_stream, unread}
use famfun.Protocol.Framing.{Codec, IsCodec, max_message_size}
use famfun.Protocol.Framing.RoundTrip.{frame, read_message_lem, write_message_lem}
use famfun.Cloud.Connection.{HomeConn, open_data_stream}
use famfun.Cloud.DataRequest.{Wire, on_stream, exchange, send_data_request}
use famfun.Cloud.HomeManager.{HomeManager, get_home}
use famfun.Cloud.StreamProxy.{
  fetch_segment_from_home, get_playlist, get_home_connection, extract_segment_content,
  extract_playlist_content,
}
use famfun.Home.Disk.{read_file}
use famfun.Home.Scanner.{Tools}
use famfun.Home.Server.{
  HomeServer, error_text, handle_get_segment, handle_get_playlist, segment_path, playlist_path,
}
use famfun.Home.Server.Upload.{UploadEnv}
use famfun.Home.Server.Dispatch.{
  dispatch_data_request, handle_data_stream, home_peer, answer_request, write_answer,
}

abbrev pub playlist_request : String → GetPlaylistRequest
playlist_request video_id = record { video_id = video_id; request_id = "" }

-- A message that the library marshals to at most `max_message_size` bytes.
abbrev pub Fits : Codec → Envelope → Type 0
Fits c e = (b : Bytes) × (c.marshal e ≡ ok b) × (length b ≤ max_message_size)

abbrev pub segment_request : String → String → GetSegmentRequest
segment_request video_id name = record { video_id = video_id; segment_name = name; request_id = "" }

-- What becomes of the result of reading a file on its way to the cloud.
abbrev pub proxied : String → String → Result Bytes → Result Bytes
proxied format context (ok b) = ok b
proxied format context (err e) = err (errorf format (str (context ⧺ error_text e) ∷ []))
proxied format context panic = err (errorf format (str "" ∷ []))

segment_answer :
    (req : GetSegmentRequest) (s : HomeServer) (r : Result Bytes)
    → read_file (segment_path req.video_id req.segment_name s) s.disk ≡ r
    → extract_segment_content (Message.get_segment_response (handle_get_segment req s))
      ≡ proxied "segment error: %s" "read segment: " r
unfolding extract_segment_content handle_get_segment
segment_answer req s (ok b) e = rw (e, handle_get_segment)
segment_answer req s (err x) e = rw (e, handle_get_segment)
segment_answer req s panic e = rw (e, handle_get_segment)

playlist_answer :
    (req : GetPlaylistRequest) (s : HomeServer) (r : Result Bytes)
    → read_file (playlist_path req.video_id s) s.disk ≡ r
    → extract_playlist_content (Message.get_playlist_response (handle_get_playlist req s))
      ≡ proxied "playlist error: %s" "read playlist: " r
unfolding extract_playlist_content handle_get_playlist
playlist_answer req s (ok b) e = rw (e, handle_get_playlist)
playlist_answer req s (err x) e = rw (e, handle_get_playlist)
playlist_answer req s panic e = rw (e, handle_get_playlist)

module _ (w : Wire) (t : Tools) (env : UploadEnv) (s : HomeServer) where
  -- A request that is answered without the stream, with the answer.
  unfoldable pub Answers : Envelope → Envelope → Type 0
  Answers req resp =
      (s' : HomeServer) × ((st : Stream)
        → dispatch_data_request w.codec t env st req s ≡ (some resp, (st, s')))

  home_peer_lem :
      (req resp : Envelope) (p q : Bytes)
      → IsCodec w.codec
      → w.codec.marshal req ≡ ok p
      → length p ≤ max_message_size
      → w.codec.marshal resp ≡ ok q
      → Answers req resp
      → home_peer w.codec t env s (frame p) ≡ frame q
  unfolding home_peer handle_data_stream Answers
  home_peer_lem req resp p q laws m fits mr (s', d) =
      let st : Stream = record (open_stream (λ _. frame p)) { consumed = 0 + 4 + length p } in
      let got =
        (read_message_lem w.codec p [] (open_stream (λ _. frame p)) (sym (append-nil (frame p)))
          fits).0 in
      let answered = got ∙ ap (λ r. (r, st)) (laws.reads_back req p m) in
      ap (λ r. (answer_request w.codec t env s r).0.written) answered
      ∙ ap (λ r. (write_answer w.codec r).0.written) (d st)
      ∙ ap (λ r. r.1.written) (write_message_lem w.codec resp q st mr refl)

  opened :
      (conn : HomeConn) (st : Stream)
      → w.quic conn.conn ≡ ok st
      → open_data_stream w.quic conn ≡ ok st
  unfolding open_data_stream
  opened conn st e = rw e

  on_stream_lem :
      (conn : HomeConn) (st : Stream) (action : Exec Stream Envelope)
      → w.quic conn.conn ≡ ok st
      → on_stream w conn action ≡ (action st).0
  on_stream_lem conn st action e = rw (opened conn st e, on_stream)

  -- The cloud's request over a new stream to this home gets the answer.
  pub send_data_request_lem :
      (conn : HomeConn) (req resp : Envelope)
      → w.quic conn.conn ≡ ok (open_stream (home_peer w.codec t env s))
      → IsCodec w.codec
      → Fits w.codec req
      → Fits w.codec resp
      → Answers req resp
      → send_data_request w conn req ≡ ok resp
  unfolding send_data_request exchange
  send_data_request_lem conn req resp opens laws (p, m, fp) (q, mr, fq) a =
      let st₀ = open_stream (home_peer w.codec t env s) in
      let st : Stream = record st₀ { written = frame p } in
      let arrives : unread st ≡ frame q ++ [] =
        home_peer_lem req resp p q laws m fp mr a ∙ sym (append-nil (frame q)) in
      rw (on_stream_lem conn st₀ (exchange w.codec req) opens) (
        rw (write_message_lem w.codec req p st₀ m refl)
          (rw (read_message_lem w.codec q [] st arrives fq).0 (rw (laws.reads_back resp q mr))))

  -- A segment that the cloud fetches from a connected home server is what the file under the stream
  -- directory holds, or the error of reading that file, where both messages fit into a frame.
  pub fetch_segment_from_home-read_file :
      (m : HomeManager) (home_id video_id name : String) (conn : HomeConn)
      → get_home home_id m ≡ some conn
      → w.quic conn.conn ≡ ok (open_stream (home_peer w.codec t env s))
      → IsCodec w.codec
      → Fits w.codec (Message.get_segment_request (segment_request video_id name))
      → Fits w.codec
          (Message.get_segment_response (handle_get_segment (segment_request video_id name) s))
      → fetch_segment_from_home w m home_id video_id name
        ≡ proxied "segment error: %s" "read segment: "
            (read_file (segment_path video_id name s) s.disk)
  unfolding fetch_segment_from_home get_home_connection Answers dispatch_data_request
  fetch_segment_from_home-read_file m home_id video_id name conn there opens laws fits fits' =
      rw there (
        rw
          (send_data_request_lem conn (Message.get_segment_request (segment_request video_id name))
            (Message.get_segment_response (handle_get_segment (segment_request video_id name) s))
            opens laws fits fits' (s, λ _. refl))
          (segment_answer (segment_request video_id name) s
            (read_file (segment_path video_id name s) s.disk) refl))

  -- A playlist that the cloud requests from a connected home server is what the file `index.m3u8` of
  -- the video holds, or the error of reading that file, where both messages fit into a frame.
  get_playlist-read_file :
      (m : HomeManager) (home_id video_id : String) (conn : HomeConn)
      → get_home home_id m ≡ some conn
      → w.quic conn.conn ≡ ok (open_stream (home_peer w.codec t env s))
      → IsCodec w.codec
      → Fits w.codec (Message.get_playlist_request (playlist_request video_id))
      → Fits w.codec
          (Message.get_playlist_response (handle_get_playlist (playlist_request video_id) s))
      → get_playlist w m home_id video_id
        ≡ proxied "playlist error: %s" "read playlist: "
            (read_file (playlist_path video_id s) s.disk)
  unfolding get_playlist get_home_connection Answers dispatch_data_request
  get_playlist-read_file m home_id video_id conn there opens laws fits fits' = rw there (
      rw
        (send_data_request_lem conn (Message.get_playlist_request (playlist_request video_id))
          (Message.get_playlist_response (handle_get_playlist (playlist_request video_id) s)) opens
          laws fits fits' (s, λ _. refl))
        (playlist_answer (playlist_request video_id) s (read_file (playlist_path video_id s) s.disk)
          refl))
