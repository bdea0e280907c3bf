-- ===== src/Home/Server/Upload/Chunks.antt =====
-- An upload from end to end: the chunks that internal/cloud/stream_proxy.go sends are the ones that
-- internal/home/server.go receives.
use famfun.Prelude.{
  ℕ, suc, ◌+◌, ◌%◌, ◌^◌, ◌≤◌, ◌<◌, ◌≡◌, refl, sym, ap, ◌∙◌, List, [], ◌∷◌, ◌++◌, append-nil,
  append_assoc, true, ok, arith, length, length-append, All,
}
use famfun.Protocol.Message.{Bytes, Envelope}
use famfun.Protocol.Message
use famfun.Protocol.Stream.{Stream, unread}
use famfun.Protocol.Framing.{Codec, IsCodec}
use famfun.Protocol.Framing.RoundTrip.{
  frame, frames, payload_lem, Sendable, read_message_lem, write_message_lem,
}
use famfun.Cloud.DataRequest.{
  ReadEnd, more, eof, upload_chunk_size, chunk_count, send_chunk, send_chunks,
}
use famfun.Home.Server.Upload.{receive_chunks}

-- The Reads of a body: some bytes each, then the end of the file.
pub reads_of : List Bytes → List (Bytes × ReadEnd)
reads_of [] = ([], eof) ∷ []
reads_of (b ∷ bs) = (b, more) ∷ reads_of bs

abbrev pub joined : List Bytes → Bytes
joined [] = []
joined (b ∷ bs) = b ++ joined bs

-- The messages for the chunks, numbered from `i`.
unfoldable pub chunks_from : ℕ → List Bytes → List Envelope
chunks_from i [] = []
chunks_from i (b ∷ bs) =
    Message.upload_video_chunk (record { bytes = b; chunk_index = i })
    ∷ chunks_from ((i + 1) % 2 ^ 32) bs

abbrev pub NonEmpty : List Bytes → Type 0
NonEmpty = All (λ b. 0 < length b)

-- Every part has the size of the buffer, but the last, which may be shorter.
abbrev pub FullParts : List Bytes → Type 0
FullParts [] = Unit
FullParts (b ∷ []) = (0 < length b) × (length b ≤ upload_chunk_size)
FullParts (b ∷ b' ∷ bs) = (length b ≡ upload_chunk_size) × FullParts (b' ∷ bs)

FullParts-NonEmpty : (bs : List Bytes) → FullParts bs → NonEmpty bs
FullParts-NonEmpty [] f = f
FullParts-NonEmpty (b ∷ []) (p, _) = (p, tt)
FullParts-NonEmpty (b ∷ b' ∷ bs) (p, f) = (rw p (omega arith), FullParts-NonEmpty (b' ∷ bs) f)

chunk_count_one : (n : ℕ) → 0 < n → n ≤ upload_chunk_size → chunk_count n ≡ 1
unfolding chunk_count
chunk_count_one n p q = omega arith

chunk_count_add : (m n : ℕ) → m ≡ upload_chunk_size → chunk_count (m + n) ≡ suc (chunk_count n)
unfolding chunk_count
chunk_count_add m n p = omega (arith, p)

-- As many parts as the header announces for their bytes.
length-FullParts : (bs : List Bytes) → FullParts bs → length bs ≡ chunk_count (length (joined bs))
unfolding chunk_count
length-FullParts [] f = refl
length-FullParts (b ∷ []) (p, q) = rw append-nil (sym (chunk_count_one (length b) p q))
length-FullParts (b ∷ b' ∷ bs) (p, f) =
    ap suc (length-FullParts (b' ∷ bs) f)
    ∙ (sym (chunk_count_add (length b) (length (joined (b' ∷ bs))) p)
        ∙ ap chunk_count (sym (length-append b (joined (b' ∷ bs)))))

module _ (c : Codec) where
  send_chunk_lem :
      (b : Bytes) (i : ℕ) (p : Bytes) (s : Stream)
      → 0 < length b
      → c.marshal (Message.upload_video_chunk (record { bytes = b; chunk_index = i })) ≡ ok p
      → s.fates ≡ []
      → send_chunk c b i s ≡ (ok ((i + 1) % 2 ^ 32), record s { written = s.written ++ frame p })
  unfolding send_chunk
  send_chunk_lem [] i p s pos m f = absurd (omega arith)
  send_chunk_lem (x ∷ b) i p s pos m f = rw (
      write_message_lem c (Message.upload_video_chunk (record { bytes = x ∷ b; chunk_index = i })) p
        s m f)

  no_chunk : (i : ℕ) (s : Stream) → send_chunk c [] i s ≡ (ok i, s)
  unfolding send_chunk
  no_chunk i s = refl

  send_chunks_lem :
      (bs : List Bytes) (i : ℕ) (s : Stream)
      → NonEmpty bs
      → Sendable c (chunks_from i bs)
      → s.fates ≡ []
      → send_chunks c (reads_of bs) i s
        ≡ (ok tt, record s { written = s.written ++ frames c (chunks_from i bs) })
  unfolding send_chunks reads_of chunks_from frames
  send_chunks_lem [] i s n h f = rw (no_chunk i s) (rw append-nil)
  send_chunks_lem (b ∷ bs) i s (pos, n) ((p, m, _), h) f = rw (send_chunk_lem b i p s pos m f) (
      rw (send_chunks_lem bs ((i + 1) % 2 ^ 32) (record s { written = s.written ++ frame p }) n h f)
        (rw (payload_lem c (Message.upload_video_chunk (record { bytes = b; chunk_index = i })) p m)
          (rw (append_assoc s.written (frame p) (frames c (chunks_from ((i + 1) % 2 ^ 32) bs))))))

  receive_chunks_lem :
      (bs : List Bytes) (i j : ℕ) (acc rest : Bytes) (t : Stream)
      → IsCodec c
      → Sendable c (chunks_from i bs)
      → unread t ≡ frames c (chunks_from i bs) ++ rest
      → (t' : Stream) × (receive_chunks c (λ _. true) (length bs) j acc t
          ≡ (ok (acc ++ joined bs), t'))
        × (unread t' ≡ rest)
  unfolding receive_chunks chunks_from frames
  receive_chunks_lem [] i j acc rest t laws h u = (t, rw append-nil, u)
  receive_chunks_lem (b ∷ bs) i j acc rest t laws ((p, m, fits), h) u =
      let e = Message.upload_video_chunk (record { bytes = b; chunk_index = i }) in
      let later = frames c (chunks_from ((i + 1) % 2 ^ 32) bs) in
      let u' : unread t ≡ frame p ++ (later ++ rest) =
        (rw (payload_lem c e p m) at u) ∙ append_assoc (frame p) later rest in
      let (r, v) = read_message_lem c p (later ++ rest) t u' fits in
      let (t', q, w) =
        receive_chunks_lem bs ((i + 1) % 2 ^ 32) (j + 1) (acc ++ b) rest
          (record t { consumed = t.consumed + 4 + length p }) laws h v in
      (t', rw r (rw (laws.reads_back e p m) (rw q (rw append_assoc))), w)

  -- The chunks of an upload whose every Read fills the buffer but the last: there are exactly as many
  -- as the header announces for the size of the file, and the home server, which reads that many
  -- messages, ends with the bytes of the file and leaves what follows unread.
  pub receive_chunks-send_chunks :
      (bs : List Bytes) (rest : Bytes) (s t : Stream)
      → IsCodec c
      → FullParts bs
      → Sendable c (chunks_from 0 bs)
      → s.fates ≡ []
      → s.written ≡ []
      → unread t ≡ (send_chunks c (reads_of bs) 0 s).1.written ++ rest
      → ((send_chunks c (reads_of bs) 0 s).0 ≡ ok tt)
        × ((t' : Stream) × (receive_chunks c (λ _. true) (chunk_count (length (joined bs))) 0 [] t
              ≡ (ok (joined bs), t'))
            × (unread t' ≡ rest))
  receive_chunks-send_chunks bs rest s t laws full h f w u =
      let sent = send_chunks_lem bs 0 s (FullParts-NonEmpty bs full) h f in
      let u' : unread t ≡ frames c (chunks_from 0 bs) ++ rest = rw (sent, w) at u in
      let (t', got, v) = receive_chunks_lem bs 0 0 [] rest t laws h u' in
      (ap (λ r. r.0) sent, (t', rw (sym (length-FullParts bs full)) got, v))
