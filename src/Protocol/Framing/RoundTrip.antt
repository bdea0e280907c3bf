-- ===== src/Protocol/Framing/RoundTrip.antt =====
-- internal/protocol/framing.go: what is written is read back.
use famfun.Prelude.{
  ℕ, zero, suc, ◌+◌, ◌%◌, ◌^◌, ◌≤◌, ◌<◌, ◌≡◌, refl, ap, ◌∙◌, List, [], ◌∷◌, ◌++◌, ok, err, length,
  arith, take-length-append, drop-add, drop-length-append, length-append, append_assoc, append-nil,
  All, errorf, Arg,
}
use famfun.Prelude.Exec.{Exec, pure, ◌>>=◌, ◌>>◌}
use famfun.Protocol.Message.{Bytes, Envelope}
use famfun.Protocol.Stream.{Stream, unread, write, read_full}
use famfun.Protocol.Framing.{
  Codec, IsCodec, max_message_size, put_uint32, uint32, write_header, read_header,
  validate_message_size, read_payload, write_message, read_message,
}

-- The bytes of one message with the payload `b`.
abbrev pub frame : Bytes → Bytes
frame b = put_uint32 (length b % 2 ^ 32) ++ b

pub uint32-put_uint32 : (n : ℕ) → n < 2 ^ 32 → uint32 (put_uint32 n) ≡ n
unfolding uint32 put_uint32
uint32-put_uint32 n h = omega arith

length-put_uint32 : (n : ℕ) → length (put_uint32 n) ≡ 4
unfolding put_uint32
length-put_uint32 n = refl

-- A read of bytes that are there returns them, and leaves the rest.
read_full_lem :
    (b rest : Bytes) (s : Stream)
    → unread s ≡ b ++ rest
    → (read_full (length b) s ≡ (ok b, record s { consumed = s.consumed + length b }))
      × (unread (record s { consumed = s.consumed + length b }) ≡ rest)
unfolding read_full
read_full_lem b rest s h = (
  rw h (ground (arith, length-append b rest, take-length-append b rest)),
  rw (drop-add s.consumed (length b) (s.peer s.written), h) (drop-length-append b rest),
)

read_header_lem :
    (n : ℕ) (rest : Bytes) (s : Stream)
    → unread s ≡ put_uint32 n ++ rest
    → n < 2 ^ 32
    → (read_header s ≡ (ok n, record s { consumed = s.consumed + 4 }))
      × (unread (record s { consumed = s.consumed + 4 }) ≡ rest)
unfolding read_header put_uint32
read_header_lem n rest s h small =
    let (r, u) = read_full_lem (put_uint32 n) rest s h in (rw r (rw (uint32-put_uint32 n small)), u)

validate_message_size_lem : (n : ℕ) → n ≤ max_message_size → validate_message_size n ≡ ok tt
unfolding validate_message_size
validate_message_size_lem n h = ground arith

write_lem :
    (b : Bytes) (s : Stream)
    → s.fates ≡ []
    → write b s ≡ (ok tt, record s { written = s.written ++ b })
unfolding write
write_lem b s f = rw f

module _ (c : Codec) where
  -- A message at the head of the unread bytes is read, and the stream stands behind it.
  pub read_message_lem :
      (b rest : Bytes) (s : Stream)
      → unread s ≡ frame b ++ rest
      → length b ≤ max_message_size
      → (read_message c s ≡ (c.unmarshal b, record s { consumed = s.consumed + 4 + length b }))
        × (unread (record s { consumed = s.consumed + 4 + length b }) ≡ rest)
  unfolding read_message read_payload
  read_message_lem b rest s h fits =
      let n = length b in
      let e : n % 2 ^ 32 ≡ n = omega arith in
      let (hdr, u) =
        read_header_lem n (b ++ rest) s (rw (← append_assoc (put_uint32 n) b rest) (rw e at h))
          (omega arith) in
      let (body, u') = read_full_lem b rest (record s { consumed = s.consumed + 4 }) u in
      (rw hdr (rw (validate_message_size_lem n fits) (rw body)), u')

  -- A message that is too large is refused after its header, whatever follows.
  read_message_large :
      (b : Bytes) (s : Stream)
      → unread s ≡ frame b
      → max_message_size < length b
      → length b < 2 ^ 32
      → read_message c s ≡ (
        err (
            errorf "message too large: %d bytes (max %d)"
              (Arg.num (length b) ∷ Arg.num max_message_size ∷ [])),
        record s { consumed = s.consumed + 4 },
      )
  unfolding read_message validate_message_size
  read_message_large b s h large small =
      let n = length b in
      let e : n % 2 ^ 32 ≡ n = omega arith in
      let (hdr, u) = read_header_lem n b s (rw e at h) small in rw hdr (ground arith)

  -- A writer whose writes succeed adds exactly the frame.
  pub write_message_lem :
      (e : Envelope) (b : Bytes) (s : Stream)
      → c.marshal e ≡ ok b
      → s.fates ≡ []
      → write_message c e s ≡ (ok tt, record s { written = s.written ++ frame b })
  unfolding write_message write_header
  write_message_lem e b s m f =
      let hdr = put_uint32 (length b % 2 ^ 32) in
      rw m (
        rw (write_lem hdr s f) (
          rw (write_lem b (record s { written = s.written ++ hdr }) f)
            (rw (append_assoc s.written hdr b))))

  abbrev pub write_all : List Envelope → Exec Stream (Unit {0})
  write_all [] = pure tt
  write_all (e ∷ es) = do write_message c e; write_all es

  abbrev pub read_all : ℕ → Exec Stream (List Envelope)
  read_all zero = pure []
  read_all (suc n) = do e ← read_message c; es ← read_all n; pure (e ∷ es)

  -- Each envelope of the list is marshalled to at most `max_message_size` bytes.
  abbrev pub Sendable : List Envelope → Type 0
  Sendable = All (λ e. (b : Bytes) × (c.marshal e ≡ ok b) × (length b ≤ max_message_size))

  pub payload : Envelope → Bytes
  payload e = elim (c.marshal e) [ ok b ↦ b | _ ↦ [] ]

  pub payload_lem : (e : Envelope) (b : Bytes) → c.marshal e ≡ ok b → payload e ≡ b
  unfolding payload
  payload_lem e b m = rw (m, payload)

  unfoldable pub frames : List Envelope → Bytes
  frames [] = []
  frames (e ∷ es) = frame (payload e) ++ frames es

  write_all_lem :
      (es : List Envelope) (s : Stream)
      → Sendable es
      → s.fates ≡ []
      → write_all es s ≡ (ok tt, record s { written = s.written ++ frames es })
  unfolding frames
  write_all_lem [] s h f = rw (append-nil s.written)
  write_all_lem (e ∷ es) s ((b, m, _), h) f = rw (write_message_lem e b s m f) (
      rw (write_all_lem es (record s { written = s.written ++ frame b }) h f)
        (rw (payload_lem e b m) (rw (append_assoc s.written (frame b) (frames es)))))

  read_all_lem :
      (es : List Envelope) (rest : Bytes) (t : Stream)
      → IsCodec c
      → Sendable es
      → unread t ≡ frames es ++ rest
      → (t' : Stream) × (read_all (length es) t ≡ (ok es, t')) × (unread t' ≡ rest)
  unfolding frames
  read_all_lem [] rest t laws h u = (t, refl, u)
  read_all_lem (e ∷ es) rest t laws ((b, m, fits), h) u =
      let u' : unread t ≡ frame b ++ (frames es ++ rest) =
        (rw (payload_lem e b m) at u) ∙ append_assoc (frame b) (frames es) rest in
      let (r, v) = read_message_lem b (frames es ++ rest) t u' fits in
      let (t', p, q) =
        read_all_lem es rest (record t { consumed = t.consumed + 4 + length b }) laws h v in
      (t', rw r (rw (laws.reads_back e b m) (rw p)), q)

  -- Envelopes that one side writes, each of at most 50 MiB, are read by the other side: the same
  -- envelopes in the same order, and what follows them on the stream is left unread.
  pub read_all-write_all :
      (es : List Envelope) (rest : Bytes) (s t : Stream)
      → IsCodec c
      → Sendable es
      → s.fates ≡ []
      → s.written ≡ []
      → unread t ≡ (write_all es s).1.written ++ rest
      → ((write_all es s).0 ≡ ok tt)
        × ((t' : Stream) × (read_all (length es) t ≡ (ok es, t')) × (unread t' ≡ rest))
  read_all-write_all es rest s t laws h f w u =
      let sent = write_all_lem es s h f in
      let u' : unread t ≡ frames es ++ rest = rw (sent, w) at u in
      (ap (λ r. r.0) sent, read_all_lem es rest t laws h u')
