-- ===== src/Home/Client/Reading.antt =====
-- internal/home/quic_client.go: controlReadLoop, which reads what the cloud sends on the control stream.
use famfun.Prelude.{
  ℕ, zero, suc, ◌+◌, ◌≡◌, refl, ap, sym, ◌∙◌, String, List, [], ◌∷◌, ◌++◌, none, some, true, false,
  Bool, not, map, filter, Result, ok, err, panic, Error, wrap, library, length, append_assoc, arith,
  if◌then◌else◌,
}
use famfun.Protocol.Message.{Bytes, Envelope, RegisterResponse, HeartbeatResponse, payload_type}
use famfun.Protocol.Message
use famfun.Protocol.Stream.{Stream, unread, read_full}
use famfun.Protocol.Framing.{Codec, IsCodec, read_message, read_header}
use famfun.Protocol.Framing.RoundTrip.{Sendable, frames, frame, payload_lem, read_message_lem}
use famfun.Home.Client.{QuicClient}

-- A line of the log.
pub data Report : Type 0 where
  registered_with_cloud : String → Report
  registration_failed : String → Report
  heartbeat_failed : Report
  unexpected : String → Report
  read_error : Error → Report
  accept_error : Error → Report

unfoldable pub handle_register_response : RegisterResponse → List Report
handle_register_response resp =
    if resp.success
    then registered_with_cloud resp.message ∷ []
    else registration_failed resp.message ∷ []

unfoldable pub handle_heartbeat_response : HeartbeatResponse → List Report
handle_heartbeat_response resp = if resp.success then [] else heartbeat_failed ∷ []

unfoldable pub dispatch_control_message : Envelope → List Report
dispatch_control_message (Message.register_response resp) = handle_register_response resp
dispatch_control_message (Message.heartbeat_response resp) = handle_heartbeat_response resp
dispatch_control_message env = unexpected (payload_type env) ∷ []

-- How the loop ends: with what it has logged, by a panic, or not within its fuel.
pub data Reading : Type 0 where
  finished : List Report → QuicClient → Reading
  crashed : Reading
  still_reading : Reading

-- The deferred function. To close a closed channel is a panic.
abbrev pub leave : List Report → QuicClient → Reading
leave reports cl = if cl.closed then finished reports cl else elim cl.disconnected [
  | none ↦ finished reports cl
  | some true ↦ crashed
  | some false ↦ finished reports (record cl { disconnected = some true })
]

-- What the loop does with the result of a read.
abbrev pub on_read :
    (QuicClient → List Report → Reading)
    → QuicClient
    → List Report
    → Result Envelope × Stream
    → Reading
on_read loop cl reports (ok env, st) =
    loop (record cl { control_stream = some st }) (reports ++ dispatch_control_message env)
on_read loop cl reports (err e, st) =
    leave (if cl.closed then reports else reports ++ read_error e ∷ [])
      (record cl { control_stream = some st })
on_read loop cl reports (panic, st) = crashed

-- On fuel: a message in each round. Other goroutines do not change the client meanwhile; after Close the
-- field `closed` is set, and the stream gives an error.
unfoldable pub control_read_loop : ℕ → Codec → QuicClient → List Report → Reading
control_read_loop zero c cl reports = still_reading
control_read_loop (suc n) c cl reports = elim cl.control_stream [
  | none ↦ crashed
  | some st ↦ on_read (control_read_loop n c) cl reports (read_message c st)
]

-- A message about which nothing is logged: the answer to a heartbeat that went well.
abbrev pub is_quiet : Envelope → Bool
is_quiet (Message.heartbeat_response resp) = resp.success
is_quiet _ = false

abbrev pub registration_report : Bool → String → Report
registration_report true message = registered_with_cloud message
registration_report false message = registration_failed message

-- The line about a message that is not quiet.
abbrev pub report_of : Envelope → Report
report_of (Message.register_response resp) = registration_report resp.success resp.message
report_of (Message.heartbeat_response resp) = heartbeat_failed
report_of env = unexpected (payload_type env)

-- The log of some messages.
abbrev pub log_of : List Envelope → List Report
log_of es = map report_of (filter (λ e. not (is_quiet e)) es)

dispatched-log_of :
    (e : Envelope) (es : List Envelope) → dispatch_control_message e ++ log_of es ≡ log_of (e ∷ es)
unfolding dispatch_control_message handle_register_response handle_heartbeat_response
dispatched-log_of (Message.register_response resp) es = ground arith
dispatched-log_of (Message.heartbeat_response resp) es = ground arith
dispatched-log_of _ es = refl

abbrev eof : Error
eof = wrap "read header" (library "EOF")

-- A read at the end of what the other side has sent.
read_message-eof :
    (c : Codec) (st : Stream)
    → unread st ≡ []
    → read_message c st ≡ (err eof, record st { consumed = st.consumed + 0 })
unfolding read_message read_header read_full
read_message-eof c st h = rw (h, read_message) refl

left_lem :
    (loop : QuicClient → List Report → Reading) (cl : QuicClient) (reports : List Report)
    (e : Error) (st : Stream)
    → cl.closed ≡ false
    → cl.disconnected ≡ some false
    → on_read loop cl reports (err e, st)
      ≡ finished
          (reports ++ read_error e ∷ [])
          (record cl { control_stream = some st; disconnected = some true })
left_lem loop cl reports e st live fresh = ground arith

module _ (c : Codec) (laws : IsCodec c) where
  reading_lem :
      (es : List Envelope) (st : Stream) (cl : QuicClient) (reports : List Report)
      → Sendable c es
      → unread st ≡ frames c es
      → cl.control_stream ≡ some st
      → cl.closed ≡ false
      → cl.disconnected ≡ some false
      → (st' : Stream) × (control_read_loop (suc (length es)) c cl reports
          ≡ finished
              (reports ++ (log_of es ++ read_error eof ∷ []))
              (record cl { control_stream = some st'; disconnected = some true }))
  unfolding control_read_loop frames
  reading_lem [] st cl reports h u connected live fresh = (
    record st { consumed = st.consumed + 0 },
    rw (connected, control_read_loop)
        (rw (read_message-eof c st u) (
          left_lem (control_read_loop 0 c) cl reports eof (record st { consumed = st.consumed + 0 })
            live fresh)),
  )
  reading_lem (e ∷ es) st cl reports ((b, m, fits), h) u connected live fresh =
      let u' : unread st ≡ frame b ++ frames c es = rw (payload_lem c e b m) at u in
      let (r, v) = read_message_lem c b (frames c es) st u' fits in
      let st' = record st { consumed = st.consumed + 4 + length b } in
      let (s, p) =
        reading_lem es st' (record cl { control_stream = some st' })
          (reports ++ dispatch_control_message e) h v refl live fresh in
      (
        s,
        rw (connected, control_read_loop)
            (rw r (
              rw (laws.reads_back e b m) (
                p
                ∙ ap
                    (λ l.
                      finished l (record cl { control_stream = some s; disconnected = some true }))
                    (append_assoc reports (dispatch_control_message e)
                        (log_of es ++ read_error eof ∷ [])
                      ∙ ap (◌++◌ reports) (
                          sym (
                            append_assoc (dispatch_control_message e) (log_of es)
                              (read_error eof ∷ []))
                          ∙ ap (λ l. l ++ read_error eof ∷ []) (dispatched-log_of e es)))))),
      )

  -- What the cloud has sent on the control stream before it closed it, each message of at most 50 MiB,
  -- is logged in order, one line for each message but the answers to heartbeats that went well: the
  -- loop does not stop at a message that it does not expect. At the end it logs the error of the read
  -- and closes the channel on which Run waits, which was open.
  pub control_read_loop-reports :
      (es : List Envelope) (st : Stream) (cl : QuicClient)
      → Sendable c es
      → unread st ≡ frames c es
      → cl.control_stream ≡ some st
      → cl.closed ≡ false
      → cl.disconnected ≡ some false
      → (st' : Stream) × (control_read_loop (suc (length es)) c cl []
          ≡ finished
              (log_of es ++ read_error (wrap "read header" (library "EOF")) ∷ [])
              (record cl { control_stream = some st'; disconnected = some true }))
  control_read_loop-reports es st cl = reading_lem es st cl []
