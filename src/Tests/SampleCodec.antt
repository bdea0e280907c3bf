-- ===== src/Tests/SampleCodec.antt =====
-- A small marshaller of messages, in place of the protobuf library.
use famfun.Prelude.{
  ℕ, zero, suc, String, [], ◌∷◌, ◌≡◌, ◌==◌, Bool, true, false, ◌&&◌, Result, ok, err, errorf,
  if◌then◌else◌, eq_iff, arith, err_ne_ok, refl, sym, Option, none, some,
}
use famfun.Protocol.Message.{
  Bytes, Envelope, RegisterRequest, GetSegmentRequest, GetSegmentResponse, GetPlaylistRequest,
  GetPlaylistResponse, UpdateVideoInfoRequest,
}
use famfun.Model.{VideoInfo}
use famfun.Protocol.Message
use famfun.Protocol.Framing.{Codec, IsCodec}
use famfun.Tests.SampleInfo.{
  refused, new_info, same_names, same_file, info_bytes, info_bytes-ok, info_lem,
}

abbrev register_bytes : String → String → Bytes → Bytes → Result Bytes
register_bytes id name (x ∷ []) challenge =
    if (id == "h") && (name == "Home") then ok (2 ∷ x ∷ challenge) else refused
register_bytes id name [] challenge = refused
register_bytes id name (x ∷ y ∷ s) challenge = refused

abbrev content_bytes : ℕ → String → Bool → String → Bytes → Result Bytes
content_bytes tag id true error b = if (id == "") && (error == "") then ok (tag ∷ b) else refused
content_bytes tag id false error b = refused

abbrev answer_bytes : Bool → String → Result Bytes
answer_bytes true message = if message == "registered" then ok (7 ∷ []) else refused
answer_bytes false message = refused

abbrev edit_bytes : UpdateVideoInfoRequest → Result Bytes
edit_bytes r =
    if (r.video_id == "v")
      && ((r.title == "New") && ((r.description == "") && (r.visibility == "")))
    then ok (8 ∷ [])
    else refused

abbrev edited_bytes : Bool → String → Option VideoInfo → Result Bytes
edited_bytes true error (some v) = info_bytes 9 (error == "") (same_names v && same_file v)
edited_bytes true error none = refused
edited_bytes false error v = refused

abbrev pub sample_marshal : Envelope → Result Bytes
sample_marshal (Message.register_challenge r) = ok (0 ∷ r.challenge)
sample_marshal (Message.get_segment_request r) =
    if (r.video_id == "v") && ((r.segment_name == "s.ts") && (r.request_id == ""))
    then ok (3 ∷ [])
    else refused
sample_marshal (Message.get_segment_response r) =
    content_bytes 4 r.request_id r.success r.error r.content
sample_marshal (Message.register_request r) =
    register_bytes r.home_server_id r.name r.signature r.challenge
sample_marshal (Message.upload_video_chunk r) = ok (1 ∷ r.chunk_index ∷ r.bytes)
sample_marshal (Message.get_playlist_request r) =
    if (r.video_id == "v") && (r.request_id == "") then ok (5 ∷ []) else refused
sample_marshal (Message.get_playlist_response r) =
    content_bytes 6 r.request_id r.success r.error r.content
sample_marshal (Message.register_response r) = answer_bytes r.success r.message
sample_marshal (Message.update_video_info_request r) = edit_bytes r
sample_marshal (Message.update_video_info_response r) = edited_bytes r.success r.error r.video
sample_marshal _ = refused

abbrev no_message : Result Envelope
no_message = err (errorf "no message of the sample" [])

abbrev pub sample_unmarshal : Bytes → Result Envelope
sample_unmarshal (zero ∷ b) = ok (Message.register_challenge (record { challenge = b }))
sample_unmarshal ((suc (suc (suc zero))) ∷ b) = ok (
    Message.get_segment_request (record { video_id = "v"; segment_name = "s.ts"; request_id = "" }))
sample_unmarshal ((suc (suc (suc (suc zero)))) ∷ b) = ok (
    Message.get_segment_response
      (record { request_id = ""; success = true; error = ""; content = b }))
sample_unmarshal ((suc (suc zero)) ∷ x ∷ b) = ok (
    Message.register_request
      (record { home_server_id = "h"; name = "Home"; signature = x ∷ []; challenge = b }))
sample_unmarshal ((suc zero) ∷ i ∷ b) =
    ok (Message.upload_video_chunk (record { bytes = b; chunk_index = i }))
sample_unmarshal ((suc (suc (suc (suc (suc zero))))) ∷ b) =
    ok (Message.get_playlist_request (record { video_id = "v"; request_id = "" }))
sample_unmarshal ((suc (suc (suc (suc (suc (suc zero)))))) ∷ b) = ok (
    Message.get_playlist_response
      (record { request_id = ""; success = true; error = ""; content = b }))
sample_unmarshal ((suc (suc (suc (suc (suc (suc (suc zero))))))) ∷ b) =
    ok (Message.register_response (record { success = true; message = "registered" }))
sample_unmarshal ((suc (suc (suc (suc (suc (suc (suc (suc zero)))))))) ∷ b) = ok (
    Message.update_video_info_request
      (record { video_id = "v"; title = "New"; description = ""; visibility = "" }))
sample_unmarshal ((suc (suc (suc (suc (suc (suc (suc (suc (suc zero))))))))) ∷ b) = ok (
    Message.update_video_info_response
      (record { success = true; error = ""; video = some new_info }))
sample_unmarshal _ = no_message

abbrev pub sample : Codec
sample = record { marshal = sample_marshal; unmarshal = sample_unmarshal }

ok_lem : {a b : Bytes} → ok a ≡ ok b → sample_unmarshal b ≡ sample_unmarshal a
ok_lem h = cc

segment_lem :
    (id error : String) (success : Bool) (content b : Bytes)
    → content_bytes 4 id success error content ≡ ok b
    → sample_unmarshal b
      ≡ ok (
          Message.get_segment_response
            (record { request_id = id; success = success; error = error; content = content }))
segment_lem id error true content b h = ground (arith, h, eq_iff id "", eq_iff error "")
segment_lem id error false content b h = absurd (err_ne_ok h)

playlist_lem :
    (id error : String) (success : Bool) (content b : Bytes)
    → content_bytes 6 id success error content ≡ ok b
    → sample_unmarshal b
      ≡ ok (
          Message.get_playlist_response
            (record { request_id = id; success = success; error = error; content = content }))
playlist_lem id error true content b h = ground (arith, h, eq_iff id "", eq_iff error "")
playlist_lem id error false content b h = absurd (err_ne_ok h)

register_lem :
    (id name : String) (signature challenge b : Bytes)
    → register_bytes id name signature challenge ≡ ok b
    → sample_unmarshal b
      ≡ ok (
          Message.register_request (record {
            home_server_id = id;
            name = name;
            signature = signature;
            challenge = challenge;
          }))
register_lem id name [] challenge b h = absurd (err_ne_ok h)
register_lem id name (x ∷ []) challenge b h = ground (arith, h, eq_iff id "h", eq_iff name "Home")
register_lem id name (x ∷ y ∷ s) challenge b h = absurd (err_ne_ok h)

answer_lem :
    (success : Bool) (message : String) (b : Bytes)
    → answer_bytes success message ≡ ok b
    → sample_unmarshal b
      ≡ ok (Message.register_response (record { success = success; message = message }))
answer_lem true message b h = ground (arith, h, eq_iff message "registered")
answer_lem false message b h = absurd (err_ne_ok h)

edited_lem :
    (success : Bool) (error : String) (v : Option VideoInfo) (b : Bytes)
    → edited_bytes success error v ≡ ok b
    → sample_unmarshal b
      ≡ ok (
          Message.update_video_info_response
            (record { success = success; error = error; video = v }))
edited_lem true error (some v) b h =
    let (e, same, tag) = info_bytes-ok 9 (error == "") (same_names v && same_file v) b h in
    let e' = (eq_iff error "").0 e in
    let same' = info_lem v same in
    let got : sample_unmarshal (9 ∷ [])
        ≡ ok (
            Message.update_video_info_response
              (record { success = true; error = error; video = some v })) =
      rw (e', same') refl in
    rw (sym tag) got
edited_lem true error none b h = absurd (err_ne_ok h)
edited_lem false error v b h = absurd (err_ne_ok h)

reads_back_lem : (e : Envelope) (b : Bytes) → sample_marshal e ≡ ok b → sample_unmarshal b ≡ ok e
reads_back_lem (Message.register_challenge r) b h = ok_lem h
reads_back_lem (Message.get_segment_request r) b h =
    ground (arith, h, eq_iff r.video_id "v", eq_iff r.segment_name "s.ts", eq_iff r.request_id "")
reads_back_lem (Message.get_segment_response r) b h =
    segment_lem r.request_id r.error r.success r.content b h
reads_back_lem (Message.register_request r) b h =
    register_lem r.home_server_id r.name r.signature r.challenge b h
reads_back_lem (Message.upload_video_chunk r) b h = ok_lem h
reads_back_lem (Message.get_playlist_request r) b h =
    ground (arith, h, eq_iff r.video_id "v", eq_iff r.request_id "")
reads_back_lem (Message.get_playlist_response r) b h =
    playlist_lem r.request_id r.error r.success r.content b h
reads_back_lem (Message.register_response r) b h = answer_lem r.success r.message b h
reads_back_lem (Message.update_video_info_request r) b h = ground (
  arith,
  h,
  eq_iff r.video_id "v",
  eq_iff r.title "New",
  eq_iff r.description "",
  eq_iff r.visibility "",
)
reads_back_lem (Message.update_video_info_response r) b h = edited_lem r.success r.error r.video b h
reads_back_lem _ b h = absurd (err_ne_ok h)

pub sample-IsCodec : IsCodec sample
sample-IsCodec = record { reads_back = reads_back_lem }
