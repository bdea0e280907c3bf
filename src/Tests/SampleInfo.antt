-- ===== src/Tests/SampleInfo.antt =====
-- One film with its information, which marshallers of the tests know by heart, and one of them.
use famfun.Prelude.{
  ℕ, zero, suc, String, [], ◌∷◌, ◌≡◌, ◌==◌, Bool, true, false, ◌&&◌, Result, ok, err, errorf,
  if◌then◌else◌, eq_iff, arith, err_ne_ok, refl, sym, Option, none, some, nat_eq,
}
use famfun.Model.{VideoInfo}
use famfun.Protocol.Message.{Bytes, Envelope}
use famfun.Protocol.Message
use famfun.Protocol.Framing.{Codec, IsCodec}

abbrev pub refused : Result Bytes
refused = err (errorf "not in the sample" [])

-- The edit of one film, and the film once it is edited.
abbrev pub new_info : VideoInfo
new_info = record {
  id = "v";
  filename = "film.mp4";
  title = "New";
  duration = 60;
  filesize = 1000;
  resolution = "1920x1080";
  created_at = "2026-01-01";
  home_server_id = "h";
  description = "";
  visibility = "member";
}

abbrev pub same_names : VideoInfo → Bool
same_names v =
    (v.id == "v")
    && ((v.filename == "film.mp4")
        && ((v.title == "New") && ((v.description == "") && (v.visibility == "member"))))

abbrev pub same_file : VideoInfo → Bool
same_file v =
    nat_eq v.duration 60
    && (nat_eq v.filesize 1000
        && ((v.resolution == "1920x1080")
            && ((v.created_at == "2026-01-01") && (v.home_server_id == "h"))))

abbrev pub info_bytes : ℕ → Bool → Bool → Result Bytes
info_bytes tag true true = ok (tag ∷ [])
info_bytes tag true false = refused
info_bytes tag false b = refused

pub and_true : (a b : Bool) → (a && b) ≡ true → (a ≡ true) × (b ≡ true)
and_true true true h = (refl, refl)
and_true true false h = absurd cc
and_true false b h = absurd cc

names_lem :
    (v : VideoInfo)
    → same_names v ≡ true
    → (v.id ≡ "v")
      × (v.filename ≡ "film.mp4")
      × (v.title ≡ "New")
      × (v.description ≡ "")
      × (v.visibility ≡ "member")
names_lem v h = ground (
  arith,
  h,
  eq_iff v.id "v",
  eq_iff v.filename "film.mp4",
  eq_iff v.title "New",
  eq_iff v.description "",
  eq_iff v.visibility "member",
)

file_lem :
    (v : VideoInfo)
    → same_file v ≡ true
    → (v.duration ≡ 60)
      × (v.filesize ≡ 1000)
      × (v.resolution ≡ "1920x1080")
      × (v.created_at ≡ "2026-01-01")
      × (v.home_server_id ≡ "h")
file_lem v h = ground (
  arith,
  h,
  eq_iff v.resolution "1920x1080",
  eq_iff v.created_at "2026-01-01",
  eq_iff v.home_server_id "h",
)

pub info_lem : (v : VideoInfo) → (same_names v && same_file v) ≡ true → v ≡ new_info
info_lem v h =
    let (p, q) = and_true (same_names v) (same_file v) h in
    let (a₁, a₂, a₃, a₄, a₅) = names_lem v p in let (b₁, b₂, b₃, b₄, b₅) = file_lem v q in cc

pub info_bytes-ok :
    (tag : ℕ) (x y : Bool) (b : Bytes)
    → info_bytes tag x y ≡ ok b
    → (x ≡ true) × (y ≡ true) × (tag ∷ [] ≡ b)
info_bytes-ok tag true true b h = (refl, refl, cc)
info_bytes-ok tag true false b h = absurd (err_ne_ok h)
info_bytes-ok tag false y b h = absurd (err_ne_ok h)

-- The messages about the information of the film.
abbrev response_bytes : Bool → String → Option VideoInfo → Result Bytes
response_bytes true error (some v) = info_bytes 1 (error == "") (same_names v && same_file v)
response_bytes true error none = refused
response_bytes false error v = refused

abbrev info_marshal : Envelope → Result Bytes
info_marshal (Message.get_video_info_request r) = if r.video_id == "v" then ok (0 ∷ []) else refused
info_marshal (Message.get_video_info_response r) = response_bytes r.success r.error r.video
info_marshal _ = refused

abbrev info_unmarshal : Bytes → Result Envelope
info_unmarshal (zero ∷ b) = ok (Message.get_video_info_request (record { video_id = "v" }))
info_unmarshal ((suc n) ∷ b) =
    ok (
      Message.get_video_info_response
        (record { success = true; error = ""; video = some new_info }))
info_unmarshal [] = err (errorf "no message of the sample" [])

abbrev pub info_codec : Codec
info_codec = record { marshal = info_marshal; unmarshal = info_unmarshal }

response_lem :
    (success : Bool) (error : String) (v : Option VideoInfo) (b : Bytes)
    → response_bytes success error v ≡ ok b
    → info_unmarshal b
      ≡ ok
          (Message.get_video_info_response (record { success = success; error = error; video = v }))
response_lem true error (some v) b h =
    let (e, same, tag) = info_bytes-ok 1 (error == "") (same_names v && same_file v) b h in
    let e' = (eq_iff error "").0 e in
    let same' = info_lem v same in
    let got : info_unmarshal (1 ∷ [])
        ≡ ok (
            Message.get_video_info_response
              (record { success = true; error = error; video = some v })) =
      rw (e', same') refl in
    rw (sym tag) got
response_lem true error none b h = absurd (err_ne_ok h)
response_lem false error v b h = absurd (err_ne_ok h)

info_reads_back : (e : Envelope) (b : Bytes) → info_marshal e ≡ ok b → info_unmarshal b ≡ ok e
info_reads_back (Message.get_video_info_request r) b h = ground (arith, h, eq_iff r.video_id "v")
info_reads_back (Message.get_video_info_response r) b h = response_lem r.success r.error r.video b h
info_reads_back _ b h = absurd (err_ne_ok h)

pub info_codec-IsCodec : IsCodec info_codec
info_codec-IsCodec = record { reads_back = info_reads_back }
