-- ===== src/Home/Running/Processing.antt =====
-- internal/home/server.go: what the processing of the scanned videos leaves behind.
use famfun.Prelude.{
  ℕ, ◌+◌, ◌≡◌, refl, ap, ap₂, ◌∙◌, String, List, [], ◌∷◌, map, Option, some, Bool, true, Bool-cases,
  inl, inr, arith, ◌==◌, All, if◌then◌else◌,
}
use famfun.Prelude.Dict.{lookup, insert, lookup-insert}
use famfun.Model.{Video}
use famfun.Protocol.Message.{Envelope}
use famfun.Protocol.Message
use famfun.Home.Converting.{Programs, is_converted, is_generated}
use famfun.Home.Server.{HomeServer, add_video, notify_cloud}
use famfun.Home.Running.{convert_video, generate_thumbnail, process_and_publish, process_all}

-- The videos before the context ends.
pub reached : (ℕ → Bool) → ℕ → List Video → List Video
reached live n [] = []
reached live n (v ∷ vs) = let later = reached live (n + 1) vs in if live n then v ∷ later else []

-- A video as the map of a home holds it.
abbrev pub entered : String → Video → Video
entered home_id v = record v {
  home_server_id = home_id;
  visibility = if v.visibility == "" then "member" else v.visibility;
}

-- The message about a video.
abbrev pub announcement : String → Video → Envelope
announcement home_id v =
    Message.video_list_update (record { home_server_id = home_id; video_ids = v.id ∷ [] })

-- The last of some videos with an identifier, or what was there.
pub last_entered : String → String → List Video → Option Video → Option Video
last_entered home_id id [] old = old
last_entered home_id id (v ∷ vs) old =
    last_entered home_id id vs (if v.id == id then some (entered home_id v) else old)

-- Converting and drawing change nothing but the disk.
abbrev OnDisk : HomeServer → HomeServer → Type 0
OnDisk s s' = (s'.home_id ≡ s.home_id) × (s'.videos ≡ s.videos)

convert_video-OnDisk : (p : Programs) (v : Video) (s : HomeServer) → OnDisk s (convert_video p v s)
unfolding convert_video
convert_video-OnDisk p v s = ground arith

generate_thumbnail-OnDisk :
    (p : Programs) (v : Video) (s : HomeServer) → OnDisk s (generate_thumbnail p v s)
unfolding generate_thumbnail
generate_thumbnail-OnDisk p v s = ground arith

pub processed_lem :
    (p : Programs) (v : Video) (s : HomeServer) (home_id : String)
    → s.home_id ≡ home_id
    → (let r = process_and_publish p (record v { home_server_id = home_id }) s in
        (r.0.home_id ≡ home_id)
        × (r.0.videos ≡ insert v.id (entered home_id v) s.videos)
        × (r.1 ≡ announcement home_id v))
unfolding process_and_publish add_video notify_cloud
processed_lem p v s home_id at =
    let v' : Video = record v { home_server_id = home_id } in
    let s₁ = convert_video p v' s in
    let (h₁, m₁) = convert_video-OnDisk p v' s in
    let (h₂, m₂) = generate_thumbnail-OnDisk p v' s₁ in
    (
      h₂ ∙ h₁ ∙ at,
      ap (insert v.id (entered home_id v)) (m₂ ∙ m₁),
      ap (λ h. announcement h v) (h₂ ∙ h₁ ∙ at),
    )

-- The loop over the videos of a scan sends one message for each video before the context ends, in their
-- order, and enters these into the map, the last one of an identifier at last: with the identifier of the
-- home, and with the visibility "member" where it has none. Other entries stay.
pub process_all_lem :
    (p : Programs) (live : ℕ → Bool) (n : ℕ) (vs : List Video) (s : HomeServer) (id : String)
    → (let r = process_all p live n vs s in
        (r.1 ≡ map (announcement s.home_id) (reached live n vs))
        × (lookup id r.0.videos
            ≡ last_entered s.home_id id (reached live n vs) (lookup id s.videos))
        × (r.0.home_id ≡ s.home_id))
unfolding process_all reached last_entered
process_all_lem p live n [] s id = (refl, refl, refl)
process_all_lem p live n (v ∷ vs) s id = elim (Bool-cases (live n)) [
  | inr stopped ↦ rw (stopped, process_all) (refl, refl, refl)
  | inl on ↦
      let (h, m, a) = processed_lem p v s s.home_id refl in
      let s' = (process_and_publish p (record v { home_server_id = s.home_id }) s).0 in
      let later = reached live (n + 1) vs in
      let (sent, found, same) = process_all_lem p live (n + 1) vs s' id in
      rw (on, process_all)
        (
          ap₂ ◌∷◌ a (sent ∙ ap (λ k. map (announcement k) later) h),
          found
              ∙ ap₂ (λ k old. last_entered k id later old) h
                  (ap (lookup id) m ∙ lookup-insert v.id id (entered s.home_id v) s.videos),
          same ∙ h,
        )
]

-- The stream and the thumbnail of each video are on the disk.
abbrev pub Ready : HomeServer → List Video → Type 0
Ready s =
    All (λ v.
      (is_converted v s.stream_dir s.disk ≡ true) × (is_generated v s.thumb_dir s.disk ≡ true))

convert_video-idle :
    (p : Programs) (v : Video) (s : HomeServer)
    → is_converted v s.stream_dir s.disk ≡ true
    → convert_video p v s ≡ s
unfolding convert_video
convert_video-idle p v s c = ground arith

generate_thumbnail-idle :
    (p : Programs) (v : Video) (s : HomeServer)
    → is_generated v s.thumb_dir s.disk ≡ true
    → generate_thumbnail p v s ≡ s
unfolding generate_thumbnail
generate_thumbnail-idle p v s g = ground arith

processed-idle :
    (p : Programs) (v : Video) (s : HomeServer) (home_id : String)
    → is_converted v s.stream_dir s.disk ≡ true
    → is_generated v s.thumb_dir s.disk ≡ true
    → (process_and_publish p (record v { home_server_id = home_id }) s).0
      ≡ add_video (record v { home_server_id = home_id }) s
unfolding process_and_publish is_converted is_generated
processed-idle p v s home_id c g =
    let v' : Video = record v { home_server_id = home_id } in
    ap (add_video v') (
      ap (generate_thumbnail p v') (convert_video-idle p v' s c) ∙ generate_thumbnail-idle p v' s g)

-- Where the streams and thumbnails are there already, as after an earlier scan, a scan runs no program
-- and writes nothing: the disk stays as it is, whichever programs there are.
pub process_all-idle :
    (p : Programs) (live : ℕ → Bool) (n : ℕ) (vs : List Video) (s : HomeServer)
    → Ready s vs
    → (process_all p live n vs s).0.disk ≡ s.disk
unfolding process_all add_video
process_all-idle p live n [] s h = refl
process_all-idle p live n (v ∷ vs) s ((c, g), h) = elim (Bool-cases (live n)) [
  | inr stopped ↦ rw (stopped, process_all) refl
  | inl on ↦
      let v' : Video = record v { home_server_id = s.home_id } in
      rw (on, process_all)
        (ap (λ s'. (process_all p live (n + 1) vs s').0.disk) (processed-idle p v s s.home_id c g)
          ∙ process_all-idle p live (n + 1) vs (add_video v' s) h)
]
