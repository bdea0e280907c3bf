-- ===== src/Cloud/HomeManager/Lookups.antt =====
-- internal/cloud/home_manager.go: what the lookups return after each change.
use famfun.Prelude.{
  ◌≡◌, refl, ◌∙◌, inl, inr, Bool-cases, Option-cases, String, List, [], ◌∷◌, Option, none, some,
  Bool, true, false, ◌||◌, ok, err, errorf, str, arith, ◌==◌, eq_iff, eq_refl, if◌then◌else◌,
}
use famfun.Prelude.Dict.{Dict, lookup, insert, delete, lookup-insert, lookup-delete}
use famfun.Model.{Video}
use famfun.Cloud.Connection.{HomeConn}
use famfun.Cloud.HomeManager.{
  HomeManager, rebuild_sorted, register_home, unregister_home, get_home, query_video, add_videos,
  remove_videos, or_empty, sync_home_videos, update_video_info,
}

abbrev pub or_else {ℓ} : {A : Type ℓ} → Option A → Option A → Option A
or_else none o = o
or_else (some a) o = some a

-- The last video of the list with an identifier.
abbrev pub last_with : String → List Video → Option Video
last_with j [] = none
last_with j (v ∷ vs) = or_else (last_with j vs) (if v.id == j then some v else none)

abbrev pub contains : String → List String → Bool
contains j [] = false
contains j (i ∷ is) = i == j || contains j is

lookup-add_videos :
    (j : String) (vs : List Video) (vm : Dict Video)
    → lookup j (add_videos vs vm) ≡ or_else (last_with j vs) (lookup j vm)
unfolding add_videos
lookup-add_videos j [] vm = refl
lookup-add_videos j (v ∷ vs) vm =
    ground (arith, lookup-add_videos j vs (insert v.id v vm), lookup-insert v.id j v vm)

lookup-remove_videos :
    (j : String) (ids : List String) (vm : Dict Video)
    → lookup j (remove_videos ids vm) ≡ (if contains j ids then none else lookup j vm)
unfolding remove_videos
lookup-remove_videos j [] vm = refl
lookup-remove_videos j (i ∷ ids) vm =
    ground (arith, lookup-remove_videos j ids (delete i vm), lookup-delete i j vm)

lookup-or_empty :
    (home j : String) (m : HomeManager)
    → lookup j (or_empty (lookup home m.videos)) ≡ query_video home j m
unfolding query_video lookup
lookup-or_empty home j m = ground arith

query_video-insert :
    (home other j : String) (vids : Dict Video) (m n : HomeManager)
    → n.videos ≡ insert home vids m.videos
    → query_video other j n ≡ (if home == other then lookup j vids else query_video other j m)
unfolding query_video
query_video-insert home other j vids m n e =
    rw (e, query_video)
      (rw lookup-insert
        (elim (Bool-cases (home == other)) [ inl same ↦ rw same | inr differ ↦ rw differ ]))

sync_home_videos-videos :
    (home : String) (add : List Video) (gone : List String) (m : HomeManager)
    → (sync_home_videos home add gone m).videos
      ≡ insert home (add_videos add (remove_videos gone (or_empty (lookup home m.videos)))) m.videos
unfolding sync_home_videos rebuild_sorted
sync_home_videos-videos home add gone m = ground arith

-- `SyncHomeVideos` changes one home: an identifier that was added is found with the last video
-- added under it, else one that was removed is gone, else it is as before. No other home changes.
pub query_video-sync_home_videos :
    (home other j : String) (add : List Video) (gone : List String) (m : HomeManager)
    → query_video other j (sync_home_videos home add gone m) ≡ (
        if home == other
        then or_else (last_with j add) (if contains j gone then none else query_video home j m)
        else query_video other j m)
query_video-sync_home_videos home other j add gone m =
    let n = sync_home_videos home add gone m in
    let removed = remove_videos gone (or_empty (lookup home m.videos)) in
    query_video-insert home other j (add_videos add removed) m n
      (sync_home_videos-videos home add gone m)
    ∙ rw (lookup-add_videos j add removed, lookup-remove_videos, lookup-or_empty)

query_video_found :
    (home id : String) (m : HomeManager) (v : Video)
    → query_video home id m ≡ some v
    → (vids : Dict Video) × (lookup home m.videos ≡ some vids) × (lookup id vids ≡ some v)
unfolding query_video
query_video_found home id m v h = ground arith

query_video_here :
    (home j : String) (m : HomeManager) (vids : Dict Video)
    → lookup home m.videos ≡ some vids
    → query_video home j m ≡ lookup j vids
unfolding query_video
query_video_here home j m vids here = rw (here, query_video)

rebuild_sorted-videos : (m : HomeManager) → (rebuild_sorted m).videos ≡ m.videos
unfolding rebuild_sorted
rebuild_sorted-videos m = refl

-- `UpdateVideoInfo` reports whether the home has the video. If so it replaces its title, description
-- and visibility and nothing else; every other video, of this home and of the others, is as before.
pub query_video-update_video_info :
    (home id t d vis other j : String) (m : HomeManager) (v : Video)
    → query_video home id m ≡ some v
    → ((update_video_info home id t d vis m).0 ≡ true)
      × (query_video other j (update_video_info home id t d vis m).1 ≡ (
          if home == other
          then (if id == j
              then some (record v { title = t; description = d; visibility = vis })
              else query_video other j m)
          else query_video other j m))
unfolding update_video_info
query_video-update_video_info home id t d vis other j m v h =
    let (vids, here, there) = query_video_found home id m v h in
    let v' : Video = record v { title = t; description = d; visibility = vis } in
    let n : HomeManager = record m { videos = insert home (insert id v' vids) m.videos } in
    rw (here, update_video_info)
      (rw there (
        refl,
        ground (
          arith,
          query_video-insert home other j (insert id v' vids) m (rebuild_sorted n)
              (rebuild_sorted-videos n),
          lookup-insert id j v' vids,
          eq_iff home other,
          query_video_here home j m vids here,
        ),
      ))

-- On a video that the home does not have it reports so and changes nothing.
pub update_video_info_absent :
    (home id t d vis : String) (m : HomeManager)
    → query_video home id m ≡ none
    → update_video_info home id t d vis m ≡ (false, m)
unfolding update_video_info query_video
update_video_info_absent home id t d vis m h = ground arith

-- Of two registrations under one identifier the second is refused and changes nothing, so the home
-- keeps the connection that it had first.
register_home_twice :
    (id : String) (conn late : HomeConn) (m : HomeManager)
    → (get_home id (register_home id conn m).1 ≡ or_else (get_home id m) (some conn))
      × (register_home id late (register_home id conn m).1
          ≡ (err (errorf "home %q already registered" (str id ∷ [])), (register_home id conn m).1))
unfolding register_home get_home
register_home_twice id conn late m = elim (Option-cases (lookup id m.homes)) [
  | inl free ↦
      let now : lookup id (insert id conn m.homes) ≡ some conn =
        lookup-insert id id conn m.homes ∙ rw (eq_refl id) in
      rw (free, register_home) (rw now (refl, rw (free, register_home)))
  | inr (c, taken) ↦ rw (taken, register_home) (rw taken (refl, rw (taken, register_home)))
]

-- After `UnregisterHome` the home has neither connection nor videos, and may register anew; the
-- other homes keep both.
unregister_home_lem :
    (id other j : String) (conn : HomeConn) (m : HomeManager)
    → (get_home other (unregister_home id m) ≡ (if id == other then none else get_home other m))
      × (query_video other j (unregister_home id m)
          ≡ (if id == other then none else query_video other j m))
      × ((register_home id conn (unregister_home id m)).0 ≡ ok tt)
unfolding register_home unregister_home get_home query_video rebuild_sorted
unregister_home_lem id other j conn m = (
  lookup-delete id other m.homes,
  ground (arith, lookup-delete id other m.videos),
  ground (arith, lookup-delete id id m.homes, eq_refl id),
)
