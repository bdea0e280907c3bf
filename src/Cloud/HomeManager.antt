-- ===== src/Cloud/HomeManager.antt =====
-- internal/cloud/home_manager.go: the registered homes and their videos. The order of a map's list
-- is the order in which Go ranges over it. Each method holds the manager's lock from its first line
-- to its last, so that calls follow one another.
pub mod Sorted
pub mod Pages
pub mod Lookups
use famfun.Prelude.{
  ℕ, zero, suc, ◌+◌, String, List, [], ◌∷◌, ◌++◌, map, Option, none, some, Bool, true, false, not,
  ◌&&◌, ◌||◌, Result, ok, err, errorf, Arg, str, length, ltb, leb, ◌==◌, if◌then◌else◌,
}
use famfun.Prelude.Dict.{Dict, lookup, insert, delete, values, keys}
use famfun.Prelude.Order.{str_lt}
use famfun.Prelude.Sort.{sort}
use famfun.Model.{Video}
use famfun.Cloud.Connection.{HomeConn}

-- HomeInfo
pub record HomeInfo : Type 0 where
  pub id : String
  pub name : String

pub record HomeManager : Type 0 where
  pub homes : Dict HomeConn
  pub videos : Dict (Dict Video)
  pub sorted : List Video

unfoldable pub new_home_manager : HomeManager
new_home_manager = record { homes = []; videos = []; sorted = [] }

-- The comparison of `rebuildSorted`: newest first, then by identifier.
unfoldable pub video_less : Video → Video → Bool
video_less a b =
    if not (a.created_at == b.created_at)
    then str_lt b.created_at a.created_at
    else str_lt a.id b.id

abbrev pub concat : List (List Video) → List Video
concat [] = []
concat (vs ∷ vss) = vs ++ concat vss

-- The two nested loops over the maps.
abbrev pub all_videos : Dict (Dict Video) → List Video
all_videos m = concat (map values (values m))

unfoldable pub rebuild_sorted : HomeManager → HomeManager
rebuild_sorted m = record m { sorted = sort video_less (all_videos m.videos) }

unfoldable pub register_home : String → HomeConn → HomeManager → Result (Unit {0}) × HomeManager
register_home id conn m = elim (lookup id m.homes) [
  | some _ ↦ (err (errorf "home %q already registered" (str id ∷ [])), m)
  | none ↦ (ok tt, record m { homes = insert id conn m.homes })
]

unfoldable pub unregister_home : String → HomeManager → HomeManager
unregister_home id m =
    rebuild_sorted (record m { homes = delete id m.homes; videos = delete id m.videos })

unfoldable pub get_home : String → HomeManager → Option HomeConn
get_home id m = lookup id m.homes

unfoldable pub list_all_videos : HomeManager → List Video
list_all_videos m = m.sorted

-- The loop of `ListVideosPage`: the page so far and the matches so far.
unfoldable pub page_loop : ℕ → ℕ → (Video → Bool) → List Video → List Video × ℕ → List Video × ℕ
page_loop offset limit passes [] s = s
page_loop offset limit passes (v ∷ vs) (page, matched) = page_loop offset limit passes vs (
    if not (passes v) then (page, matched) else (
      (if leb offset matched && ltb (length page) limit then page ++ v ∷ [] else page),
      matched + 1,
    ))

-- A nil filter lets every video pass. The server's offsets and limits are not negative.
unfoldable pub list_videos_page : ℕ → ℕ → Option (Video → Bool) → HomeManager → List Video × ℕ
list_videos_page offset limit filter m =
    page_loop offset limit (elim filter [ none ↦ λ _. true | some f ↦ f ]) m.sorted ([], 0)

unfoldable pub query_video : String → String → HomeManager → Option Video
query_video home_id video_id m = elim (lookup home_id m.videos) [
  | none ↦ none
  | some vids ↦ lookup video_id vids
]

-- for _, v := range videos { vm[v.ID] = v }
unfoldable pub add_videos : List Video → Dict Video → Dict Video
add_videos [] vm = vm
add_videos (v ∷ vs) vm = add_videos vs (insert v.id v vm)

-- for _, id := range toRemove { delete(vids, id) }
unfoldable pub remove_videos : List String → Dict Video → Dict Video
remove_videos [] vm = vm
remove_videos (id ∷ ids) vm = remove_videos ids (delete id vm)

unfoldable pub update_videos : String → List Video → HomeManager → HomeManager
update_videos home_id videos m =
    rebuild_sorted (record m { videos = insert home_id (add_videos videos []) m.videos })

abbrev pub or_empty : Option (Dict Video) → Dict Video
or_empty none = []
or_empty (some vids) = vids

-- The set of the identifiers, in the map's order.
unfoldable pub home_video_ids : String → HomeManager → List String
home_video_ids home_id m = keys (or_empty (lookup home_id m.videos))

unfoldable pub sync_home_videos : String → List Video → List String → HomeManager → HomeManager
sync_home_videos home_id to_add to_remove m =
    let vids = or_empty (lookup home_id m.videos) in
    let m' : HomeManager = record m {
      videos = insert home_id (add_videos to_add (remove_videos to_remove vids)) m.videos;
    } in
    if ltb 0 (length to_add) || ltb 0 (length to_remove) then rebuild_sorted m' else m'

-- The first map, in the order of the range, that has the identifier.
unfoldable pub find_in : String → List (Dict Video) → Option Video
find_in video_id [] = none
find_in video_id (vids ∷ rest) = elim (lookup video_id vids) [
  | some v ↦ some v
  | none ↦ find_in video_id rest
]

unfoldable pub find_video_by_id : String → HomeManager → Option Video
unfolding find_in
find_video_by_id video_id m = find_in video_id (values m.videos)

-- The fields are written through the pointer that the map holds.
unfoldable pub update_video_info :
    String → String → String → String → String → HomeManager → Bool × HomeManager
update_video_info home_id video_id title description visibility m = elim (lookup home_id m.videos) [
  | none ↦ (false, m)
  | some vids ↦ elim (lookup video_id vids) [
    | none ↦ (false, m)
    | some v ↦
        let v' : Video = record v {
          title = title;
          description = description;
          visibility = visibility;
        } in
        (
          true,
          rebuild_sorted (record m { videos = insert home_id (insert video_id v' vids) m.videos }),
        )
  ]
]

unfoldable pub list_homes : HomeManager → List HomeInfo
list_homes m = map (λ conn. record { id = conn.home_id; name = conn.home_name }) (values m.homes)

unfoldable pub home_count : HomeManager → ℕ
home_count m = length m.homes

unfoldable pub video_count : HomeManager → ℕ
video_count m = length m.sorted
