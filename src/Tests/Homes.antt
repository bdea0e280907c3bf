-- ===== src/Tests/Homes.antt =====
-- The theorems on the registry of homes, its pages and the syncs at concrete inputs.
use famfun.Prelude.{
  Option, All, ℕ, ◌≡◌, refl, String, List, [], ◌∷◌, none, some, Bool, Result, ok, err, errorf, str,
  length, filter, take, drop, if◌then◌else◌, ◌==◌, arith, eq_iff,
}
use mathlib.Core.List.{Perm}
use famfun.Prelude.Dict.{lookup}
use famfun.Prelude.Sort.{Ordered}
use famfun.Model.{Video}
use famfun.Cloud.Connection.{HomeConn}
use famfun.Cloud.HomeManager.{
  HomeManager, new_home_manager, video_less, all_videos, query_video, sync_home_videos,
  list_videos_page,
}
use famfun.Cloud.HomeManager.Sorted.{Change, run, run-new_home_manager-IsCurrent}
use famfun.Cloud.HomeManager.Pages.{list_videos_page_lem, pages, pages_cover}
use famfun.Cloud.Comments.{Comment, CommentTable, ids_of, with_username, rows_of, get_comments}
use famfun.Cloud.Comments.Reached.{Linked, NoneUnderItself}
use famfun.Cloud.Comments.Threads.{placed, get_comments-placed}
use famfun.Cloud.Access.{ℤ}
use famfun.Cloud.QuicServer.{sync_videos, fetch_loop, seen}
use famfun.Cloud.QuicServer.Sync.{IsHonest, sync_videos-added}
use famfun.Tests.Wire.{film}

abbrev pub conn : HomeConn
conn = record { home_id = "h"; home_name = "Home"; conn = 3 }

abbrev later : Video
later = record film { id = "w"; created_at = "2026-02-02"; visibility = "guest" }

-- A manager with one home and two videos.
abbrev pub stocked : HomeManager
stocked = record {
  homes = ("h", conn) ∷ [];
  videos = ("h", ("v", film) ∷ ("w", later) ∷ []) ∷ [];
  sorted = later ∷ film ∷ [];
}

abbrev changes : List Change
changes =
    Change.registers "h" conn
    ∷ Change.syncs "h" (film ∷ later ∷ []) []
    ∷ Change.edits "h" "v" "T" "" "guest"
    ∷ Change.unregisters "other"
    ∷ []

run-new_home_manager-IsCurrent_example :
    Perm (run changes new_home_manager).sorted (all_videos (run changes new_home_manager).videos)
    × Ordered video_less (run changes new_home_manager).sorted
run-new_home_manager-IsCurrent_example = run-new_home_manager-IsCurrent changes

abbrev guests : Video → Bool
guests v = v.visibility == "guest"

list_videos_page_lem_example :
    list_videos_page 0 1 (some guests) stocked
    ≡ (take 1 (drop 0 (filter guests stocked.sorted)), length (filter guests stocked.sorted))
list_videos_page_lem_example = list_videos_page_lem 0 1 guests stocked

pages_cover_example : pages 2 0 1 guests stocked ≡ drop 0 (filter guests stocked.sorted)
pages_cover_example = pages_cover 2 0 1 guests stocked (omega arith)

abbrev late : HomeConn
late = record { home_id = "h"; home_name = "Late"; conn = 4 }

-- A home that has one more video.
abbrev asks : String → Result Video
asks id =
    if id == "x"
    then ok (record film { id = "x" })
    else err (errorf "video %q not found" (str id ∷ []))

asks-IsHonest : IsHonest asks
asks-IsHonest id v h = ground (arith, h, eq_iff id "x")

abbrev synced : HomeManager
synced = sync_home_videos "h" (record film { id = "x" } ∷ []) [] stocked

sync_done : sync_videos asks conn ("v" ∷ "x" ∷ "x" ∷ "y" ∷ []) stocked ≡ some synced
unfolding sync_videos fetch_loop query_video lookup seen
sync_done = refl

sync_videos-added_example : query_video "h" "x" synced ≡ some (record film { id = "x" })
unfolding query_video lookup seen
sync_videos-added_example =
    sync_videos-added asks conn ("v" ∷ "x" ∷ "x" ∷ "y" ∷ []) stocked synced "h" "x" asks-IsHonest
      sync_done

abbrev remark : ℕ → Option ℤ → Comment
remark i parent = record {
  id = i;
  video_id = "v";
  user_id = "u";
  username = "";
  parent_id = parent;
  content = "nice";
  created_at = "";
}

abbrev remarks : CommentTable
remarks = record {
  rows = remark 1 none ∷ remark 2 (some (ℤ.pos 1)) ∷ remark 3 (some (ℤ.pos 9)) ∷ [];
  last = 3;
}

none_own : NoneUnderItself (rows_of (("u", "kamlu") ∷ []) "v" remarks)
unfolding rows_of with_username lookup
none_own = (
  (λ e. absurd (ground (arith, e))),
  ((λ e. absurd (ground (arith, e))), ((λ e. absurd (ground (arith, e))), tt)),
)

get_comments-placed_example :
    let r = get_comments (("u", "kamlu") ∷ []) "v" remarks in
    Perm (placed r) (rows_of (("u", "kamlu") ∷ []) "v" remarks)
    × All (λ e. e.1.parent_id ≡ some (ℤ.pos e.0)) r.replies
    × Linked (ids_of r.roots) r.replies
get_comments-placed_example = get_comments-placed (("u", "kamlu") ∷ []) "v" remarks none_own
