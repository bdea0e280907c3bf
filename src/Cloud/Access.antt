-- ===== src/Cloud/Access.antt =====
-- internal/cloud/server.go and internal/cloud/auth.go: which role may see and do what, and the page of
-- videos that a client gets.
pub mod Listing
use famfun.Prelude.{
  ℕ, zero, suc, ◌+◌, ◌%◌, ◌^◌, String, List, [], ◌∷◌, Option, none, some, Bool, true, false, ◌||◌,
  ◌==◌, ltb, leb, nat_eq, if◌then◌else◌,
}
use famfun.Model.{Video}
use famfun.Cloud.HomeManager.{HomeManager, list_videos_page, find_video_by_id}

-- The integers: `pos n` is n, `negsuc n` is - (n + 1).
pub data ℤ : Type 0 where
  pos : ℕ → ℤ
  negsuc : ℕ → ℤ

unfoldable pub can_access : String → String → Bool
can_access role visibility =
    if role == "admin"
    then true
    else if role == "member"
    then visibility == "member" || visibility == "guest"
    else visibility == "guest"

-- The tests of the middlewares `adminOnly` and `memberOrAdmin`: whether the request goes on.
unfoldable pub admin_only : String → Bool
admin_only role = role == "admin"

unfoldable pub member_or_admin : String → Bool
member_or_admin role = role == "admin" || role == "member"

-- The guards of `handleListVideos` on the two query parameters, as strconv.Atoi read them.
unfoldable pub clamp_offset : ℤ → ℕ
clamp_offset (pos n) = n
clamp_offset (negsuc n) = 0

unfoldable pub clamp_limit : ℤ → ℕ
clamp_limit (pos zero) = 30
clamp_limit (pos (suc n)) = if ltb 100 (suc n) then 100 else suc n
clamp_limit (negsuc n) = 30

pub record VideoPage : Type 0 where
  pub videos : List Video
  pub total : ℕ
  pub has_more : Bool

-- `offset+limit < total` on Go's int of 64 bits: from 2 ^ 63 on the sum stands for a negative number.
unfoldable pub has_more_behind : ℕ → ℕ → ℕ → Bool
has_more_behind offset limit total =
    let sum = (offset + limit) % 2 ^ 64 in if ltb sum (2 ^ 63) then ltb sum total else true

-- `handleListVideos`, without the statistics that it adds to each video.
unfoldable pub handle_list_videos : String → ℤ → ℤ → HomeManager → VideoPage
handle_list_videos role offset limit m =
    let o = clamp_offset offset in
    let l = clamp_limit limit in
    let (page, total) = list_videos_page o l (some (λ v. can_access role v.visibility)) m in
    record { videos = page; total = total; has_more = has_more_behind o l total }

-- A video that no home has passes.
unfoldable pub check_video_access : String → String → HomeManager → Bool
check_video_access role video_id m = elim (find_video_by_id video_id m) [
  | none ↦ true
  | some v ↦ can_access role v.visibility
]
