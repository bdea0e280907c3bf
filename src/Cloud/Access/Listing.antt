-- ===== src/Cloud/Access/Listing.antt =====
-- internal/cloud/server.go: what a client gets that lists the videos page by page.
use famfun.Prelude.{
  ℕ, ◌+◌, ◌≡◌, refl, ◌^◌, Bool, true, String, List, [], ltb, if◌then◌else◌, length, take, drop,
  filter,
}
use famfun.Model.{Video}
use famfun.Cloud.HomeManager.{HomeManager}
use famfun.Cloud.HomeManager.Pages.{list_videos_page_lem}
use famfun.Cloud.Access.{
  ℤ, can_access, clamp_offset, clamp_limit, has_more_behind, handle_list_videos,
}

-- The videos that a role may see, in the order of the list.
abbrev pub visible : String → HomeManager → List Video
visible role m = filter (λ v. can_access role v.visibility) m.sorted

pub handle_list_videos-page :
    (role : String) (offset limit : ℤ) (m : HomeManager)
    → let r = handle_list_videos role offset limit m in
      (r.total ≡ length (visible role m))
      × (r.videos ≡ take (clamp_limit limit) (drop (clamp_offset offset) (visible role m)))
      × (r.has_more
          ≡ has_more_behind (clamp_offset offset) (clamp_limit limit) (length (visible role m)))
unfolding handle_list_videos
handle_list_videos-page role offset limit m =
    rw
      (list_videos_page_lem (clamp_offset offset) (clamp_limit limit)
        (λ v. can_access role v.visibility) m)
      (refl, refl, refl)

-- How the flag of an answer stands to its page, for the list that the page is from.
abbrev pub Announced : ℕ → ℕ → List Video → List Video → Bool → Type 0
Announced o l all page more =
    if ltb (o + l) (2 ^ 63)
    then (if more then length page ≡ l else page ≡ drop o all)
    else (more ≡ true) × (page ≡ [])
