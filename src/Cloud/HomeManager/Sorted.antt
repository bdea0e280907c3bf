-- ===== src/Cloud/HomeManager/Sorted.antt =====
-- internal/cloud/home_manager.go: the sorted list is kept in step with the maps.

use text.Mathlib.TextEquality.{path_by_compare}
use mathlib.Core.List.{Perm, Mem}
use mathlib.Core.List.Perm
use famfun.Prelude.{
  ◌≡◌, refl, sym, ap, ◌∙◌, subst, inl, inr, Bool-cases, Option-cases, String, List, [], ◌∷◌, ◌++◌,
  true, false, ◌||◌, arith, length, ltb, ◌==◌, eq_iff,
}
use famfun.Prelude.Dict.{Dict, lookup, insert, values}
use famfun.Prelude.Order.{str_lt, compare-flip, compare_trans}
use famfun.Prelude.Sort.{Ordered, sort-perm, sort-Ordered, Ordered-unique}
use famfun.Model.{Video}
use famfun.Cloud.Connection.{HomeConn}
use famfun.Cloud.HomeManager.{
  HomeManager, new_home_manager, video_less, all_videos, rebuild_sorted, register_home,
  unregister_home, update_videos, sync_home_videos, or_empty, add_videos, remove_videos,
  update_video_info,
}

str_lt_asym : (s t : String) → str_lt s t ≡ true → str_lt t s ≡ false
str_lt_asym s t h = ground (arith, compare-flip s t)

str_lt_trans : (s t u : String) → str_lt s t ≡ true → str_lt t u ≡ true → str_lt s u ≡ true
str_lt_trans s t u p q = ground (arith, compare_trans s t u)

-- Two texts neither of which comes before the other are equal.
str_lt_tie : (s t : String) → str_lt s t ≡ false → str_lt t s ≡ false → s ≡ t
str_lt_tie s t p q = path_by_compare s t (ground (arith, compare-flip s t))

pub video_less_asym : (a b : Video) → video_less a b ≡ true → video_less b a ≡ false
unfolding video_less
video_less_asym a b h = ground (
  arith,
  eq_iff a.created_at b.created_at,
  eq_iff b.created_at a.created_at,
  str_lt_asym b.created_at a.created_at,
  str_lt_asym a.id b.id,
)

-- `<` on texts, when it fails both ways, is transitive.
str_le_trans : (s t u : String) → str_lt t s ≡ false → str_lt u t ≡ false → str_lt u s ≡ false
str_le_trans s t u p q = elim (Bool-cases (str_lt u s)) [
  | inr done ↦ done
  | inl h ↦ elim (Bool-cases (str_lt s t)) [
    | inl st ↦ ground (arith, str_lt_trans u s t h st)
    | inr ts ↦
        let e = str_lt_tie s t ts p in ground (arith, subst (λ x. str_lt u x ≡ false) (sym e) q)
  ]
]

pub video_less_trans :
    (a b c : Video) → video_less b a ≡ false → video_less c b ≡ false → video_less c a ≡ false
unfolding video_less
video_less_trans a b c p q = ground (
  arith,
  eq_iff b.created_at a.created_at,
  eq_iff c.created_at b.created_at,
  eq_iff c.created_at a.created_at,
  str_le_trans c.created_at b.created_at a.created_at,
  str_lt_tie a.created_at b.created_at,
  str_le_trans a.id b.id c.id,
)

-- Two videos that the comparison does not tell apart have one identifier.
video_less_tie : (a b : Video) → video_less a b ≡ false → video_less b a ≡ false → a.id ≡ b.id
unfolding video_less
video_less_tie a b p q = ground (
  arith,
  eq_iff a.created_at b.created_at,
  eq_iff b.created_at a.created_at,
  str_lt_tie a.created_at b.created_at,
  str_lt_tie a.id b.id,
)

-- The sorted list holds the videos of the maps, each as often, newest first.
pub record IsCurrent (m : HomeManager) : Type 0 where
  pub complete : Perm m.sorted (all_videos m.videos)
  pub ordered : Ordered video_less m.sorted

rebuild_sorted-IsCurrent : (m : HomeManager) → IsCurrent (rebuild_sorted m)
unfolding rebuild_sorted
rebuild_sorted-IsCurrent m = record {
  complete = sort-perm video_less (all_videos m.videos);
  ordered = sort-Ordered video_less video_less_asym video_less_trans (all_videos m.videos);
}

pub new_home_manager-IsCurrent : IsCurrent new_home_manager
unfolding new_home_manager
new_home_manager-IsCurrent = record { complete = Perm.nil; ordered = tt }

rebuild_sorted-videos : (m : HomeManager) → (rebuild_sorted m).videos ≡ m.videos
unfolding rebuild_sorted
rebuild_sorted-videos m = refl

-- A call that changes the manager.
pub data Change : Type 0 where
  registers : String → HomeConn → Change
  unregisters : String → Change
  updates : String → List Video → Change
  syncs : String → List Video → List String → Change
  edits : String → String → String → String → String → Change

unfoldable pub apply : Change → HomeManager → HomeManager
apply (registers id conn) m = (register_home id conn m).1
apply (unregisters id) m = unregister_home id m
apply (updates home vs) m = update_videos home vs m
apply (syncs home add gone) m = sync_home_videos home add gone m
apply (edits home id t d v) m = (update_video_info home id t d v m).1

unfoldable pub run : List Change → HomeManager → HomeManager
run [] m = m
run (c ∷ cs) m = run cs (apply c m)

register_home-IsCurrent :
    (id : String) (conn : HomeConn) (m : HomeManager)
    → IsCurrent m
    → IsCurrent (register_home id conn m).1
unfolding register_home
register_home-IsCurrent id conn m v = elim (Option-cases (lookup id m.homes)) [
  | inl free ↦ rw (free, register_home) (record { complete = v.complete; ordered = v.ordered })
  | inr (c, taken) ↦ rw (taken, register_home) v
]

lookup-cons_miss :
    (home k : String) (vids : Dict Video) (m : Dict (Dict Video))
    → (k == home) ≡ false
    → lookup home ((k, vids) ∷ m) ≡ lookup home m
unfolding lookup
lookup-cons_miss home k vids m miss = rw miss

insert-cons_miss :
    (home k : String) (vids ws : Dict Video) (m : Dict (Dict Video))
    → (k == home) ≡ false
    → insert home ws ((k, vids) ∷ m) ≡ (k, vids) ∷ insert home ws m
unfolding insert
insert-cons_miss home k vids ws m miss = rw miss

all_videos-nothing :
    (home : String) (m : Dict (Dict Video))
    → all_videos (insert home (or_empty (lookup home m)) m) ≡ all_videos m
unfolding insert lookup
all_videos-nothing home [] = refl
all_videos-nothing home ((k, vids) ∷ m) = elim (Bool-cases (k == home)) [
  | inl hit ↦ rw hit
  | inr miss ↦
      ap (λ o. all_videos (insert home (or_empty o) ((k, vids) ∷ m)))
        (lookup-cons_miss home k vids m miss)
      ∙ ap all_videos (insert-cons_miss home k vids (or_empty (lookup home m)) m miss)
      ∙ ap (◌++◌ (values vids)) (all_videos-nothing home m)
]

sync_home_videos-IsCurrent :
    (home : String) (add : List Video) (gone : List String) (m : HomeManager)
    → IsCurrent m
    → IsCurrent (sync_home_videos home add gone m)
unfolding sync_home_videos add_videos remove_videos
sync_home_videos-IsCurrent home add gone m v =
    elim (Bool-cases (ltb 0 (length add) || ltb 0 (length gone))) [
      | inl some_change ↦ rw some_change (rebuild_sorted-IsCurrent _)
      | inr no_change ↦
          let no_add : add ≡ [] = ground arith in
          let no_gone : gone ≡ [] = ground arith in
          rw no_change (
            rw (no_add, no_gone)
              (record {
                complete = Perm.trans v.complete (
                    subst (Perm (all_videos m.videos)) (sym (all_videos-nothing home m.videos))
                      (Perm.refl _));
                ordered = v.ordered;
              }))
    ]

pub update_video_info-IsCurrent :
    (home id t d vis : String) (m : HomeManager)
    → IsCurrent m
    → IsCurrent (update_video_info home id t d vis m).1
unfolding update_video_info
update_video_info-IsCurrent home id t d vis m v = elim (Option-cases (lookup home m.videos)) [
  | inl none_here ↦ rw (none_here, update_video_info) v
  | inr (vids, here) ↦ elim (Option-cases (lookup id vids)) [
    | inl absent ↦ rw (here, update_video_info) (rw absent v)
    | inr (w, there) ↦ rw (here, update_video_info) (rw there (rebuild_sorted-IsCurrent _))
  ]
]

apply-IsCurrent : (c : Change) (m : HomeManager) → IsCurrent m → IsCurrent (apply c m)
unfolding apply unregister_home update_videos
apply-IsCurrent (registers id conn) m v = register_home-IsCurrent id conn m v
apply-IsCurrent (unregisters id) m v = rebuild_sorted-IsCurrent _
apply-IsCurrent (updates home vs) m v = rebuild_sorted-IsCurrent _
apply-IsCurrent (syncs home add gone) m v = sync_home_videos-IsCurrent home add gone m v
apply-IsCurrent (edits home id t d vis) m v = update_video_info-IsCurrent home id t d vis m v

run-IsCurrent : (cs : List Change) (m : HomeManager) → IsCurrent m → IsCurrent (run cs m)
unfolding run
run-IsCurrent [] m v = v
run-IsCurrent (c ∷ cs) m v = run-IsCurrent cs (apply c m) (apply-IsCurrent c m v)

-- After any sequence of registrations, updates, syncs, edits and disconnections the sorted list
-- holds exactly the videos of the maps, each as often as there, and is ordered: no video stands
-- before one that is newer, or as new and with a smaller identifier.
pub run-new_home_manager-IsCurrent :
    (cs : List Change)
    → Perm (run cs new_home_manager).sorted (all_videos (run cs new_home_manager).videos)
      × Ordered video_less (run cs new_home_manager).sorted
run-new_home_manager-IsCurrent cs =
    let v = run-IsCurrent cs new_home_manager new_home_manager-IsCurrent in (v.complete, v.ordered)

-- Go ranges over a map in any order, and its sort may leave videos that compare equal in any order.
-- Where different videos have different identifiers neither is seen: whatever order the loops
-- visit the videos in, and however the sort arranges them, the sorted list is the same.
pub rebuild_sorted_unique :
    (m : HomeManager) (seen result : List Video)
    → ((v w : Video)
        → Mem v (all_videos m.videos)
        → Mem w (all_videos m.videos)
        → v.id ≡ w.id
        → v ≡ w)
    → Perm seen (all_videos m.videos)
    → Perm result seen
    → Ordered video_less result
    → result ≡ (rebuild_sorted m).sorted
rebuild_sorted_unique m seen result distinct p q o =
    let v = rebuild_sorted-IsCurrent m in
    let here = rebuild_sorted-videos m in
    let all : Perm result (all_videos m.videos) = Perm.trans q p in
    Ordered-unique video_less video_less_asym result (rebuild_sorted m).sorted
      (λ a b x y less more.
        distinct a b ((Perm.mem_iff all).0 x) ((Perm.mem_iff all).0 y)
          (video_less_tie a b less more))
      o v.ordered
      (Perm.trans all
        (Perm.symm (subst (λ d. Perm (rebuild_sorted m).sorted (all_videos d)) here v.complete)))
