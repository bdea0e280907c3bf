-- ===== src/Cloud/Comments/Threads.antt =====
-- internal/cloud/videodb.go: where GetComments puts the comments.
use mathlib.Core.List.{Perm, perm_append_singleton}
use mathlib.Core.List.Perm
use famfun.Prelude.{
  ℕ, ◌≡◌, refl, subst, String, List, [], ◌∷◌, ◌++◌, append-nil, append_assoc, map, Option, none,
  some, Bool-cases, inl, inr, All, All-append,
}
use famfun.Prelude.Dict.{Dict}
use famfun.Cloud.Access.{ℤ}
use famfun.Cloud.Comments.Reached.{
  Linked, NoneUnderItself, IsReached, reached_behind, replies_below-Linked, place_all-IsReached,
}
use famfun.Cloud.Comments.{
  Comment, CommentTable, CommentThreads, known, replies_below, ids_of, from_roots, place_under,
  place_root, place_comment, place_all, rows_of, get_comments,
}

-- All comments of the threads.
abbrev pub placed : CommentThreads → List Comment
placed t = t.roots ++ map (λ r. r.1) t.replies

map-append :
    (xs ys : List (ℕ × Comment))
    → map (λ r. r.1) (xs ++ ys) ≡ map (λ r. r.1) xs ++ map (λ r. r.1) ys
map-append [] ys = refl
map-append (x ∷ xs) ys = rw (map-append xs ys)

Perm-middle : (c : Comment) (xs ys : List Comment) → Perm (xs ++ c ∷ ys) (c ∷ (xs ++ ys))
Perm-middle c [] ys = Perm.refl _
Perm-middle c (x ∷ xs) ys =
    Perm.trans (Perm.cons x (Perm-middle c xs ys)) (Perm.swap c x (xs ++ ys))

root_lem :
    (c : Comment) (t : CommentThreads)
    → Perm ((t.roots ++ c ∷ []) ++ map (λ r. r.1) t.replies) (c ∷ placed t)
root_lem c t = rw append_assoc (Perm-middle c t.roots (map (λ r. r.1) t.replies))

reply_lem :
    (c : Comment) (p : ℕ) (t : CommentThreads)
    → Perm (t.roots ++ map (λ r. r.1) (t.replies ++ (p, c) ∷ [])) (c ∷ placed t)
reply_lem c p t = rw (map-append t.replies ((p, c) ∷ [])) (
    rw (← append_assoc t.roots (map (λ r. r.1) t.replies) (c ∷ []))
      (perm_append_singleton c (placed t)))

place_under-placed :
    (c : Comment) (p : Option ℤ) (t : CommentThreads)
    → Perm (placed (place_under c p t)) (c ∷ placed t)
unfolding place_under place_root
place_under-placed c none t = root_lem c t
place_under-placed c (some (ℤ.negsuc n)) t = root_lem c t
place_under-placed c (some (ℤ.pos p)) t = elim (Bool-cases (known p (c.id ∷ t.by_id))) [
  | inl there ↦ rw (there, place_under) (reply_lem c p t)
  | inr gone ↦ rw (gone, place_under) (root_lem c t)
]

place_all-placed :
    (cs : List Comment) (t : CommentThreads) → Perm (placed (place_all cs t)) (cs ++ placed t)
unfolding place_all place_comment
place_all-placed [] t = Perm.refl _
place_all-placed (c ∷ cs) t = Perm.trans (place_all-placed cs (place_comment c t)) (
    Perm.trans (Perm.append_left cs (place_under-placed c c.parent_id t))
      (Perm-middle c cs (placed t)))

-- A reply stands under the parent that its row names.
abbrev UnderParent : ℕ × Comment → Type 0
UnderParent r = r.1.parent_id ≡ some (ℤ.pos r.0)

place_under-UnderParent :
    (c : Comment) (p : Option ℤ) (t : CommentThreads)
    → c.parent_id ≡ p
    → All UnderParent t.replies
    → All UnderParent (place_under c p t).replies
unfolding place_under place_root
place_under-UnderParent c none t e h = h
place_under-UnderParent c (some (ℤ.negsuc n)) t e h = h
place_under-UnderParent c (some (ℤ.pos p)) t e h = elim (Bool-cases (known p (c.id ∷ t.by_id))) [
  | inl there ↦ rw (there, place_under) (All-append UnderParent t.replies ((p, c) ∷ []) h (e, tt))
  | inr gone ↦ rw (gone, place_under) h
]

place_all-UnderParent :
    (cs : List Comment) (t : CommentThreads)
    → All UnderParent t.replies
    → All UnderParent (place_all cs t).replies
unfolding place_all place_comment
place_all-UnderParent [] t h = h
place_all-UnderParent (c ∷ cs) t h =
    place_all-UnderParent cs (place_comment c t) (place_under-UnderParent c c.parent_id t refl h)

-- Where no comment of a video names itself as its parent, what is returned holds every comment of the
-- video exactly once, as a root or as a reply that can be reached from the roots, and every reply
-- stands under the parent that it names.
pub get_comments-placed :
    (names : Dict String) (video_id : String) (t : CommentTable)
    → NoneUnderItself (rows_of names video_id t)
    → let r = get_comments names video_id t in
      Perm (placed r) (rows_of names video_id t)
      × All (λ e. e.1.parent_id ≡ some (ℤ.pos e.0)) r.replies
      × Linked (ids_of r.roots) r.replies
unfolding get_comments from_roots Linked reached_behind known
get_comments-placed names video_id t none_own =
    let none_yet : CommentThreads = record { roots = []; replies = []; by_id = [] } in
    let rows = rows_of names video_id t in
    let built = place_all rows none_yet in
    let r : IsReached built =
      place_all-IsReached rows none_yet none_own (record { linked = tt; all = λ i h. absurd cc }) in
    let kept : replies_below (ids_of built.roots) built.replies ≡ built.replies =
      replies_below-Linked (ids_of built.roots) built.replies r.linked in
    (
      rw kept
          (subst (λ l. Perm (placed built) l) (append-nil rows) (place_all-placed rows none_yet)),
      rw kept (place_all-UnderParent rows none_yet tt),
      rw kept r.linked,
    )
