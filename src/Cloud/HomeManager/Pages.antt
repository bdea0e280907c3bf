-- ===== src/Cloud/HomeManager/Pages.antt =====
-- internal/cloud/home_manager.go: what a page of `ListVideosPage` holds.
use famfun.Prelude.{
  ℕ, zero, suc, ◌+◌, ◌-◌, ◌≤◌, ◌<◌, ◌≡◌, refl, sym, ap, ◌∙◌, inl, inr, Bool-cases, List, [], ◌∷◌,
  ◌++◌, some, Bool, arith, length, take, drop, filter, ltb, leb, append-nil, append_assoc,
  length-append, drop-add, take-append-drop, ◌*◌,
}
use famfun.Model.{Video}
use famfun.Cloud.HomeManager.{HomeManager, page_loop, list_videos_page}

drop-nil {ℓ} : {A : Type ℓ} (n : ℕ) → drop {A = A} n [] ≡ []
drop-nil zero = refl
drop-nil (suc n) = refl

take-nil {ℓ} : {A : Type ℓ} (n : ℕ) → take {A = A} n [] ≡ []
take-nil zero = refl
take-nil (suc n) = refl

same_page : {page : List Video} {a b : ℕ} → a ≡ b → ◌≡◌ {A = List Video × ℕ} (page, a) (page, b)
same_page {page} e = ap (λ (n : ℕ). (page, n)) e

-- The page that the loop ends with, from the matches that are still to come: `skip` of them are to
-- be passed over, and `room` of them taken.
page_loop_lem :
    (offset limit : ℕ) (passes : Video → Bool) (vs page : List Video) (matched : ℕ)
    → length page ≤ limit
    → (matched < offset → page ≡ [])
    → page_loop offset limit passes vs (page, matched) ≡ (
      page ++ take (limit - length page) (drop (offset - matched) (filter passes vs)),
      matched + length (filter passes vs),
    )
unfolding page_loop
page_loop_lem offset limit passes [] page matched room h =
    rw (drop-nil (offset - matched))
      (rw (take-nil (limit - length page)) (rw append-nil (same_page (omega arith))))
page_loop_lem offset limit passes (v ∷ vs) page matched room h = elim (Bool-cases (passes v)) [
  | inr skip ↦ rw skip (page_loop_lem offset limit passes vs page matched room h)
  | inl hit ↦ rw hit (elim (Bool-cases (leb offset matched)) [
    | inr early ↦
        let e : offset - matched ≡ suc (offset - (matched + 1)) = ground arith in
        rw early (
          rw e (
            page_loop_lem offset limit passes vs page (matched + 1) room (λ _. h (ground arith))
            ∙ same_page (omega arith)))
    | inl late ↦ rw late (elim (Bool-cases (ltb (length page) limit)) [
      | inl space ↦
          let more = length-append page (v ∷ []) in
          let d : offset - matched ≡ 0 = ground arith in
          let d' : offset - (matched + 1) ≡ 0 = ground arith in
          let t : limit - length page ≡ suc (limit - length (page ++ v ∷ [])) = ground arith in
          rw space (
            page_loop_lem offset limit passes vs (page ++ v ∷ []) (matched + 1) (ground arith)
              (λ lt. absurd (ground arith))
            ∙ rw (d, d', t) (rw append_assoc (same_page (omega arith))))
      | inr full ↦
          let t : limit - length page ≡ 0 = ground arith in
          rw full (
            page_loop_lem offset limit passes vs page (matched + 1) room
              (λ lt. absurd (ground arith))
            ∙ rw t (same_page (omega arith)))
    ])
  ])
]

-- A page holds the matching videos from number `offset` on, at most `limit` of them, in the order of
-- the sorted list, and the total counts all of them.
pub list_videos_page_lem :
    (offset limit : ℕ) (passes : Video → Bool) (m : HomeManager)
    → list_videos_page offset limit (some passes) m
      ≡ (take limit (drop offset (filter passes m.sorted)), length (filter passes m.sorted))
unfolding list_videos_page
list_videos_page_lem offset limit passes m =
    let l : limit - 0 ≡ limit = omega arith in
    let o : offset - 0 ≡ offset = omega arith in
    page_loop_lem offset limit passes m.sorted [] 0 (omega arith) (λ _. refl)
    ∙ rw (l, o) (same_page (omega arith))

-- The pages that a client gets that asks again and again, `limit` further on each time.
pub pages : ℕ → ℕ → ℕ → (Video → Bool) → HomeManager → List Video
pages zero offset limit passes m = []
pages (suc n) offset limit passes m =
    (list_videos_page offset limit (some passes) m).0 ++ pages n (offset + limit) limit passes m

drop-all : (n : ℕ) (xs : List Video) → length xs ≤ n → drop n xs ≡ []
drop-all zero [] h = refl
drop-all zero (x ∷ xs) h = absurd (omega arith)
drop-all (suc n) [] h = refl
drop-all (suc n) (x ∷ xs) h = drop-all n xs (omega arith)

-- Enough pages, one after the other, are exactly the matching videos from the first offset on: none
-- is missing and none comes twice, as long as the list does not change.
pub pages_cover :
    (n offset limit : ℕ) (passes : Video → Bool) (m : HomeManager)
    → length (filter passes m.sorted) ≤ offset + n * limit
    → pages n offset limit passes m ≡ drop offset (filter passes m.sorted)
unfolding pages
pages_cover zero offset limit passes m h = sym (drop-all offset _ (omega arith))
pages_cover (suc n) offset limit passes m h =
    let all = filter passes m.sorted in
    rw (list_videos_page_lem offset limit passes m) (
      rw (pages_cover n (offset + limit) limit passes m (omega arith))
        (rw (drop-add offset limit all) (take-append-drop limit (drop offset all))))
