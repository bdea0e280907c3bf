-- ===== src/Cloud/Comments/Reached.antt =====
-- internal/cloud/videodb.go: which comments can be reached from the roots that GetComments returns.

use famfun.Prelude.{
  ℕ, ◌≡◌, refl, subst, List, [], ◌∷◌, ◌++◌, Option, none, some, Bool-cases, inl, inr, All, ap, true,
  arith, ◌≢◌, nat_eq, nat_eq_iff, sym,
}
use famfun.Cloud.Access.{ℤ}
use famfun.Cloud.Comments.{
  Comment, CommentThreads, known, replies_below, ids_of, place_under, place_root, place_comment,
  place_all,
}

-- Each reply hangs under one that was reached before it.
unfoldable pub Linked : List ℕ → List (ℕ × Comment) → Type 0
Linked reached [] = Unit
Linked reached ((p, c) ∷ rs) = (known p reached ≡ true) × Linked (c.id ∷ reached) rs

-- The identifiers that are reached behind some replies.
unfoldable pub reached_behind : List ℕ → List (ℕ × Comment) → List ℕ
reached_behind reached [] = reached
reached_behind reached ((p, c) ∷ rs) = reached_behind (c.id ∷ reached) rs

abbrev Within : List ℕ → List ℕ → Type 0
Within is js = (i : ℕ) → known i is ≡ true → known i js ≡ true

Within-cons : (j : ℕ) (is js : List ℕ) → Within is js → Within (j ∷ is) (j ∷ js)
unfolding known
Within-cons j is js w i h = ground (arith, h, w i)

Within-append : (is : List ℕ) (j : ℕ) → Within is (is ++ j ∷ [])
unfolding known
Within-append [] j i h = absurd cc
Within-append (k ∷ is) j i h = ground (arith, h, Within-append is j i)

known-append : (is : List ℕ) (j : ℕ) → known j (is ++ j ∷ []) ≡ true
unfolding known
known-append [] j = ground arith
known-append (k ∷ is) j = ground (arith, known-append is j)

Linked-Within :
    (is js : List ℕ) (rs : List (ℕ × Comment)) → Within is js → Linked is rs → Linked js rs
unfolding Linked
Linked-Within is js [] w l = tt
Linked-Within is js ((p, c) ∷ rs) w (there, l) =
    (w p there, Linked-Within (c.id ∷ is) (c.id ∷ js) rs (Within-cons c.id is js w) l)

behind-Within :
    (is js : List ℕ) (rs : List (ℕ × Comment))
    → Within is js
    → Within (reached_behind is rs) (reached_behind js rs)
unfolding reached_behind
behind-Within is js [] w = w
behind-Within is js ((p, c) ∷ rs) w =
    behind-Within (c.id ∷ is) (c.id ∷ js) rs (Within-cons c.id is js w)

Within-behind : (is : List ℕ) (rs : List (ℕ × Comment)) → Within is (reached_behind is rs)
unfolding reached_behind known
Within-behind is [] i h = h
Within-behind is ((p, c) ∷ rs) i h = Within-behind (c.id ∷ is) rs i (ground (arith, h))

Linked-append :
    (is : List ℕ) (rs : List (ℕ × Comment)) (p : ℕ) (c : Comment)
    → Linked is rs
    → known p (reached_behind is rs) ≡ true
    → Linked is (rs ++ (p, c) ∷ [])
unfolding Linked reached_behind
Linked-append is [] p c l there = (there, tt)
Linked-append is ((q, d) ∷ rs) p c (here, l) there =
    (here, Linked-append (d.id ∷ is) rs p c l there)

behind-append :
    (is : List ℕ) (rs : List (ℕ × Comment)) (p : ℕ) (c : Comment)
    → reached_behind is (rs ++ (p, c) ∷ []) ≡ c.id ∷ reached_behind is rs
unfolding reached_behind
behind-append is [] p c = refl
behind-append is ((q, d) ∷ rs) p c = behind-append (d.id ∷ is) rs p c

pub replies_below-Linked :
    (is : List ℕ) (rs : List (ℕ × Comment)) → Linked is rs → replies_below is rs ≡ rs
unfolding Linked replies_below
replies_below-Linked is [] l = refl
replies_below-Linked is ((p, c) ∷ rs) (there, l) =
    rw (there, replies_below) (ap (λ z. (p, c) ∷ z) (replies_below-Linked (c.id ∷ is) rs l))

-- Every object can be reached from the roots.
pub record IsReached (t : CommentThreads) : Type 0 where
  pub linked : Linked (ids_of t.roots) t.replies
  pub all : Within t.by_id (reached_behind (ids_of t.roots) t.replies)

ids_of-append : (cs : List Comment) (c : Comment) → ids_of (cs ++ c ∷ []) ≡ ids_of cs ++ c.id ∷ []
ids_of-append [] c = refl
ids_of-append (d ∷ cs) c = ap (λ z. d.id ∷ z) (ids_of-append cs c)

Within-both : (j : ℕ) (is js : List ℕ) → known j js ≡ true → Within is js → Within (j ∷ is) js
unfolding known
Within-both j is js here w i h = elim (Bool-cases (nat_eq j i)) [
  | inl e ↦ subst (λ k. known k js ≡ true) ((nat_eq_iff j i).0 e) here
  | inr e ↦ w i (ground (arith, h, e))
]

place_root-IsReached : (c : Comment) (t : CommentThreads) → IsReached t → IsReached (place_root c t)
unfolding place_root
place_root-IsReached c t r =
    let is = ids_of t.roots in
    let js = is ++ c.id ∷ [] in
    let more : ids_of (t.roots ++ c ∷ []) ≡ js = ids_of-append t.roots c in
    let w = Within-append is c.id in
    let here = Within-behind js t.replies c.id (known-append is c.id) in
    let all : Within t.by_id (reached_behind js t.replies) =
      λ i h. behind-Within is js t.replies w i (r.all i h) in
    record {
      linked =
          subst (λ l. Linked l t.replies) (sym more) (Linked-Within is js t.replies w r.linked);
      all =
          subst (λ l. Within (c.id ∷ t.by_id) (reached_behind l t.replies)) (sym more)
            (Within-both c.id t.by_id (reached_behind js t.replies) here all);
    }

parent_known :
    (c : Comment) (p : ℕ) (t : CommentThreads)
    → some (ℤ.pos p) ≢ some (ℤ.pos c.id)
    → known p (c.id ∷ t.by_id) ≡ true
    → known p t.by_id ≡ true
unfolding known
parent_known c p t other there = elim (Bool-cases (nat_eq c.id p)) [
  | inl own ↦ absurd (other (ap (λ k. some (ℤ.pos k)) (sym ((nat_eq_iff c.id p).0 own))))
  | inr e ↦ ground (arith, there, e)
]

place_under-IsReached :
    (c : Comment) (p : Option ℤ) (t : CommentThreads)
    → p ≢ some (ℤ.pos c.id)
    → IsReached t
    → IsReached (place_under c p t)
unfolding place_under
place_under-IsReached c none t other r = place_root-IsReached c t r
place_under-IsReached c (some (ℤ.negsuc n)) t other r = place_root-IsReached c t r
place_under-IsReached c (some (ℤ.pos p)) t other r = elim (Bool-cases (known p (c.id ∷ t.by_id))) [
  | inr gone ↦ rw (gone, place_under) (place_root-IsReached c t r)
  | inl there ↦
      let is = ids_of t.roots in
      let parent = parent_known c p t other there in
      let more = behind-append is t.replies p c in
      rw (there, place_under)
        (record {
          linked = Linked-append is t.replies p c r.linked (r.all p parent);
          all =
              subst (Within (c.id ∷ t.by_id)) (sym more)
                (Within-cons c.id t.by_id (reached_behind is t.replies) r.all);
        })
]

-- No comment names itself as its parent.
abbrev pub NoneUnderItself : List Comment → Type 0
NoneUnderItself = All (λ c. c.parent_id ≢ some (ℤ.pos c.id))

pub place_all-IsReached :
    (cs : List Comment) (t : CommentThreads)
    → NoneUnderItself cs
    → IsReached t
    → IsReached (place_all cs t)
unfolding place_all place_comment
place_all-IsReached [] t none_own r = r
place_all-IsReached (c ∷ cs) t (other, others) r =
    place_all-IsReached cs (place_comment c t) others
      (place_under-IsReached c c.parent_id t other r)
