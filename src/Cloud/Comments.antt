-- ===== src/Cloud/Comments.antt =====
-- internal/cloud/videodb.go: the comments of the videos, the table `video_comments`. The statements of
-- this table fail only with the database itself, which is left out.
pub mod Reached
pub mod Threads
use famfun.Prelude.{
  ℕ, suc, String, List, [], ◌∷◌, ◌++◌, map, filter, Option, none, some, Bool, true, false, ◌||◌,
  ◌==◌, nat_eq, if◌then◌else◌,
}
use famfun.Prelude.Dict.{Dict, lookup}
use famfun.Cloud.Access.{ℤ, pos, negsuc}

-- Comment, without its replies: those are in `CommentThreads`, under the identifier of the object whose
-- slice holds them.
pub record Comment : Type 0 where
  pub id : ℕ
  pub video_id : String
  pub user_id : String
  pub username : String
  pub parent_id : Option ℤ
  pub content : String
  pub created_at : String

-- The rows in the order of their identifiers, with an empty user name; `last` is the last identifier
-- that was given.
pub record CommentTable : Type 0 where
  pub rows : List Comment
  pub last : ℕ

-- `now` is CURRENT_TIMESTAMP.
unfoldable pub add_comment :
    String → String → String → String → Option ℤ → CommentTable → Comment × CommentTable
add_comment now video_id user_id content parent_id t =
    let c : Comment = record {
      id = suc t.last;
      video_id = video_id;
      user_id = user_id;
      username = "";
      parent_id = parent_id;
      content = content;
      created_at = now;
    } in
    (c, record { rows = t.rows ++ c ∷ []; last = suc t.last })

-- What GetComments has built so far: the roots, the replies each under its parent, and the
-- identifiers of the objects.
pub record CommentThreads : Type 0 where
  pub roots : List Comment
  pub replies : List (ℕ × Comment)
  pub by_id : List ℕ

unfoldable pub known : ℕ → List ℕ → Bool
known i [] = false
known i (j ∷ js) = nat_eq j i || known i js

unfoldable pub place_root : Comment → CommentThreads → CommentThreads
place_root c t = record t { roots = t.roots ++ c ∷ []; by_id = c.id ∷ t.by_id }

-- The object is known before its parent is looked for. No identifier is negative.
unfoldable pub place_under : Comment → Option ℤ → CommentThreads → CommentThreads
place_under c none t = place_root c t
place_under c (some (negsuc n)) t = place_root c t
place_under c (some (pos p)) t = elim (known p (c.id ∷ t.by_id)) [
  | true ↦ record t { replies = t.replies ++ (p, c) ∷ []; by_id = c.id ∷ t.by_id }
  | false ↦ place_root c t
]

-- One row of the loop of GetComments.
unfoldable pub place_comment : Comment → CommentThreads → CommentThreads
place_comment c t = place_under c c.parent_id t

unfoldable pub place_all : List Comment → CommentThreads → CommentThreads
place_all [] t = t
place_all (c ∷ cs) t = place_all cs (place_comment c t)

-- The row joined with the names of the users.
unfoldable pub with_username : Dict String → Comment → Comment
with_username names c = elim (lookup c.user_id names) [
  | none ↦ record c { username = "Anonymous" }
  | some n ↦ record c { username = n }
]

-- The rows of one video, in the order of their identifiers.
unfoldable pub rows_of : Dict String → String → CommentTable → List Comment
rows_of names video_id t = map (with_username names) (filter (λ c. c.video_id == video_id) t.rows)

-- The replies that hang, over any number of others, under objects with the identifiers `reached`. A
-- parent is placed before its replies, so that one walk finds them.
unfoldable pub replies_below : List ℕ → List (ℕ × Comment) → List (ℕ × Comment)
replies_below reached [] = []
replies_below reached ((p, c) ∷ rs) = elim (known p reached) [
  | true ↦ (p, c) ∷ replies_below (c.id ∷ reached) rs
  | false ↦ replies_below reached rs
]

abbrev pub ids_of : List Comment → List ℕ
ids_of = map (λ c. c.id)

-- What is returned are the roots, with the objects that can be reached from them.
unfoldable pub from_roots : CommentThreads → CommentThreads
from_roots t = record t { replies = replies_below (ids_of t.roots) t.replies }

unfoldable pub get_comments : Dict String → String → CommentTable → CommentThreads
get_comments names video_id t =
    from_roots
      (place_all (rows_of names video_id t) (record { roots = []; replies = []; by_id = [] }))
