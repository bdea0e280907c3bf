-- ===== src/Cloud/Stats/Counts.antt =====
-- internal/cloud/videodb.go: what the statistics of a video count.
use famfun.Prelude.{
  ℕ, ◌+◌, ◌≡◌, refl, String, List, [], ◌∷◌, Option, none, some, true, ◌==◌, nat_eq, ◌&&◌,
  if◌then◌else◌, arith, eq_iff, Option-cases, inl, inr,
}
use famfun.Prelude.Dict.{Dict, lookup, insert, lookup-insert}
use famfun.Cloud.Stats.{
  VideoStats, StatsTable, upsert, increment_play_count, increment_comment_count, collect, is_among,
  rows_among, get_video_stats, one_play_more, one_comment_more,
}

-- What happens to videos.
pub data Event : Type 0 where
  plays : String → Event
  comments : String → Event

unfoldable pub count : Event → StatsTable → StatsTable
count (Event.plays id) t = increment_play_count id t
count (Event.comments id) t = increment_comment_count id t

unfoldable pub count_all : List Event → StatsTable → StatsTable
count_all [] t = t
count_all (e ∷ es) t = count_all es (count e t)

-- The plays and the comments of one video, counted from the events themselves.
abbrev pub tally : String → List Event → ℕ × ℕ → ℕ × ℕ
tally id [] n = n
tally id (Event.plays i ∷ es) (p, c) = tally id es (if i == id then p + 1 else p, c)
tally id (Event.comments i ∷ es) (p, c) = tally id es (p, if i == id then c + 1 else c)

-- A video without an event has no row.
abbrev pub row_of : ℕ × ℕ → Option VideoStats
row_of (p, c) =
    if nat_eq p 0 && nat_eq c 0 then none else some (record { play_count = p; comment_count = c })

pub lookup-upsert :
    (new key : String) (vs : VideoStats) (f : VideoStats → VideoStats) (t : StatsTable)
    → lookup key (upsert new vs f t) ≡ (
        if new == key
        then some (elim (lookup new t) [ none ↦ vs | some s ↦ f s ])
        else lookup key t)
unfolding upsert
lookup-upsert new key vs f t = elim (Option-cases (lookup new t)) [
  | inl e ↦ rw (e, upsert) (lookup-insert new key vs t)
  | inr (s, e) ↦ rw (e, upsert) (lookup-insert new key (f s) t)
]

count-tally :
    (id : String) (e : Event) (n : ℕ × ℕ) (t : StatsTable)
    → lookup id t ≡ row_of n
    → lookup id (count e t) ≡ row_of (tally id (e ∷ []) n)
unfolding count increment_play_count increment_comment_count
count-tally id (Event.plays i) n t h = ground (
  arith,
  h,
  eq_iff i id,
  lookup-upsert i id (record { play_count = 1; comment_count = 0 }) one_play_more t,
)
count-tally id (Event.comments i) n t h = ground (
  arith,
  h,
  eq_iff i id,
  lookup-upsert i id (record { play_count = 0; comment_count = 1 }) one_comment_more t,
)

count_all-tally :
    (id : String) (es : List Event) (n : ℕ × ℕ) (t : StatsTable)
    → lookup id t ≡ row_of n
    → lookup id (count_all es t) ≡ row_of (tally id es n)
unfolding count_all
count_all-tally id [] n t h = h
count_all-tally id (Event.plays i ∷ es) n t h =
    count_all-tally id es _ (count (Event.plays i) t) (count-tally id (Event.plays i) n t h)
count_all-tally id (Event.comments i ∷ es) n t h =
    count_all-tally id es _ (count (Event.comments i) t) (count-tally id (Event.comments i) n t h)

-- The rows have distinct keys.
abbrev Keyed : StatsTable → Type 0
Keyed [] = Unit
Keyed ((id, vs) ∷ t) = (lookup id t ≡ none) × Keyed t

insert-Keyed : (id : String) (vs : VideoStats) (t : StatsTable) → Keyed t → Keyed (insert id vs t)
unfolding insert lookup
insert-Keyed id vs [] k = (refl, tt)
insert-Keyed id vs ((i, v) ∷ t) k =
    ground (arith, insert-Keyed id vs t k.1, lookup-insert id i vs t, eq_iff id i, eq_iff i id)

upsert-Keyed :
    (id : String) (vs : VideoStats) (f : VideoStats → VideoStats) (t : StatsTable)
    → Keyed t
    → Keyed (upsert id vs f t)
unfolding upsert
upsert-Keyed id vs f t k = elim (Option-cases (lookup id t)) [
  | inl e ↦ rw (e, upsert) (insert-Keyed id vs t k)
  | inr (s, e) ↦ rw (e, upsert) (insert-Keyed id (f s) t k)
]

count_all-Keyed : (es : List Event) (t : StatsTable) → Keyed t → Keyed (count_all es t)
unfolding count_all count increment_play_count increment_comment_count
count_all-Keyed [] t k = k
count_all-Keyed (Event.plays i ∷ es) t k =
    count_all-Keyed es (increment_play_count i t) (upsert-Keyed _ _ _ t k)
count_all-Keyed (Event.comments i ∷ es) t k =
    count_all-Keyed es (increment_comment_count i t) (upsert-Keyed _ _ _ t k)

lookup-collect :
    (ids : List String) (id : String) (t : StatsTable) (m : Dict VideoStats)
    → Keyed t
    → is_among ids id ≡ true
    → lookup id (collect (rows_among ids t) m)
      ≡ (elim (lookup id t) [ some vs ↦ some vs | none ↦ lookup id m ])
unfolding collect rows_among lookup
lookup-collect ids id [] m k among = refl
lookup-collect ids id ((i, vs) ∷ t) m k among = ground (
  arith,
  lookup-collect ids id t m k.1 among,
  lookup-collect ids id t (insert i vs m) k.1 among,
  lookup-insert i id vs m,
  eq_iff i id,
)

-- After any plays and comments, counted from an empty table, the statistics that are asked for a list
-- of videos have for each video of the list the number of its plays and the number of its comments;
-- a video with neither has no entry.
pub get_video_stats-count_all :
    (ids : List String) (id : String) (es : List Event)
    → is_among ids id ≡ true
    → lookup id (get_video_stats ids (count_all es [])) ≡ row_of (tally id es (0, 0))
unfolding get_video_stats is_among lookup
get_video_stats-count_all [] id es among = absurd cc
get_video_stats-count_all (i ∷ ids) id es among =
    let t = count_all es [] in
    ground (
      arith,
      lookup-collect (i ∷ ids) id t [] (count_all-Keyed es [] tt) among,
      count_all-tally id es (0, 0) [] refl,
    )
