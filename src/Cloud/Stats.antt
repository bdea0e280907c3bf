-- ===== src/Cloud/Stats.antt =====
-- internal/cloud/videodb.go: how often each video was played and commented on, the table
-- `video_stats`. The statements fail only with the database itself, which is left out.
pub mod Counts
use famfun.Prelude.{
  ℕ, ◌+◌, String, List, [], ◌∷◌, filter, Option, none, some, Bool, true, false, ◌||◌, ◌==◌,
  if◌then◌else◌,
}
use famfun.Prelude.Dict.{Dict, lookup, insert}

pub record VideoStats : Type 0 where
  pub play_count : ℕ
  pub comment_count : ℕ

-- A row under its primary key.
abbrev pub StatsTable : Type 0
StatsTable = Dict VideoStats

-- INSERT ... ON CONFLICT DO UPDATE
unfoldable pub upsert : String → VideoStats → (VideoStats → VideoStats) → StatsTable → StatsTable
upsert id fresh f t = elim (lookup id t) [ none ↦ insert id fresh t | some s ↦ insert id (f s) t ]

abbrev pub one_play_more : VideoStats → VideoStats
one_play_more s = record s { play_count = s.play_count + 1 }

abbrev pub one_comment_more : VideoStats → VideoStats
one_comment_more s = record s { comment_count = s.comment_count + 1 }

-- A column that the INSERT does not name takes its default, which is 0.
unfoldable pub increment_play_count : String → StatsTable → StatsTable
increment_play_count id t = upsert id (record { play_count = 1; comment_count = 0 }) one_play_more t

unfoldable pub increment_comment_count : String → StatsTable → StatsTable
increment_comment_count id t =
    upsert id (record { play_count = 0; comment_count = 1 }) one_comment_more t

-- for rows.Next() { stats[id] = vs }
unfoldable pub collect : List (String × VideoStats) → Dict VideoStats → Dict VideoStats
collect [] stats = stats
collect ((id, vs) ∷ rows) stats = collect rows (insert id vs stats)

unfoldable pub get_all_video_stats : StatsTable → Dict VideoStats
get_all_video_stats t = collect t []

-- WHERE video_id IN (...)
unfoldable pub is_among : List String → String → Bool
is_among [] id = false
is_among (i ∷ ids) id = i == id || is_among ids id

unfoldable pub rows_among : List String → StatsTable → List (String × VideoStats)
rows_among ids [] = []
rows_among ids ((id, vs) ∷ rows) =
    let rest = rows_among ids rows in if is_among ids id then (id, vs) ∷ rest else rest

unfoldable pub get_video_stats : List String → StatsTable → Dict VideoStats
get_video_stats [] t = []
get_video_stats (id ∷ ids) t = collect (rows_among (id ∷ ids) t) []
