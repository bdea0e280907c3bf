-- ===== src/Tests/Accounts.antt =====
-- The theorems on the accounts, the statistics and the sessions at concrete inputs.
use famfun.Prelude.{
  ℕ, ◌+◌, ◌*◌, ◌<◌, ◌≤◌, ◌≡◌, refl, List, [], ◌∷◌, some, ok, ltb, arith, if◌then◌else◌, ◌==◌,
}
use famfun.Prelude.Text.{◌⧺◌}
use famfun.Prelude.Dict.{lookup}
use famfun.Cloud.Stats.{is_among, get_video_stats}
use famfun.Cloud.Stats.Counts.{Event, count_all, get_video_stats-count_all}
use famfun.Cloud.Tokens.{
  Auth, auth_middleware, create_token, second, minute, token_expiry, expiry_of, session_for,
  claims_of, renewal,
}
use famfun.Cloud.Tokens.Sessions.{visits, AllPass, create_token-auth_middleware, visits-AllPass}
use famfun.Cloud.Users.{Bcrypt}
use famfun.Cloud.Users.Accounts.{IsValid, Call, run, run-IsValid}
use famfun.Tests.SampleJwt.{sample_jwt, sample_jwt-IsJwt, ann, ann-Signs}

abbrev pub bcrypt : Bcrypt
bcrypt = record {
  generate_from_password = λ p. ok ("hash of " ⧺ p);
  matches = λ h p. h == ("hash of " ⧺ p);
}

abbrev calls : List Call
calls =
    Call.creates "u" "2026-01-01" "ann" "secret" "admin"
    ∷ Call.creates "w" "2026-01-02" "ann" "other" "owner"
    ∷ Call.sets_role "u" "guest"
    ∷ Call.deletes "w"
    ∷ []

run-IsValid_example : IsValid (run bcrypt calls [])
run-IsValid_example = run-IsValid bcrypt calls [] tt

abbrev events : List Event
events = Event.plays "v" ∷ Event.comments "v" ∷ Event.plays "w" ∷ Event.plays "v" ∷ []

get_video_stats-count_all_example :
    lookup "v" (get_video_stats ("v" ∷ "w" ∷ []) (count_all events []))
    ≡ some (record { play_count = 2; comment_count = 1 })
unfolding is_among
get_video_stats-count_all_example = get_video_stats-count_all ("v" ∷ "w" ∷ []) "v" events refl

create_token-auth_middleware_example :
    (auth_middleware sample_jwt [] (10 * minute) (some ((ann-Signs [] second).0)) ≡ (
      if ltb (10 * minute) (expiry_of sample_jwt second)
      then Auth.passed (session_for ann) (
          renewal sample_jwt []
            (10 * minute)
            (claims_of sample_jwt second ann)
            (expiry_of sample_jwt second))
      else Auth.refused "invalid or expired token"))
    × (expiry_of sample_jwt second ≤ second + token_expiry)
    × (second + token_expiry < expiry_of sample_jwt second + second)
unfolding create_token
create_token-auth_middleware_example =
    create_token-auth_middleware sample_jwt sample_jwt-IsJwt [] second ann (ann-Signs [] second).0
      (10 * minute) (ann-Signs [] second).1

abbrev times : List ℕ
times = 30 * second ∷ 80 * second ∷ 100 * second ∷ []

visits-AllPass_example :
    AllPass (session_for ann) (visits sample_jwt [] (ann-Signs [] second).0 times)
unfolding create_token
visits-AllPass_example =
    visits-AllPass sample_jwt sample_jwt-IsJwt [] second ann (ann-Signs [] second).0 times
      (ann-Signs []) (ann-Signs [] second).1
      (omega arith, omega arith, (omega arith, omega arith, (omega arith, omega arith, tt)))
