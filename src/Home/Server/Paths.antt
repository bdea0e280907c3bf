-- ===== src/Home/Server/Paths.antt =====
-- internal/home/server.go: which files the segments of a home server are read from.
use famfun.Prelude.{◌≡◌, ap, ◌∙◌, sym, String, [], ◌∷◌}
use famfun.Prelude.Text.{◌⧺◌}
use famfun.Home.FilePath.{join, clean}
use famfun.Home.FilePath.Below.{
  IsStep, HasSteps, HasSteps-below, clean-below, regroup, join-below_two,
}
use famfun.Home.FilePath.Up.{join-up}
use famfun.Home.Server.{HomeServer, segment_path}

-- For a stream directory `parent`/`q` with a plain name, a segment with a plain name, of a video with a
-- plain identifier, is read from the file of that name in the directory of that video below the stream
-- directory. With the identifier `..` it is read from the file of that name beside the stream directory.
pub segment_path_up :
    (s : HomeServer) (parent q video segment : String)
    → HasSteps parent
    → IsStep q
    → s.stream_dir ≡ parent ⧺ ("/" ⧺ q)
    → IsStep video
    → IsStep segment
    → (segment_path video segment s
        ≡ clean parent ⧺ ("/" ⧺ (q ⧺ ("/" ⧺ (video ⧺ ("/" ⧺ segment))))))
      × (segment_path ".." segment s ≡ clean parent ⧺ ("/" ⧺ segment))
unfolding segment_path
segment_path_up s parent q video segment h plain at v w = (
  ap (λ d. join (d ∷ video ∷ segment ∷ [])) at
      ∙ join-below_two (parent ⧺ ("/" ⧺ q)) video segment (HasSteps-below parent q h plain) v w
      ∙ ap (λ d. d ⧺ ("/" ⧺ (video ⧺ ("/" ⧺ segment)))) (clean-below parent q h plain)
      ∙ sym (regroup (clean parent) q (video ⧺ ("/" ⧺ segment))),
  ap (λ d. join (d ∷ ".." ∷ segment ∷ [])) at ∙ join-up parent q h plain segment w,
)
