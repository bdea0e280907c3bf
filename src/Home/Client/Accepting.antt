-- ===== src/Home/Client/Accepting.antt =====
-- internal/home/quic_client.go: acceptDataStreams, which takes the streams that the cloud opens.
use famfun.Prelude.{
  ◌≡◌, refl, ap, List, [], ◌∷◌, ◌++◌, map, Bool, Result, ok, err, panic, Error, if◌then◌else◌,
}
use famfun.Home.Client.Reading.{Report, accept_error}

-- `accepted` is what AcceptStream returns, and `closed` whether Close has been called. The streams are
-- those that handleDataStream is given, each in a goroutine.
unfoldable pub accept_data_streams : {S : Type 0} → Bool → List (Result S) → List S × List Report
accept_data_streams closed [] = ([], [])
accept_data_streams closed (ok stream ∷ accepted) =
    let (streams, reports) = accept_data_streams closed accepted in (stream ∷ streams, reports)
accept_data_streams closed (err e ∷ accepted) = ([], if closed then [] else accept_error e ∷ [])
accept_data_streams closed (panic ∷ accepted) = ([], [])

-- Every stream before the first error is taken, in order, and none behind it.
accept_data_streams_lem :
    {S : Type 0} (closed : Bool) (streams : List S) (e : Error) (behind : List (Result S))
    → accept_data_streams closed (map ok streams ++ err e ∷ behind)
      ≡ (streams, if closed then [] else accept_error e ∷ [])
unfolding accept_data_streams
accept_data_streams_lem closed [] e behind = refl
accept_data_streams_lem closed (s ∷ streams) e behind =
    ap (λ r. (s ∷ r.0, r.1)) (accept_data_streams_lem closed streams e behind)
