-- ===== src/Cloud/QuicServer/Control.antt =====
-- internal/cloud/quic_server.go: a connection from its registration to its end, handleConnection and
-- controlLoop.
pub mod Ending
pub mod Leaving
use famfun.Prelude.{ℕ, zero, suc, Option, none, some, Result, ok, err, panic}
use famfun.Protocol.Message.{Envelope}
use famfun.Protocol.Stream.{Stream}
use famfun.Protocol.Framing.{Codec, read_message, write_message}
use famfun.Cloud.Connection.{HomeConn}
use famfun.Cloud.DataRequest.{Wire}
use famfun.Cloud.HomeManager.{HomeManager}
use famfun.Cloud.QuicServer.{
  QuicServer, perform_registration, cleanup_connection, dispatch_control_message,
}

-- What has become of a connection: it has ended, with the registry that it left behind; a panic has ended
-- the process; or it is still there when the fuel is used up.
pub data End : Type 0 where
  ended : HomeManager → End
  crashed : End
  still_open : End

-- An error of writing the answer is only logged.
abbrev pub after_answer : Codec → Option Envelope → Stream → Stream
after_answer c none st = st
after_answer c (some answer) st = (write_message c answer st).1

-- What the loop does with a message once its handler is through.
abbrev pub on_dispatched :
    Codec → Stream → (HomeManager → Stream → End) → Option (HomeManager × Option Envelope) → End
on_dispatched c st loop none = End.crashed
on_dispatched c st loop (some (m, answer)) = loop m (after_answer c answer st)

-- What it does with the result of its read.
abbrev pub on_message :
    Wire → HomeConn → HomeManager → (HomeManager → Stream → End) → Result Envelope × Stream → End
on_message w hc m loop (err e, st) = End.ended m
on_message w hc m loop (panic, st) = End.crashed
on_message w hc m loop (ok env, st) =
    on_dispatched w.codec st loop (dispatch_control_message w hc env m)

-- On fuel: a message in each round. The other side closes its stream behind what it has sent: a read
-- that waits for a silent peer, which blocks the loop for as long, is not in the model.
unfoldable pub control_loop : ℕ → Wire → HomeConn → HomeManager → Stream → End
control_loop zero w hc m st = End.still_open
control_loop (suc n) w hc m st = on_message w hc m (control_loop n w hc) (read_message w.codec st)

-- The deferred clean-up.
abbrev pub cleaned : HomeConn → End → End
cleaned hc (End.ended m) = End.ended (cleanup_connection hc m)
cleaned hc End.crashed = End.crashed
cleaned hc End.still_open = End.still_open

abbrev pub on_registered : ℕ → Wire → (Result HomeConn × HomeManager) × Stream → End
on_registered n w ((ok hc, m), st) = cleaned hc (control_loop n w hc m st)
on_registered n w ((err e, m), st) = End.ended m
on_registered n w ((panic, m), st) = End.crashed

unfoldable pub handle_connection : ℕ → QuicServer → Wire → ℕ → HomeManager → Stream → End
handle_connection n q w conn m st = on_registered n w (perform_registration q conn m st)
