-- ===== src/Protocol/Stream.antt =====
-- A byte stream to another process: a QUIC stream as an io.Reader and io.Writer.
use famfun.Prelude.{
  ℕ, ◌+◌, List, [], ◌∷◌, ◌++◌, Result, ok, err, library, length, take, drop, leb, nat_eq,
  if◌then◌else◌,
}
use famfun.Prelude.Exec.{Exec}
use famfun.Protocol.Message.{Bytes}

-- What becomes of one Write: all bytes are accepted, or an error comes after the first `n`.
pub data Fate : Type 0 where
  accepts : Fate
  fails_after : ℕ → Fate

-- `peer` is the other process: the bytes that it has sent once it has received the bytes written
-- here. It closes the stream behind them, so that a read finds its end there; a read that blocks is not
-- in the model. `fates` are those of the next writes; later ones succeed.
pub record Stream : Type 0 where
  pub peer : Bytes → Bytes
  pub consumed : ℕ
  pub written : Bytes
  pub fates : List Fate

abbrev pub unread : Stream → Bytes
unread s = drop s.consumed (s.peer s.written)

-- A new stream to a peer.
abbrev pub open_stream : (Bytes → Bytes) → Stream
open_stream p = record { peer = p; consumed = 0; written = []; fates = [] }

unfoldable pub write_fate : Bytes → Stream → List Fate → Result (Unit {0}) × Stream
write_fate b s [] = (ok tt, record s { written = s.written ++ b })
write_fate b s (accepts ∷ fs) = (ok tt, record s { written = s.written ++ b; fates = fs })
write_fate b s (fails_after n ∷ fs) =
    (err (library "stream write failed"), record s { written = s.written ++ take n b; fates = fs })

-- w.Write(b)
unfoldable pub write : Bytes → Exec Stream (Unit {0})
unfolding write_fate
write b s = write_fate b s s.fates

-- io.ReadFull into a buffer of n bytes.
unfoldable pub read_full : ℕ → Exec Stream Bytes
read_full n s =
    let here = unread s in
    if leb n (length here) then (ok (take n here), record s { consumed = s.consumed + n }) else (
      err (library (if nat_eq (length here) 0 then "EOF" else "unexpected EOF")),
      record s { consumed = s.consumed + length here },
    )
