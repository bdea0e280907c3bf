-- ===== src/Cloud/Connection.antt =====
-- internal/cloud/quic_server.go: a registered connection to a home server (quicHomeConn).
use famfun.Prelude.{String, ℕ, Result, context}
use famfun.Protocol.Stream.{Stream}

-- `conn` names the QUIC connection.
pub record HomeConn : Type 0 where
  pub home_id : String
  pub home_name : String
  pub conn : ℕ

unfoldable pub new_quic_home_conn : String → String → ℕ → HomeConn
new_quic_home_conn id name conn = record { home_id = id; home_name = name; conn = conn }

-- quic-go: what OpenStreamSync answers on a connection.
abbrev pub Quic : Type 0
Quic = ℕ → Result Stream

unfoldable pub open_data_stream : Quic → HomeConn → Result Stream
open_data_stream quic c = context "open data stream" (quic c.conn)
