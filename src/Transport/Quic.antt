-- ===== src/Transport/Quic.antt =====
-- pkg/transport/quic_transport.go: QUICConn, which opens its one stream when it is first used. A stream
-- is a number; what the library answers is an argument.
pub mod OneStream
use qtrp.Common.{
  ℕ, suc, Bool, true, false, Option, none, some, List, [], ◌∷◌, Result, ok, err, if◌then◌else◌,
}

-- `closed`: the connection was closed; `closed_streams`: the streams that were.
pub record QuicConn : Type 0 where
  pub stream : Option ℕ
  pub is_server : Bool
  pub closed : Bool
  pub closed_streams : List ℕ

-- The calls of the library that QUICConn makes for its stream.
pub data Asked : Type 0 where
  accept_stream open_stream_sync : Asked

abbrev asked : QuicConn → Asked
asked c = if c.is_server then accept_stream else open_stream_sync

abbrev keep_stream : Result ℕ ℕ → QuicConn → Result ℕ ℕ × QuicConn
keep_stream (err e) c = (err e, c)
keep_stream (ok s) c = (ok s, record c { stream = some s })

-- initStream: the stream, what was asked of the library, if it was, and the connection behind it.
unfoldable pub ensure : Option ℕ → Result ℕ ℕ → QuicConn → Option Asked × (Result ℕ ℕ × QuicConn)
ensure (some s) answer c = (none, (ok s, c))
ensure none answer c = (some (asked c), keep_stream answer c)

unfoldable pub init_stream : Result ℕ ℕ → QuicConn → Option Asked × (Result ℕ ℕ × QuicConn)
unfolding ensure
init_stream answer c = ensure c.stream answer c

-- Read and Write go to the stream of initStream, or fail with its error.
unfoldable pub use_stream : Result ℕ ℕ → QuicConn → Option Asked × (Result ℕ ℕ × QuicConn)
unfolding init_stream
use_stream answer c = init_stream answer c

abbrev stream_list : Option ℕ → List ℕ → List ℕ
stream_list none closed = closed
stream_list (some s) closed = s ∷ closed

-- Close
unfoldable pub close : QuicConn → QuicConn
close c = record c { closed = true; closed_streams = stream_list c.stream c.closed_streams }

-- SetDeadline and its two kin: the stream that gets the deadline.
unfoldable pub set_deadline : QuicConn → Option ℕ
set_deadline c = c.stream
