-- ===== src/Transport/Tests.antt =====
-- The theorems on the transports at concrete inputs.
use qtrp.Common.{inl, none, ℕ, ◌≡◌, refl, true, false, none, List, [], ◌∷◌, ◌++◌, ok, err, arith}
use qtrp.Go.Io.{Bytes}
use qtrp.Transport.Gnet
use qtrp.Transport.Gnet.{GnetConn, on_traffic}
use qtrp.Transport.Gnet.Kept.{Op, arrives, reads, queue, after_all, left}
use qtrp.Transport.Gnet.Complete.{arrived, AlwaysRoom, queue_complete}
use qtrp.Transport.Quic
use qtrp.Transport.Quic.{QuicConn}
use qtrp.Transport.{net}
use qtrp.Transport.Conns.{
  tcp_conn, net_conn, net_listener, transport_dial, optimize_tcp_conn, set_read_buffer,
  set_write_buffer, set_no_delay, set_keep_alive, set_keep_alive_period,
}
use qtrp.Transport.Conns.Optimized.{never_optimized}
use qtrp.Transport.Quic.OneStream
use qtrp.Transport.Quic.OneStream.{Call, uses, targets}

abbrev new_conn : List Bytes → GnetConn
new_conn chunks = record { read_ch = chunks; read_buf = []; closed = false }

-- Two chunks, read by twos and threes.
abbrev ops : List Op
ops =
    arrives true (1 ∷ 2 ∷ 3 ∷ [])
    ∷ reads true 2
    ∷ arrives false (4 ∷ [])
    ∷ reads true 2
    ∷ reads true 3
    ∷ []

always_room : AlwaysRoom ops (new_conn [])
unfolding on_traffic Gnet.read Gnet.Kept.after Gnet.receive
always_room = omega arith

queue_complete_example :
    left ops (new_conn []) ++ queue (after_all ops (new_conn []))
    ≡ queue (new_conn []) ++ arrived ops
queue_complete_example = queue_complete ops (new_conn []) refl always_room

-- A failing first use, a second that gets stream 4, and one that finds it.
abbrev calls : List Call
calls = uses (err 1) ∷ uses (ok 4) ∷ OneStream.closes ∷ uses (ok 8) ∷ []

abbrev new_quic : QuicConn
new_quic = record { stream = none; is_server = true; closed = false; closed_streams = [] }

to_stream_4 : targets calls new_quic ≡ 4 ∷ 4 ∷ []
unfolding targets Quic.use_stream OneStream.after Quic.close
to_stream_4 = refl

dialed : transport_dial {E = ℕ} net (ok tt) ≡ ok (net_conn tcp_conn none)
unfolding transport_dial
dialed = refl

-- A connection that the net transport dialed.
never_optimized_example :
    optimize_tcp_conn {E = ℕ} (net_conn tcp_conn none) (ok tt) (ok tt) ≡ ([], ok tt)
never_optimized_example =
    never_optimized net net_listener (net_conn tcp_conn none) (ok tt) (ok tt) (inl (ok tt, dialed))

-- One of Go's own is set.
user_optimized : optimize_tcp_conn {E = ℕ} tcp_conn (ok tt) (err 3) ≡ (
  set_read_buffer 2_097_152
      ∷ set_write_buffer 2_097_152
      ∷ set_no_delay true
      ∷ set_keep_alive true
      ∷ set_keep_alive_period 15_000_000_000
      ∷ [],
  err 3,
)
unfolding optimize_tcp_conn
user_optimized = refl
