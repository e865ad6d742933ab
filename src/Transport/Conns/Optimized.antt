-- ===== src/Transport/Conns/Optimized.antt =====
-- pkg/pool/tcp.go with pkg/transport: which connections OptimizeTCPConn sets.
use qtrp.Common.{◌≡◌, ◌≢◌, refl, [], ◌⊎◌, inl, inr, Result, ok, err, arith}
use qtrp.Transport.{Transport, gnet, net, quic}
use qtrp.Transport.Conns.{
  Conn, tcp_conn, net_conn, gnet_conn, quic_conn, Listener, net_listener, gnet_listener,
  quic_listener, transport_dial, listener_accept, optimize_tcp_conn,
}

-- How a connection comes from a transport: it was dialed or accepted.
abbrev pub ComesFrom : (E : Type 0) → Transport → Listener → Conn → Type 0
ComesFrom E t l c =
    ((answer : Result E (Unit {0})) × (transport_dial t answer ≡ ok c))
    ⊎ ((answer : Result E (Unit {0})) × (listener_accept l answer ≡ ok c))

module _ {E : Type 0} where
  dialed_wrapped :
      (t : Transport) (answer : Result E (Unit {0})) (c : Conn)
      → transport_dial t answer ≡ ok c
      → c ≢ tcp_conn
  unfolding transport_dial
  dialed_wrapped net (ok u) c h e = ground (arith, h, e)
  dialed_wrapped net (err x) c h e = ground (arith, h)
  dialed_wrapped gnet (ok u) c h e = ground (arith, h, e)
  dialed_wrapped gnet (err x) c h e = ground (arith, h)
  dialed_wrapped (quic cfg) (ok u) c h e = ground (arith, h, e)
  dialed_wrapped (quic cfg) (err x) c h e = ground (arith, h)

  accepted_wrapped :
      (l : Listener) (answer : Result E (Unit {0})) (c : Conn)
      → listener_accept l answer ≡ ok c
      → c ≢ tcp_conn
  unfolding listener_accept
  accepted_wrapped net_listener (ok u) c h e = ground (arith, h, e)
  accepted_wrapped net_listener (err x) c h e = ground (arith, h)
  accepted_wrapped gnet_listener (ok u) c h e = ground (arith, h, e)
  accepted_wrapped gnet_listener (err x) c h e = ground (arith, h)
  accepted_wrapped quic_listener (ok u) c h e = ground (arith, h, e)
  accepted_wrapped quic_listener (err x) c h e = ground (arith, h)

  not_tcp :
      (c : Conn) (switched period : Result E (Unit {0}))
      → c ≢ tcp_conn
      → optimize_tcp_conn c switched period ≡ ([], ok tt)
  unfolding optimize_tcp_conn
  not_tcp tcp_conn switched period h = absurd (h refl)
  not_tcp gnet_conn switched period h = refl
  not_tcp (net_conn c context) switched period h = refl
  not_tcp (quic_conn is_server) switched period h = refl

  -- OptimizeTCPConn sets nothing on a connection that any of the transports dialed or accepted, and
  -- reports success: such a connection is never a *net.TCPConn, but a type of the transport around it.
  pub never_optimized :
      (t : Transport) (l : Listener) (c : Conn) (switched period : Result E (Unit {0}))
      → ComesFrom E t l c
      → optimize_tcp_conn c switched period ≡ ([], ok tt)
  never_optimized t l c switched period (inl (answer, h)) =
      not_tcp c switched period (dialed_wrapped t answer c h)
  never_optimized t l c switched period (inr (answer, h)) =
      not_tcp c switched period (accepted_wrapped l answer c h)
