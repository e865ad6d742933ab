-- ===== src/Transport/Conns.antt =====
-- pkg/transport/net_transport.go, and how each transport listens, dials and accepts; pkg/pool/tcp.go. The
-- answers of the libraries are arguments.
pub mod Optimized
use qtrp.Common.{
  ℕ, ◌*◌, ◌^◌, Bool, true, false, Option, none, some, List, [], ◌∷◌, Result, ok, err, ◌>>◌,
  if◌then◌else◌, map_ok,
}
use qtrp.Auth.{second}
use qtrp.Crypto.Cert.{TlsConfig, qtrp_proto}
use qtrp.Transport.{Transport, gnet, net, quic, QuicConfig}

-- A connection by its type: *net.TCPConn, NetConn over another with its context, GnetConn, or QUICConn
-- with isServer.
pub data Conn : Type 0 where
  tcp_conn gnet_conn : Conn
  net_conn : Conn → Option ℕ → Conn
  quic_conn : Bool → Conn

pub data Listener : Type 0 where
  net_listener gnet_listener quic_listener : Listener

abbrev over_tcp : Conn
over_tcp = net_conn tcp_conn none

-- The Listen of each transport, by its library's answer. That of gnet starts the event loop and does not
-- wait for an answer.
abbrev net_listen : {E : Type 0} → Result E (Unit {0}) → Result E Listener
net_listen answer = map_ok (λ u. net_listener) answer

abbrev gnet_listen : {E : Type 0} → Result E (Unit {0}) → Result E Listener
gnet_listen answer = ok gnet_listener

abbrev quic_listen : {E : Type 0} → Result E (Unit {0}) → Result E Listener
quic_listen answer = map_ok (λ u. quic_listener) answer

unfoldable pub transport_listen : {E : Type 0} → Transport → Result E (Unit {0}) → Result E Listener
transport_listen net answer = net_listen answer
transport_listen gnet answer = gnet_listen answer
transport_listen (quic cfg) answer = quic_listen answer

-- The Dial of each; that of gnet is a net.Dial too.
abbrev net_dial : {E : Type 0} → Result E (Unit {0}) → Result E Conn
net_dial answer = map_ok (λ u. over_tcp) answer

abbrev gnet_dial : {E : Type 0} → Result E (Unit {0}) → Result E Conn
gnet_dial answer = map_ok (λ u. over_tcp) answer

abbrev quic_dial : {E : Type 0} → Result E (Unit {0}) → Result E Conn
quic_dial answer = map_ok (λ u. quic_conn false) answer

unfoldable pub transport_dial : {E : Type 0} → Transport → Result E (Unit {0}) → Result E Conn
transport_dial net answer = net_dial answer
transport_dial gnet answer = gnet_dial answer
transport_dial (quic cfg) answer = quic_dial answer

-- The Accept of each listener, for gnet by the answer of its channel.
abbrev net_accept : {E : Type 0} → Result E (Unit {0}) → Result E Conn
net_accept answer = map_ok (λ u. over_tcp) answer

abbrev gnet_accept : {E : Type 0} → Result E (Unit {0}) → Result E Conn
gnet_accept answer = map_ok (λ u. gnet_conn) answer

abbrev quic_accept : {E : Type 0} → Result E (Unit {0}) → Result E Conn
quic_accept answer = map_ok (λ u. quic_conn true) answer

unfoldable pub listener_accept : {E : Type 0} → Listener → Result E (Unit {0}) → Result E Conn
listener_accept net_listener answer = net_accept answer
listener_accept gnet_listener answer = gnet_accept answer
listener_accept quic_listener answer = quic_accept answer

-- WrapNetConn: all but *net.TCPConn are a transport.Conn already.
unfoldable pub wrap_net_conn : Conn → Conn
wrap_net_conn tcp_conn = over_tcp
wrap_net_conn (net_conn c context) = net_conn c context
wrap_net_conn gnet_conn = gnet_conn
wrap_net_conn (quic_conn is_server) = quic_conn is_server

-- NetConn.SetContext and NetConn.Context, on a NetConn.
unfoldable pub set_context : ℕ → Conn → Conn
set_context context (net_conn c old) = net_conn c (some context)
set_context context c = c

unfoldable pub context_of : Conn → Option ℕ
context_of (net_conn c context) = context
context_of c = none

-- The sizes in bytes, the counts and the times in nanoseconds of generateQUICConfig.
pub record QuicSettings : Type 0 where
  pub max_idle_timeout : ℕ
  pub max_incoming_streams : ℕ
  pub max_incoming_uni_streams : ℕ
  pub initial_stream_window : ℕ
  pub max_stream_window : ℕ
  pub initial_connection_window : ℕ
  pub max_connection_window : ℕ
  pub keep_alive_period : ℕ
  pub enable_datagrams : Bool

abbrev pub quic_settings : QuicSettings
quic_settings = record {
  max_idle_timeout = 30 * second;
  max_incoming_streams = 1000;
  max_incoming_uni_streams = 1000;
  initial_stream_window = 2 * 1024 * 1024;
  max_stream_window = 16 * 1024 * 1024;
  initial_connection_window = 4 * 1024 * 1024;
  max_connection_window = 32 * 1024 * 1024;
  keep_alive_period = 15 * second;
  enable_datagrams = true;
}

-- generateTempTLSConfig, with the certificate that it makes.
abbrev temp_tls_config : {C : Type 0} → C → TlsConfig C
temp_tls_config made = record {
  certificates = made ∷ [];
  min_version = 13;
  skip_verify = false;
  has_roots = false;
  next_protos = qtrp_proto;
}

-- The TLS configuration of QUICTransport.Listen: the given one, or one with a certificate made for it.
unfoldable pub listen_tls : {C : Type 0} → Option (TlsConfig C) → C → TlsConfig C
listen_tls (some given) made = given
listen_tls none made = temp_tls_config made

-- The calls that OptimizeTCPConn makes of a *net.TCPConn.
pub data SocketCall : Type 0 where
  set_read_buffer set_write_buffer set_keep_alive_period : ℕ → SocketCall
  set_no_delay set_keep_alive : Bool → SocketCall

-- Behind the keep-alive's switch.
abbrev then_period : {E : Type 0} → Result E (Unit {0}) → Result E (Unit {0}) → List SocketCall
then_period (err e) period = []
then_period (ok u) period = set_keep_alive_period (15 * second) ∷ []

-- OptimizeTCPConn: the calls, by the answers of the last two, and its result. What the others answer is
-- not used.
unfoldable pub optimize_tcp_conn :
    {E : Type 0}
    → Conn
    → Result E (Unit {0})
    → Result E (Unit {0})
    → List SocketCall × Result E (Unit {0})
optimize_tcp_conn tcp_conn switched period = (
  set_read_buffer (2 * 1024 * 1024)
      ∷ set_write_buffer (2 * 1024 * 1024)
      ∷ set_no_delay true
      ∷ set_keep_alive true
      ∷ then_period switched period,
  do switched; period,
)
optimize_tcp_conn c switched period = ([], ok tt)
