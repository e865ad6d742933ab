-- ===== src/Lib.antt =====
-- A model of QTRP, a reverse proxy: a client behind a firewall dials the server, authenticates, and
-- registers ports that the server listens on; what users send to them travels over the tunnel.
--
-- The parts, and the files that model them:
--
-- - pkg/config/config.go: Config.Port (ParsePortRange, Count, Ports), Config.Proxy (Expand), Config.Load
--   (LoadServerConfig, LoadClientConfig).
-- - pkg/protocol: Protocol.Message (messages and payloads), Protocol.Codec (Encode, Decode, SendMessage,
--   RecvMessage). Client and server speak it over the control stream of a session.
-- - pkg/auth/auth.go: Auth (Verify, Sign, the nonce cache and its cleanup), Auth.Nonce (GenerateNonce),
--   Auth.History and Auth.Race (calls and cleanup rounds one after the other, and calls at once). The server
--   calls Verify for each connection.
-- - pkg/crypto: Crypto.Chacha20 (the frames of Write and Read), Crypto.Layer (New and WrapConn of the
--   three layers), Crypto.Cert (the certificate manager).
-- - pkg/transport: Transport (New and the configuration of QUIC), Transport.Conns (what each transport
--   listens with, dials and accepts, and pkg/pool/tcp.go's OptimizeTCPConn on that), Transport.Gnet (the
--   connection and the listener over gnet's callbacks), Transport.Quic (the one stream of a QUIC
--   connection).
-- - pkg/mux: Mux (the sessions of smux and of mtmux as one interface, the library being a parameter).
-- - pkg/stats/stats.go: Stats (the counters).
-- - internal/server/server.go: Server.State (the objects, cleanupClient, runProxy, Stop),
--   Server.Admission (handleAuth), Server.Registration (handleNewProxy, handleUserConnection),
--   Server.Session (handleControlStream and the handlers of a connection), Server.Setup (New), Server.Start
--   (Start with its two loops). Server.History has every order of the operations of the server's goroutines
--   but Stop, each of which runs to its end before the next; Server.Contended has two calls of
--   handleNewProxy at once.
-- - internal/client/client.go: Client.Setup and Client.Layers (New), Client.Backoff (Run), Client.Stop,
--   Client.Handshake (authenticate, registerProxy), Client.Control (handleControlStream, handleNewConn),
--   Client.Keepalive (keepalive and what it waits for, as steps), Client.Connect (connect and the two ways
--   to set a session up), Client.Life (Run, connect, Stop and the keepalives, as steps on the client that
--   they share). Client.Handshake.Admitted, Client.Handshake.Registered,
--   Client.Handshake.Lockstep and Client.Control.Announced run the client's side against the server's, on
--   the bytes that each sends.
-- - internal/server/handler.go and internal/client/handler.go: Relay (copyBuffer of the server, each
--   direction of a user's connection), Relay.Uncounted (that of the client), Relay.Tunnel (a user's bytes
--   through both), Relay.Join (Join).
-- - cmd/server/main.go and cmd/client/main.go: Programs (from the file to the status that the program ends
--   with, main and the goroutine that waits for a signal beside each other).
-- - internal/server/dashboard.go: Server.Dashboard (what each path answers).
-- - pkg/pool: Pool (ConnPool, which nothing else in the program uses, one call after the other), Pool.Alive
--   (isAlive), Pool.Overlap (ConnPool with calls that overlap; Pool.Overlap.Alone relates the two),
--   Pool.Buffer (BufferPool, from which copyBuffer has its buffers). Transport.Sockets has SetReuseAddr.
--
-- Conventions. Go holds what the program uses of Go's own library: int64 arithmetic on integers that
-- wrap, strconv and strings on lists of characters, byte streams and connections, big-endian numbers.
-- Third-party code is a parameter with the laws that the program relies on: MessagePack
-- (Protocol.Message.Msgpack), ChaCha20-Poly1305 (Crypto.Chacha20.Aead), the YAML library, and
-- HMAC-SHA256. A clock reading, a random number and the failure of a connection are arguments. A
-- connection takes a number of bytes and then fails; a stream is what is left to read and how it ends.
--
-- Loops are recursion on a list or on fuel. The fuel of Ports is one more than Count; that of Write is the
-- number of bytes left; that of the client's control stream is one more than the bytes to be read. That is
-- enough, since a round of Ports lists a port, and a round of the others takes a byte at least. Goroutines
-- that run together are a list of events: each is a step on a state, and `none` where it cannot happen there
-- (Common.Runs). A `select` with several cases ready takes the one that an argument names.
--
-- Not modelled: log output, HTTP and JSON, flags, signals before New has returned, Session.Ping (which
-- nothing calls), what crypto/tls, quic-go, gnet and the multiplexing libraries do, and the methods that only
-- forward a call to them. They have no state or decision of the program's own.
mod Common
pub mod Go
pub mod Auth
pub mod Config
pub mod Crypto
pub mod Protocol
pub mod Stats
pub mod Pool
pub mod Relay
pub mod Transport
pub mod Server
pub mod Client
pub mod Programs
pub mod Mux
