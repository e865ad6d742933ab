-- ===== src/Client/Connect.antt =====
-- internal/client/client.go: connect, connectStandard and connectWithMTMux. What the libraries answer
-- is an argument; the control stream that the session opens comes with what the server will send on it.
pub mod Panics
use qtrp.Common.{
  ℕ, Bool, true, false, Option, none, some, List, [], ◌∷◌, Result, ok, err, if◌then◌else◌,
}
use qtrp.Client.Control.{Link, handle_control_stream}
use qtrp.Client.Handshake.{HandshakeError, Control, authenticate, register_all}
use qtrp.Config.Proxy.{ExpandedProxy}
use qtrp.Go.Io.{Bytes}
use qtrp.Go.Strings.{Text}
use qtrp.Protocol.Codec.{CodecError}
use qtrp.Protocol.Message.{
  Message, Msgpack, AuthRequest, AuthResponse, NewProxyRequest, NewProxyResponse, NewConnRequest,
}

-- What a connection is made of: each part may be closed.
pub data Part : Type 0 where
  conn crypt_conn tunnels control_stream session mtmux_context : Part

-- How a session is set up: an error, with the parts that are closed before it; no session and no
-- error; or a session.
pub data Setup : Type 0 where
  broken : List Part → Setup
  nil_session ready : Setup

-- connectStandard, by the answers of Dial, WrapConn and NewClientSession.
unfoldable pub connect_standard : Bool → Bool → Bool → Setup
connect_standard false wrapped made = broken []
connect_standard true false made = broken (conn ∷ [])
connect_standard true true false = broken (crypt_conn ∷ [])
connect_standard true true true = ready

pub all_wrapped : List Bool → Bool
all_wrapped [] = true
all_wrapped (wrapped ∷ bundle) = if wrapped then all_wrapped bundle else false

-- connectWithMTMux, by the answers of mtmux.Dial, of WrapConn for each tunnel, and of mtmux.Client. A
-- tunnel that is not wrapped closes all of them; the error that is returned then is that of Dial, which
-- is nil.
unfoldable pub connect_with_mtmux : Bool → List Bool → Bool → Setup
unfolding all_wrapped
connect_with_mtmux false bundle made = broken []
connect_with_mtmux true bundle made =
    if all_wrapped bundle then (if made then ready else broken (tunnels ∷ [])) else nil_session

-- How connect ends: with an error, with a panic, or with nil behind the end of the control stream.
-- `running`: its loop would go on. (It never does: handle_control_stream_total.)
pub data Ending : Type 0 where
  failed panicked ended running : Ending

-- `link`: what the control stream's loop made of the server's messages.
pub record Outcome : Type 0 where
  pub ending : Ending
  pub closed : List Part
  pub registered : ℕ
  pub link : Link

abbrev no_link : Link
no_link = record { asked = []; pong_ready = false }

abbrev early : Ending → List Part → Outcome
early e parts = record { ending = e; closed = parts; registered = 0; link = no_link }

-- The end of connect, behind the registrations.
abbrev pub served : Bool → ℕ → Option (CodecError × Link) → Outcome
served mtmux n none = early running []
served mtmux n (some (e, link)) = record {
  ending = ended;
  closed =
      if mtmux
      then mtmux_context ∷ control_stream ∷ session ∷ []
      else control_stream ∷ session ∷ [];
  registered = n;
  link = link;
}

module _ ⦃m : Msgpack Message⦄ ⦃auth_pack : Msgpack AuthRequest⦄
    ⦃auth_resp_pack : Msgpack AuthResponse⦄ ⦃req_pack : Msgpack NewProxyRequest⦄
    ⦃resp_pack : Msgpack NewProxyResponse⦄ ⦃conn_pack : Msgpack NewConnRequest⦄ where
  -- Behind authenticate. (keepalive runs beside the loop, and may close the stream under it.)
  unfoldable pub authenticated :
      Bool → List ExpandedProxy → Result HandshakeError (Unit {0}) × Control → Outcome
  authenticated mtmux proxies (err e, c) = early failed (control_stream ∷ session ∷ [])
  authenticated mtmux proxies (ok u, c) =
      let (n, c') = register_all proxies c in served mtmux n (handle_control_stream c'.stream)

  module _ (hmac_sha256 : Bytes → Bytes → Bytes) where
    -- Behind the setup of the session: `opened` is the control stream of OpenStream.
    unfoldable pub over_session :
        Bool → Text → ℕ → Text → List ExpandedProxy → Option Control → Outcome
    unfolding authenticated
    over_session mtmux token now nonce proxies none = early failed (session ∷ [])
    over_session mtmux token now nonce proxies (some c) =
        authenticated mtmux proxies (authenticate hmac_sha256 token now nonce c)

    -- connect. OpenStream of a nil session panics.
    unfoldable pub connect :
        Bool → Setup → Text → ℕ → Text → List ExpandedProxy → Option Control → Outcome
    unfolding over_session
    connect mtmux (broken parts) token now nonce proxies opened = early failed parts
    connect mtmux nil_session token now nonce proxies opened = early panicked []
    connect mtmux ready token now nonce proxies opened =
        over_session mtmux token now nonce proxies opened
