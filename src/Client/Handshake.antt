-- ===== src/Client/Handshake.antt =====
-- internal/client/client.go: authenticate, registerProxy and the registration of all proxies. The
-- clock's reading and the nonce are arguments.
pub mod Admitted
pub mod Registered
pub mod Lockstep
use qtrp.Common.{
  ℕ, suc, ◌+◌, ◌==◌, Bool, true, false, Option, none, some, List, [], ◌∷◌, Result, ok, err,
  if◌then◌else◌,
}
use qtrp.Auth.{sign, unix}
use qtrp.Config.Proxy.{ExpandedProxy}
use qtrp.Go.Int64.{ℤ, pos}
use qtrp.Go.Io.{Bytes, Stream, Wire}
use qtrp.Go.Strconv.{format_int}
use qtrp.Go.Strings.{Text, codes}
use qtrp.Protocol.Codec.{CodecError, send_message, recv_message}
use qtrp.Protocol.Message.{
  Message, Msgpack, AuthRequest, AuthResponse, NewProxyRequest, NewProxyResponse, decode_payload,
  msg_type_auth, msg_type_auth_resp, msg_type_new_proxy, msg_type_new_proxy_resp,
}

-- The errors of both calls; `refused` carries the server's message.
pub data HandshakeError : Type 0 where
  sending receiving : CodecError → HandshakeError
  invalid_type : HandshakeError
  decoding : ℕ → HandshakeError
  refused : Text → HandshakeError

-- The control stream: what the client has sent, and what it will receive.
pub record Control : Type 0 where
  pub wire : Wire
  pub stream : Stream

-- An answer of the server: its verdict and its message.
abbrev pub Verdict : Type 0
Verdict = Bool × Text

abbrev pub by_verdict : Verdict → Result HandshakeError (Unit {0})
by_verdict (true, text) = ok tt
by_verdict (false, text) = err (refused text)

by_answer : Result ℕ Verdict → Result HandshakeError (Unit {0})
by_answer (err e) = err (decoding e)
by_answer (ok v) = by_verdict v

-- Behind RecvMessage: the type is tested, and the payload decoded.
unfoldable pub by_message :
    ℕ → (Message → Result ℕ Verdict) → Result CodecError Message → Result HandshakeError (Unit {0})
unfolding by_answer
by_message expected decode (err e) = err (receiving e)
by_message expected decode (ok msg) =
    let answer = by_answer (decode msg) in
    if msg.msg_type == expected then answer else err invalid_type

abbrev pub received :
    ℕ
    → (Message → Result ℕ Verdict)
    → Wire
    → Result CodecError Message × Stream
    → Result HandshakeError (Unit {0}) × Control
received expected decode w (r, s) = (by_message expected decode r, record { wire = w; stream = s })

abbrev pub counted : Result HandshakeError (Unit {0}) → ℕ
counted (ok u) = 1
counted (err e) = 0

module _ ⦃m : Msgpack Message⦄ where
  -- Behind SendMessage: the next message is taken for the answer.
  unfoldable pub await_answer :
      ℕ
      → (Message → Result ℕ Verdict)
      → Option CodecError × Wire
      → Stream
      → Result HandshakeError (Unit {0}) × Control
  await_answer expected decode (some e, w) s = (err (sending e), record { wire = w; stream = s })
  await_answer expected decode (none, w) s = received expected decode w (recv_message s)

  module _ ⦃req_pack : Msgpack AuthRequest⦄ ⦃resp_pack : Msgpack AuthResponse⦄ where
    abbrev pub auth_verdict : Message → Result ℕ Verdict
    auth_verdict msg = elim (decode_payload {A = AuthResponse} msg) [
      | err e ↦ err e
      | ok resp ↦ ok (resp.accepted, resp.message)
    ]

    module _ (hmac_sha256 : Bytes → Bytes → Bytes) where
      -- The request of authenticate: the time in seconds, and the signature over its text.
      unfoldable pub auth_request : Text → ℕ → Text → AuthRequest
      auth_request token now nonce = record {
        token = token;
        timestamp = pos (unix now);
        nonce = nonce;
        sign = sign hmac_sha256 token (format_int (pos (unix now))) nonce;
        version = codes "1.0.0";
      }

      -- authenticate
      unfoldable pub authenticate :
          Text → ℕ → Text → Control → Result HandshakeError (Unit {0}) × Control
      unfolding await_answer auth_request
      authenticate token now nonce c =
          await_answer msg_type_auth_resp auth_verdict
            (send_message msg_type_auth (auth_request token now nonce) c.wire) c.stream

  module _ ⦃req_pack : Msgpack NewProxyRequest⦄ ⦃resp_pack : Msgpack NewProxyResponse⦄ where
    abbrev pub proxy_verdict : Message → Result ℕ Verdict
    proxy_verdict msg = elim (decode_payload {A = NewProxyResponse} msg) [
      | err e ↦ err e
      | ok resp ↦ ok (resp.accepted, resp.message)
    ]

    unfoldable pub proxy_request : ExpandedProxy → NewProxyRequest
    proxy_request p = record {
      name = p.name;
      proxy_type = p.proxy_type;
      remote_port = p.remote_port;
    }

    -- registerProxy
    unfoldable pub register_proxy :
        ExpandedProxy → Control → Result HandshakeError (Unit {0}) × Control
    unfolding await_answer proxy_request
    register_proxy p c =
        await_answer msg_type_new_proxy_resp proxy_verdict
          (send_message msg_type_new_proxy (proxy_request p) c.wire) c.stream

    -- The loop of connect over the proxies: how many were registered. (Go visits a map in any order; the
    -- list is one of them.)
    unfoldable pub register_all : List ExpandedProxy → Control → ℕ × Control
    unfolding register_proxy
    register_all [] c = (0, c)
    register_all (p ∷ ps) c =
        let (r, c1) = register_proxy p c in let (n, c2) = register_all ps c1 in (counted r + n, c2)
