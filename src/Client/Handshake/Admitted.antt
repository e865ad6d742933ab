-- ===== src/Client/Handshake/Admitted.antt =====
-- internal/client/client.go with internal/server/server.go: authenticate against handleAuth.
use qtrp.Common.{
  ℕ, ◌^◌, ◌≡◌, ◌≤◌, ◌<◌, sym, subst, ap, ◌∙◌, [], true, Option, none, arith, ◌==◌, ==_iff, if_true,
  length, ◌++◌, Result, ok,
}
use qtrp.Auth.{unix, has_token, seen_at}
use qtrp.Auth.Accept.{signed_accepted}
use qtrp.Auth.Window.{Near}
use qtrp.Client.Handshake.{
  Control, Verdict, by_verdict, by_answer, by_message, await_answer, received, auth_verdict,
  auth_request, authenticate,
}
use qtrp.Go.Int64.{pos}
use qtrp.Go.Io.{Bytes, IoError, Stream, Wire}
use qtrp.Go.Strings.{Text}
use qtrp.Protocol.Codec.{CodecError, send_message, recv_message}
use qtrp.Protocol.Codec.Exchange.{IsShort, send_message-Transmitted}
use qtrp.Protocol.Message.{
  Message, Msgpack, AuthRequest, AuthResponse, decode_payload, msg_type_auth, msg_type_auth_resp,
}
use qtrp.Server.Admission.{prefix_size, handle_auth, response_of}
use qtrp.Server.State.{Server}
use qtrp.Server.Welcome.{IsAdmitted, handle_auth-IsAdmitted}

module _ ⦃m : Msgpack Message⦄ where
  -- The client's side of an exchange, by the bytes of the answer.
  pub await_answer_lem :
      (expected : ℕ) (decode : Message → Result ℕ Verdict) (sent : Option CodecError × Wire)
      (w : Wire) (s s' : Stream) (r : Result CodecError Message)
      → sent ≡ (none, w)
      → recv_message s ≡ (r, s')
      → await_answer expected decode sent s
        ≡ (by_message expected decode r, record { wire = w; stream = s' })
  unfolding await_answer
  await_answer_lem expected decode sent w s s' r e f =
      ap (λ o. await_answer expected decode o s) e ∙ ap (received expected decode w) f

pub by_message_lem :
    (expected : ℕ) (decode : Message → Result ℕ Verdict) (msg : Message) (v : Verdict)
    → msg.msg_type ≡ expected
    → decode msg ≡ ok v
    → by_message expected decode (ok msg) ≡ by_verdict v
unfolding by_message by_answer
by_message_lem expected decode msg v typed d =
    if_true (msg.msg_type == expected) ((==_iff msg.msg_type expected).1 typed) _ _ ∙ ap by_answer d

abbrev control : Wire → Bytes → IoError → Control
control w rest e = record { wire = w; stream = record { pending = rest; ending = e } }

module _ (hmac_sha256 : Bytes → Bytes → Bytes) where
  module _ ⦃m : Msgpack Message⦄ ⦃req_pack : Msgpack AuthRequest⦄
      ⦃resp_pack : Msgpack AuthResponse⦄ where
    auth_verdict_lem :
        (msg : Message) (resp : AuthResponse)
        → decode_payload msg ≡ ok resp
        → auth_verdict msg ≡ ok (resp.accepted, resp.message)
    auth_verdict_lem msg resp e = ground (arith, e)

    -- A client whose token the server knows (of at least 8 bytes), whose clock is within 300 seconds of
    -- the server's and whose nonce is new: if both messages can be sent and are within the limit, the
    -- server admits the client on the bytes that it sent, and the client takes the bytes of the answer
    -- for success, each whatever follows on the stream.
    pub authenticate-IsAdmitted :
        (token nonce : Text) (now srv_now entered session : ℕ) (srv : Server)
        (up up' down down' : Wire)
        → prefix_size ≤ length token
        → has_token token srv.auth.tokens ≡ true
        → unix now < 2 ^ 62
        → unix srv_now < 2 ^ 62
        → Near (unix srv_now) (pos (unix now))
        → seen_at nonce srv.auth.nonce_cache ≡ none
        → send_message msg_type_auth (auth_request hmac_sha256 token now nonce) up ≡ (none, up')
        → send_message msg_type_auth_resp (response_of true) down ≡ (none, down')
        → IsShort msg_type_auth (auth_request hmac_sha256 token now nonce)
        → IsShort msg_type_auth_resp (response_of true)
        → (q : Bytes) × (a : Bytes) × (up'.sent ≡ up.sent ++ q)
          × (down'.sent ≡ down.sent ++ a)
          × ((rest : Bytes) (e : IoError)
              → IsAdmitted
                  (handle_auth hmac_sha256 session srv_now entered
                    (recv_message (record { pending = q ++ rest; ending = e })).0
                    srv
                    down)
                  down')
          × ((rest : Bytes) (e : IoError)
              → authenticate hmac_sha256 token now nonce
                  (record { wire = up; stream = record { pending = a ++ rest; ending = e } })
                ≡ (ok tt, record { wire = up'; stream = record { pending = rest; ending = e } }))
    unfolding authenticate auth_request
    authenticate-IsAdmitted token nonce now srv_now entered session srv up up' down down' long known
          small srv_small near unseen out back short short' =
        let req = auth_request hmac_sha256 token now nonce in
        let t = send_message-Transmitted msg_type_auth req up up' out short in
        let t' =
          send_message-Transmitted msg_type_auth_resp (response_of true) down down' back short' in
        let verified =
          signed_accepted hmac_sha256 srv.auth srv_now entered token nonce (pos (unix now))
            (omega arith) srv_small known near unseen in
        let admitted =
          handle_auth-IsAdmitted hmac_sha256 session srv_now entered t.message req srv down down'
            t.typed t.decoded verified long back in
        (
          t.bytes,
          t'.bytes,
          t.went_out,
          t'.went_out,
          λ rest e.
              subst
                (λ r. IsAdmitted (handle_auth hmac_sha256 session srv_now entered r srv down) down')
                (ap (λ r. r.0) (sym (t.arrives rest e))) admitted,
          λ rest e.
              await_answer_lem msg_type_auth_resp auth_verdict _ up' _ _ _ out (t'.arrives rest e)
              ∙ ap (λ r. (r, control up' rest e))
                  (by_message_lem msg_type_auth_resp auth_verdict t'.message (true, []) t'.typed
                    (auth_verdict_lem t'.message (response_of true) t'.decoded)),
        )
