-- ===== src/Client/Handshake/Registered.antt =====
-- internal/client/client.go with internal/server/server.go: registerProxy against handleNewProxy.
use qtrp.Common.{ℕ, ◌≡◌, ◌↔◌, refl, sym, ap, ◌∙◌, Option, none, some, arith, ◌++◌, Result, ok, err}
use qtrp.Client.Handshake.{Control, by_verdict, proxy_verdict, proxy_request, register_proxy}
use qtrp.Client.Handshake.Admitted.{await_answer_lem, by_message_lem}
use qtrp.Config.Proxy.{ExpandedProxy}
use qtrp.Go.Int64.{ℤ}
use qtrp.Go.Io.{Bytes, IoError, Wire}
use qtrp.Go.Map.{int_key, load}
use qtrp.Go.Strings.{Text}
use qtrp.Protocol.Codec.{send_message, recv_message}
use qtrp.Protocol.Codec.Exchange.{IsShort, send_message-Transmitted}
use qtrp.Protocol.Message.{
  Message, Msgpack, NewProxyRequest, NewProxyResponse, decode_payload, msg_type_new_proxy,
  msg_type_new_proxy_resp,
}
use qtrp.Server.Registration.{handle_new_proxy, agreed, refusal}
use qtrp.Server.Reply.{reply, started, handle_new_proxy_replies}
use qtrp.Server.State.{Server}

-- The client's result for an answer, and the proxy that the server has started.
agree :
    (taken : Option ℕ) (listened : Result Text (Unit {0})) (port : ℤ) (new : ℕ)
    → let resp = reply taken listened port in
      (by_verdict (resp.accepted, resp.message) ≡ ok tt)
      ↔ ((p : ℕ) × (started taken listened new ≡ some p))
unfolding reply started agreed refusal
agree (some p) listened port new = (λ e. cc, λ q. cc q.1)
agree none (err reason) port new = (λ e. cc, λ q. cc q.1)
agree none (ok u) port new = (λ e. (new, refl), λ q. refl)

module _ ⦃m : Msgpack Message⦄ ⦃req_pack : Msgpack NewProxyRequest⦄
    ⦃resp_pack : Msgpack NewProxyResponse⦄ where
  pub proxy_verdict_lem :
      (msg : Message) (resp : NewProxyResponse)
      → decode_payload msg ≡ ok resp
      → proxy_verdict msg ≡ ok (resp.accepted, resp.message)
  proxy_verdict_lem msg resp e = ground (arith, e)

  abbrev control : Wire → Bytes → IoError → Control
  control w rest e = record { wire = w; stream = record { pending = rest; ending = e } }

  -- A client registers a proxy and the server answers; both messages can be sent and are within the
  -- limit. Then the client takes the registration for done exactly when the server has started a proxy,
  -- whatever follows the messages on the streams.
  pub register_proxy_agrees :
      (p : ExpandedProxy) (c : ℕ) (listened : Result Text (Unit {0})) (srv : Server)
      (up up' down down' : Wire)
      → let resp = reply (load p.remote_port srv.proxies) listened p.remote_port in
        send_message msg_type_new_proxy (proxy_request p) up ≡ (none, up')
        → send_message msg_type_new_proxy_resp resp down ≡ (none, down')
        → IsShort msg_type_new_proxy (proxy_request p)
        → IsShort msg_type_new_proxy_resp resp
        → (q : Bytes) × (a : Bytes) × (msg : Message) × (up'.sent ≡ up.sent ++ q)
          × ((handle_new_proxy c msg listened srv down).1.1.sent ≡ down.sent ++ a)
          × ((rest : Bytes) (e : IoError)
              → (recv_message (record { pending = q ++ rest; ending = e })).0 ≡ ok msg)
          × ((rest : Bytes) (e : IoError)
              → ((register_proxy p (control up (a ++ rest) e)).0 ≡ ok tt)
                ↔ ((r : ℕ) × ((handle_new_proxy c msg listened srv down).0 ≡ some r)))
  unfolding register_proxy proxy_request
  register_proxy_agrees p c listened srv up up' down down' out back short short' =
      let taken = load p.remote_port srv.proxies in
      let resp = reply taken listened p.remote_port in
      let t = send_message-Transmitted msg_type_new_proxy (proxy_request p) up up' out short in
      let t' = send_message-Transmitted msg_type_new_proxy_resp resp down down' back short' in
      let (begun, wired) =
        handle_new_proxy_replies c t.message (proxy_request p) listened srv down down' t.decoded
          back in
      (
        t.bytes,
        t'.bytes,
        t.message,
        t.went_out,
        ap (λ w. w.sent) wired ∙ t'.went_out,
        λ rest e. ap (λ r. r.0) (t.arrives rest e),
        λ rest e.
            let mine =
              ap (λ r. r.0)
                (await_answer_lem msg_type_new_proxy_resp proxy_verdict _ up' _ _ _ out
                  (t'.arrives rest e))
              ∙ by_message_lem msg_type_new_proxy_resp proxy_verdict t'.message
                  (resp.accepted, resp.message) t'.typed
                  (proxy_verdict_lem t'.message resp t'.decoded) in
            let (there, here) = agree taken listened p.remote_port srv.proxy_heap.size in
            (
              λ h. let (r, x) = there (sym mine ∙ h) in (r, begun ∙ x),
              λ h. mine ∙ here (h.0, sym begun ∙ h.1),
            ),
      )
