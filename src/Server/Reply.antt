-- ===== src/Server/Reply.antt =====
-- internal/server/server.go: what handleNewProxy answers.
use qtrp.Common.{ℕ, ◌≡◌, refl, ap, ◌∙◌, Option, none, some, Result, ok, err}
use qtrp.Go.Int64.{ℤ}
use qtrp.Go.Io.{Wire}
use qtrp.Go.Map.{int_key, load}
use qtrp.Go.Strings.{Text}
use qtrp.Protocol.Codec.{send_message}
use qtrp.Protocol.Message.{
  Message, Msgpack, NewProxyRequest, NewProxyResponse, decode_payload, msg_type_new_proxy_resp,
}
use qtrp.Server.Registration.{
  register, answered, agreed, refuse, refusal, listen, listen_if_free, handle_request,
  handle_new_proxy, port_in_use,
}
use qtrp.Server.State.{Server}

-- The answer to a request for a port: who has it, and what Listen answers.
unfoldable pub reply : Option ℕ → Result Text (Unit {0}) → ℤ → NewProxyResponse
reply (some p) listened port = refusal port_in_use
reply none (err reason) port = refusal reason
reply none (ok u) port = agreed port

-- The proxy that is started when the answer can be sent.
unfoldable pub started : Option ℕ → Result Text (Unit {0}) → ℕ → Option ℕ
started (some p) listened new = none
started none (err reason) new = none
started none (ok u) new = some new

module _ ⦃m : Msgpack Message⦄ ⦃req_pack : Msgpack NewProxyRequest⦄
    ⦃resp_pack : Msgpack NewProxyResponse⦄ where
  pub reply_free :
      (taken : Option ℕ) (c : ℕ) (req : NewProxyRequest) (listened : Result Text (Unit {0}))
      (s : Server) (w w' : Wire)
      → send_message msg_type_new_proxy_resp (reply taken listened req.remote_port) w ≡ (none, w')
      → ((listen_if_free taken c req listened s w).0 ≡ started taken listened s.proxy_heap.size)
        × ((listen_if_free taken c req listened s w).1.1 ≡ w')
  unfolding listen_if_free listen refuse reply started answered
  reply_free (some p) c req listened s w w' h = (refl, ap (λ r. r.1) h)
  reply_free none c req (err reason) s w w' h = (refl, ap (λ r. r.1) h)
  reply_free none c req (ok u) s w w' h =
      let new = s.proxy_heap.size in
      (
        ap (λ r. (answered c new req (register c req s) r).0) h,
        ap (λ r. (answered c new req (register c req s) r).1.1) h,
      )

  -- A request that decodes is answered by `reply`, and a proxy is started as `started` says, if the
  -- answer can be sent.
  pub handle_new_proxy_replies :
      (c : ℕ) (msg : Message) (req : NewProxyRequest) (listened : Result Text (Unit {0}))
      (s : Server) (w w' : Wire)
      → decode_payload msg ≡ ok req
      → send_message msg_type_new_proxy_resp
          (reply (load req.remote_port s.proxies) listened req.remote_port)
          w
        ≡ (none, w')
      → ((handle_new_proxy c msg listened s w).0
          ≡ started (load req.remote_port s.proxies) listened s.proxy_heap.size)
        × ((handle_new_proxy c msg listened s w).1.1 ≡ w')
  unfolding handle_new_proxy handle_request
  handle_new_proxy_replies c msg req listened s w w' d h =
      let (x, y) = reply_free (load req.remote_port s.proxies) c req listened s w w' h in
      (
        ap (λ r. (handle_request c r listened s w).0) d ∙ x,
        ap (λ r. (handle_request c r listened s w).1.1) d ∙ y,
      )
