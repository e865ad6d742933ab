-- ===== src/Server/Granted.antt =====
-- internal/server/server.go: what handleNewProxy does to the registry, on all its branches, and what
-- cleanupClient and runProxy's exit do to it.
use qtrp.Common.{ℕ, ◌≡◌, refl, ◌∙◌, ap, Option, none, some, arith, if◌then◌else◌, Result, ok, err}
use qtrp.Go.Int64.{ℤ, eqb_ℤ}
use qtrp.Go.Io.{Wire}
use qtrp.Go.Map.{int_key, load, load-store, load-delete, eqb_ℤ_iff}
use qtrp.Go.Strings.{Text}
use qtrp.Protocol.Codec.{CodecError, send_message}
use qtrp.Protocol.Message.{
  Message, Msgpack, NewProxyRequest, NewProxyResponse, decode_payload, msg_type_new_proxy_resp,
}
use qtrp.Server.Registration.{
  register, own, disown, roll_back, answered, agreed, refuse, listen, listen_if_free,
  handle_request, handle_new_proxy,
}
use qtrp.Server.State.{Server}

pub load-register :
    (c : ℕ) (req : NewProxyRequest) (s : Server) (port : ℤ)
    → load port (register c req s).proxies
      ≡ (if eqb_ℤ req.remote_port port then some s.proxy_heap.size else load port s.proxies)
unfolding register own
load-register c req s port = load-store req.remote_port port s.proxy_heap.size s.proxies

load-roll_back :
    (c p : ℕ) (req : NewProxyRequest) (s : Server) (port : ℤ)
    → load port (roll_back c p req s).proxies
      ≡ (if eqb_ℤ req.remote_port port then none else load port s.proxies)
unfolding roll_back disown
load-roll_back c p req s port = load-delete req.remote_port port s.proxies

-- Which proxy a port has behind the answer to a request for another port or a free one.
abbrev pub granted : Option CodecError → ℕ → Option ℕ
granted none p = some p
granted (some e) p = none

load-answered :
    (c : ℕ) (req : NewProxyRequest) (s : Server) (sent : Option CodecError × Wire) (port : ℤ)
    → load port (answered c s.proxy_heap.size req (register c req s) sent).1.0.proxies ≡ (
        if eqb_ℤ req.remote_port port
        then granted sent.0 s.proxy_heap.size
        else load port s.proxies)
unfolding answered
load-answered c req s (none, w) port = load-register c req s port
load-answered c req s (some e, w) port = ground (
  arith,
  load-roll_back c s.proxy_heap.size req (register c req s) port,
  load-register c req s port,
)

module _ ⦃m : Msgpack Message⦄ ⦃req_pack : Msgpack NewProxyRequest⦄
    ⦃resp_pack : Msgpack NewProxyResponse⦄ where
  kept_free :
      (taken : Option ℕ) (c : ℕ) (req : NewProxyRequest) (listened : Result Text (Unit {0}))
      (s : Server) (w : Wire) (port : ℤ) (r : ℕ)
      → taken ≡ load req.remote_port s.proxies
      → load port s.proxies ≡ some r
      → load port (listen_if_free taken c req listened s w).1.0.proxies ≡ some r
  unfolding listen_if_free listen refuse
  kept_free (some p) c req listened s w port r t e = e
  kept_free none c req (err x) s w port r t e = e
  kept_free none c req (ok u) s w port r t e =
      let l =
        load-answered c req s (send_message msg_type_new_proxy_resp (agreed req.remote_port) w)
          port in
      ground (arith, l, t, e, eqb_ℤ_iff req.remote_port port)

  kept_request :
      (c : ℕ) (decoded : Result ℕ NewProxyRequest) (listened : Result Text (Unit {0})) (s : Server)
      (w : Wire) (port : ℤ) (r : ℕ)
      → load port s.proxies ≡ some r
      → load port (handle_request c decoded listened s w).1.0.proxies ≡ some r
  unfolding handle_request refuse
  kept_request c (err x) listened s w port r e = e
  kept_request c (ok req) listened s w port r e =
      kept_free (load req.remote_port s.proxies) c req listened s w port r refl e

  -- Whatever a client asks for, and whether or not Listen and the sending of the answer succeed: a
  -- port that is registered stays with its proxy.
  pub handle_new_proxy_keeps :
      (c : ℕ) (msg : Message) (listened : Result Text (Unit {0})) (s : Server) (w : Wire) (port : ℤ)
      (r : ℕ)
      → load port s.proxies ≡ some r
      → load port (handle_new_proxy c msg listened s w).1.0.proxies ≡ some r
  unfolding handle_new_proxy
  handle_new_proxy_keeps c msg listened s w port r e =
      kept_request c (decode_payload msg) listened s w port r e

  started_free :
      (taken : Option ℕ) (c : ℕ) (req : NewProxyRequest) (s : Server) (w : Wire)
      → taken ≡ none
      → listen_if_free taken c req (ok tt) s w
        ≡ answered c s.proxy_heap.size req
            (register c req s)
            (send_message msg_type_new_proxy_resp (agreed req.remote_port) w)
  unfolding listen_if_free listen
  started_free (some p) c req s w t = cc
  started_free none c req s w t = refl

  answered_parts :
      (c p : ℕ) (req : NewProxyRequest) (s : Server) (sent : Option CodecError × Wire)
      → ((answered c p req s sent).0 ≡ granted sent.0 p) × ((answered c p req s sent).1.1 ≡ sent.1)
  unfolding answered
  answered_parts c p req s (none, w) = (refl, refl)
  answered_parts c p req s (some e, w) = (refl, refl)

  -- A request for a free port that Listen accepts: if the answer goes out, the loop of a new proxy is
  -- started and the port is its; otherwise nothing is started and the port is free again. The other
  -- ports are as before, and only the answer is sent.
  pub handle_new_proxy_free :
      (c : ℕ) (msg : Message) (req : NewProxyRequest) (s : Server) (w : Wire)
      → decode_payload msg ≡ ok req
      → load req.remote_port s.proxies ≡ none
      → let sent = send_message msg_type_new_proxy_resp (agreed req.remote_port) w in
        let new = granted sent.0 s.proxy_heap.size in
        let result = handle_new_proxy c msg (ok tt) s w in
        (result.0 ≡ new)
        × (result.1.1 ≡ sent.1)
        × ((port : ℤ)
            → load port result.1.0.proxies
              ≡ (if eqb_ℤ req.remote_port port then new else load port s.proxies))
  unfolding handle_new_proxy handle_request
  handle_new_proxy_free c msg req s w d free =
      let sent = send_message msg_type_new_proxy_resp (agreed req.remote_port) w in
      let e : handle_new_proxy c msg (ok tt) s w
          ≡ answered c s.proxy_heap.size req (register c req s) sent =
        ap (λ r. handle_request c r (ok tt) s w) d
        ∙ started_free (load req.remote_port s.proxies) c req s w free in
      let (x, y) = answered_parts c s.proxy_heap.size req (register c req s) sent in
      (
        ap (λ r. r.0) e ∙ x,
        ap (λ r. r.1.1) e ∙ y,
        λ port. ap (λ r. load port r.1.0.proxies) e ∙ load-answered c req s sent port,
      )
