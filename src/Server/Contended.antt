-- ===== src/Server/Contended.antt =====
-- internal/server/server.go: two calls of handleNewProxy at once. Between its test of the port and its
-- Store nothing is locked, and with SO_REUSEPORT both calls of Listen succeed.
use qtrp.Common.{ℕ, suc, ◌≡◌, ◌≢◌, sym, subst, ◌∙◌, ap, true, none, some, arith, ok}
use qtrp.Go.Int64.{ℤ}
use qtrp.Go.Io.{Wire}
use qtrp.Go.Map.{int_key, load, eqb_ℤ_iff}
use qtrp.Protocol.Codec.{send_message}
use qtrp.Protocol.Message.{
  Message, Msgpack, NewProxyRequest, NewProxyResponse, msg_type_new_proxy_resp,
}
use qtrp.Server.Granted.{load-register}
use qtrp.Server.Registration.{register, own, answered, agreed, listen, listen_if_free}
use qtrp.Server.State.{Server, alloc}

-- A proxy that listens on a port.
abbrev pub ListensOn : Server → ℕ → ℤ → Type 0
ListensOn s p port =
    ((s.proxy_heap.at p).listening ≡ true) × ((s.proxy_heap.at p).remote_port ≡ port)

register-ListensOn :
    (c : ℕ) (req : NewProxyRequest) (s : Server)
    → ListensOn (register c req s) s.proxy_heap.size req.remote_port
unfolding register own alloc
register-ListensOn c req s = (ground arith, ground arith)

register-ListensOn_other :
    (c p : ℕ) (req : NewProxyRequest) (s : Server) (port : ℤ)
    → p ≢ s.proxy_heap.size
    → ListensOn s p port
    → ListensOn (register c req s) p port
unfolding register own alloc
register-ListensOn_other c p req s port other l =
    (ground (arith, l.0, other), ground (arith, l.1, other))

module _ ⦃m : Msgpack Message⦄ ⦃req_pack : Msgpack NewProxyRequest⦄
    ⦃resp_pack : Msgpack NewProxyResponse⦄ where
  -- Behind a test that found the port free, with an answer that goes out.
  registered :
      (c : ℕ) (req : NewProxyRequest) (s : Server) (w w' : Wire)
      → send_message msg_type_new_proxy_resp (agreed req.remote_port) w ≡ (none, w')
      → listen_if_free none c req (ok tt) s w ≡ (some s.proxy_heap.size, (register c req s, w'))
  unfolding listen_if_free listen answered
  registered c req s w w' sent = ap (answered c s.proxy_heap.size req (register c req s)) sent

  -- Two requests for one free port: if both test the port before either registers it, Listen succeeds
  -- for both and both answers go out, then two proxies are started, and both listen on the port; the
  -- registry has the second one only.
  pub port_taken_twice :
      (c d : ℕ) (req req' : NewProxyRequest) (s : Server) (v v' w w' : Wire)
      → load req.remote_port s.proxies ≡ none
      → req'.remote_port ≡ req.remote_port
      → send_message msg_type_new_proxy_resp (agreed req.remote_port) v ≡ (none, v')
      → send_message msg_type_new_proxy_resp (agreed req'.remote_port) w ≡ (none, w')
      → let p = s.proxy_heap.size in
        let one = listen_if_free (load req.remote_port s.proxies) c req (ok tt) s v in
        let two = listen_if_free (load req'.remote_port s.proxies) d req' (ok tt) one.1.0 w in
        (one.0 ≡ some p)
        × (two.0 ≡ some (suc p))
        × ListensOn two.1.0 p req.remote_port
        × ListensOn two.1.0 (suc p) req.remote_port
        × (load req.remote_port two.1.0.proxies ≡ some (suc p))
  unfolding register
  port_taken_twice c d req req' s v v' w w' free same sent sent' =
      let p = s.proxy_heap.size in
      let t = register c req s in
      let port_free = ap (λ port. load port s.proxies) same ∙ free in
      let first =
        ap (λ taken. listen_if_free taken c req (ok tt) s v) free ∙ registered c req s v v' sent in
      let second =
        ap (λ r. listen_if_free (load req'.remote_port s.proxies) d req' (ok tt) r.1.0 w) first
        ∙ ap (λ taken. listen_if_free taken d req' (ok tt) t w) port_free
        ∙ registered d req' t w w' sent' in
      (
        ap (λ r. r.0) first,
        ap (λ r. r.0) second,
        subst (λ r. ListensOn r.1.0 p req.remote_port) (sym second)
            (register-ListensOn_other d p req' t req.remote_port (omega arith)
              (register-ListensOn c req s)),
        subst (λ r. ListensOn r.1.0 (suc p) req.remote_port) (sym second)
            (subst (λ port. ListensOn (register d req' t) (suc p) port) same
              (register-ListensOn d req' t)),
        ap (λ r. load req.remote_port r.1.0.proxies) second
            ∙ load-register d req' t req.remote_port
            ∙ ground (arith, same, eqb_ℤ_iff req'.remote_port req.remote_port),
      )
