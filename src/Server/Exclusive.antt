-- ===== src/Server/Exclusive.antt =====
-- internal/server/server.go: over every order of the server's operations, a port is served by one
-- proxy whose listener is open, and it stays with that proxy until it is given back.
use qtrp.Common.{
  ℕ, ◌≡◌, refl, ap, Bool, true, false, Option, none, some, if◌then◌else◌, Result, ok, err, ltb,
  length, ◌==◌, ==_iff, subst,
}
use qtrp.Go.Io.{Bytes, Wire}
use qtrp.Go.Map.{int_key, load, delete}
use qtrp.Go.Strings.{Text}
use qtrp.Protocol.Codec.{CodecError}
use qtrp.Protocol.Message.{
  Message, Msgpack, AuthRequest, AuthResponse, NewProxyRequest, NewProxyResponse, decode_payload,
  msg_type_auth,
}
use qtrp.Server.Admission.{
  prefix_size, replace_old, admit, add_client, concluded, answer, judge, handle_auth_request,
  handle_auth,
}
use qtrp.Server.Ports.{IsRegistry, delete-IsRegistry, alloc-IsRegistry, cleanup_client-IsRegistry}
use qtrp.Server.Registration.{
  register, own, disown, roll_back, answered, refuse, listen, listen_if_free, handle_request,
  handle_new_proxy,
}
use qtrp.Server.State.{Proxy, Server, set, alloc}

-- A registry in order.
abbrev pub IsOrderly : Server → Type 0
IsOrderly s = IsRegistry s.proxies s.proxy_heap

pub register-IsOrderly :
    (c : ℕ) (req : NewProxyRequest) (s : Server) → IsOrderly s → IsOrderly (register c req s)
unfolding register own
register-IsOrderly c req s inv = alloc-IsRegistry s.proxies s.proxy_heap _ refl refl inv

roll_back-IsOrderly :
    (c p : ℕ) (req : NewProxyRequest) (s : Server)
    → (s.proxy_heap.at p).remote_port ≡ req.remote_port
    → IsOrderly s
    → IsOrderly (roll_back c p req s)
unfolding roll_back disown
roll_back-IsOrderly c p req s e inv =
    let proxy = s.proxy_heap.at p in
    let shut : Proxy = record proxy { listening = false } in
    subst (λ port. IsRegistry (delete port s.proxies) (set p shut s.proxy_heap)) e
      (delete-IsRegistry s.proxies s.proxy_heap p shut inv)

answered-IsOrderly :
    (c p : ℕ) (req : NewProxyRequest) (s : Server) (sent : Option CodecError × Wire)
    → (s.proxy_heap.at p).remote_port ≡ req.remote_port
    → IsOrderly s
    → IsOrderly (answered c p req s sent).1.0
unfolding answered
answered-IsOrderly c p req s (none, w) e inv = inv
answered-IsOrderly c p req s (some x, w) e inv = roll_back-IsOrderly c p req s e inv

-- The new proxy has the port that was asked for.
register_port :
    (c : ℕ) (req : NewProxyRequest) (s : Server)
    → ((register c req s).proxy_heap.at s.proxy_heap.size).remote_port ≡ req.remote_port
unfolding register own alloc
register_port c req s =
    ap (λ b. (if b then new else s.proxy_heap.at s.proxy_heap.size).remote_port)
      ((==_iff s.proxy_heap.size s.proxy_heap.size).1 refl)
  where
    new : Proxy
    new = record {
      name = req.name;
      remote_port = req.remote_port;
      listening = true;
      closed = false;
      client = c;
    }

module _ ⦃m : Msgpack Message⦄ ⦃req_pack : Msgpack NewProxyRequest⦄
    ⦃resp_pack : Msgpack NewProxyResponse⦄ where
  listen_if_free-IsOrderly :
      (taken : Option ℕ) (c : ℕ) (req : NewProxyRequest) (listened : Result Text (Unit {0}))
      (s : Server) (w : Wire)
      → IsOrderly s
      → IsOrderly (listen_if_free taken c req listened s w).1.0
  unfolding listen_if_free listen refuse
  listen_if_free-IsOrderly (some p) c req listened s w inv = inv
  listen_if_free-IsOrderly none c req (err e) s w inv = inv
  listen_if_free-IsOrderly none c req (ok u) s w inv =
      answered-IsOrderly c s.proxy_heap.size req (register c req s) _ (register_port c req s)
        (register-IsOrderly c req s inv)

  handle_request-IsOrderly :
      (c : ℕ) (decoded : Result ℕ NewProxyRequest) (listened : Result Text (Unit {0})) (s : Server)
      (w : Wire)
      → IsOrderly s
      → IsOrderly (handle_request c decoded listened s w).1.0
  unfolding handle_request refuse
  handle_request-IsOrderly c (err e) listened s w inv = inv
  handle_request-IsOrderly c (ok req) listened s w inv =
      listen_if_free-IsOrderly (load req.remote_port s.proxies) c req listened s w inv

  pub handle_new_proxy-IsOrderly :
      (c : ℕ) (msg : Message) (listened : Result Text (Unit {0})) (s : Server) (w : Wire)
      → IsOrderly s
      → IsOrderly (handle_new_proxy c msg listened s w).1.0
  unfolding handle_new_proxy
  handle_new_proxy-IsOrderly c msg listened s w inv =
      handle_request-IsOrderly c (decode_payload msg) listened s w inv

replace_old-IsOrderly : (old : Option ℕ) (s : Server) → IsOrderly s → IsOrderly (replace_old old s)
unfolding replace_old
replace_old-IsOrderly none s inv = inv
replace_old-IsOrderly (some old) s inv = cleanup_client-IsRegistry old s inv

pub if-IsOrderly :
    {R : Type 0} (b : Bool) (x y : R × Server)
    → IsOrderly x.1
    → IsOrderly y.1
    → IsOrderly (if b then x else y).1
if-IsOrderly true x y hx hy = hx
if-IsOrderly false x y hx hy = hy

if-IsOrderly_both :
    {R S : Type 0} (b : Bool) (x y : R × (Server × S))
    → IsOrderly x.1.0
    → IsOrderly y.1.0
    → IsOrderly (if b then x else y).1.0
if-IsOrderly_both true x y hx hy = hx
if-IsOrderly_both false x y hx hy = hy

admit-IsOrderly :
    (token : Text) (session now : ℕ) (s : Server)
    → IsOrderly s
    → IsOrderly (admit token session now s).1
unfolding admit add_client
admit-IsOrderly token session now s inv =
    if-IsOrderly (ltb (length token) prefix_size) _ _ inv (replace_old-IsOrderly _ s inv)

concluded-IsOrderly :
    (accepted : Bool) (token : Text) (session now : ℕ) (s : Server)
    (sent : Option CodecError × Wire)
    → IsOrderly s
    → IsOrderly (concluded accepted token session now s sent).1.0
unfolding concluded
concluded-IsOrderly accepted token session now s (some e, w) inv = inv
concluded-IsOrderly false token session now s (none, w) inv = inv
concluded-IsOrderly true token session now s (none, w) inv = admit-IsOrderly token session now s inv

module _ (hmac_sha256 : Bytes → Bytes → Bytes) where
  module _ ⦃m : Msgpack Message⦄ ⦃req_pack : Msgpack AuthRequest⦄
      ⦃resp_pack : Msgpack AuthResponse⦄ where
    answer-IsOrderly :
        (accepted : Bool) (token : Text) (session now : ℕ) (s : Server) (w : Wire)
        → IsOrderly s
        → IsOrderly (answer hmac_sha256 accepted token session now s w).1.0
    unfolding answer
    answer-IsOrderly true token session now s w inv =
        concluded-IsOrderly true token session now s _ inv
    answer-IsOrderly false token session now s w inv =
        if-IsOrderly_both (ltb (length token) prefix_size) _ _ inv
          (concluded-IsOrderly false token session now s _ inv)

    pub handle_auth-IsOrderly :
        (session now entered : ℕ) (received : Result CodecError Message) (s : Server) (w : Wire)
        → IsOrderly s
        → IsOrderly (handle_auth hmac_sha256 session now entered received s w).1.0
    unfolding handle_auth handle_auth_request judge
    handle_auth-IsOrderly session now entered (err e) s w inv = inv
    handle_auth-IsOrderly session now entered (ok msg) s w inv =
        if-IsOrderly_both (msg.msg_type == msg_type_auth) _ _ (decoded (decode_payload msg)) inv
      where
        decoded :
            (r : Result ℕ AuthRequest)
            → IsOrderly (handle_auth_request hmac_sha256 session now entered r s w).1.0
        decoded (err e) = inv
        decoded (ok req) = answer-IsOrderly _ req.token session entered _ w inv
