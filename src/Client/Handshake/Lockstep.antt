-- ===== src/Client/Handshake/Lockstep.antt =====
-- internal/client/client.go with internal/server/server.go: the registrations of connect against
-- handleNewProxy, one after the other.
use qtrp.Common.{
  ℕ, ◌+◌, ◌≡◌, refl, sym, ap, ◌∙◌, Option, none, some, List, [], ◌∷◌, ◌++◌, Result, ok, err,
  append-nil, append_assoc,
}
use qtrp.Client.Handshake.{
  Control, by_verdict, counted, proxy_verdict, proxy_request, register_proxy, register_all,
}
use qtrp.Client.Handshake.Admitted.{await_answer_lem, by_message_lem}
use qtrp.Client.Handshake.Registered.{proxy_verdict_lem}
use qtrp.Config.Proxy.{ExpandedProxy}
use qtrp.Go.Int64.{ℤ}
use qtrp.Go.Io.{Bytes, IoError, Wire}
use qtrp.Go.Map.{int_key, load}
use qtrp.Go.Strings.{Text}
use qtrp.Protocol.Codec.{CodecError, send_message}
use qtrp.Protocol.Codec.Exchange.{Transmitted, IsShort, send_message-Transmitted}
use qtrp.Protocol.Message.{
  Message, Msgpack, NewProxyRequest, NewProxyResponse, msg_type_new_proxy, msg_type_new_proxy_resp,
}
use qtrp.Server.Registration.{handle_request, agreed, refusal}
use qtrp.Server.Reply.{reply, started, reply_free}
use qtrp.Server.State.{Server}

-- A proxy that the client registers, and what Listen answers for it.
pub record Wanted : Type 0 where
  pub proxy : ExpandedProxy
  pub listened : Result Text (Unit {0})

abbrev pub proxies_of : List Wanted → List ExpandedProxy
proxies_of [] = []
proxies_of (a ∷ wanted) = a.proxy ∷ proxies_of wanted

abbrev one : Option ℕ → ℕ
one none = 0
one (some p) = 1

abbrev answer_to : Server → Wanted → NewProxyResponse
answer_to s a = reply (load a.proxy.remote_port s.proxies) a.listened a.proxy.remote_port

counted-started :
    (taken : Option ℕ) (listened : Result Text (Unit {0})) (port : ℤ) (new : ℕ)
    → let resp = reply taken listened port in
      counted (by_verdict (resp.accepted, resp.message)) ≡ one (started taken listened new)
unfolding reply started agreed refusal
counted-started (some p) listened port new = refl
counted-started none (err reason) port new = refl
counted-started none (ok u) port new = refl

module _ ⦃m : Msgpack Message⦄ ⦃req_pack : Msgpack NewProxyRequest⦄
    ⦃resp_pack : Msgpack NewProxyResponse⦄ where
  -- handleNewProxy of the client's request: the proxy that is started, the server and its connection.
  abbrev pub served : ℕ → Wanted → Server → Wire → Option ℕ × (Server × Wire)
  served c a s w = handle_request c (ok (proxy_request a.proxy)) a.listened s w

  abbrev pub asked_on : Wanted → Wire → Option CodecError × Wire
  asked_on a up = send_message msg_type_new_proxy (proxy_request a.proxy) up

  -- How many proxies the server starts, and its connection behind that.
  unfoldable pub serve_all : ℕ → List Wanted → Server → Wire → ℕ × Wire
  serve_all c [] s w = (0, w)
  serve_all c (a ∷ wanted) s w =
      let (p, (s', w')) = served c a s w in
      let (n, w'') = serve_all c wanted s' w' in (one p + n, w'')

  -- Every request and every answer can be sent, and is within the limit.
  unfoldable pub AreExchanged : ℕ → List Wanted → Server → Wire → Wire → Type 0
  AreExchanged c [] s up down = Unit {0}
  AreExchanged c (a ∷ wanted) s up down =
      ((asked_on a up).0 ≡ none)
      × ((send_message msg_type_new_proxy_resp (answer_to s a) down).0 ≡ none)
      × IsShort msg_type_new_proxy_resp (answer_to s a)
      × AreExchanged c wanted (served c a s down).1.0 (asked_on a up).1 (served c a s down).1.1

  abbrev control : Wire → Bytes → IoError → Control
  control w rest e = record { wire = w; stream = record { pending = rest; ending = e } }

  register_proxy_lem :
      (a : Wanted) (s : Server) (up down down' : Wire)
      (t : Transmitted msg_type_new_proxy_resp (answer_to s a) down down')
      → (asked_on a up).0 ≡ none
      → (rest : Bytes) (e : IoError)
      → register_proxy a.proxy (control up (t.bytes ++ rest) e) ≡ (
        by_verdict ((answer_to s a).accepted, (answer_to s a).message),
        control (asked_on a up).1 rest e,
      )
  unfolding register_proxy
  register_proxy_lem a s up down down' t sent rest e =
      await_answer_lem msg_type_new_proxy_resp proxy_verdict _ (asked_on a up).1 _ _ _
        (ap (λ x. (x, (asked_on a up).1)) sent) (t.arrives rest e)
      ∙ ap (λ r. (r, control (asked_on a up).1 rest e))
          (by_message_lem msg_type_new_proxy_resp proxy_verdict t.message
            ((answer_to s a).accepted, (answer_to s a).message) t.typed
            (proxy_verdict_lem t.message (answer_to s a) t.decoded))

  -- The answers as bytes, and what the client makes of them.
  record Answered (c : ℕ) (wanted : List Wanted) (s : Server) (up down : Wire) : Type 0 where
    bytes : Bytes
    last : Wire
    went_out : (serve_all c wanted s down).1.sent ≡ down.sent ++ bytes
    taken :
        (rest : Bytes) (e : IoError)
        → register_all (proxies_of wanted) (control up (bytes ++ rest) e)
          ≡ ((serve_all c wanted s down).0, control last rest e)

  Answered-serve_all :
      (c : ℕ) (wanted : List Wanted) (s : Server) (up down : Wire)
      → AreExchanged c wanted s up down
      → Answered c wanted s up down
  unfolding serve_all AreExchanged register_all handle_request
  Answered-serve_all c [] s up down h = record {
    bytes = [];
    last = up;
    went_out = sym (append-nil down.sent);
    taken = λ rest e. refl;
  }
  Answered-serve_all c (a ∷ wanted) s up down (sent, back, short, others) =
      let resp = answer_to s a in
      let down' = (send_message msg_type_new_proxy_resp resp down).1 in
      let out : send_message msg_type_new_proxy_resp resp down ≡ (none, down') =
        ap (λ x. (x, down')) back in
      let t = send_message-Transmitted msg_type_new_proxy_resp resp down down' out short in
      let (begun, wired) =
        reply_free (load a.proxy.remote_port s.proxies) c (proxy_request a.proxy) a.listened s down
          down' out in
      let s' = (served c a s down).1.0 in
      let w' = (served c a s down).1.1 in
      let up' = (asked_on a up).1 in
      let r = Answered-serve_all c wanted s' up' w' others in
      let n = (serve_all c wanted s' w').0 in
      record {
        bytes = t.bytes ++ r.bytes;
        last = r.last;
        went_out =
            r.went_out
            ∙ ap (λ (w : Wire). w.sent ++ r.bytes) wired
            ∙ ap (λ x. x ++ r.bytes) t.went_out
            ∙ append_assoc down.sent t.bytes r.bytes;
        taken = λ rest e.
            let verdict = by_verdict (resp.accepted, resp.message) in
            ap (λ x. let (k, c2) = register_all (proxies_of wanted) x.1 in (counted x.0 + k, c2))
              (ap (λ b. register_proxy a.proxy (control up b e)) (append_assoc t.bytes r.bytes rest)
                ∙ register_proxy_lem a s up down down' t sent (r.bytes ++ rest) e)
            ∙ ap (λ x. (counted verdict + x.0, x.1)) (r.taken rest e)
            ∙ ap (λ k. (k + n, control r.last rest e))
                (counted-started _ a.listened a.proxy.remote_port s.proxy_heap.size
                  ∙ ap one (sym begun));
      }

  -- The client registers proxies one after the other, the server answers each, and all these messages
  -- can be sent and the answers are within the limit. Then, whatever follows the answers on the stream,
  -- the client counts as many registrations as the server has started proxies, and has read the answers
  -- and nothing else.
  pub register_all_agrees :
      (c : ℕ) (wanted : List Wanted) (s : Server) (up down : Wire)
      → AreExchanged c wanted s up down
      → (b : Bytes) × (up' : Wire) × ((serve_all c wanted s down).1.sent ≡ down.sent ++ b)
        × ((rest : Bytes) (e : IoError)
            → register_all
                (proxies_of wanted)
                (record { wire = up; stream = record { pending = b ++ rest; ending = e } })
              ≡ (
                (serve_all c wanted s down).0,
                record { wire = up'; stream = record { pending = rest; ending = e } },
              ))
  register_all_agrees c wanted s up down h =
      let a = Answered-serve_all c wanted s up down h in (a.bytes, a.last, a.went_out, a.taken)
