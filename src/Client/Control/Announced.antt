-- ===== src/Client/Control/Announced.antt =====
-- internal/server/server.go with internal/client/client.go: handleUserConnection against
-- handleControlStream.
use qtrp.Common.{
  ℕ, ◌≡◌, refl, sym, subst, ap, ◌∙◌, false, Option, none, some, List, [], ◌∷◌, ◌++◌, Result, ok,
  err, append-nil, append_assoc, ◌==◌, ==_iff, if_true,
}
use qtrp.Client.Control.{Link, ask, dispatch, handle_control_stream}
use qtrp.Client.Control.Ending.{deliver, handle_control_stream_delivers}
use qtrp.Go.Io.{Bytes, IoError, Stream, Wire, cut_off, read_full}
use qtrp.Go.Strings.{Text}
use qtrp.Protocol.Codec.{CodecError, io, decode, send_message, recv_message}
use qtrp.Protocol.Codec.Delivery.{Received}
use qtrp.Protocol.Codec.Exchange.{IsShort, send_message-Transmitted}
use qtrp.Protocol.Message.{Message, Msgpack, NewConnRequest, decode_payload, msg_type_new_conn}
use qtrp.Server.Registration.{new_conn, accept_data, handle_user_connection}
use qtrp.Server.State.{Heap, Proxy, Server}

-- A user's connection: the proxy that it came to, the identifier that it was given, and how
-- AcceptStream answers for it.
pub record User : Type 0 where
  pub proxy : ℕ
  pub conn_id : Text
  pub accepted : Result ℕ ℕ

-- What the client is to be told of it.
abbrev pub request : Heap Proxy → User → NewConnRequest
request proxies u = new_conn (proxies.at u.proxy).name u.conn_id

-- The requests of several users, the last one first, before others.
unfoldable pub requests : Heap Proxy → List User → List NewConnRequest → List NewConnRequest
requests proxies [] before = before
requests proxies (u ∷ users) before = requests proxies users (request proxies u ∷ before)

accept_data_proxies :
    (e : Option CodecError) (accepted : Result ℕ ℕ) (s : Server)
    → (accept_data e accepted s).1.proxy_heap ≡ s.proxy_heap
unfolding accept_data
accept_data_proxies (some e) accepted s = refl
accept_data_proxies none (err e) s = refl
accept_data_proxies none (ok stream) s = refl

module _ ⦃m : Msgpack Message⦄ ⦃conn_pack : Msgpack NewConnRequest⦄ where
  -- The server behind one user's connection.
  abbrev pub told : User → Server → Wire → Server × Wire
  told u s w = (handle_user_connection u.proxy u.conn_id u.accepted s w).1

  -- Users come one after the other.
  unfoldable pub announce : List User → Server → Wire → Server × Wire
  announce [] s w = (s, w)
  announce (u ∷ users) s w = let (s', w') = told u s w in announce users s' w'

  -- Each request can be sent, and is within the limit of the client.
  unfoldable pub AreSent : List User → Server → Wire → Type 0
  AreSent [] s w = Unit {0}
  AreSent (u ∷ users) s w =
      ((send_message msg_type_new_conn (request s.proxy_heap u) w).0 ≡ none)
      × IsShort msg_type_new_conn (request s.proxy_heap u)
      × AreSent users (told u s w).0 (told u s w).1

  told_proxies : (u : User) (s : Server) (w : Wire) → (told u s w).0.proxy_heap ≡ s.proxy_heap
  unfolding handle_user_connection
  told_proxies u s w = accept_data_proxies _ u.accepted s

  told_wire :
      (u : User) (s : Server) (w : Wire)
      → (told u s w).1 ≡ (send_message msg_type_new_conn (request s.proxy_heap u) w).1
  unfolding handle_user_connection
  told_wire u s w = refl

  dispatch_request :
      (msg : Message) (req : NewConnRequest) (k : Link)
      → msg.msg_type ≡ msg_type_new_conn
      → decode_payload msg ≡ ok req
      → dispatch msg k ≡ record k { asked = req ∷ k.asked }
  unfolding dispatch
  dispatch_request msg req k typed d =
      if_true (msg.msg_type == msg_type_new_conn) ((==_iff msg.msg_type msg_type_new_conn).1 typed)
        _ _
      ∙ ap (λ r. ask r k) d

  -- The bytes of messages, which the client takes for the requests.
  record Told (proxies : Heap Proxy) (users : List User) (w w' : Wire) : Type 0 where
    bytes : Bytes
    messages : List Message
    went_out : w'.sent ≡ w.sent ++ bytes
    arrives :
        (rest : Bytes) (e : IoError)
        → Received messages
            (record { pending = bytes ++ rest; ending = e })
            (record { pending = rest; ending = e })
    taken : (k : Link) → deliver messages k ≡ record k { asked = requests proxies users k.asked }

  Told-announce :
      (users : List User) (s : Server) (w : Wire)
      → AreSent users s w
      → Told s.proxy_heap users w (announce users s w).1
  unfolding announce AreSent requests deliver recv_message
  Told-announce [] s w h = record {
    bytes = [];
    messages = [];
    went_out = sym (append-nil w.sent);
    arrives = λ rest e. refl;
    taken = λ k. refl;
  }
  Told-announce (u ∷ users) s w (sent, short, others) =
      let req = request s.proxy_heap u in
      let w1 = (told u s w).1 in
      let out : send_message msg_type_new_conn req w ≡ (none, w1) =
        ap (λ x. (x, (send_message msg_type_new_conn req w).1)) sent
        ∙ ap (λ x. (none, x)) (sym (told_wire u s w)) in
      let t = send_message-Transmitted msg_type_new_conn req w w1 out short in
      let r =
        subst (λ h. Told h users w1 (announce users (told u s w).0 w1).1) (told_proxies u s w)
          (Told-announce users (told u s w).0 w1 others) in
      record {
        bytes = t.bytes ++ r.bytes;
        messages = t.message ∷ r.messages;
        went_out =
            r.went_out ∙ ap (λ x. x ++ r.bytes) t.went_out ∙ append_assoc w.sent t.bytes r.bytes;
        arrives = λ rest e. (
          record { pending = r.bytes ++ rest; ending = e },
          ap (λ x. decode (record { pending = x; ending = e })) (append_assoc t.bytes r.bytes rest)
              ∙ t.arrives (r.bytes ++ rest) e,
          r.arrives rest e,
        );
        taken = λ k.
            ap (deliver r.messages) (dispatch_request t.message req k t.typed t.decoded)
            ∙ r.taken (record k { asked = req ∷ k.asked });
      }

  ends_empty :
      (e : IoError) → (decode (record { pending = []; ending = e })).0 ≡ err (io (cut_off e 0))
  unfolding decode read_full
  ends_empty e = refl

  -- Users come to proxies of the server, and each of its NewConn messages can be sent and is within the
  -- limit. From the bytes that it sent, up to the end of the stream, the client's loop starts a
  -- handleNewConn for each user, in their order, with the name of the proxy and the identifier of the
  -- connection; and it ends with the error of the stream's end.
  pub announced_asked :
      (users : List User) (s : Server) (w : Wire) (e : IoError)
      → AreSent users s w
      → (q : Bytes) × ((announce users s w).1.sent ≡ w.sent ++ q)
        × (handle_control_stream (record { pending = q; ending = e })
            ≡ some (
              io (cut_off e 0),
              record { asked = requests s.proxy_heap users []; pong_ready = false },
            ))
  announced_asked users s w e h =
      let t = Told-announce users s w h in
      let nothing : Stream = record { pending = []; ending = e } in
      let arrived =
        subst (λ b. Received t.messages (record { pending = b; ending = e }) nothing)
          (append-nil t.bytes) (t.arrives [] e) in
      (
        t.bytes,
        t.went_out,
        handle_control_stream_delivers t.messages (record { pending = t.bytes; ending = e }) nothing
              (io (cut_off e 0)) arrived (ends_empty e)
            ∙ ap (λ k. some (io (cut_off e 0), k))
                (t.taken (record { asked = []; pong_ready = false })),
      )
