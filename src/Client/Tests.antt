-- ===== src/Client/Tests.antt =====
-- The theorems on the two handshakes at concrete inputs.
use qtrp.Common.{ℕ, ◌≡◌, ◌↔◌, refl, true, false, List, none, some, [], ◌∷◌, ◌++◌, ok, err, arith}
use qtrp.Auth.{new_authenticator, has_token, sign, hex_encode, seen_at}
use qtrp.Client.Handshake.{auth_request, authenticate, proxy_request, register_proxy, register_all}
use qtrp.Client.Handshake.Admitted.{authenticate-IsAdmitted}
use qtrp.Client.Handshake.Lockstep.{
  Wanted, proxies_of, serve_all, AreExchanged, register_all_agrees,
}
use qtrp.Client.Handshake.Registered.{register_proxy_agrees}
use qtrp.Config.Proxy.{ExpandedProxy}
use qtrp.Go.Int64.{pos}
use qtrp.Go.Io.{Bytes, IoError, Wire, write}
use qtrp.Go.Map.{int_key, load, store}
use qtrp.Go.Strings.{codes, text_eq}
use qtrp.Go.Binary.{put_uint32}
use qtrp.Protocol.Codec.{encode, send_message, recv_message}
use qtrp.Protocol.Codec.Exchange.{IsShort}
use qtrp.Protocol.Message.{
  Message, AuthRequest, NewProxyResponse, new_message, msg_type_auth, msg_type_auth_resp,
  msg_type_new_proxy, msg_type_new_proxy_resp,
}
use qtrp.Protocol.Samples.{
  message_pack, proxy_pack, answer_pack, verdict_pack, auth_pack, conn_pack, toy_hmac, open_wire,
  short,
}
use qtrp.Server.Admission.{handle_auth, response_of}
use qtrp.Server.Registration.{handle_new_proxy, handle_request, agreed, refusal, port_in_use}
use qtrp.Server.Reply.{reply}
use qtrp.Server.State.{Client, Proxy, Server, new_server}
use qtrp.Server.Welcome.{IsAdmitted}

-- A server with one token, and a client with it.
abbrev no_client : Client
no_client = record { id = []; session = 0; proxies = []; last_ping = 0 }

abbrev no_proxy : Proxy
no_proxy = record { name = []; remote_port = pos 0; listening = false; closed = true; client = 0 }

abbrev server : Server
server = new_server no_client no_proxy (codes "token-one" ∷ [])

abbrev hello : AuthRequest
hello = auth_request toy_hmac (codes "token-one") 5_000_000_000 (codes "n1")

abbrev hello_wire : Wire
hello_wire = (send_message msg_type_auth hello open_wire).1

hello_sent : send_message msg_type_auth hello open_wire ≡ (none, hello_wire)
unfolding send_message new_message auth_request encode write put_uint32 sign hex_encode
hello_sent = refl

welcome_wire : Wire
welcome_wire = (send_message msg_type_auth_resp (response_of true) open_wire).1

welcome_sent : send_message msg_type_auth_resp (response_of true) open_wire ≡ (none, welcome_wire)
unfolding send_message new_message welcome_wire encode write put_uint32
welcome_sent = refl

IsShort-hello : IsShort msg_type_auth hello
unfolding auth_request sign hex_encode
IsShort-hello = short msg_type_auth hello _ refl (omega arith)

known : has_token (codes "token-one") server.auth.tokens ≡ true
unfolding new_server has_token new_authenticator text_eq
known = refl

unseen : seen_at (codes "n1") server.auth.nonce_cache ≡ none
unfolding new_server seen_at new_authenticator
unseen = refl

authenticate-IsAdmitted_example :
    (q : Bytes) × (a : Bytes) × (hello_wire.sent ≡ open_wire.sent ++ q)
    × (welcome_wire.sent ≡ open_wire.sent ++ a)
    × ((rest : Bytes) (e : IoError)
        → IsAdmitted
            (handle_auth toy_hmac 7 5_000_000_000 5_000_000_000
              (recv_message (record { pending = q ++ rest; ending = e })).0
              server
              open_wire)
            welcome_wire)
    × ((rest : Bytes) (e : IoError)
        → authenticate toy_hmac
            (codes "token-one")
            5_000_000_000
            (codes "n1")
            (record { wire = open_wire; stream = record { pending = a ++ rest; ending = e } })
          ≡ (ok tt, record { wire = hello_wire; stream = record { pending = rest; ending = e } }))
authenticate-IsAdmitted_example =
    authenticate-IsAdmitted toy_hmac (codes "token-one") (codes "n1") 5_000_000_000 5_000_000_000
      5_000_000_000 7 server open_wire hello_wire open_wire welcome_wire (omega arith) known
      (omega arith) (omega arith) (omega arith) unseen hello_sent welcome_sent IsShort-hello
      (short msg_type_auth_resp (response_of true) _ refl (omega arith))

-- Its registration of a port that is free, but that Listen refuses.
abbrev web : ExpandedProxy
web = record {
  name = codes "web";
  proxy_type = [];
  local_addr = codes "127.0.0.1";
  local_port = pos 80;
  remote_port = pos 8000;
}

abbrev refused : NewProxyResponse
refused = reply (load (pos 8000) server.proxies) (err (codes "denied")) (pos 8000)

web_wire : Wire
web_wire = (send_message msg_type_new_proxy (proxy_request web) open_wire).1

web_sent : send_message msg_type_new_proxy (proxy_request web) open_wire ≡ (none, web_wire)
unfolding send_message new_message proxy_request web_wire encode write put_uint32
web_sent = refl

IsShort-web : IsShort msg_type_new_proxy (proxy_request web)
unfolding proxy_request
IsShort-web = short msg_type_new_proxy (proxy_request web) _ refl (omega arith)

IsShort-refused : IsShort msg_type_new_proxy_resp refused
unfolding reply load new_server refusal
IsShort-refused = short msg_type_new_proxy_resp refused _ refl (omega arith)

refused_wire : Wire
refused_wire = (send_message msg_type_new_proxy_resp refused open_wire).1

refused_sent : send_message msg_type_new_proxy_resp refused open_wire ≡ (none, refused_wire)
unfolding send_message new_message reply refusal load new_server refused_wire encode write
    put_uint32
refused_sent = refl

register_proxy_agrees_example :
    (q : Bytes) × (a : Bytes) × (msg : Message) × (web_wire.sent ≡ open_wire.sent ++ q)
    × ((handle_new_proxy 0 msg (err (codes "denied")) server open_wire).1.1.sent
        ≡ open_wire.sent ++ a)
    × ((rest : Bytes) (e : IoError)
        → (recv_message (record { pending = q ++ rest; ending = e })).0 ≡ ok msg)
    × ((rest : Bytes) (e : IoError)
        → ((register_proxy web
              (record { wire = open_wire; stream = record { pending = a ++ rest; ending = e } })).0
            ≡ ok tt)
          ↔ ((r : ℕ) × ((handle_new_proxy 0 msg (err (codes "denied")) server open_wire).0
                ≡ some r)))
register_proxy_agrees_example =
    register_proxy_agrees web 0 (err (codes "denied")) server open_wire web_wire open_wire
      refused_wire web_sent refused_sent IsShort-web IsShort-refused

-- Two proxies for one port: the server starts the first, and refuses the second.
abbrev wanted : List Wanted
wanted =
    record { proxy = web; listened = ok tt }
    ∷ record { proxy = record web { name = codes "api" }; listened = ok tt }
    ∷ []

AreExchanged-wanted : AreExchanged 0 wanted server open_wire open_wire
unfolding AreExchanged handle_request load new_server send_message new_message agreed refusal reply
    proxy_request encode write put_uint32 store
AreExchanged-wanted = (
  refl,
  refl,
  short msg_type_new_proxy_resp (agreed (pos 8000)) _ refl (omega arith),
  (refl, refl, short msg_type_new_proxy_resp (refusal port_in_use) _ refl (omega arith), tt),
)

register_all_agrees_example :
    (b : Bytes) × (up' : Wire) × ((serve_all 0 wanted server open_wire).1.sent
      ≡ open_wire.sent ++ b)
    × ((rest : Bytes) (e : IoError)
        → register_all
            (proxies_of wanted)
            (record { wire = open_wire; stream = record { pending = b ++ rest; ending = e } })
          ≡ (
            (serve_all 0 wanted server open_wire).0,
            record { wire = up'; stream = record { pending = rest; ending = e } },
          ))
register_all_agrees_example =
    register_all_agrees 0 wanted server open_wire open_wire AreExchanged-wanted

one_started : (serve_all 0 wanted server open_wire).0 ≡ 1
unfolding serve_all handle_request load new_server send_message new_message agreed refusal reply
    proxy_request encode write put_uint32 store
one_started = refl
