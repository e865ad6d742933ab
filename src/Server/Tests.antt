-- ===== src/Server/Tests.antt =====
-- The theorems on the server at concrete inputs.
use qtrp.Common.{
  ℕ, ◌≤◌, ◌≡◌, ◌≢◌, All, refl, not, ◌==◌, true, false, none, some, [], ◌∷◌, ◌++◌, ok, arith,
  if◌then◌else◌, length,
}
use qtrp.Auth.{
  verify, new_authenticator, passes, has_token, in_window, exists, enter, sign, hex_encode,
}
use qtrp.Go.Int64.{ℤ, pos, negsuc, add64, sub64, eqb_ℤ}
use qtrp.Go.Io.{Wire, write}
use qtrp.Go.Map.{int_key, text_key, load, store}
use qtrp.Go.Binary.{put_uint32}
use qtrp.Go.Strconv.{format_int, parse_int}
use qtrp.Go.Strings.{Text, codes, text_eq}
use qtrp.Protocol.Codec.{encode, send_message}
use qtrp.Protocol.Message.{
  Message, AuthRequest, NewProxyRequest, decode_payload, new_message, msg_type_auth,
  msg_type_new_proxy_resp,
}
use qtrp.Protocol.Samples.{
  message_pack, proxy_pack, answer_pack, verdict_pack, auth_pack, conn_pack, toy_hmac, open_wire,
}
use qtrp.Server.Admission.{client_id, admit, handle_auth}
use qtrp.Server.Cleanup.{IsReleased, cleanup_client_lem}
use qtrp.Server.Contended.{ListensOn, port_taken_twice}
use qtrp.Server.Gate.{handle_auth-eq-ok}
use qtrp.Server.Granted.{granted, handle_new_proxy_keeps, handle_new_proxy_free}
use qtrp.Server.History
use qtrp.Server.Dashboard.{api_proxies, page, proxy_entry}
use qtrp.Server.Dashboard.Listed.{Shows, page_serving}
use qtrp.Server.Late.{late_exit, late_cleanup}
use qtrp.Server.Registration.{handle_new_proxy, listen_if_free, agreed}
use qtrp.Server.State.{Proxy, Client, Server, new_server, cleanup_client, run_proxy, stopped, stop}
use qtrp.Stats.{no_stats}

-- Two proxies on one port, the first of which was told to close, and two clients: the first, with
-- the second proxy, is registered.
abbrev proxy_at : ℕ → Proxy
proxy_at n = record {
  name = codes "web";
  remote_port = pos 8000;
  listening = not (n == 0);
  closed = n == 0;
  client = 0;
}

abbrev client_at : ℕ → Client
client_at n = record {
  id = codes "token-on...";
  session = n;
  proxies = (codes "web", 1) ∷ [];
  last_ping = 0;
}

abbrev busy : Server
busy = record {
  auth = new_authenticator (codes "token-one" ∷ []);
  clients = (codes "token-on...", 0) ∷ [];
  proxies = (pos 8000, 1) ∷ [];
  client_heap = record { at = client_at; size = 1 };
  proxy_heap = record { at = proxy_at; size = 2 };
  ended = [];
  stats = no_stats;
}

abbrev ask : ℕ → Message
ask port = record { msg_type = 3; payload = port ∷ codes "api" }

abbrev fresh : Server
fresh = new_server (client_at 0) (proxy_at 1) (codes "token-one" ∷ [])

-- The first registration of a new server.
abbrev one_proxy : Server
one_proxy = (handle_new_proxy 0 (ask 8000) (ok tt) fresh open_wire).1.0

has_port : load (pos 8000) one_proxy.proxies ≡ some 0
unfolding handle_new_proxy load new_server send_message decode_payload new_message agreed encode
    write put_uint32 store
has_port = refl

page_serving_example :
    Shows (page (λ n. codes "10.0.0.1") api_proxies one_proxy) (proxy_entry one_proxy 0)
    × ((proxy_entry one_proxy 0).remote_port ≡ pos 8000)
    × ((one_proxy.proxy_heap.at 0).listening ≡ true)
    × ((one_proxy.proxy_heap.at 0).closed ≡ false)
    × Shows (page (λ n. codes "10.0.0.1") api_proxies (stop one_proxy)) (proxy_entry one_proxy 0)
    × (((stop one_proxy).proxy_heap.at 0).listening ≡ false)
    × (((stop one_proxy).proxy_heap.at 0).closed ≡ true)
page_serving_example =
    page_serving (λ n. codes "10.0.0.1") toy_hmac (client_at 0) (proxy_at 1)
      (codes "token-one" ∷ []) one_proxy (pos 8000) 0
      (History.next History.done (History.registers 0 (ask 8000) (ok tt) open_wire)) has_port

busy_port : load (pos 8000) busy.proxies ≡ some 1
unfolding load
busy_port = refl

handle_new_proxy_keeps_example :
    load (pos 8000) (handle_new_proxy 0 (ask 8000) (ok tt) busy open_wire).1.0.proxies ≡ some 1
handle_new_proxy_keeps_example =
    handle_new_proxy_keeps 0 (ask 8000) (ok tt) busy open_wire (pos 8000) 1 busy_port

asks_api :
    decode_payload {A = NewProxyRequest} (ask 8001)
    ≡ ok (record { name = codes "api"; proxy_type = []; remote_port = pos 8001 })
unfolding decode_payload
asks_api = refl

free_port : load (pos 8001) busy.proxies ≡ none
unfolding load
free_port = refl

handle_new_proxy_free_example :
    let sent = send_message msg_type_new_proxy_resp (agreed (pos 8001)) open_wire in
    let result = handle_new_proxy 0 (ask 8001) (ok tt) busy open_wire in
    (result.0 ≡ granted sent.0 2)
    × (result.1.1 ≡ sent.1)
    × ((port : ℤ)
        → load port result.1.0.proxies
          ≡ (if eqb_ℤ (pos 8001) port then granted sent.0 2 else load port busy.proxies))
handle_new_proxy_free_example =
    handle_new_proxy_free 0 (ask 8001)
      (record { name = codes "api"; proxy_type = []; remote_port = pos 8001 }) busy open_wire
      asks_api free_port

-- Two clients that ask for port 8001 at once.
abbrev asked : Text → NewProxyRequest
asked name = record { name = name; proxy_type = []; remote_port = pos 8001 }

abbrev told_yes : Wire
told_yes = (send_message msg_type_new_proxy_resp (agreed (pos 8001)) open_wire).1

answer_sent : send_message msg_type_new_proxy_resp (agreed (pos 8001)) open_wire ≡ (none, told_yes)
unfolding send_message new_message agreed encode write put_uint32
answer_sent = refl

port_taken_twice_example :
    let taken = load (pos 8001) busy.proxies in
    let one = listen_if_free taken 0 (asked (codes "api")) (ok tt) busy open_wire in
    let two = listen_if_free taken 1 (asked (codes "ssh")) (ok tt) one.1.0 open_wire in
    (one.0 ≡ some 2)
    × (two.0 ≡ some 3)
    × ListensOn two.1.0 2 (pos 8001)
    × ListensOn two.1.0 3 (pos 8001)
    × (load (pos 8001) two.1.0.proxies ≡ some 3)
port_taken_twice_example =
    port_taken_twice 0 1 (asked (codes "api")) (asked (codes "ssh")) busy open_wire told_yes
      open_wire told_yes free_port refl answer_sent answer_sent

owns_web : load (codes "web") (client_at 0).proxies ≡ some 1
unfolding load text_eq
owns_web = refl

cleanup_client_lem_example :
    let t = cleanup_client 0 busy in
    ((name : Text) (p : ℕ)
      → load name (client_at 0).proxies ≡ some p
      → IsReleased t (proxy_at p).remote_port p)
    × ((port : ℤ)
        → All (λ (e : Text × ℕ). (proxy_at e.1).remote_port ≢ port) (client_at 0).proxies
        → load port t.proxies ≡ load port busy.proxies)
    × ((q : ℕ)
        → All (λ (e : Text × ℕ). e.1 ≢ q) (client_at 0).proxies
        → t.proxy_heap.at q ≡ proxy_at q)
    × ((id : Text)
        → load id t.clients ≡ (if text_eq (client_at 0).id id then none else load id busy.clients))
cleanup_client_lem_example = cleanup_client_lem 0 busy

-- Its port is free behind it.
web-IsReleased : IsReleased (cleanup_client 0 busy) (pos 8000) 1
web-IsReleased = (cleanup_client_lem 0 busy).0 (codes "web") 1 owns_web

late_exit_example :
    ((run_proxy false 0 busy).0 ≡ stopped)
    × (load (pos 8000) (run_proxy false 0 busy).1.proxies ≡ none)
    × ((run_proxy false 0 busy).1.proxy_heap.at 1 ≡ proxy_at 1)
late_exit_example = late_exit 0 1 (pos 8000) busy refl refl busy_port (omega arith)

-- The count of the proxies is then below zero.
below_zero : add64 (add64 (pos 0) (negsuc 0)) (negsuc 0) ≡ negsuc 1
unfolding add64
below_zero = refl

known_id : load (client_id (codes "token-one")) busy.clients ≡ some 0
unfolding load client_id text_eq
known_id = refl

id_of_first : (client_at 0).id ≡ client_id (codes "token-one")
unfolding client_id
id_of_first = refl

late_cleanup_example :
    let admitted = admit (codes "token-one") 7 0 busy in
    (admitted.0 ≡ ok 1)
    × (load (client_id (codes "token-one")) admitted.1.clients ≡ some 1)
    × (load (client_id (codes "token-one")) (cleanup_client 0 admitted.1).clients ≡ none)
late_cleanup_example =
    late_cleanup (codes "token-one") 7 0 0 busy (omega arith) known_id id_of_first (omega arith)

-- The request of a client with the first token, at the time 0.
abbrev hello : Message
hello = record { msg_type = 1; payload = 0 ∷ 9 ∷ (codes "token-one" ++ (1 ∷ 5 ∷ 0 ∷ [])) }

admitted_first : (handle_auth toy_hmac 7 0 0 (ok hello) fresh open_wire).0 ≡ ok 0
unfolding handle_auth new_server new_authenticator decode_payload verify send_message passes
    has_token text_eq parse_int format_int in_window sub64 exists enter sign hex_encode new_message
    encode write put_uint32 load
admitted_first = refl

handle_auth-eq-ok_example :
    (hello.msg_type ≡ msg_type_auth)
    × ((req : AuthRequest) × (decode_payload hello ≡ ok req)
        × ((verify toy_hmac fresh.auth 0 0 req.token
              (format_int req.timestamp)
              req.nonce
              req.sign).0
            ≡ true)
        × (8 ≤ length req.token))
handle_auth-eq-ok_example = handle_auth-eq-ok toy_hmac 7 0 0 0 hello fresh open_wire admitted_first
