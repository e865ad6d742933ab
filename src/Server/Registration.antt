-- ===== src/Server/Registration.antt =====
-- internal/server/server.go: handleNewProxy and handleUserConnection. What the operating system and
-- the session answer is an argument.
use qtrp.Common.{ℕ, true, false, Option, none, some, [], Result, ok, err}
use qtrp.Go.Int64.{ℤ, pos}
use qtrp.Go.Io.{Wire}
use qtrp.Go.Map.{int_key, text_key, load, store, delete}
use qtrp.Go.Strings.{Text, codes}
use qtrp.Protocol.Codec.{CodecError, send_message}
use qtrp.Protocol.Message.{
  Message, Msgpack, NewProxyRequest, NewProxyResponse, NewConnRequest, decode_payload,
  msg_type_new_proxy_resp, msg_type_new_conn,
}
use qtrp.Server.State.{Proxy, Server, set, alloc, unregister, count_stats}
use qtrp.Stats.{inc_active_proxies, dec_active_proxies, inc_active_conns, dec_active_conns}

-- "invalid request", "port already in use"
abbrev pub invalid_request : Text
invalid_request = codes "invalid request"

abbrev pub port_in_use : Text
port_in_use = codes "port already in use"

unfoldable pub refusal : Text → NewProxyResponse
refusal reason = record { accepted = false; message = reason; remote_port = pos 0 }

unfoldable pub agreed : ℤ → NewProxyResponse
agreed port = record { accepted = true; message = []; remote_port = port }

-- client.proxies[name] = p
unfoldable pub own : ℕ → Text → ℕ → Server → Server
unfolding set
own c name p s =
    let client = s.client_heap.at c in
    record s {
      client_heap = set c (record client { proxies = store name p client.proxies }) s.client_heap;
    }

-- delete(client.proxies, name)
unfoldable pub disown : ℕ → Text → Server → Server
unfolding set
disown c name s =
    let client = s.client_heap.at c in
    record s {
      client_heap = set c (record client { proxies = delete name client.proxies }) s.client_heap;
    }

-- The new proxy, listening, in both maps, and counted.
unfoldable pub register : ℕ → NewProxyRequest → Server → Server
unfolding alloc own
register c req s =
    let p = s.proxy_heap.size in
    let proxy : Proxy = record {
      name = req.name;
      remote_port = req.remote_port;
      listening = true;
      closed = false;
      client = c;
    } in
    count_stats inc_active_proxies (
      own c req.name p (record s {
        proxy_heap = alloc proxy s.proxy_heap;
        proxies = store req.remote_port p s.proxies;
      }))

-- What is undone when the answer cannot be sent. The proxy's listener is closed, its closeCh is not.
unfoldable pub roll_back : ℕ → ℕ → NewProxyRequest → Server → Server
unfolding set disown
roll_back c p req s =
    let proxy = s.proxy_heap.at p in
    count_stats dec_active_proxies (
      disown c req.name (
        unregister req.remote_port
          (record s { proxy_heap = set p (record proxy { listening = false }) s.proxy_heap })))

-- The end of handleNewProxy, by the outcome of the last SendMessage. The first component is the proxy
-- whose loop is started.
unfoldable pub answered :
    ℕ → ℕ → NewProxyRequest → Server → Option CodecError × Wire → Option ℕ × (Server × Wire)
unfolding roll_back
answered c p req s (none, w) = (some p, (s, w))
answered c p req s (some e, w) = (none, (roll_back c p req s, w))

module _ ⦃m : Msgpack Message⦄ ⦃req_pack : Msgpack NewProxyRequest⦄
    ⦃resp_pack : Msgpack NewProxyResponse⦄ where
  -- A refusal is sent; that it cannot be sent is only logged.
  unfoldable pub refuse : Text → Server → Wire → Option ℕ × (Server × Wire)
  refuse reason s w = (none, (s, (send_message msg_type_new_proxy_resp (refusal reason) w).1))

  -- Behind the test of the port: `listened` is what Listen answers.
  unfoldable pub listen :
      ℕ → NewProxyRequest → Result Text (Unit {0}) → Server → Wire → Option ℕ × (Server × Wire)
  unfolding refuse register answered
  listen c req (err reason) s w = refuse reason s w
  listen c req (ok u) s w =
      answered c s.proxy_heap.size req (register c req s)
        (send_message msg_type_new_proxy_resp (agreed req.remote_port) w)

  -- The test of the port: which proxy has it.
  unfoldable pub listen_if_free :
      Option ℕ
      → ℕ
      → NewProxyRequest
      → Result Text (Unit {0})
      → Server
      → Wire
      → Option ℕ × (Server × Wire)
  unfolding refuse listen
  listen_if_free (some p) c req listened s w = refuse port_in_use s w
  listen_if_free none c req listened s w = listen c req listened s w

  -- Behind the decoding.
  unfoldable pub handle_request :
      ℕ
      → Result ℕ NewProxyRequest
      → Result Text (Unit {0})
      → Server
      → Wire
      → Option ℕ × (Server × Wire)
  unfolding refuse listen_if_free
  handle_request c (err e) listened s w = refuse invalid_request s w
  handle_request c (ok req) listened s w =
      listen_if_free (load req.remote_port s.proxies) c req listened s w

  -- handleNewProxy
  unfoldable pub handle_new_proxy :
      ℕ → Message → Result Text (Unit {0}) → Server → Wire → Option ℕ × (Server × Wire)
  unfolding handle_request
  handle_new_proxy c msg listened s w = handle_request c (decode_payload msg) listened s w

unfoldable pub new_conn : Text → Text → NewConnRequest
new_conn name id = record { proxy_name = name; conn_id = id }

-- handleUserConnection up to Join: the client is told, and its data stream is taken from the session
-- (`accepted`, by a number). `some` is the stream that is joined with the user's connection; with
-- `none` that connection is closed.
unfoldable pub accept_data : Option CodecError → Result ℕ ℕ → Server → Option ℕ × Server
accept_data (some e) accepted s = (none, s)
accept_data none (err e) s = (none, s)
accept_data none (ok stream) s = (some stream, count_stats inc_active_conns s)

unfoldable pub handle_user_connection :
    ⦃m : Msgpack Message⦄ ⦃p : Msgpack NewConnRequest⦄
    → ℕ
    → Text
    → Result ℕ ℕ
    → Server
    → Wire
    → Option ℕ × (Server × Wire)
unfolding accept_data
handle_user_connection p conn_id accepted s w =
    let (e, w') = send_message msg_type_new_conn (new_conn (s.proxy_heap.at p).name conn_id) w in
    let (joined, s') = accept_data e accepted s in (joined, (s', w'))

-- What is deferred to the end of Join.
unfoldable pub end_user_connection : Server → Server
end_user_connection s = count_stats dec_active_conns s
