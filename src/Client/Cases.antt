-- ===== src/Client/Cases.antt =====
-- The theorems on the client's set-up and its loops at concrete inputs.
use qtrp.Common.{
  history, ℕ, arith, ◌≡◌, ◌↔◌, ◌⊎◌, refl, true, false, Bool, none, some, List, [], ◌∷◌, ◌++◌,
  Result, ok, err, All,
}
use qtrp.Client.Backoff.{Round, fresh, run}
use qtrp.Client.Backoff.Delay.{run_lem, delays, going, stops}
use qtrp.Client.Connect.{panicked, connect_with_mtmux, connect}
use qtrp.Client.Connect.Panics.{connect_panics_iff}
use qtrp.Client.Control.{handle_control_stream}
use qtrp.Client.Control.Announced.{User, AreSent, announce, announced_asked, requests}
use qtrp.Client.Keepalive
use qtrp.Client.Keepalive.{Event, ping_sent, takes_pong, times_out, pong_arrives, new_keepalive}
use qtrp.Client.Keepalive.Lost.{lost_iff, misses_after, some_failed}
use qtrp.Client.Layers.{client_layers}
use qtrp.Client.Layers.Agreed.{SameKinds, layers_agree}
use qtrp.Client.Setup.{Table, add_all, table_of}
use qtrp.Config.Load.{ServerConfig, ClientConfig}
use qtrp.Config.Proxy.{ProxyConfig, ExpandedProxy, expand, expand_loop, indexed_name}
use qtrp.Config.Port.{parse_port_range, count, ports}
use qtrp.Go.Strconv.{parse_int, format_nat}
use qtrp.Crypto.Cert.{CertConfig, CertError, new_cert_manager}
use qtrp.Go.Int64.{pos, add64, sub64}
use qtrp.Go.Binary.{put_uint32}
use qtrp.Go.Io.{Bytes, eof, write}
use qtrp.Go.Map.{text_key, store}
use qtrp.Go.Strings.{Text, codes, trim_space, split, text_eq}
use qtrp.Protocol.Codec.{io, encode, send_message}
use qtrp.Protocol.Message.{NewConnRequest, new_message, msg_type_new_conn}
use qtrp.Protocol.Samples.{
  message_pack, conn_pack, proxy_pack, answer_pack, verdict_pack, auth_pack, toy_hmac, open_wire,
  short,
}
use qtrp.Server.Registration.{new_conn, handle_user_connection}
use qtrp.Server.State.{Server, new_server}
use qtrp.Server.Setup.{Layers, server_layers}

-- A failure, a success, two failures, and a round that finds closeCh closed.
abbrev round : Bool → Bool → Round
round connected closed = record { connected = connected; closed = closed; reconnect = true }

abbrev rounds : List Round
rounds =
    round false false
    ∷ round true false
    ∷ round false false
    ∷ round false false
    ∷ round true true
    ∷ []

run_lem_example :
    ((run rounds fresh).slept ≡ delays (going rounds) 0)
    × ((run rounds fresh).returned ≡ stops rounds)
run_lem_example = run_lem rounds

slept_rounds :
    (run rounds fresh).slept ≡ 1_000_000_000 ∷ 1_000_000_000 ∷ 1_000_000_000 ∷ 2_000_000_000 ∷ []
unfolding run
slept_rounds = refl

-- Three pings without an answer.
abbrev silence : List Event
silence = ping_sent ∷ times_out ∷ ping_sent ∷ times_out ∷ ping_sent ∷ times_out ∷ []

silent :
    history Keepalive.step silence new_keepalive
    ≡ some (record { phase = Keepalive.lost; missed = 3; pong_ready = false })
unfolding history Keepalive.step
silent = refl

lost_iff_example :
    (Keepalive.lost ≡ Keepalive.lost)
    ↔ ((some_failed silence false ≡ true) ⊎ (misses_after silence 0 ≡ Keepalive.max_pong_miss))
lost_iff_example =
    lost_iff silence (record { phase = Keepalive.lost; missed = 3; pong_ready = false }) silent

-- A client with one proxy on two ports.
abbrev two_ports : ProxyConfig
two_ports = record {
  name = codes "web";
  proxy_type = codes "tcp";
  local_addr = codes "127.0.0.1";
  local_port = codes "80-81";
  remote_port = codes "8000-8001";
}

abbrev client : ClientConfig
client = record {
  server_addr = codes "host:7000";
  transport = codes "net";
  crypto = codes "tls";
  token = codes "token-one";
  tls_ca_cert = [];
  tls_skip_verify = true;
  psk = [];
  quic_skip_verify = false;
  mtmux = record { enabled = false; tunnels = pos 0 };
  proxies = two_ports ∷ [];
}

abbrev port_entry : Text → ℕ → ℕ → ExpandedProxy
port_entry name l r = record {
  name = name;
  proxy_type = codes "tcp";
  local_addr = codes "127.0.0.1";
  local_port = pos l;
  remote_port = pos r;
}

abbrev two_entries : Table
two_entries =
    (codes "web_0", port_entry (codes "web_0") 80 8000)
    ∷ (codes "web_1", port_entry (codes "web_1") 81 8001)
    ∷ []

two_collected : table_of client ≡ ok two_entries
unfolding table_of expand parse_port_range trim_space split parse_int count add64 sub64 ports
    expand_loop add_all store text_eq indexed_name format_nat
two_collected = refl

-- A server with the same layers, whose certificate is made for it.
abbrev server : ServerConfig
server = record {
  bind_addr = codes ":7000";
  dashboard_addr = [];
  transport = codes "net";
  crypto = codes "tls";
  tls_cert_file = [];
  tls_key_file = [];
  psk = [];
  quic_cert_file = [];
  quic_key_file = [];
  tokens = codes "token-one" ∷ [];
  mtmux = record { enabled = false; tunnels = pos 0 };
}

abbrev no_pair : CertConfig → Result ℕ ℕ
no_pair cfg = err 0

abbrev make_cert : CertConfig → Result (CertError ℕ) ℕ
make_cert cfg = ok 42

server_started : (l : Layers ℕ) × (server_layers no_pair make_cert server ≡ ok l)
unfolding server_layers text_eq new_cert_manager
server_started = (_, refl)

layers_agree_example : SameKinds server_started.0 (client_layers client)
layers_agree_example =
    layers_agree no_pair make_cert server client server_started.0 refl refl server_started.1

-- The second of two tunnels is not wrapped.
connect_panics_iff_example :
    ((connect toy_hmac true
        (connect_with_mtmux true (true ∷ false ∷ []) true)
        (codes "token-one")
        0
        (codes "n1")
        []
        none).ending
      ≡ panicked)
    ↔ ((true ≡ true) × (¬ All (λ w. w ≡ true) (true ∷ false ∷ [])))
connect_panics_iff_example =
    connect_panics_iff toy_hmac true (true ∷ false ∷ []) true (codes "token-one") 0 (codes "n1") []
      none

-- A server with a proxy of the name "web", to which two users come.
abbrev web_server : Server
web_server =
    new_server (record { id = []; session = 0; proxies = []; last_ping = 0 })
      (record {
        name = codes "web";
        remote_port = pos 8000;
        listening = true;
        closed = false;
        client = 0;
      })
      (codes "token-one" ∷ [])

abbrev users : List User
users =
    record { proxy = 0; conn_id = codes "c1"; accepted = ok 3 }
    ∷ record { proxy = 0; conn_id = codes "c2"; accepted = err 1 }
    ∷ []

abbrev web_request : Text → NewConnRequest
web_request id = new_conn (codes "web") id

AreSent-users : AreSent users web_server open_wire
unfolding new_server AreSent handle_user_connection send_message new_message new_conn encode write
    put_uint32
AreSent-users = (
  refl,
  short msg_type_new_conn (web_request (codes "c1")) _ refl (omega arith),
  (refl, short msg_type_new_conn (web_request (codes "c2")) _ refl (omega arith), tt),
)

announced_asked_example :
    (q : Bytes) × ((announce users web_server open_wire).1.sent ≡ open_wire.sent ++ q)
    × (handle_control_stream (record { pending = q; ending = eof })
        ≡ some (
          io eof,
          record { asked = requests web_server.proxy_heap users []; pong_ready = false },
        ))
announced_asked_example = announced_asked users web_server open_wire eof AreSent-users
