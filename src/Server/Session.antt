-- ===== src/Server/Session.antt =====
-- internal/server/server.go: handleControlStream, handleConnectionStandard and handleConnectionMTMux.
-- The goroutines of one connection, in the order of their effects; what the libraries answer is an
-- argument.
use qtrp.Common.{
  ℕ, suc, ◌==◌, Bool, true, false, Option, none, some, List, [], ◌∷◌, Result, ok, err,
  if◌then◌else◌,
}
use qtrp.Go.Int64.{ℤ}
use qtrp.Go.Io.{Wire}
use qtrp.Go.Strings.{Text}
use qtrp.Protocol.Codec.{CodecError, send_message}
use qtrp.Protocol.Message.{
  Message, Msgpack, NewProxyRequest, NewProxyResponse, Pong, msg_type_new_proxy, msg_type_ping,
  msg_type_pong,
}
use qtrp.Server.Admission.{AuthError, panics}
use qtrp.Server.Registration.{handle_new_proxy}
use qtrp.Server.State.{Server, set, count_stats, cleanup_client}
use qtrp.Stats.{inc_active_clients, dec_active_clients}

-- client.lastPing = time.Now()
unfoldable pub ping : ℕ → ℕ → Server → Server
unfolding set
ping c now s =
    let client = s.client_heap.at c in
    record s { client_heap = set c (record client { last_ping = now }) s.client_heap }

unfoldable pub pong_at : ℤ → Pong
pong_at milli = record { timestamp = milli }

-- What a round of the loop meets: the message or the error received, the clock, and Listen's answer.
pub record Round : Type 0 where
  pub received : Result CodecError Message
  pub now : ℕ
  pub milli : ℤ
  pub listened : Result Text (Unit {0})

-- The state behind a round: whether the loop goes on, and the proxies whose loops it started, the
-- last one first.
pub record Control : Type 0 where
  pub going : Bool
  pub started : List ℕ
  pub server : Server
  pub wire : Wire

unfoldable pub note_start : Control → Option ℕ × (Server × Wire) → Control
note_start k (none, (s, w)) = record k { server = s; wire = w }
note_start k (some p, (s, w)) = record {
  going = k.going;
  started = p ∷ k.started;
  server = s;
  wire = w;
}

unfoldable pub note_pong : Control → Option CodecError × Wire → Control
note_pong k (none, w) = record k { wire = w }
note_pong k (some e, w) = record k { going = false; wire = w }

module _ ⦃m : Msgpack Message⦄ ⦃proxy_pack : Msgpack NewProxyRequest⦄
    ⦃resp_pack : Msgpack NewProxyResponse⦄ ⦃pong_pack : Msgpack Pong⦄ where
  -- The switch on a message's type. (MsgTypeCloseProxy and unknown types are only logged.)
  unfoldable pub dispatch : ℕ → Message → Round → Control → Control
  unfolding note_start note_pong
  dispatch c msg round k =
      let asked = note_start k (handle_new_proxy c msg round.listened k.server k.wire) in
      let pinged =
        note_pong (record k { server = ping c round.now k.server })
          (send_message msg_type_pong (pong_at round.milli) k.wire) in
      if msg.msg_type == msg_type_new_proxy
      then asked
      else (if msg.msg_type == msg_type_ping then pinged else k)

  unfoldable pub control_round : ℕ → Round → Result CodecError Message → Control → Control
  unfolding dispatch
  control_round c round (err e) k = record k { going = false }
  control_round c round (ok msg) k = dispatch c msg round k

  -- handleControlStream, as far as the rounds go.
  unfoldable pub handle_control_stream : ℕ → List Round → Control → Control
  handle_control_stream c [] k = k
  handle_control_stream c (round ∷ rounds) k =
      let rest = handle_control_stream c rounds (control_round c round round.received k) in
      if k.going then rest else k

-- What a connection is made of: each part may be closed at its end.
pub data Part : Type 0 where
  conn crypt_conn control_stream session tunnels mtmux_context : Part

-- How the setup of a connection ends: on the way, with the parts that are closed then, or with a
-- session and a control stream.
pub data Setup : Type 0 where
  broken : List Part → Setup
  ready : Setup

-- handleConnectionStandard up to the control stream, by the answers of WrapConn, NewServerSession and
-- AcceptStream.
unfoldable pub setup_standard : Bool → Bool → Bool → Setup
setup_standard false made accepted = broken (conn ∷ [])
setup_standard true false accepted = broken (crypt_conn ∷ [])
setup_standard true true false = broken (session ∷ [])
setup_standard true true true = ready

all_wrapped : List Bool → Bool
all_wrapped [] = true
all_wrapped (wrapped ∷ bundle) = if wrapped then all_wrapped bundle else false

-- handleConnectionMTMux up to the control stream: a tunnel that cannot be wrapped is closed by the
-- wrapper, the others behind it. The context is made once the session is.
unfoldable pub setup_mtmux : List Bool → Bool → Bool → Setup
unfolding all_wrapped
setup_mtmux bundle made accepted =
    if all_wrapped bundle
    then (if made
        then (if accepted then ready else broken (session ∷ mtmux_context ∷ []))
        else broken (tunnels ∷ []))
    else broken (tunnels ∷ [])

-- The parts that are closed at the two ends behind the setup, in order. A panic is recovered from,
-- and closes nothing but what is deferred.
unfoldable pub refused_parts : Bool → AuthError → List Part
refused_parts mtmux panics = if mtmux then mtmux_context ∷ [] else []
refused_parts mtmux e = control_stream ∷ session ∷ (if mtmux then mtmux_context ∷ [] else [])

unfoldable pub served_parts : Bool → List Part
served_parts mtmux = if mtmux then mtmux_context ∷ session ∷ [] else session ∷ []

-- What handleAuth, with its server and connection, is followed by: `between` stands for everything
-- that happens until the control stream has ended, the work of other goroutines included.
unfoldable pub serve_client :
    Bool → (ℕ → Server → Wire → Control) → Result AuthError ℕ × (Server × Wire) → List Part × Server
unfolding refused_parts served_parts
serve_client mtmux between (err e, (s, w)) = (refused_parts mtmux e, s)
serve_client mtmux between (ok c, (s, w)) =
    let k = between c (count_stats inc_active_clients s) w in
    (served_parts mtmux, count_stats dec_active_clients (cleanup_client c k.server))

-- Both handlers, with `mtmux` for handleConnectionMTMux; `authenticate` is the call of handleAuth.
unfoldable pub handle_connection :
    Bool
    → Setup
    → (Server → Result AuthError ℕ × (Server × Wire))
    → (ℕ → Server → Wire → Control)
    → Server
    → List Part × Server
unfolding serve_client
handle_connection mtmux (broken parts) authenticate between s = (parts, s)
handle_connection mtmux ready authenticate between s = serve_client mtmux between (authenticate s)

-- The loops of startStandard and startWithMTMux, by what Accept answers and whether closeCh is closed
-- then: the number of the connections that are served, and whether the loop has ended.
unfoldable pub accept_loop : List (Bool × Bool) → ℕ × Bool
accept_loop [] = (0, false)
accept_loop ((accepted, closed) ∷ answers) =
    let (n, ended) = accept_loop answers in
    if accepted then (suc n, ended) else (if closed then (0, true) else (n, ended))
