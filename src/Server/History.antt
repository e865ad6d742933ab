-- ===== src/Server/History.antt =====
-- internal/server/server.go: every order of the operations of the server's goroutines but Stop, as a
-- relation of steps. Stop is no step: it closes the registered proxies and leaves them in the map.
use qtrp.Common.{ℕ, ◌≡◌, Bool, true, false, Option, none, some, List, Result, ok, err, arith}
use qtrp.Go.Int64.{ℤ}
use qtrp.Go.Io.{Bytes, Wire}
use qtrp.Go.Map.{int_key, load}
use qtrp.Go.Strings.{Text}
use qtrp.Protocol.Codec.{CodecError}
use qtrp.Protocol.Message.{
  Message, Msgpack, AuthRequest, AuthResponse, NewProxyRequest, NewProxyResponse, NewConnRequest,
}
use qtrp.Server.Admission.{handle_auth}
use qtrp.Server.Exclusive.{
  IsOrderly, if-IsOrderly, handle_new_proxy-IsOrderly, handle_auth-IsOrderly,
}
use qtrp.Server.Ports.{IsRegistry, cleanup_client-IsRegistry, run_proxy_exit-IsRegistry}
use qtrp.Server.Registration.{handle_new_proxy, handle_user_connection, accept_data}
use qtrp.Server.Session.{ping}
use qtrp.Server.State.{Proxy, Client, Server, new_server, cleanup_client, run_proxy, count_stats}
use qtrp.Stats.{Stats}

module _ (hmac_sha256 : Bytes → Bytes → Bytes) where
  module _ ⦃m : Msgpack Message⦄ ⦃auth_pack : Msgpack AuthRequest⦄
      ⦃auth_resp_pack : Msgpack AuthResponse⦄ ⦃req_pack : Msgpack NewProxyRequest⦄
      ⦃resp_pack : Msgpack NewProxyResponse⦄ ⦃conn_pack : Msgpack NewConnRequest⦄ where
    -- One operation of one goroutine, but Stop, whatever it is called with. `counts` are the additions to the
    -- counters that stand alone in the code.
    pub data Step (s : Server) : Server → Type 0 where
      authenticates :
          (session now entered : ℕ) (received : Result CodecError Message) (w : Wire)
          → Step s (handle_auth hmac_sha256 session now entered received s w).1.0
      registers :
          (c : ℕ) (msg : Message) (listened : Result Text (Unit {0})) (w : Wire)
          → Step s (handle_new_proxy c msg listened s w).1.0
      pings : (c now : ℕ) → Step s (ping c now s)
      accepts : (accepted : Bool) (p : ℕ) → Step s (run_proxy accepted p s).1
      connects :
          (p : ℕ) (conn_id : Text) (accepted : Result ℕ ℕ) (w : Wire)
          → Step s (handle_user_connection p conn_id accepted s w).1.0
      cleans : (c : ℕ) → Step s (cleanup_client c s)
      counts : (f : Stats → Stats) → Step s (count_stats f s)

    -- Any number of steps.
    pub data Reach (s : Server) : Server → Type 0 where
      done : Reach s s
      next : {t u : Server} → Reach s t → Step t u → Reach s u

    accepts-IsOrderly :
        (accepted : Bool) (p : ℕ) (s : Server) → IsOrderly s → IsOrderly (run_proxy accepted p s).1
    unfolding run_proxy
    accepts-IsOrderly true p s inv = inv
    accepts-IsOrderly false p s inv =
        if-IsOrderly (s.proxy_heap.at p).closed _ _ (run_proxy_exit-IsRegistry p s inv) inv

    connects-IsOrderly :
        (e : Option CodecError) (accepted : Result ℕ ℕ) (s : Server)
        → IsOrderly s
        → IsOrderly (accept_data e accepted s).1
    unfolding accept_data
    connects-IsOrderly (some e) accepted s inv = inv
    connects-IsOrderly none (err e) s inv = inv
    connects-IsOrderly none (ok stream) s inv = inv

    Step-IsOrderly : (s t : Server) → Step s t → IsOrderly s → IsOrderly t
    unfolding ping handle_user_connection
    Step-IsOrderly s _ (authenticates session now entered received w) inv =
        handle_auth-IsOrderly hmac_sha256 session now entered received s w inv
    Step-IsOrderly s _ (registers c msg listened w) inv =
        handle_new_proxy-IsOrderly c msg listened s w inv
    Step-IsOrderly s _ (pings c now) inv = inv
    Step-IsOrderly s _ (accepts accepted p) inv = accepts-IsOrderly accepted p s inv
    Step-IsOrderly s _ (connects p conn_id accepted w) inv = connects-IsOrderly _ accepted s inv
    Step-IsOrderly s _ (cleans c) inv = cleanup_client-IsRegistry c s inv
    Step-IsOrderly s _ (counts f) inv = inv

    Reach-IsOrderly : (s t : Server) → Reach s t → IsOrderly s → IsOrderly t
    Reach-IsOrderly s _ done inv = inv
    Reach-IsOrderly s t (next {t = u} steps step) inv =
        Step-IsOrderly u t step (Reach-IsOrderly s u steps inv)

    -- In every state that the operations but Stop reach from a new server, in any order, the proxy that is
    -- registered under a port has that port, its listener is open and it was not told to close.
    pub reached_serving :
        (c : Client) (p : Proxy) (tokens : List Text) (s : Server) (port : ℤ) (r : ℕ)
        → Reach (new_server c p tokens) s
        → load port s.proxies ≡ some r
        → ((s.proxy_heap.at r).remote_port ≡ port)
          × ((s.proxy_heap.at r).listening ≡ true)
          × ((s.proxy_heap.at r).closed ≡ false)
    unfolding IsRegistry new_server load
    reached_serving c p tokens s port r steps e =
        let start : IsOrderly (new_server c p tokens) = λ port r e. ground arith in
        let i = Reach-IsOrderly (new_server c p tokens) s steps start port r e in
        (i.own_port, i.is_listening, i.is_open)
