-- ===== src/Server/State.antt =====
-- internal/server/server.go: the objects of the server and what closes them. Clients and proxies are
-- shared by pointer: they live in two heaps and are named by their addresses. sync.Map and Go's maps
-- are association lists. Each function is what one goroutine does without waiting for another.
use qtrp.Common.{ℕ, suc, Bool, true, false, List, [], ◌∷◌, ◌==◌, if◌then◌else◌}
use qtrp.Auth.{Authenticator, new_authenticator}
use qtrp.Go.Int64.{ℤ}
use qtrp.Go.Map.{int_key, text_key, delete}
use qtrp.Go.Strings.{Text}
use qtrp.Stats.{Stats, no_stats, dec_active_proxies}

-- `listening`: its listener is open. `closed`: its closeCh is closed.
pub record Proxy : Type 0 where
  pub name : Text
  pub remote_port : ℤ
  pub listening : Bool
  pub closed : Bool
  pub client : ℕ

-- The session by a number; the clock in nanoseconds.
pub record Client : Type 0 where
  pub id : Text
  pub session : ℕ
  pub proxies : List (Text × ℕ)
  pub last_ping : ℕ

-- The object at each address, and how many addresses have been given out.
pub record Heap {ℓ} (A : Type ℓ) : Type ℓ where
  pub at : ℕ → A
  pub size : ℕ

unfoldable pub set {ℓ} : {A : Type ℓ} → ℕ → A → Heap A → Heap A
set r a h = record h { at = λ q. if q == r then a else h.at q }

-- The address of a new object is the size of the heap before.
unfoldable pub alloc {ℓ} : {A : Type ℓ} → A → Heap A → Heap A
alloc a h = record { at = λ q. if q == h.size then a else h.at q; size = suc h.size }

-- `ended` lists the sessions that have been closed, the last one first.
pub record Server : Type 0 where
  pub auth : Authenticator
  pub clients : List (Text × ℕ)
  pub proxies : List (ℤ × ℕ)
  pub client_heap : Heap Client
  pub proxy_heap : Heap Proxy
  pub ended : List ℕ
  pub stats : Stats

-- Proxy.Close
unfoldable pub close_proxy : ℕ → Server → Server
unfolding set
close_proxy p s =
    let proxy = s.proxy_heap.at p in
    record s { proxy_heap = set p (record proxy { listening = false; closed = true }) s.proxy_heap }

-- s.proxies.Delete(port)
abbrev pub unregister : ℤ → Server → Server
unregister port s = record s { proxies = delete port s.proxies }

abbrev pub count_stats : (Stats → Stats) → Server → Server
count_stats f s = record s { stats = f s.stats }

-- A round of cleanupClient's loop.
unfoldable pub release : ℕ → Server → Server
release p s =
    count_stats dec_active_proxies (unregister (s.proxy_heap.at p).remote_port (close_proxy p s))

unfoldable pub release_all : List (Text × ℕ) → Server → Server
release_all [] s = s
release_all ((name, p) ∷ ps) s = release_all ps (release p s)

-- The end of cleanupClient: the client's own map is emptied, and the client leaves the server's map.
unfoldable pub forget_client : ℕ → Server → Server
unfolding set
forget_client c s =
    let client = s.client_heap.at c in
    record s {
      client_heap = set c (record client { proxies = [] }) s.client_heap;
      clients = delete client.id s.clients;
    }

-- cleanupClient. (Go visits a map in any order; the list is one of them.)
unfoldable pub cleanup_client : ℕ → Server → Server
cleanup_client c s = forget_client c (release_all (s.client_heap.at c).proxies s)

-- What runProxy defers: the listener is closed, the port is free, and the proxy is no more counted.
unfoldable pub run_proxy_exit : ℕ → Server → Server
unfolding set
run_proxy_exit p s =
    let proxy = s.proxy_heap.at p in
    count_stats dec_active_proxies (
      unregister proxy.remote_port
        (record s { proxy_heap = set p (record proxy { listening = false }) s.proxy_heap }))

-- Where a round of runProxy's loop goes after Accept: on with the user's connection, to the next
-- round, or out.
pub data Accepting : Type 0 where
  serve again stopped : Accepting

unfoldable pub run_proxy : Bool → ℕ → Server → Accepting × Server
run_proxy true p s = (serve, s)
run_proxy false p s =
    let gone = run_proxy_exit p s in
    if (s.proxy_heap.at p).closed then (stopped, gone) else (again, s)

-- The proxies of Stop's loop, in the order of the map.
unfoldable pub close_all : List (ℤ × ℕ) → Server → Server
close_all [] s = s
close_all ((port, p) ∷ ps) s = close_all ps (close_proxy p s)

-- Stop, behind the closing of closeCh and of the server's listener.
unfoldable pub stop : Server → Server
stop s = close_all s.proxies s

-- What New sets up.
unfoldable pub new_server : Client → Proxy → List Text → Server
new_server c p tokens = record {
  auth = new_authenticator tokens;
  clients = [];
  proxies = [];
  client_heap = record { at = λ _. c; size = 0 };
  proxy_heap = record { at = λ _. p; size = 0 };
  ended = [];
  stats = no_stats;
}
