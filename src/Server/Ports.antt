-- ===== src/Server/Ports.antt =====
-- internal/server/server.go: the ports of the registry and the proxies behind them, over every order
-- of the operations of the server's goroutines.
use qtrp.Common.{
  ℕ, ◌<◌, ◌≡◌, ◌∙◌, ap, true, false, some, List, [], ◌∷◌, arith, if◌then◌else◌, Bool-cases, inl,
  inr, ◌==◌,
}
use qtrp.Go.Int64.{ℤ}
use qtrp.Go.Map.{int_key, load, store, delete, load-store, load-delete, eqb_ℤ_iff}
use qtrp.Go.Strings.{Text}
use qtrp.Server.State.{
  Proxy, Heap, Server, set, alloc, close_proxy, release, release_all, forget_client, cleanup_client,
  run_proxy_exit,
}

-- The proxy at `r` serves the port: its listener is open and nothing has told it to close.
pub record IsServing (port : ℤ) (h : Heap Proxy) (r : ℕ) : Type 0 where
  pub known : r < h.size
  pub own_port : (h.at r).remote_port ≡ port
  pub is_listening : (h.at r).listening ≡ true
  pub is_open : (h.at r).closed ≡ false

unfoldable pub IsRegistry : List (ℤ × ℕ) → Heap Proxy → Type 0
IsRegistry m h = (port : ℤ) (r : ℕ) → load port m ≡ some r → IsServing port h r

IsServing-other :
    (port : ℤ) (h h' : Heap Proxy) (r : ℕ)
    → IsServing port h r
    → r < h'.size
    → h'.at r ≡ h.at r
    → IsServing port h' r
IsServing-other port h h' r i k e = record {
  known = k;
  own_port = ap (λ q. q.remote_port) e ∙ i.own_port;
  is_listening = ap (λ q. q.listening) e ∙ i.is_listening;
  is_open = ap (λ q. q.closed) e ∙ i.is_open;
}

-- Any change of one proxy is right when its port leaves the registry with it.
pub delete-IsRegistry :
    (m : List (ℤ × ℕ)) (h : Heap Proxy) (p : ℕ) (x : Proxy)
    → IsRegistry m h
    → IsRegistry (delete (h.at p).remote_port m) (set p x h)
unfolding IsRegistry set
delete-IsRegistry m h p x inv port r e =
    let l = load-delete (h.at p).remote_port port m in
    let at_port : load port m ≡ some r = ground (arith, l, e) in
    let i = inv port r at_port in
    let other : (r == p) ≡ false =
      ground (arith, l, e, i.own_port, eqb_ℤ_iff (h.at p).remote_port port) in
    IsServing-other port h (set p x h) r i (i.known) (ap (λ b. if b then x else h.at r) other)

pub alloc-IsRegistry :
    (m : List (ℤ × ℕ)) (h : Heap Proxy) (x : Proxy)
    → x.listening ≡ true
    → x.closed ≡ false
    → IsRegistry m h
    → IsRegistry (store x.remote_port h.size m) (alloc x h)
unfolding IsRegistry alloc
alloc-IsRegistry m h x on opened inv port r e =
    let l = load-store x.remote_port port h.size m in
    elim (Bool-cases (r == h.size)) [
      | inl here ↦
          let fresh : load port m ≡ some r → r < h.size = λ q. (inv port r q).known in
          let same_port : x.remote_port ≡ port =
            ground (arith, l, e, here, fresh, eqb_ℤ_iff x.remote_port port) in
          let is_x = ap (λ b. if b then x else h.at r) here in
          record {
            known = ground arith;
            own_port = ap (λ q. q.remote_port) is_x ∙ same_port;
            is_listening = ap (λ q. q.listening) is_x ∙ on;
            is_open = ap (λ q. q.closed) is_x ∙ opened;
          }
      | inr there ↦
          let at_port : load port m ≡ some r = ground (arith, l, e) in
          let i = inv port r at_port in
          IsServing-other port h (alloc x h) r i (ground (arith, i.known))
            (ap (λ b. if b then x else h.at r) there)
    ]

-- The operations, each on a registry in order.
pub release-IsRegistry :
    (p : ℕ) (s : Server)
    → IsRegistry s.proxies s.proxy_heap
    → IsRegistry (release p s).proxies (release p s).proxy_heap
unfolding release close_proxy
release-IsRegistry p s inv = delete-IsRegistry s.proxies s.proxy_heap p _ inv

pub release_all-IsRegistry :
    (ps : List (Text × ℕ)) (s : Server)
    → IsRegistry s.proxies s.proxy_heap
    → IsRegistry (release_all ps s).proxies (release_all ps s).proxy_heap
unfolding release_all
release_all-IsRegistry [] s inv = inv
release_all-IsRegistry ((name, p) ∷ ps) s inv =
    release_all-IsRegistry ps (release p s) (release-IsRegistry p s inv)

pub cleanup_client-IsRegistry :
    (c : ℕ) (s : Server)
    → IsRegistry s.proxies s.proxy_heap
    → IsRegistry (cleanup_client c s).proxies (cleanup_client c s).proxy_heap
unfolding cleanup_client forget_client
cleanup_client-IsRegistry c s inv = release_all-IsRegistry (s.client_heap.at c).proxies s inv

pub run_proxy_exit-IsRegistry :
    (p : ℕ) (s : Server)
    → IsRegistry s.proxies s.proxy_heap
    → IsRegistry (run_proxy_exit p s).proxies (run_proxy_exit p s).proxy_heap
unfolding run_proxy_exit
run_proxy_exit-IsRegistry p s inv = delete-IsRegistry s.proxies s.proxy_heap p _ inv
