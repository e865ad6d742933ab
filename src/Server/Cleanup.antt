-- ===== src/Server/Cleanup.antt =====
-- internal/server/server.go: what cleanupClient leaves behind, and what happens when it or the exit
-- of runProxy comes late.
use qtrp.Common.{
  ℕ, ◌≡◌, ◌≢◌, All, refl, ◌∙◌, ap, true, false, none, some, List, [], ◌∷◌, ◌==◌, ==_iff, arith,
  if◌then◌else◌, subst, Bool-cases, inl, inr,
}
use qtrp.Go.Int64.{ℤ, eqb_ℤ}
use qtrp.Go.Map.{int_key, text_key, load, load-delete, eqb_ℤ_iff}
use qtrp.Go.Strings.{Text, text_eq, text_eq_refl}
use qtrp.Server.State.{
  Proxy, Server, set, close_proxy, release, release_all, forget_client, cleanup_client,
}

-- A proxy that was closed and whose port is free.
pub record IsReleased (s : Server) (port : ℤ) (p : ℕ) : Type 0 where
  pub free : load port s.proxies ≡ none
  pub own_port : (s.proxy_heap.at p).remote_port ≡ port
  pub is_shut : (s.proxy_heap.at p).listening ≡ false
  pub is_told : (s.proxy_heap.at p).closed ≡ true

abbrev told : Proxy → Proxy
told x = record x { listening = false; closed = true }

release_at :
    (p q : ℕ) (s : Server)
    → (release p s).proxy_heap.at q
      ≡ (if q == p then told (s.proxy_heap.at p) else s.proxy_heap.at q)
unfolding release close_proxy set
release_at p q s = refl

load-release :
    (p : ℕ) (s : Server) (port : ℤ)
    → load port (release p s).proxies
      ≡ (if eqb_ℤ (s.proxy_heap.at p).remote_port port then none else load port s.proxies)
unfolding release close_proxy
load-release p s port = load-delete (s.proxy_heap.at p).remote_port port s.proxies

-- A proxy keeps its port.
release_port :
    (p q : ℕ) (s : Server)
    → ((release p s).proxy_heap.at q).remote_port ≡ (s.proxy_heap.at q).remote_port
release_port p q s = ap (λ x. x.remote_port) (release_at p q s) ∙ ground (arith, ==_iff q p)

release_new : (p : ℕ) (s : Server) → IsReleased (release p s) (s.proxy_heap.at p).remote_port p
release_new p s =
    let here =
      ap (λ b. if b then told (s.proxy_heap.at p) else s.proxy_heap.at p) ((==_iff p p).1 refl) in
    let e = release_at p p s ∙ here in
    record {
      free = ground (
        arith,
        load-release p s (s.proxy_heap.at p).remote_port,
        eqb_ℤ_iff (s.proxy_heap.at p).remote_port (s.proxy_heap.at p).remote_port,
      );
      own_port = ap (λ x. x.remote_port) e;
      is_shut = ap (λ x. x.listening) e;
      is_told = ap (λ x. x.closed) e;
    }

release-IsReleased :
    (p q : ℕ) (port : ℤ) (s : Server) → IsReleased s port q → IsReleased (release p s) port q
release-IsReleased p q port s i = record {
  free = ground (arith, load-release p s port, i.free);
  own_port = release_port p q s ∙ i.own_port;
  is_shut = ap (λ x. x.listening) (release_at p q s) ∙ ground (arith, i.is_shut);
  is_told = ap (λ x. x.closed) (release_at p q s) ∙ ground (arith, i.is_told);
}

release_all-IsReleased :
    (ps : List (Text × ℕ)) (q : ℕ) (port : ℤ) (s : Server)
    → IsReleased s port q
    → IsReleased (release_all ps s) port q
unfolding release_all
release_all-IsReleased [] q port s i = i
release_all-IsReleased ((name, p) ∷ ps) q port s i =
    release_all-IsReleased ps q port (release p s) (release-IsReleased p q port s i)

release_all_new :
    (ps : List (Text × ℕ)) (name : Text) (p : ℕ) (s : Server)
    → load name ps ≡ some p
    → IsReleased (release_all ps s) (s.proxy_heap.at p).remote_port p
unfolding release_all load
release_all_new [] name p s e = cc
release_all_new ((first, q) ∷ ps) name p s e = elim (Bool-cases (text_eq first name)) [
  | inl b ↦
      let same : q ≡ p = ground (arith, e, b) in
      subst (λ r. IsReleased (release_all ps (release q s)) (s.proxy_heap.at r).remote_port r) same
        (release_all-IsReleased ps q (s.proxy_heap.at q).remote_port (release q s)
          (release_new q s))
  | inr b ↦
      let deeper : load name ps ≡ some p = ground (arith, e, b) in
      subst (λ port. IsReleased (release_all ps (release q s)) port p) (release_port q p s)
        (release_all_new ps name p (release q s) deeper)
]

pub release_all_clients :
    (ps : List (Text × ℕ)) (s : Server)
    → ((release_all ps s).clients ≡ s.clients) × ((release_all ps s).client_heap ≡ s.client_heap)
unfolding release_all release close_proxy
release_all_clients [] s = (refl, refl)
release_all_clients ((name, p) ∷ ps) s = release_all_clients ps (release p s)

forget_client-IsReleased :
    (c p : ℕ) (port : ℤ) (s : Server) → IsReleased s port p → IsReleased (forget_client c s) port p
unfolding forget_client
forget_client-IsReleased c p port s i = record {
  free = i.free;
  own_port = i.own_port;
  is_shut = i.is_shut;
  is_told = i.is_told;
}

pub cleanup_client-clients :
    (c : ℕ) (s : Server) (id : Text)
    → load id (cleanup_client c s).clients
      ≡ (if text_eq (s.client_heap.at c).id id then none else load id s.clients)
unfolding cleanup_client forget_client
cleanup_client-clients c s id =
    let (clients, heap) = release_all_clients (s.client_heap.at c).proxies s in
    let t = release_all (s.client_heap.at c).proxies s in
    load-delete (t.client_heap.at c).id id t.clients
    ∙ ap (λ h. if text_eq (h.at c).id id then none else load id t.clients) heap
    ∙ ap (λ cs. if text_eq (s.client_heap.at c).id id then none else load id cs) clients

pub cleanup_client_forgets :
    (c : ℕ) (s : Server) → load (s.client_heap.at c).id (cleanup_client c s).clients ≡ none
cleanup_client_forgets c s =
    cleanup_client-clients c s (s.client_heap.at c).id
    ∙ ap (λ b. if b then none else load (s.client_heap.at c).id s.clients)
        (text_eq_refl (s.client_heap.at c).id)

-- What is not of the client's proxies.
release_all-spares :
    (port_of : ℕ → ℤ) (ps : List (Text × ℕ)) (port : ℤ) (s : Server)
    → ((q : ℕ) → (s.proxy_heap.at q).remote_port ≡ port_of q)
    → All (λ (e : Text × ℕ). port_of e.1 ≢ port) ps
    → load port (release_all ps s).proxies ≡ load port s.proxies
unfolding release_all
release_all-spares port_of [] port s same others = refl
release_all-spares port_of ((name, p) ∷ ps) port s same others =
    release_all-spares port_of ps port (release p s) (λ q. release_port p q s ∙ same q) others.1
    ∙ load-release p s port
    ∙ ground (arith, same p, others.0, eqb_ℤ_iff (s.proxy_heap.at p).remote_port port)

release_all-at :
    (ps : List (Text × ℕ)) (q : ℕ) (s : Server)
    → All (λ (e : Text × ℕ). e.1 ≢ q) ps
    → (release_all ps s).proxy_heap.at q ≡ s.proxy_heap.at q
unfolding release_all
release_all-at [] q s others = refl
release_all-at ((name, p) ∷ ps) q s others =
    release_all-at ps q (release p s) others.1
    ∙ release_at p q s
    ∙ ground (arith, others.0, ==_iff q p)

-- cleanupClient closes each proxy that the client has under a name, and frees its port. A port that is of
-- none of these proxies stays as it is, and so does every other proxy. Behind it the client's id has no
-- client, and every other id has the one that it had.
pub cleanup_client_lem :
    (c : ℕ) (s : Server)
    → let own = (s.client_heap.at c).proxies in
      let t = cleanup_client c s in
      ((name : Text) (p : ℕ)
        → load name own ≡ some p
        → IsReleased t (s.proxy_heap.at p).remote_port p)
      × ((port : ℤ)
          → All (λ (e : Text × ℕ). (s.proxy_heap.at e.1).remote_port ≢ port) own
          → load port t.proxies ≡ load port s.proxies)
      × ((q : ℕ) → All (λ (e : Text × ℕ). e.1 ≢ q) own → t.proxy_heap.at q ≡ s.proxy_heap.at q)
      × ((id : Text)
          → load id t.clients
            ≡ (if text_eq (s.client_heap.at c).id id then none else load id s.clients))
unfolding cleanup_client forget_client
cleanup_client_lem c s =
    let own = (s.client_heap.at c).proxies in
    (
      λ name p e.
          forget_client-IsReleased c p (s.proxy_heap.at p).remote_port _
            (release_all_new own name p s e),
      λ port others.
          release_all-spares (λ q. (s.proxy_heap.at q).remote_port) own port s (λ q. refl) others,
      λ q others. release_all-at own q s others,
      cleanup_client-clients c s,
    )
