-- ===== src/Server/Late.antt =====
-- internal/server/server.go: cleanupClient and the exit of runProxy delete by key, so one that comes
-- late meets what another client has put there.
use qtrp.Common.{
  ℕ, ◌≡◌, ◌<◌, ◌≢◌, refl, ◌∙◌, ap, Bool, true, false, Option, none, some, ==_iff, arith,
  if◌then◌else◌, ltb, length, subst, Result, ok, err, ◌≤◌,
}
use qtrp.Go.Int64.{ℤ, negsuc, add64}
use qtrp.Go.Map.{int_key, text_key, load, load-store, load-delete, eqb_ℤ_iff}
use qtrp.Go.Strings.{Text, text_eq_refl}
use qtrp.Server.Admission.{
  client_id, admit, add_client, replace_old, prefix_size, AuthError, panics,
}
use qtrp.Server.Cleanup.{release_all_clients, cleanup_client_forgets}
use qtrp.Server.State.{
  Server, set, alloc, close_proxy, release, release_all, forget_client, cleanup_client,
  run_proxy_exit, run_proxy, stopped, again,
}

-- The loop of a proxy that was told to close frees its port when it ends, also if the port has come
-- to another proxy in between, whose state is as before.
pub late_exit :
    (p r : ℕ) (port : ℤ) (s : Server)
    → (s.proxy_heap.at p).closed ≡ true
    → (s.proxy_heap.at p).remote_port ≡ port
    → load port s.proxies ≡ some r
    → r ≢ p
    → ((run_proxy false p s).0 ≡ stopped)
      × (load port (run_proxy false p s).1.proxies ≡ none)
      × ((run_proxy false p s).1.proxy_heap.at r ≡ s.proxy_heap.at r)
unfolding run_proxy run_proxy_exit set
late_exit p r port s told own taken other =
    let e : run_proxy false p s ≡ (stopped, run_proxy_exit p s) =
      ap (λ b. if b then (stopped, run_proxy_exit p s) else (again, s)) told in
    (
      ap (λ x. x.0) e,
      ap (λ x. load port x.1.proxies) e
          ∙ load-delete (s.proxy_heap.at p).remote_port port s.proxies
          ∙ ground (arith, own, eqb_ℤ_iff (s.proxy_heap.at p).remote_port port),
      ap (λ x. x.1.proxy_heap.at r) e ∙ ground (arith, other, ==_iff r p),
    )

-- A proxy that cleanupClient has closed is taken off the count twice: there and at the end of its
-- loop.
pub counted_twice :
    (p : ℕ) (s : Server)
    → ((run_proxy false p (release p s)).0 ≡ stopped)
      × ((run_proxy false p (release p s)).1.stats.active_proxies
          ≡ add64 (add64 s.stats.active_proxies (negsuc 0)) (negsuc 0))
unfolding run_proxy run_proxy_exit release close_proxy set
counted_twice p s =
    let here = (==_iff p p).1 refl in
    let e : run_proxy false p (release p s) ≡ (stopped, run_proxy_exit p (release p s)) =
      ap
        (λ b.
          if (if b
            then record {
              name = (s.proxy_heap.at p).name;
              remote_port = (s.proxy_heap.at p).remote_port;
              listening = false;
              closed = true;
              client = (s.proxy_heap.at p).client;
            }
            else s.proxy_heap.at p).closed
          then (stopped, run_proxy_exit p (release p s))
          else (again, release p s))
        here in
    (ap (λ x. x.0) e, ap (λ x. x.1.stats.active_proxies) e)

-- The address of the new client, and its place in the map.
load-add_client :
    (id : Text) (session now : ℕ) (s : Server)
    → load id (add_client id session now s).clients ≡ some s.client_heap.size
unfolding add_client
load-add_client id session now s =
    load-store id id s.client_heap.size s.clients
    ∙ ap (λ b. if b then some s.client_heap.size else load id s.clients) (text_eq_refl id)

-- Clients keep their ids.
cleanup_client_id :
    (c q : ℕ) (s : Server)
    → (((cleanup_client c s).client_heap.at q).id ≡ (s.client_heap.at q).id)
      × ((cleanup_client c s).client_heap.size ≡ s.client_heap.size)
unfolding cleanup_client forget_client set
cleanup_client_id c q s =
    let h = (release_all_clients (s.client_heap.at c).proxies s).1 in
    let kept : (((cleanup_client c s).client_heap.at q).id
        ≡ ((release_all (s.client_heap.at c).proxies s).client_heap.at q).id) =
      ground (arith, ==_iff q c) in
    (kept ∙ ap (λ h. (h.at q).id) h, ap (λ h. h.size) h)

add_client_at :
    (id : Text) (session now q : ℕ) (s : Server)
    → q < s.client_heap.size
    → ((add_client id session now s).client_heap.at q).id ≡ (s.client_heap.at q).id
unfolding add_client alloc
add_client_at id session now q s h = ground (arith, ==_iff q s.client_heap.size)

ge→ltb : (a b : ℕ) → b ≤ a → ltb a b ≡ false
ge→ltb a b h = ground arith

-- A client that comes back while its old connection is still served: the old connection's end, with
-- its cleanup, takes the new client out of the server's map.
pub late_cleanup :
    (token : Text) (session now old : ℕ) (s : Server)
    → prefix_size ≤ length token
    → load (client_id token) s.clients ≡ some old
    → (s.client_heap.at old).id ≡ client_id token
    → old < s.client_heap.size
    → let admitted = admit token session now s in
      (admitted.0 ≡ ok s.client_heap.size)
      × (load (client_id token) admitted.1.clients ≡ some s.client_heap.size)
      × (load (client_id token) (cleanup_client old admitted.1).clients ≡ none)
unfolding admit replace_old
late_cleanup token session now old s long here own known =
    let id = client_id token in
    let t = replace_old (some old) s in
    let sizes = (cleanup_client_id old old s).1 in
    let s' = add_client id session now t in
    let e : admit token session now s ≡ (ok t.client_heap.size, s') =
      ap (λ o. admitting (ltb (length token) prefix_size) o) here
      ∙ ap (λ b. admitting b (some old)) (ge→ltb (length token) prefix_size long) in
    let mine : (s'.client_heap.at old).id ≡ id =
      add_client_at id session now old t (ground (arith, sizes, known))
      ∙ (cleanup_client_id old old s).0
      ∙ own in
    (
      ap (λ x. x.0) e ∙ ap ok sizes,
      ap (λ x. load id x.1.clients) e ∙ load-add_client id session now t ∙ ap some sizes,
      ap (λ x. load id (cleanup_client old x.1).clients) e
          ∙ subst (λ i. load i (cleanup_client old s').clients ≡ none) mine
              (cleanup_client_forgets old s'),
    )
  where
    admitting : Bool → Option ℕ → Result AuthError ℕ × Server
    admitting b o =
        let t = replace_old o s in
        if b
        then (err panics, s)
        else (ok t.client_heap.size, add_client (client_id token) session now t)
