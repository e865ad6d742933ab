-- ===== src/Server/Dashboard/Listed.antt =====
-- internal/server/dashboard.go with internal/server/server.go: what the list of proxies shows.
use qtrp.Common.{
  ℕ, ◌≡◌, refl, ap, subst, ◌∙◌, true, false, Bool-cases, inl, inr, some, List, [], ◌∷◌, ◌++◌, arith,
}
use qtrp.Go.Int64.{ℤ, eqb_ℤ}
use qtrp.Go.Io.{Bytes}
use qtrp.Go.Map.{int_key, load}
use qtrp.Go.Strings.{Text}
use qtrp.Protocol.Message.{
  Message, Msgpack, AuthRequest, AuthResponse, NewProxyRequest, NewProxyResponse, NewConnRequest,
}
use qtrp.Server.Dashboard.{
  ProxyEntry, proxy_entry, proxy_list, encoded, Page, proxies_page, api_proxies, page,
}
use qtrp.Server.History.{Reach, reached_serving}
use qtrp.Server.State.{Proxy, Client, Server, set, close_proxy, close_all, stop, new_server}

-- The page lists proxies, and this entry is one of them.
abbrev pub Shows : Page → ProxyEntry → Type 0
Shows shown e =
    (before : List ProxyEntry) × (after : List ProxyEntry) × (shown
      ≡ proxies_page (some (before ++ (e ∷ after))))

proxy_list-load :
    (s : Server) (port : ℤ) (p : ℕ) (ps : List (ℤ × ℕ))
    → load port ps ≡ some p
    → (before : List ProxyEntry) × (after : List ProxyEntry) × (proxy_list s ps
        ≡ before ++ (proxy_entry s p ∷ after))
unfolding load proxy_list
proxy_list-load s port p [] h = cc
proxy_list-load s port p ((q, r) ∷ ps) h = elim (Bool-cases (eqb_ℤ q port)) [
  | inl same ↦
      let here : r ≡ p = ground (arith, h, same) in
      ([], proxy_list s ps, ap (λ x. proxy_entry s x ∷ proxy_list s ps) here)
  | inr other ↦
      let (before, after, e) = proxy_list-load s port p ps (ground (arith, h, other)) in
      (proxy_entry s r ∷ before, after, ap (λ l. proxy_entry s r ∷ l) e)
]

encoded-some :
    (before after : List ProxyEntry) (e : ProxyEntry)
    → encoded (before ++ (e ∷ after)) ≡ some (before ++ (e ∷ after))
unfolding encoded
encoded-some [] after e = refl
encoded-some (x ∷ before) after e = refl

-- A proxy that was told to close.
abbrev IsDown : ℕ → Server → Type 0
IsDown r s = ((s.proxy_heap.at r).listening ≡ false) × ((s.proxy_heap.at r).closed ≡ true)

proxy_entry-close_proxy : (p q : ℕ) (s : Server) → proxy_entry (close_proxy p s) q ≡ proxy_entry s q
unfolding close_proxy proxy_entry set
proxy_entry-close_proxy p q s = ground arith

close_proxy-IsDown : (p q : ℕ) (s : Server) → IsDown q s → IsDown q (close_proxy p s)
unfolding close_proxy set
close_proxy-IsDown p q s (h, c) = (ground (arith, h), ground (arith, c))

close_proxy_lem : (p : ℕ) (s : Server) → IsDown p (close_proxy p s)
unfolding close_proxy set
close_proxy_lem p s = (ground arith, ground arith)

close_all-IsDown : (ps : List (ℤ × ℕ)) (q : ℕ) (s : Server) → IsDown q s → IsDown q (close_all ps s)
unfolding close_all
close_all-IsDown [] q s h = h
close_all-IsDown ((port, p) ∷ ps) q s h =
    close_all-IsDown ps q (close_proxy p s) (close_proxy-IsDown p q s h)

close_all-load :
    (ps : List (ℤ × ℕ)) (port : ℤ) (r : ℕ) (s : Server)
    → load port ps ≡ some r
    → IsDown r (close_all ps s)
unfolding load close_all
close_all-load [] port r s h = absurd (cc h)
close_all-load ((q, p) ∷ ps) port r s h = elim (Bool-cases (eqb_ℤ q port)) [
  | inl same ↦
      let here : p ≡ r = ground (arith, h, same) in
      subst (λ z. IsDown z (close_all ps (close_proxy p s))) here
        (close_all-IsDown ps p (close_proxy p s) (close_proxy_lem p s))
  | inr other ↦ close_all-load ps port r (close_proxy p s) (ground (arith, h, other))
]

-- The maps and the entries are as before.
close_all_keeps :
    (ps : List (ℤ × ℕ)) (q : ℕ) (s : Server)
    → ((close_all ps s).proxies ≡ s.proxies) × (proxy_entry (close_all ps s) q ≡ proxy_entry s q)
unfolding close_all close_proxy
close_all_keeps [] q s = (refl, refl)
close_all_keeps ((port, p) ∷ ps) q s =
    let (kept, entry) = close_all_keeps ps q (close_proxy p s) in
    (kept, entry ∙ proxy_entry-close_proxy p q s)

module _ (remote_addr : ℕ → Text) (hmac_sha256 : Bytes → Bytes → Bytes) where
  module _ ⦃m : Msgpack Message⦄ ⦃auth_pack : Msgpack AuthRequest⦄
      ⦃auth_resp_pack : Msgpack AuthResponse⦄ ⦃req_pack : Msgpack NewProxyRequest⦄
      ⦃resp_pack : Msgpack NewProxyResponse⦄ ⦃conn_pack : Msgpack NewConnRequest⦄ where
    page-Shows :
        (s : Server) (port : ℤ) (r : ℕ)
        → load port s.proxies ≡ some r
        → Shows (page remote_addr api_proxies s) (proxy_entry s r)
    unfolding page
    page-Shows s port r h =
        let (before, after, e) = proxy_list-load s port r s.proxies h in
        (
          before,
          after,
          ap (λ l. proxies_page (encoded l)) e
              ∙ ap proxies_page (encoded-some before after (proxy_entry s r)),
        )

    -- In every state that the operations but Stop reach from a new server, in any order but each run to
    -- its end before the next: for each port that is registered, the dashboard's list of proxies has the
    -- entry of its proxy, with that port, and the proxy listens and was not told to close. Right behind
    -- the loop of a Stop in that state the list still has the entry, and the proxy was told to close and
    -- does not listen.
    pub page_serving :
        (c : Client) (p : Proxy) (tokens : List Text) (s : Server) (port : ℤ) (r : ℕ)
        → Reach hmac_sha256 (new_server c p tokens) s
        → load port s.proxies ≡ some r
        → Shows (page remote_addr api_proxies s) (proxy_entry s r)
          × ((proxy_entry s r).remote_port ≡ port)
          × ((s.proxy_heap.at r).listening ≡ true)
          × ((s.proxy_heap.at r).closed ≡ false)
          × Shows (page remote_addr api_proxies (stop s)) (proxy_entry s r)
          × (((stop s).proxy_heap.at r).listening ≡ false)
          × (((stop s).proxy_heap.at r).closed ≡ true)
    unfolding proxy_entry stop
    page_serving c p tokens s port r steps h =
        let (own, listens, not_closed) = reached_serving hmac_sha256 c p tokens s port r steps h in
        let (kept, entry) = close_all_keeps s.proxies r s in
        let (deaf, told) = close_all-load s.proxies port r s h in
        (
          page-Shows s port r h,
          own,
          listens,
          not_closed,
          subst (Shows (page remote_addr api_proxies (stop s))) entry
              (page-Shows (stop s) port r (ap (load port) kept ∙ h)),
          deaf,
          told,
        )
