-- ===== src/Server/Dashboard.antt =====
-- internal/server/dashboard.go: what each path answers, before it is encoded as JSON. Range may visit a
-- map's entries in any order; the list is one of them.
pub mod Listed
use qtrp.Common.{ℕ, Option, none, some, List, [], ◌∷◌, ◌+◌}
use qtrp.Go.Int64.{ℤ}
use qtrp.Go.Strings.{Text, codes}
use qtrp.Server.State.{Proxy, Client, Server}
use qtrp.Stats.{Stats, get_stats}

pub record ProxyEntry : Type 0 where
  pub name : Text
  pub remote_port : ℤ
  pub client_id : Text

pub record ClientEntry : Type 0 where
  pub id : Text
  pub proxy_count : ℕ
  pub last_ping : ℕ
  pub remote_addr : Text

unfoldable pub proxy_entry : Server → ℕ → ProxyEntry
proxy_entry s p =
    let proxy = s.proxy_heap.at p in
    record {
      name = proxy.name;
      remote_port = proxy.remote_port;
      client_id = (s.client_heap.at proxy.client).id;
    }

-- Range over the proxies.
unfoldable pub proxy_list : Server → List (ℤ × ℕ) → List ProxyEntry
proxy_list s [] = []
proxy_list s ((port, p) ∷ ps) = proxy_entry s p ∷ proxy_list s ps

-- len of a map.
unfoldable pub entry_count : List (Text × ℕ) → ℕ
entry_count [] = 0
entry_count (p ∷ ps) = 1 + entry_count ps

-- A slice as JSON: a nil slice, which nothing was appended to, is null.
unfoldable pub encoded : {A : Type 0} → List A → Option (List A)
encoded [] = none
encoded (x ∷ xs) = some (x ∷ xs)

-- The paths that are served, and what is written for each.
pub data Route : Type 0 where
  api_stats health api_proxies api_clients : Route

pub data Page : Type 0 where
  stats_page : Stats → Page
  text_page : Text → Page
  proxies_page : Option (List ProxyEntry) → Page
  clients_page : Option (List ClientEntry) → Page

-- `remote_addr`: the address of a session's peer.
module _ (remote_addr : ℕ → Text) where
  unfoldable pub client_entry : Server → ℕ → ClientEntry
  unfolding entry_count
  client_entry s c =
      let client = s.client_heap.at c in
      record {
        id = client.id;
        proxy_count = entry_count client.proxies;
        last_ping = client.last_ping;
        remote_addr = remote_addr client.session;
      }

  -- Range over the clients.
  unfoldable pub client_list : Server → List (Text × ℕ) → List ClientEntry
  client_list s [] = []
  client_list s ((id, c) ∷ cs) = client_entry s c ∷ client_list s cs

  -- The handlers of startDashboard.
  unfoldable pub page : Route → Server → Page
  unfolding encoded
  page api_stats s = stats_page (get_stats s.stats)
  page health s = text_page (codes "ok")
  page api_proxies s = proxies_page (encoded (proxy_list s s.proxies))
  page api_clients s = clients_page (encoded (client_list s s.clients))
