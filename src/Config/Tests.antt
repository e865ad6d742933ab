-- ===== src/Config/Tests.antt =====
-- Runs of the configuration code, and its theorems at concrete inputs.
use qtrp.Common.{
  ℕ, ◌+◌, ◌<◌, ◌≡◌, ◌≢◌, ◌⊎◌, inr, refl, true, false, List, [], ◌∷◌, ◌++◌, some, Result, ok, err,
  arith, ltb, length, get_elem?,
}
use qtrp.Go.Int64.{ℤ, pos, add64, sub64}
use qtrp.Go.Strconv.{format_nat, parse_int}
use qtrp.Go.Strings.{Text, codes, is_space, split, text_eq, trim_space}
use qtrp.Config.Load.{
  ServerConfig, ClientConfig, MtmuxConfig, settle_server, settle_client, load_server_config,
  load_client_config,
}
use qtrp.Config.Port.{PortRange, start_above_end, parse_port_range, count, ports}
use qtrp.Config.Port.Accepted.{parse_pair, show_range}
use qtrp.Config.Port.Listed.{Lists, ports_lem}
use qtrp.Config.Proxy.{
  ProxyConfig, ExpandedProxy, ExpandError, panics, entry, expand, expand_loop, indexed_name,
}
use qtrp.Config.Proxy.Expanded.{expand_pairs}
use qtrp.Config.Proxy.Unique.{Matching, expand_total, expand-distinct}

parses_spaced :
    parse_port_range (codes " 8000-8002 ") ≡ ok (record { start = pos 8000; end = pos 8002 })
unfolding parse_port_range trim_space split parse_int
parses_spaced = refl

lists_ports : ports (record { start = pos 80; end = pos 82 }) ≡ some (pos 80 ∷ pos 81 ∷ pos 82 ∷ [])
unfolding ports count add64 sub64
lists_ports = refl

abbrev web : ProxyConfig
web = record {
  name = codes "web";
  proxy_type = codes "tcp";
  local_addr = codes "127.0.0.1";
  local_port = codes "8000-8001";
  remote_port = codes "6000-6001";
}

expands_web :
    expand web
    ≡ ok (
        record {
          name = codes "web_0";
          proxy_type = codes "tcp";
          local_addr = codes "127.0.0.1";
          local_port = pos 8000;
          remote_port = pos 6000;
        }
        ∷ record {
          name = codes "web_1";
          proxy_type = codes "tcp";
          local_addr = codes "127.0.0.1";
          local_port = pos 8001;
          remote_port = pos 6001;
        }
        ∷ [])
unfolding expand expand_loop parse_port_range trim_space split parse_int count ports add64 sub64
    indexed_name format_nat
expands_web = refl

abbrev locals : PortRange
locals = record { start = pos 8000; end = pos 8001 }

abbrev remotes : PortRange
remotes = record { start = pos 6000; end = pos 6001 }

reads_locals : parse_port_range (codes "8000-8001") ≡ ok locals
unfolding parse_port_range trim_space split parse_int
reads_locals = refl

space_IsSpace : is_space 0x20 ≡ true
unfolding is_space
space_IsSpace = refl

parse_pair_example :
    parse_port_range ([] ++ (show_range 9 8 ++ codes " ")) ≡ err (start_above_end (show_range 9 8))
parse_pair_example =
    parse_pair [] (codes " ") 9 8 tt (space_IsSpace, tt) (omega arith) (omega arith)

ports_lem_example :
    (a b : ℕ) × (ps : List ℤ) × (locals ≡ record { start = pos a; end = pos b })
    × (ports locals ≡ some ps)
    × (count locals ≡ pos (length ps))
    × Lists (a, b) ps
ports_lem_example = ports_lem locals (omega arith)

abbrev TwoPortList : Type 0
TwoPortList =
    (a c : ℕ) × (ps : List ExpandedProxy) × (locals.start ≡ pos a)
    × (remotes.start ≡ pos c)
    × (expand web ≡ ok ps)
    × (count locals ≡ pos (length ps))
    × ((i : ℕ)
        → i < length ps
        → get_elem? ps i ≡ some (entry web (ltb 1 (length ps)) i (pos (a + i)) (pos (c + i))))

expand_pairs_example : TwoPortList
unfolding parse_port_range trim_space split parse_int count add64 sub64
expand_pairs_example = expand_pairs web locals remotes refl refl refl

expand_total_example :
    (Matching web × ((ps : List ExpandedProxy) × (expand web ≡ ok ps)))
    ⊎ ((¬ Matching web) × ((e : ExpandError) × (expand web ≡ err e) × (e ≢ panics)))
expand_total_example = expand_total web

abbrev web_entry : ℕ → ExpandedProxy
web_entry i = entry web true i (pos (8000 + i)) (pos (6000 + i))

expand-distinct_example : ◌≡◌ {A = ℕ} 1 1
unfolding expand expand_loop parse_port_range trim_space split parse_int count ports add64 sub64
expand-distinct_example =
    expand-distinct web (web_entry 0 ∷ web_entry 1 ∷ []) 1 1 (web_entry 1) (web_entry 1) refl refl
      refl (inr refl)

abbrev server_file : ServerConfig
server_file = record {
  bind_addr = codes ":7000";
  dashboard_addr = [];
  transport = [];
  crypto = codes "chacha20";
  tls_cert_file = [];
  tls_key_file = [];
  psk = codes "secret";
  quic_cert_file = [];
  quic_key_file = [];
  tokens = codes "token-one" ∷ [];
  mtmux = record { enabled = true; tunnels = pos 0 };
}

abbrev client_file : ClientConfig
client_file = record {
  server_addr = codes "host:7000";
  transport = [];
  crypto = codes "chacha20";
  token = codes "token-one";
  tls_ca_cert = [];
  tls_skip_verify = false;
  psk = codes "secret";
  quic_skip_verify = false;
  mtmux = record { enabled = true; tunnels = pos 0 };
  proxies = web ∷ [];
}

abbrev with_default : MtmuxConfig
with_default = record { enabled = true; tunnels = pos 8 }

abbrev settled_server : ServerConfig
settled_server = record server_file { transport = codes "net"; mtmux = with_default }

abbrev settled_client : ClientConfig
settled_client = record client_file { transport = codes "net"; mtmux = with_default }

-- A file system with one file, and a parser that knows it.
abbrev read_one : Text → Result ℕ (List ℕ)
read_one path = ok path

loads_server :
    load_server_config read_one (λ _. ok server_file) (codes "server.yaml") ≡ ok settled_server
unfolding load_server_config settle_server text_eq
loads_server = refl

loads_client :
    load_client_config read_one (λ _. ok client_file) (codes "client.yaml") ≡ ok settled_client
unfolding load_client_config settle_client text_eq
loads_client = refl
