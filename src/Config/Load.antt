-- ===== src/Config/Load.antt =====
-- pkg/config/config.go: ServerConfig, ClientConfig, LoadServerConfig and LoadClientConfig. The file
-- system and yaml.Unmarshal are parameters.
pub mod Settled
use qtrp.Common.{
  ℕ, Bool, true, false, List, Result, ok, err, ◌>>=◌, ◌>>◌, refuse_if, wrap_error, if◌then◌else◌,
}
use qtrp.Go.Int64.{ℤ, pos, leb_ℤ, ltb_ℤ}
use qtrp.Go.Strings.{Text, codes, is_empty, text_eq}
use qtrp.Config.Proxy.{ProxyConfig}

pub record MtmuxConfig : Type 0 where
  pub enabled : Bool
  pub tunnels : ℤ

pub record ServerConfig : Type 0 where
  pub bind_addr : Text
  pub dashboard_addr : Text
  pub transport : Text
  pub crypto : Text
  pub tls_cert_file : Text
  pub tls_key_file : Text
  pub psk : Text
  pub quic_cert_file : Text
  pub quic_key_file : Text
  pub tokens : List Text
  pub mtmux : MtmuxConfig

pub record ClientConfig : Type 0 where
  pub server_addr : Text
  pub transport : Text
  pub crypto : Text
  pub token : Text
  pub tls_ca_cert : Text
  pub tls_skip_verify : Bool
  pub psk : Text
  pub quic_skip_verify : Bool
  pub mtmux : MtmuxConfig
  pub proxies : List ProxyConfig

pub data LoadError (E : Type 0) : Type 0 where
  not_read not_yaml : E → LoadError E
  too_many_tunnels : ℤ → LoadError E
  mtmux_over_quic : LoadError E

abbrev pub net_name : Text
net_name = codes "net"

abbrev pub tls_name : Text
tls_name = codes "tls"

abbrev pub quic_name : Text
quic_name = codes "quic"

-- An empty entry has a default.
abbrev default_text : Text → Text → Text
default_text s d = if is_empty s then d else s

default_tunnels : MtmuxConfig → MtmuxConfig
default_tunnels m = record m { tunnels = if leb_ℤ m.tunnels (pos 0) then pos 8 else m.tunnels }

-- The two refusals of a file with several tunnels; the number is that after the default.
check_mtmux : {E : Type 0} → MtmuxConfig → Text → Result (LoadError E) (Unit {0})
check_mtmux m transport = do
  refuse_if (ltb_ℤ (pos 32) m.tunnels) (too_many_tunnels m.tunnels)
  refuse_if (text_eq transport quic_name) mtmux_over_quic

-- LoadServerConfig behind the parsed file.
unfoldable pub settle_server : {E : Type 0} → ServerConfig → Result (LoadError E) ServerConfig
unfolding default_tunnels check_mtmux
settle_server cfg =
    let transport = default_text cfg.transport net_name in
    let crypto = default_text cfg.crypto tls_name in
    let mtmux = default_tunnels cfg.mtmux in
    if cfg.mtmux.enabled
    then check_mtmux mtmux transport
      >> ok (record cfg { transport = transport; crypto = crypto; mtmux = mtmux })
    else ok (record cfg { transport = transport; crypto = crypto })

-- LoadClientConfig behind the parsed file.
unfoldable pub settle_client : {E : Type 0} → ClientConfig → Result (LoadError E) ClientConfig
unfolding default_tunnels check_mtmux
settle_client cfg =
    let transport = default_text cfg.transport net_name in
    let crypto = default_text cfg.crypto tls_name in
    let mtmux = default_tunnels cfg.mtmux in
    if cfg.mtmux.enabled
    then check_mtmux mtmux transport
      >> ok (record cfg { transport = transport; crypto = crypto; mtmux = mtmux })
    else ok (record cfg { transport = transport; crypto = crypto })

-- The file system and the YAML library.
module _ {E : Type 0} (read_file : Text → Result E (List ℕ)) where
  unfoldable pub load_server_config :
      (List ℕ → Result E ServerConfig) → Text → Result (LoadError E) ServerConfig
  load_server_config unmarshal path = do
    content ← wrap_error not_read (read_file path)
    cfg ← wrap_error not_yaml (unmarshal content)
    settle_server cfg

  unfoldable pub load_client_config :
      (List ℕ → Result E ClientConfig) → Text → Result (LoadError E) ClientConfig
  load_client_config unmarshal path = do
    content ← wrap_error not_read (read_file path)
    cfg ← wrap_error not_yaml (unmarshal content)
    settle_client cfg
