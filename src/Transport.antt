-- ===== src/Transport.antt =====
-- pkg/transport/transport.go and the part of the other files that chooses and describes a transport.
-- The transports' own calls are in Conns.
pub mod Gnet
pub mod Conns
pub mod Sockets
mod Tests
pub mod Quic
use qtrp.Common.{ℕ, ◌==◌, ◌*◌, Bool, true, false, Option, none, some, if◌then◌else◌}
use qtrp.Auth.{second}
use qtrp.Go.Int64.{ℤ, pos, eqb_ℤ}
use qtrp.Go.Strings.{Text, codes, text_eq}

abbrev pub gnet_name : Text
gnet_name = codes "gnet"

abbrev pub quic_name : Text
quic_name = codes "quic"

abbrev pub net_name : Text
net_name = codes "net"

-- QUICConfig: whether it has a TLS configuration; the timeout is a time.Duration.
pub record QuicConfig : Type 0 where
  pub has_tls : Bool
  pub insecure_skip_verify : Bool
  pub dial_timeout : ℤ

-- The Transport of New.
pub data Transport : Type 0 where
  gnet net : Transport
  quic : QuicConfig → Transport

abbrev pub default_timeout : ℤ
default_timeout = pos (10 * second)

-- NewQUICTransport
abbrev pub new_quic_transport : Transport
new_quic_transport =
    quic (record { has_tls = false; insecure_skip_verify = true; dial_timeout = default_timeout })

abbrev no_config : QuicConfig
no_config = record { has_tls = false; insecure_skip_verify = false; dial_timeout = pos 0 }

abbrev with_timeout : QuicConfig → QuicConfig
with_timeout cfg =
    if eqb_ℤ cfg.dial_timeout (pos 0) then record cfg { dial_timeout = default_timeout } else cfg

-- NewQUICTransportWithConfig; `none` is a nil configuration.
unfoldable pub new_quic_transport_with_config : Option QuicConfig → Transport
new_quic_transport_with_config none = quic (with_timeout no_config)
new_quic_transport_with_config (some cfg) = quic (with_timeout cfg)

-- New
unfoldable pub new_transport : Text → Transport
new_transport typ =
    if text_eq typ gnet_name
    then gnet
    else (if text_eq typ quic_name then new_quic_transport else net)

-- NewWithQUICConfig
unfoldable pub new_with_quic_config : Text → Option QuicConfig → Transport
unfolding new_quic_transport_with_config
new_with_quic_config typ cfg =
    if text_eq typ gnet_name
    then gnet
    else (if text_eq typ quic_name then new_quic_transport_with_config cfg else net)

-- The methods Type.
unfoldable pub transport_type : Transport → Text
transport_type gnet = gnet_name
transport_type net = net_name
transport_type (quic cfg) = quic_name

-- The TLS configuration of Dial: given, with or without verification of the server's certificate.
pub record DialTls : Type 0 where
  pub given : Bool
  pub skips : Bool

-- QUICTransport.Dial, up to the call of the library. `given_skips` is what a given configuration says.
unfoldable pub dial_tls : QuicConfig → Bool → DialTls
dial_tls cfg given_skips =
    if cfg.has_tls
    then record { given = true; skips = if cfg.insecure_skip_verify then true else given_skips }
    else record { given = false; skips = cfg.insecure_skip_verify }
