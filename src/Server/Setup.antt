-- ===== src/Server/Setup.antt =====
-- internal/server/server.go: the transport and the encryption that New chooses.
use qtrp.Common.{◌||◌, Bool, true, false, none, some, [], ◌&&◌, Result, ok, map_ok}
use qtrp.Config.Load.{ServerConfig}
use qtrp.Crypto.Cert.{CertConfig, CertError, CertManager, new_cert_manager}
use qtrp.Crypto.Layer.{Crypto, tls_name, none_name, new_crypto, new_tls_with_manager}
use qtrp.Go.Int64.{pos}
use qtrp.Go.Strings.{Text, codes, text_eq, is_empty}
use qtrp.Transport.{Transport, quic_name, new_transport, new_with_quic_config}

-- What New takes for every connection.
pub record Layers (C : Type 0) : Type 0 where
  pub transport : Transport
  pub crypto : Crypto C

abbrev pub cert_config : Text → Text → CertConfig
cert_config cert key = record {
  cert_file = cert;
  key_file = key;
  organization = codes "QTRP";
  common_name = codes "qtrp-server";
  valid_for = pos 0;
  hosts = [];
}

abbrev pub quic_server : {C : Type 0} → CertManager C → Layers C
quic_server cm = record {
  transport =
      new_with_quic_config quic_name
        (some (record { has_tls = true; insecure_skip_verify = false; dial_timeout = pos 0 }));
  crypto = new_crypto none_name none;
}

abbrev pub managed_server : {C : Type 0} → ServerConfig → CertManager C → Layers C
managed_server cfg cm = record {
  transport = new_transport cfg.transport;
  crypto =
      new_tls_with_manager
        (record {
          cert_file = cfg.tls_cert_file;
          key_file = cfg.tls_key_file;
          ca_cert = [];
          skip_verify = false;
          psk = [];
        })
        cm;
}

abbrev pub plain_server : {C : Type 0} → ServerConfig → Layers C
plain_server cfg = record {
  transport = new_transport cfg.transport;
  crypto = new_crypto cfg.crypto (
      some (record {
        cert_file = cfg.tls_cert_file;
        key_file = cfg.tls_key_file;
        ca_cert = [];
        skip_verify = false;
        psk = cfg.psk;
      }));
}

-- TLS without both of its files.
abbrev pub needs_manager : ServerConfig → Bool
needs_manager cfg =
    text_eq cfg.crypto tls_name && (is_empty cfg.tls_cert_file || is_empty cfg.tls_key_file)

-- New, by what the two files give and what generateSelfSignedCert makes for a configuration. An error
-- ends the program.
module _ {C E : Type 0} (load_pair : CertConfig → Result E C)
    (generate : CertConfig → Result (CertError E) C) where
  abbrev manager : CertConfig → Result (CertError E) (CertManager C)
  manager cfg = new_cert_manager cfg (load_pair cfg) (generate cfg)

  -- By whether the transport is QUIC, and whether a manager is needed.
  unfoldable pub server_branch : Bool → Bool → ServerConfig → Result (CertError E) (Layers C)
  server_branch true managed cfg =
      map_ok quic_server (manager (cert_config cfg.quic_cert_file cfg.quic_key_file))
  server_branch false true cfg =
      map_ok (managed_server cfg) (manager (cert_config cfg.tls_cert_file cfg.tls_key_file))
  server_branch false false cfg = ok (plain_server cfg)

  unfoldable pub server_layers : ServerConfig → Result (CertError E) (Layers C)
  unfolding server_branch
  server_layers cfg = server_branch (text_eq cfg.transport quic_name) (needs_manager cfg) cfg
