-- ===== src/Client/Layers.antt =====
-- internal/client/client.go: the transport and the encryption that New chooses.
pub mod Agreed
use qtrp.Common.{Bool, true, false, Option, none, some, [], if◌then◌else◌}
use qtrp.Config.Load.{ClientConfig}
use qtrp.Crypto.Layer.{Crypto, CryptoConfig, none_name, new_crypto}
use qtrp.Go.Int64.{pos}
use qtrp.Go.Strings.{Text, text_eq}
use qtrp.Server.Setup.{Layers}
use qtrp.Transport.{Transport, quic_name, new_transport, new_with_quic_config}

abbrev pub quic_client : {C : Type 0} → ClientConfig → Layers C
quic_client cfg = record {
  transport = new_with_quic_config quic_name (
      some (record {
        has_tls = false;
        insecure_skip_verify = cfg.quic_skip_verify;
        dial_timeout = pos 0;
      }));
  crypto = new_crypto none_name none;
}

abbrev pub client_crypto : ClientConfig → Option CryptoConfig
client_crypto cfg = some (record {
  cert_file = [];
  key_file = [];
  ca_cert = cfg.tls_ca_cert;
  skip_verify = cfg.tls_skip_verify;
  psk = cfg.psk;
})

abbrev pub plain_client : {C : Type 0} → ClientConfig → Layers C
plain_client cfg = record {
  transport = new_transport cfg.transport;
  crypto = new_crypto cfg.crypto (
      some (record {
        cert_file = [];
        key_file = [];
        ca_cert = cfg.tls_ca_cert;
        skip_verify = cfg.tls_skip_verify;
        psk = cfg.psk;
      }));
}

-- By whether the transport is QUIC.
unfoldable pub client_branch : {C : Type 0} → Bool → ClientConfig → Layers C
client_branch true cfg = quic_client cfg
client_branch false cfg = plain_client cfg

-- The choice of New.
unfoldable pub client_layers : {C : Type 0} → ClientConfig → Layers C
unfolding client_branch
client_layers cfg = client_branch (text_eq cfg.transport quic_name) cfg
