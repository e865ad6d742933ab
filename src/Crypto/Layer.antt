-- ===== src/Crypto/Layer.antt =====
-- pkg/crypto/crypto.go, pkg/crypto/tls_crypto.go and the constructor of pkg/crypto/chacha_crypto.go:
-- which layer a connection gets, and what wrapping it does. The libraries' answers are arguments.
use qtrp.Common.{
  Bool, true, false, Option, none, some, [], ◌∷◌, Result, ok, err, map_ok, if◌then◌else◌,
}
use qtrp.Crypto.Cert.{CertManager, TlsConfig, get_server_tls_config}
use qtrp.Go.Io.{Bytes}
use qtrp.Go.Strings.{Text, codes, text_eq, is_empty}

pub record CryptoConfig : Type 0 where
  pub cert_file : Text
  pub key_file : Text
  pub ca_cert : Text
  pub skip_verify : Bool
  pub psk : Text

abbrev pub chacha20_name : Text
chacha20_name = codes "chacha20"

abbrev pub none_name : Text
none_name = codes "none"

abbrev pub tls_name : Text
tls_name = codes "tls"

-- A layer of encryption: with its configuration, where it has one, and for TLS perhaps a certificate
-- manager.
pub data Crypto (C : Type 0) : Type 0 where
  chacha20 : Option CryptoConfig → Crypto C
  no_crypto : Crypto C
  tls : Option CryptoConfig → Option (CertManager C) → Crypto C

-- New; `none` is a nil configuration.
unfoldable pub new_crypto : {C : Type 0} → Text → Option CryptoConfig → Crypto C
new_crypto typ cfg =
    if text_eq typ chacha20_name
    then chacha20 cfg
    else (if text_eq typ none_name then no_crypto else tls cfg none)

-- NewTLSCryptoWithCertManager
unfoldable pub new_tls_with_manager : {C : Type 0} → CryptoConfig → CertManager C → Crypto C
new_tls_with_manager cfg cm = tls (some cfg) (some cm)

-- The methods Type.
unfoldable pub crypto_type : {C : Type 0} → Crypto C → Text
crypto_type (chacha20 cfg) = chacha20_name
crypto_type no_crypto = none_name
crypto_type (tls cfg manager) = tls_name

-- The TLS configuration of a server: that of the manager, or the certificate of the two files, as
-- LoadX509KeyPair answers.
unfoldable pub server_tls :
    {C E : Type 0} → Option (CertManager C) → Result E C → Result E (TlsConfig C)
unfolding get_server_tls_config
server_tls (some cm) loaded = ok (get_server_tls_config cm)
server_tls none loaded =
    map_ok
      (λ c. record {
        certificates = c ∷ [];
        min_version = 12;
        skip_verify = false;
        has_roots = false;
        next_protos = [];
      })
      loaded

-- The TLS configuration of a client, by the answer of ReadFile for the CA's file.
unfoldable pub client_tls :
    {C E : Type 0} → CryptoConfig → Result E (Unit {0}) → Result E (TlsConfig C)
client_tls cfg read =
    let plain : TlsConfig _ = record {
      certificates = [];
      min_version = 12;
      skip_verify = cfg.skip_verify;
      has_roots = false;
      next_protos = [];
    } in
    if is_empty cfg.ca_cert then ok plain else map_ok (λ u. record plain { has_roots = true }) read

-- What a wrapped connection is: the connection itself, frames under a key, or TLS with a configuration.
pub data Wrapped (C : Type 0) : Type 0 where
  plain : Wrapped C
  framed : Bytes → Wrapped C
  over_tls : TlsConfig C → Wrapped C

-- Whether the connection below was closed, with the error.
pub record Failure (E : Type 0) : Type 0 where
  pub error : E
  pub closed : Bool

abbrev after_handshake :
    {C E : Type 0} → TlsConfig C → Result E (Unit {0}) → Result (Failure E) (Wrapped C)
after_handshake cfg (ok u) = ok (over_tls cfg)
after_handshake cfg (err e) = err (record { error = e; closed = true })

-- Behind the choice of the configuration: the handshake, which closes the connection if it fails.
unfoldable pub handshake :
    {C E : Type 0}
    → Result E (TlsConfig C)
    → (TlsConfig C → Result E (Unit {0}))
    → Result (Failure E) (Wrapped C)
handshake (err e) shake = err (record { error = e; closed = false })
handshake (ok cfg) shake = after_handshake cfg (shake cfg)

-- The libraries and files behind WrapConn.
pub record Libraries (C E : Type 0) : Type 0 where
  pub sha256 : Text → Bytes
  pub new_aead : Bytes → Result E (Unit {0})
  pub load_pair : CryptoConfig → Result E C
  pub read_ca : CryptoConfig → Result E (Unit {0})
  pub shake : TlsConfig C → Result E (Unit {0})

-- The key of ChaCha20Crypto.WrapConn, from the pre-shared key.
unfoldable pub derive_key : {C E : Type 0} → Libraries C E → CryptoConfig → Bytes
derive_key lib cfg = lib.sha256 cfg.psk

abbrev wrap_framed : {C E : Type 0} → Bytes → Result E (Unit {0}) → Result (Failure E) (Wrapped C)
wrap_framed key (ok u) = ok (framed key)
wrap_framed key (err e) = err (record { error = e; closed = false })

-- WrapConn of the three layers, with whether it is the server's. `none`: a nil configuration is read,
-- which panics.
unfoldable pub wrap_conn :
    {C E : Type 0} → Libraries C E → Crypto C → Bool → Option (Result (Failure E) (Wrapped C))
unfolding derive_key server_tls client_tls handshake
wrap_conn lib no_crypto is_server = some (ok plain)
wrap_conn lib (chacha20 none) is_server = none
wrap_conn lib (chacha20 (some cfg)) is_server =
    let key = derive_key lib cfg in some (wrap_framed key (lib.new_aead key))
wrap_conn lib (tls cfg (some cm)) true = some (handshake (ok (get_server_tls_config cm)) lib.shake)
wrap_conn lib (tls (some cfg) none) true =
    some (handshake (server_tls none (lib.load_pair cfg)) lib.shake)
wrap_conn lib (tls (some cfg) manager) false =
    some (handshake (client_tls cfg (lib.read_ca cfg)) lib.shake)
wrap_conn lib (tls none manager) is_server = none

-- WrapListener: that of TLS has a server's configuration, the others give the listener as it is. `none`:
-- a nil configuration is read, which panics.
unfoldable pub wrap_listener :
    {C E : Type 0} → Libraries C E → Crypto C → Option (Result E (Wrapped C))
unfolding server_tls
wrap_listener lib no_crypto = some (ok plain)
wrap_listener lib (chacha20 cfg) = some (ok plain)
wrap_listener lib (tls cfg (some cm)) = some (ok (over_tls (get_server_tls_config cm)))
wrap_listener lib (tls (some cfg) none) =
    some (map_ok over_tls (server_tls none (lib.load_pair cfg)))
wrap_listener lib (tls none none) = none
