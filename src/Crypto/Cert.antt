-- ===== src/Crypto/Cert.antt =====
-- pkg/crypto/cert.go: the certificate manager. What the libraries for keys, certificates and files
-- answer is an argument; a certificate is a parameter `C`, an error one of `E`.
use qtrp.Common.{
  ℕ, ◌*◌, Bool, true, false, not, ◌&&◌, List, [], ◌∷◌, ◌++◌, Result, ok, err, ◌>>◌, wrap_error,
  if◌then◌else◌,
}
use qtrp.Auth.{second}
use qtrp.Go.Int64.{ℤ, pos, eqb_ℤ, add64}
use qtrp.Go.Strings.{Text, codes, is_empty}

pub record CertConfig : Type 0 where
  pub cert_file : Text
  pub key_file : Text
  pub organization : Text
  pub common_name : Text
  pub valid_for : ℤ
  pub hosts : List Text

-- The part of the x509 template that depends on the configuration and the clock (nanoseconds).
pub record Template : Type 0 where
  pub organization : Text
  pub common_name : Text
  pub not_before : ℤ
  pub not_after : ℤ
  pub ip_addresses : List Text
  pub dns_names : List Text

abbrev or_text : Text → Text → Text
or_text s d = if is_empty s then d else s

abbrev pub one_year : ℤ
one_year = pos (365 * 24 * 3600 * second)

abbrev or_hosts : List Text → List Text
or_hosts [] = codes "localhost" ∷ codes "127.0.0.1" ∷ codes "::1" ∷ []
or_hosts (h ∷ hosts) = h ∷ hosts

-- The loop over the hosts; `is_ip` is whether net.ParseIP knows a text.
unfoldable pub add_hosts : (Text → Bool) → List Text → Template → Template
add_hosts is_ip [] t = t
add_hosts is_ip (h ∷ hosts) t = add_hosts is_ip hosts (
    if is_ip h
    then record t { ip_addresses = t.ip_addresses ++ (h ∷ []) }
    else record t { dns_names = t.dns_names ++ (h ∷ []) })

unfoldable pub template_of : (Text → Bool) → CertConfig → ℤ → Template
unfolding add_hosts
template_of is_ip cfg now = add_hosts is_ip (or_hosts cfg.hosts) (record {
  organization = or_text cfg.organization (codes "QTRP");
  common_name = or_text cfg.common_name (codes "qtrp-server");
  not_before = now;
  not_after = add64 now (if eqb_ℤ cfg.valid_for (pos 0) then one_year else cfg.valid_for);
  ip_addresses = [];
  dns_names = [];
})

-- The errors of generateSelfSignedCert and saveCert, by the step that fails.
pub data CertError (E : Type 0) : Type 0 where
  generate_key generate_serial create_certificate marshal_key key_pair write_cert write_key :
      E → CertError E
  no_certificate unsupported_key : CertError E

-- tls.Config, as far as the program sets it; the versions are 12 and 13.
pub record TlsConfig (C : Type 0) : Type 0 where
  pub certificates : List C
  pub min_version : ℕ
  pub skip_verify : Bool
  pub has_roots : Bool
  pub next_protos : List Text

abbrev pub qtrp_proto : List Text
qtrp_proto = codes "qtrp" ∷ []

-- The answers of the libraries, in the order of the calls.
pub record Signing (C E : Type 0) : Type 0 where
  pub new_key : Result E (Unit {0})
  pub new_serial : Result E (Unit {0})
  pub create : Template → Result E (Unit {0})
  pub key_bytes : Result E (Unit {0})
  pub pair : Template → Result E C

unfoldable pub generate_self_signed_cert :
    {C E : Type 0} → Signing C E → (Text → Bool) → CertConfig → ℤ → Result (CertError E) C
generate_self_signed_cert lib is_ip cfg now = do
  wrap_error generate_key lib.new_key
  wrap_error generate_serial lib.new_serial
  wrap_error create_certificate (lib.create (template_of is_ip cfg now))
  wrap_error marshal_key lib.key_bytes
  wrap_error key_pair (lib.pair (template_of is_ip cfg now))

-- saveCert: whether there is a certificate, the answers of the two writes and of the packing, and
-- whether the key is an ECDSA key.
unfoldable pub save_cert :
    {E : Type 0}
    → Bool
    → Result E (Unit {0})
    → Bool
    → Result E (Unit {0})
    → Result E (Unit {0})
    → Result (CertError E) (Unit {0})
save_cert false wrote_cert ecdsa packed wrote_key = err no_certificate
save_cert true wrote_cert false packed wrote_key = do
  wrap_error write_cert wrote_cert
  err unsupported_key
save_cert true wrote_cert true packed wrote_key = do
  wrap_error write_cert wrote_cert
  wrap_error marshal_key packed
  wrap_error write_key wrote_key

-- A certificate manager, and whether it tried to save a new certificate.
pub record CertManager (C : Type 0) : Type 0 where
  pub cert : C
  pub saved : Bool

abbrev named : CertConfig → Bool
named cfg = not (is_empty cfg.cert_file) && not (is_empty cfg.key_file)

-- Behind a missing or failing load.
unfoldable pub with_new_cert :
    {C E : Type 0} → CertConfig → Result (CertError E) C → Result (CertError E) (CertManager C)
with_new_cert cfg (err e) = err e
with_new_cert cfg (ok c) = ok (record { cert = c; saved = named cfg })

unfoldable pub load_or :
    {C E : Type 0}
    → CertConfig
    → Result E C
    → Result (CertError E) C
    → Result (CertError E) (CertManager C)
unfolding with_new_cert
load_or cfg (ok c) made = ok (record { cert = c; saved = false })
load_or cfg (err e) made = with_new_cert cfg made

-- NewCertManager: `loaded` is what the two files give, `made` what generateSelfSignedCert does. That a
-- new certificate cannot be saved is only printed.
unfoldable pub new_cert_manager :
    {C E : Type 0}
    → CertConfig
    → Result E C
    → Result (CertError E) C
    → Result (CertError E) (CertManager C)
unfolding load_or with_new_cert
new_cert_manager cfg loaded made =
    if named cfg then load_or cfg loaded made else with_new_cert cfg made

-- GetServerTLSConfig, which buildTLSConfig has set.
unfoldable pub get_server_tls_config : {C : Type 0} → CertManager C → TlsConfig C
get_server_tls_config cm = record {
  certificates = cm.cert ∷ [];
  min_version = 13;
  skip_verify = false;
  has_roots = false;
  next_protos = qtrp_proto;
}

unfoldable pub get_client_tls_config : {C : Type 0} → Bool → TlsConfig C
get_client_tls_config skip = record {
  certificates = [];
  min_version = 13;
  skip_verify = skip;
  has_roots = false;
  next_protos = qtrp_proto;
}
